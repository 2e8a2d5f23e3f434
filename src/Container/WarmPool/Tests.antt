-- ===== src/Container/WarmPool/Tests.antt =====
-- A pool of three, and the theorems on it.
use claude_multi_agent.Base.{
  List, ℕ, suc, String, true, none, some, [], ◌∷◌, returned, ◌≡◌, refl, ltb,
}
use claude_multi_agent.Base.Tables.{remove, find, put}
use claude_multi_agent.Base.Steps.{and_then}
use claude_multi_agent.Container.{ContainerInfo, warm, to_redis_hash, from_redis_hash}
use claude_multi_agent.Container.WarmPool.{
  gather, Lifecycle, Pool, replenishing, cleanup, acquire, preheat, drain, replenish, reload_config,
  update_config, pool_info,
}
use claude_multi_agent.Container.WarmPool.Accounts.{Accounted, acquire-Accounted}
use claude_multi_agent.Container.WarmPool.Sizes.{Filled, preheat-Filled}

abbrev info : String → ContainerInfo
info id = record {
  id = id;
  conversation_id = "";
  agent_socket = "a.sock";
  proxy_socket = "p.sock";
  created_at = 0;
  last_active_at = 0;
  status = warm;
}

-- The world counts the containers that were asked for their health; the first is not healthy.
abbrev lifecycle : Lifecycle ℕ
lifecycle = record {
  isoformat = λ n. "0";
  fromisoformat = λ t. some 0;
  is_healthy = λ id n. (ltb 0 n, suc n);
  create_container = λ n. (returned (info "ws-9"), n);
  wait_for_agent_ready = λ i n. (true, n);
  destroy = λ id n. (returned tt, n);
  sleep = λ t n. n;
  read_int = λ t. some 5;
}

abbrev pool : Pool ℕ
pool = record {
  waiting = "ws-1" ∷ "ws-2" ∷ "ws-3" ∷ [];
  infos =
      ("ws-1", to_redis_hash (λ n. "0") (info "ws-1"))
      ∷ ("ws-2", to_redis_hash (λ n. "0") (info "ws-2"))
      ∷ [];
  config = ("min_size", "5") ∷ [];
  min_size = 4;
  max_size = 4;
  tasks = [];
  world = 0;
}

acquire-Accounted_example : Accounted lifecycle pool.waiting pool.infos [] (acquire lifecycle pool)
acquire-Accounted_example = acquire-Accounted lifecycle pool

-- The only task takes its four steps.
preheat-Filled_example :
    Filled lifecycle (0 ∷ 0 ∷ 0 ∷ 0 ∷ []) pool (preheat lifecycle (0 ∷ 0 ∷ 0 ∷ 0 ∷ []) pool)
preheat-Filled_example = preheat-Filled lifecycle (0 ∷ 0 ∷ 0 ∷ 0 ∷ []) pool

second_taken : (acquire lifecycle pool).1.tasks ≡ cleanup "ws-1" ∷ replenishing ∷ []
unfolding acquire reload_config find remove pool_info and_then to_redis_hash from_redis_hash
second_taken = refl

-- Replenishing after a new minimum has been set, and draining: each of the five tasks sees that there is
-- room for four before any has added its container, and the pool gets larger than its maximum.
abbrev rounds : List ℕ
rounds = 0 ∷ 1 ∷ 2 ∷ 3 ∷ 4 ∷ 0 ∷ 1 ∷ 2 ∷ 3 ∷ 4 ∷ 0 ∷ 1 ∷ 2 ∷ 3 ∷ 4 ∷ 0 ∷ 1 ∷ 2 ∷ 3 ∷ 4 ∷ []

overfilled :
    (replenish lifecycle rounds
      (update_config lifecycle (some "5") none (drain lifecycle pool))).waiting
    ≡ "ws-9" ∷ "ws-9" ∷ "ws-9" ∷ "ws-9" ∷ "ws-9" ∷ []
unfolding replenish gather update_config drain reload_config find put and_then
overfilled = refl
