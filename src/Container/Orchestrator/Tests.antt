-- ===== src/Container/Orchestrator/Tests.antt =====
-- A small world for the orchestrator, and the theorems on it.
use claude_multi_agent.Base.{
  ℕ, zero, suc, String, true, Option, none, some, [], ◌∷◌, returned, raised, ◌≡◌, refl, arith, All,
}
use claude_multi_agent.Base.Tables.{find, put, remove}
use claude_multi_agent.Base.Steps.{and_then}
use claude_multi_agent.Container.{ContainerInfo, idle, to_redis_hash, from_redis_hash, touch}
use claude_multi_agent.Container.Orchestrator.{
  Services, State, crashed, relayed, execution_failed, container_recovered, get_or_create, destroy,
  get_container, update_mcp_header_rules,
}
use claude_multi_agent.Container.Orchestrator.Execute.{execute, replace}
use claude_multi_agent.Container.Orchestrator.Stuck.{attempts, IsDown, execute-Stuck}
use claude_multi_agent.Container.Orchestrator.Mapping.{Filed, Mapped, get_or_create-Mapped}

abbrev info : ContainerInfo
info = record {
  id = "ws-1";
  conversation_id = "c1";
  agent_socket = "a.sock";
  proxy_socket = "p.sock";
  created_at = 3;
  last_active_at = 5;
  status = idle;
}

abbrev strokes : ℕ → String
strokes zero = String.[]
strokes (suc n) = String.◌∷◌ "i" (strokes n)

abbrev next : Option ℕ → Option ℕ
next none = none
next (some n) = some (suc n)

abbrev count_strokes : String → Option ℕ
count_strokes String.[] = some 0
count_strokes (String.◌∷◌ c s) = next (count_strokes s)

count-strokes : (t : ℕ) → count_strokes (strokes t) ≡ some t
count-strokes zero = refl
count-strokes (suc t) = rw (count-strokes t) refl

-- The world is the time. The agent breaks off after one chunk.
abbrev up : Services ℕ
up = record {
  isoformat = strokes;
  fromisoformat = count_strokes;
  now = λ n. (n, suc n);
  is_healthy = λ id n. (true, n);
  acquire = λ n. (returned (record info { id = "ws-2" }), n);
  start_proxy = λ i n. (returned tt, n);
  stop_proxy = λ id n. (returned tt, n);
  destroy = λ id n. n;
  agent = λ socket n. (((1 ∷ []) ∷ [], crashed), n);
}

abbrev down : Services ℕ
down = record up { acquire = λ n. (raised "no container", n) }

abbrev state : State ℕ
state = record {
  containers = ("c1", to_redis_hash strokes info) ∷ [];
  reverse = ("ws-1", "c1") ∷ [];
  containers_ttl = ("c1", 3600) ∷ [];
  reverse_ttl = ("ws-1", 3600) ∷ [];
  proxies = ("ws-1", []) ∷ [];
  world = 7;
}

is_down : IsDown down
is_down = record { no_container = λ w. ("no container", refl); stops = λ id w. refl }

execute-Stuck_example :
    (find "c1" (execute down "c1" (some info) state).1.containers_ttl ≡ some 3600)
    × All
        (λ o. o ≡ raised "KeyError or ValueError")
        (attempts "c1" (up ∷ down ∷ []) (execute down "c1" (some info) state).1)
execute-Stuck_example = execute-Stuck down is_down "c1" info (up ∷ down ∷ []) state refl (λ w. refl)

filed : Filed up count-strokes "c1" (find "c1" state.containers)
unfolding find from_redis_hash to_redis_hash
filed = λ e h. ground (arith, h)

get_or_create-Mapped_example : Mapped up count-strokes "c1" (get_or_create up "c1" state)
get_or_create-Mapped_example = get_or_create-Mapped up count-strokes "c1" state filed

-- With a container at hand the run goes over to it.
recovered :
    (execute up "c1" (some info) state).0
    ≡ returned (relayed (1 ∷ []) ∷ execution_failed ∷ container_recovered ∷ [])
unfolding execute replace and_then get_or_create get_container find put remove to_redis_hash
    from_redis_hash touch
recovered = refl

-- A conversation that is destroyed has no container.
gone :
    (get_container up "c1" (destroy up "c1" (update_mcp_header_rules up "ws-1" [] state)).1).0
    ≡ returned none
unfolding destroy and_then get_container find put remove to_redis_hash from_redis_hash
    update_mcp_header_rules
gone = refl
