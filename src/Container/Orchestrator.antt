-- ===== src/Container/Orchestrator.antt =====
-- `ContainerOrchestrator` of app/services/container/orchestrator.py, over the services that it calls.
-- Redis answers every command. How long a key has is kept, and no key expires during a call; logs, audit entries and metrics are left out.
pub mod Execute
pub mod Mapping
pub mod Stuck
mod Tests
use text.Mathlib.Text.{◌==◌}
use claude_multi_agent.Base.{
  ℕ, String, Bool, true, false, Option, none, some, List, [], ◌∷◌, ◌++◌, Outcome, returned, raised,
  if◌then◌else◌,
}
use claude_multi_agent.Base.Tables.{Table, find, put, remove}
use claude_multi_agent.Base.Steps.{Action, pure, fail, and_then, ◌>>=◌, modify, or_raise, attempt}
use claude_multi_agent.Execute.Mcp.{Rules}
use claude_multi_agent.Container.{
  ContainerStatus, ready, running, idle, status_value, ContainerInfo, Hash, to_redis_hash,
  from_redis_hash, touch,
}

-- How the response of a container ends, or does not.
pub data Ending : Type 0 where
  completed : Ending
  timed_out : Ending
  connection_error : Ending
  crashed : Ending

-- What `execute` yields: bytes of the agent, and its own events.
pub data Chunk : Type 0 where
  relayed : List ℕ → Chunk
  execution_timeout : Chunk
  execution_failed : Chunk
  container_recovered : Chunk

-- The lifecycle manager, the warm pool and the proxies. `destroy` is what is left of
-- `destroy_container` when its exceptions are caught.
pub record Services (W : Type 0) : Type 0 where
  pub isoformat : ℕ → String
  pub fromisoformat : String → Option ℕ
  pub now : W → ℕ × W
  pub is_healthy : String → W → Bool × W
  pub acquire : W → Outcome ContainerInfo String × W
  pub start_proxy : ContainerInfo → W → Outcome (Unit {0}) String × W
  pub stop_proxy : String → W → Outcome (Unit {0}) String × W
  pub destroy : String → W → W
  pub agent : String → W → (List (List ℕ) × Ending) × W

-- The hashes of the containers under their conversations, the conversations under the identifiers of
-- their containers, the seconds that EXPIRE has last given to either, the running proxies with their
-- rules, and the world.
pub record State (W : Type 0) : Type 0 where
  pub containers : Table Hash
  pub reverse : Table String
  pub containers_ttl : Table ℕ
  pub reverse_ttl : Table ℕ
  pub proxies : Table Rules
  pub world : W

-- `CONTAINER_TTL_SECONDS`
abbrev pub container_ttl_seconds : ℕ
container_ttl_seconds = 3600

-- EXPIRE on a key that is not there does nothing.
abbrev pub expire_if : {V : Type 0} → Option V → String → Table ℕ → Table ℕ
expire_if none k t = t
expire_if (some v) k t = put k container_ttl_seconds t

module _ {W : Type 0} (services : Services W) where
  open services use {isoformat, fromisoformat}

  abbrev pub ask : {A : Type 0} → (W → A × W) → Action (State W) A
  ask f s = let (a, w) = f s.world in (returned a, record s { world = w })

  abbrev pub call : {A : Type 0} → (W → Outcome A String × W) → Action (State W) A
  call f s = let (o, w) = f s.world in (o, record s { world = w })

  -- What `hgetall` gives; an empty hash is no container.
  parse : Option Hash → Action (State W) (Option ContainerInfo)
  parse none = pure none
  parse (some []) = pure none
  parse (some (f ∷ fs)) = elim (from_redis_hash fromisoformat (f ∷ fs)) [
    | none ↦ fail "KeyError or ValueError"
    | some i ↦ pure (some i)
  ]

  -- `_get_container_from_redis`
  pub get_container : String → Action (State W) (Option ContainerInfo)
  unfolding parse find
  get_container conversation_id s = parse (find conversation_id s.containers) s

  -- `_save_to_redis`: `hset` with every field, over what is there.
  abbrev pub hset : Hash → Hash → Hash
  hset [] h = h
  hset ((k, v) ∷ fs) h = hset fs (put k v h)

  abbrev pub hash_at : Option Hash → Hash
  hash_at none = []
  hash_at (some h) = h

  abbrev pub hset_at : String → Hash → Table Hash → Table Hash
  hset_at k fs t = put k (hset fs (hash_at (find k t))) t

  abbrev pub save : ContainerInfo → State W → State W
  save i s = record s {
    containers = hset_at i.conversation_id (to_redis_hash isoformat i) s.containers;
    reverse = put i.id i.conversation_id s.reverse;
    containers_ttl = put i.conversation_id container_ttl_seconds s.containers_ttl;
    reverse_ttl = put i.id container_ttl_seconds s.reverse_ttl;
  }

  -- `_update_redis`
  abbrev pub update_redis : ContainerInfo → State W → State W
  update_redis i s = record s {
    containers =
        hset_at i.conversation_id
          (("last_active_at", isoformat i.last_active_at) ∷ ("status", status_value i.status) ∷ [])
          s.containers;
    containers_ttl = put i.conversation_id container_ttl_seconds s.containers_ttl;
    reverse_ttl = expire_if (find i.id s.reverse) i.id s.reverse_ttl;
  }

  -- `_start_proxy`, `_stop_proxy` and `_restart_proxy`
  start_proxy : ContainerInfo → Action (State W) (Unit {0})
  start_proxy i = do
    _ ← call (services.start_proxy i)
    modify (λ s. record s { proxies = put i.id [] s.proxies })

  stop_if : String → Option Rules → Action (State W) (Unit {0})
  stop_if id none = pure tt
  stop_if id (some rules) = call (services.stop_proxy id)

  stop_proxy : String → Action (State W) (Unit {0})
  unfolding stop_if
  stop_proxy id s =
      let proxy = find id s.proxies in stop_if id proxy (record s { proxies = remove id s.proxies })

  pub restart_proxy : ContainerInfo → Action (State W) (Unit {0})
  unfolding start_proxy stop_proxy
  restart_proxy i = do _ ← stop_proxy i.id; start_proxy i

  -- `update_mcp_header_rules`
  unfoldable pub update_mcp_header_rules : String → Rules → State W → State W
  update_mcp_header_rules id rules s = elim (find id s.proxies) [
    | none ↦ s
    | some old ↦ record s { proxies = put id rules s.proxies }
  ]

  -- `_cleanup_container`
  abbrev pub forget : ContainerInfo → State W → State W
  forget i s = record s {
    containers = remove i.conversation_id s.containers;
    reverse = remove i.id s.reverse;
    containers_ttl = remove i.conversation_id s.containers_ttl;
    reverse_ttl = remove i.id s.reverse_ttl;
    world = services.destroy i.id s.world;
  }

  pub cleanup_container : ContainerInfo → Action (State W) (Unit {0})
  unfolding stop_proxy
  cleanup_container i = do _ ← stop_proxy i.id; modify (forget i)

  -- The container from the warm pool.
  fresh : String → Action (State W) ContainerInfo
  unfolding start_proxy
  fresh conversation_id = do
    acquired ← call services.acquire
    now ← ask services.now
    let i = touch now (record acquired { conversation_id = conversation_id; status = ready })
    _ ← start_proxy i
    _ ← modify (save i)
    pure i

  reuse : ContainerInfo → Action (State W) ContainerInfo
  reuse existing = do
    now ← ask services.now
    let i = touch now existing
    _ ← modify (update_redis i)
    pure i

  reuse_or_replace : String → ContainerInfo → Bool → Action (State W) ContainerInfo
  unfolding reuse fresh cleanup_container
  reuse_or_replace conversation_id existing true = reuse existing
  reuse_or_replace conversation_id existing false = do
    _ ← cleanup_container existing
    fresh conversation_id

  by_existing : String → Option ContainerInfo → Action (State W) ContainerInfo
  unfolding reuse_or_replace
  by_existing conversation_id none = fresh conversation_id
  by_existing conversation_id (some existing) = do
    healthy ← ask (services.is_healthy existing.id)
    reuse_or_replace conversation_id existing healthy

  pub get_or_create : String → Action (State W) ContainerInfo
  unfolding get_container by_existing
  get_or_create conversation_id = do
    existing ← get_container conversation_id
    by_existing conversation_id existing

  -- `destroy`
  destroy_found : Option ContainerInfo → Action (State W) (Unit {0})
  unfolding cleanup_container
  destroy_found none = pure tt
  destroy_found (some i) = cleanup_container i

  pub destroy : String → Action (State W) (Unit {0})
  unfolding destroy_found get_container
  destroy conversation_id = do i ← get_container conversation_id; destroy_found i
