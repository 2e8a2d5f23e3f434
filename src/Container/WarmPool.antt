-- ===== src/Container/WarmPool.antt =====
-- `WarmPoolManager` of app/services/container/warm_pool.py, over Redis and the lifecycle manager. A call
-- runs with no other in between; its background tasks are recorded in the order in which they are
-- scheduled. Logs, metrics and the time to live of a
-- description are left out.
pub mod Accounts
pub mod Sizes
mod Tests
use claude_multi_agent.Base.{
  ℕ, zero, suc, ◌+◌, ◌-◌, ◌*◌, ◌^◌, String, Bool, true, false, Option, none, some, List, [], ◌∷◌,
  ◌++◌, Outcome, returned, raised, length, ltb, leb, ◌==◌, if◌then◌else◌,
}
use claude_multi_agent.Base.Tables.{Table, find, put, remove}
use claude_multi_agent.Base.Steps.{Action, pure, fail, and_then, ◌>>=◌, modify, attempt}
use claude_multi_agent.Container.{ContainerInfo, Hash, to_redis_hash, from_redis_hash}

-- `destroy` tells whether it raises.
pub record Lifecycle (W : Type 0) : Type 0 where
  pub isoformat : ℕ → String
  pub fromisoformat : String → Option ℕ
  pub is_healthy : String → W → Bool × W
  pub create_container : W → Outcome ContainerInfo String × W
  pub wait_for_agent_ready : ContainerInfo → W → Bool × W
  pub destroy : String → W → Outcome (Unit {0}) String × W
  pub sleep : ℕ → W → W
  -- `int(text)`, with `none` for a ValueError
  pub read_int : String → Option ℕ

pub data Task : Type 0 where
  replenishing : Task
  cleanup : String → Task

pub record Pool (W : Type 0) : Type 0 where
  pub waiting : List String
  pub infos : Table Hash
  pub config : Table String
  pub min_size : ℕ
  pub max_size : ℕ
  pub tasks : List Task
  pub world : W

module _ {W : Type 0} (lifecycle : Lifecycle W) where
  open lifecycle use {
    isoformat, fromisoformat, is_healthy, create_container, wait_for_agent_ready, read_int,
  }

  abbrev ask : {A : Type 0} → (W → A × W) → Action (Pool W) A
  ask f s = let (a, w) = f s.world in (returned a, record s { world = w })

  abbrev call : {A : Type 0} → (W → Outcome A String × W) → Action (Pool W) A
  call f s = let (o, w) = f s.world in (o, record s { world = w })

  abbrev pub schedule : Task → Pool W → Pool W
  schedule t s = record s { tasks = s.tasks ++ (t ∷ []) }

  -- `_reload_config`: a text that is no number ends it, with what has been set before.
  abbrev pub number_or : Option String → ℕ → Option ℕ
  number_or none n = some n
  number_or (some text) n = read_int text

  with_max : Option ℕ → Pool W → Pool W
  with_max none s = s
  with_max (some n) s = record s { max_size = n }

  with_min : Option ℕ → Pool W → Pool W
  unfolding with_max find
  with_min none s = s
  with_min (some n) s =
      with_max (number_or (find "max_size" s.config) s.max_size) (record s { min_size = n })

  unfoldable pub reload_config : Pool W → Pool W
  unfolding with_min find
  reload_config s = with_min (number_or (find "min_size" s.config) s.min_size) s

  -- `update_config`, with the numbers as texts.
  abbrev set_some : String → Option String → Table String → Table String
  set_some k none t = t
  set_some k (some v) t = put k v t

  unfoldable pub update_config : Option String → Option String → Pool W → Pool W
  unfolding reload_config put
  update_config none none s = s
  update_config min max s =
      reload_config
        (record s { config = set_some "max_size" max (set_some "min_size" min s.config) })

  -- `_get_pool_container_info`
  unfoldable pub pool_info : Option Hash → Outcome (Option ContainerInfo) String
  pool_info none = returned none
  pool_info (some []) = returned none
  pool_info (some (f ∷ fs)) = elim (from_redis_hash fromisoformat (f ∷ fs)) [
    | none ↦ raised "KeyError or ValueError"
    | some i ↦ returned (some i)
  ]

  -- The container is taken, or its destruction is scheduled.
  abbrev pub taken : String → Pool W → Pool W
  taken id s = schedule replenishing (record s { infos = remove id s.infos })

  abbrev pub discarded : String → Pool W → Pool W
  discarded id s = schedule (cleanup id) (record s { infos = remove id s.infos })

  -- The pool is empty.
  create_one : Action (Pool W) ContainerInfo
  create_one = do
    _ ← modify (schedule replenishing)
    info ← call create_container
    _ ← ask (wait_for_agent_ready info)
    pure info

  -- The rounds of the loop: the identifiers that are popped are those that wait, in their order.
  try_next : String → Outcome (Option ContainerInfo) String → Action (Pool W) (Option ContainerInfo)
  try_next id (raised e) = fail e
  try_next id (returned none) = do _ ← modify (discarded id); pure none
  try_next id (returned (some info)) = do
    healthy ← ask (is_healthy id)
    if healthy
        then (do _ ← modify (taken id); pure (some info))
        else (do _ ← modify (discarded id); pure none)

  pop_loop : List String → Action (Pool W) ContainerInfo
  unfolding create_one try_next pool_info find
  pop_loop [] = create_one
  pop_loop (id ∷ ids) = do
    _ ← modify (λ s. record s { waiting = ids })
    info ← (λ s. try_next id (pool_info (find id s.infos)) s)
    elim info [ some i ↦ pure i | none ↦ pop_loop ids ]

  -- `acquire`
  pub acquire : Action (Pool W) ContainerInfo
  unfolding pop_loop reload_config
  acquire s = pop_loop s.waiting (reload_config s)

  -- `_create_and_add_with_retry` between its waits, with the attempts that follow and the number of the
  -- attempt: what a task does next.
  pub data Phase : Type 0 where
    checking : ℕ → ℕ → Phase
    creating : ℕ → ℕ → Phase
    awaiting : ℕ → ℕ → ContainerInfo → Phase
    adding : ℕ → ℕ → ContainerInfo → Phase
    discarding : ℕ → ℕ → ContainerInfo → Phase
    backing_off : ℕ → ℕ → Phase
    ended : Bool → Phase

  add : ContainerInfo → Pool W → Pool W
  unfolding put
  add i s = record s {
    infos = put i.id (to_redis_hash isoformat i) s.infos;
    waiting = s.waiting ++ (i.id ∷ []);
  }

  -- An exception in an attempt: a pause, but after the last one.
  abbrev pub failed_attempt : ℕ → ℕ → Phase
  failed_attempt zero number = ended false
  failed_attempt (suc left) number = backing_off (suc left) number

  abbrev pub next_attempt : ℕ → ℕ → Phase
  next_attempt zero number = ended false
  next_attempt (suc left) number = checking left (suc number)

  after_create : ℕ → ℕ → Outcome ContainerInfo String → Phase
  after_create left number (returned i) = awaiting left number i
  after_create left number (raised e) = failed_attempt left number

  after_destroy : ℕ → ℕ → Outcome (Unit {0}) String → Phase
  after_destroy left number (returned u) = next_attempt left number
  after_destroy left number (raised e) = failed_attempt left number

  pub step : Phase → Pool W → Phase × Pool W
  unfolding add after_create after_destroy
  step (checking left number) s =
      (if leb s.max_size (length s.waiting) then ended false else creating left number, s)
  step (creating left number) s =
      let (o, w) = create_container s.world in (after_create left number o, record s { world = w })
  step (awaiting left number i) s =
      let (is_ready, w) = wait_for_agent_ready i s.world in
      (if is_ready then adding left number i else discarding left number i, record s { world = w })
  step (adding left number i) s = (ended true, add i s)
  step (discarding left number i) s =
      let (o, w) = lifecycle.destroy i.id s.world in
      (after_destroy left number o, record s { world = w })
  step (backing_off left number) s =
      (next_attempt left number, record s { world = lifecycle.sleep (2 * 2 ^ number) s.world })
  step (ended b) s = (ended b, s)

  -- `asyncio.gather` of tasks: whichever is next takes one step, as a schedule of their positions says.
  step_at : ℕ → List Phase → Pool W → List Phase × Pool W
  unfolding step
  step_at n [] s = ([], s)
  step_at zero (p ∷ ps) s = let (p', s') = step p s in (p' ∷ ps, s')
  step_at (suc n) (p ∷ ps) s = let (ps', s') = step_at n ps s in (p ∷ ps', s')

  pub gather : List ℕ → List Phase → Pool W → List Phase × Pool W
  unfolding step_at
  gather [] ps s = (ps, s)
  gather (n ∷ schedule) ps s = let (ps', s') = step_at n ps s in gather schedule ps' s'

  -- `_REPLENISH_MAX_RETRIES` attempts for each task.
  pub tasks_of : ℕ → List Phase
  tasks_of zero = []
  tasks_of (suc n) = checking 2 0 ∷ tasks_of n

  -- `sum(1 for r in results if r is True)`
  pub created : List Phase → ℕ
  created [] = 0
  created (ended true ∷ ps) = suc (created ps)
  created (p ∷ ps) = created ps

  -- `replenish` and `preheat`, up to the point that a schedule reaches.
  pub replenish : List ℕ → Pool W → Pool W
  unfolding gather tasks_of reload_config
  replenish schedule s =
      let s' = reload_config s in
      (gather schedule (tasks_of (s'.min_size - length s'.waiting)) s').1

  pub preheat : List ℕ → Pool W → List Phase × Pool W
  unfolding gather tasks_of
  preheat schedule s = gather schedule (tasks_of (s.min_size - length s.waiting)) s

  -- `_cleanup_unhealthy`, and a round of `drain`; exceptions are caught.
  abbrev pub cleanup_unhealthy : String → Pool W → Pool W
  cleanup_unhealthy id s = record s { world = (lifecycle.destroy id s.world).1 }

  drain_loop : List String → Pool W → Pool W
  drain_loop [] s = s
  drain_loop (id ∷ ids) s =
      drain_loop ids (cleanup_unhealthy id (record s { waiting = ids; infos = remove id s.infos }))

  pub drain : Pool W → Pool W
  unfolding drain_loop
  drain s = drain_loop s.waiting s
