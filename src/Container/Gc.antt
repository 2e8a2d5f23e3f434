-- ===== src/Container/Gc.antt =====
-- The garbage collector of containers: `_should_destroy`, `_graceful_destroy` and `_collect` of
-- app/services/container/gc.py. Redis, Docker and the proxies are parameters on one state.
pub mod Spared
pub mod Ages
use claude_multi_agent.Base.{
  ℕ, ◌+◌, String, Bool, true, false, ◌||◌, Option, none, some, List, [], ◌∷◌, Outcome, returned,
  raised, ltb, if◌then◌else◌,
}
use claude_multi_agent.Container.{ContainerStatus, draining, ContainerInfo, Hash, from_redis_hash}

pub record GcSettings : Type 0 where
  pub container_inactive_ttl : ℕ
  pub container_absolute_ttl : ℕ
  pub container_grace_period : ℕ

abbrev orphan_min_age : ℕ
orphan_min_age = 300

abbrev pub is_draining : ContainerStatus → Bool
is_draining draining = true
is_draining _ = false

unfoldable pub should_destroy : GcSettings → ℕ → ContainerInfo → Bool
should_destroy s now i =
    ltb (i.last_active_at + s.container_inactive_ttl) now
    || ltb (i.created_at + s.container_absolute_ttl) now
    || is_draining i.status

-- What Docker tells of a container: its name without the slash, the conversation of its label, and
-- the text under "Created". An empty text is a missing one.
pub record Listed : Type 0 where
  pub name : String
  pub label : String
  pub created : String

-- What the collector uses: the answers of Redis, its commands, the callback that stops a proxy, with
-- `none` if there is none, and the destruction of a container, either of which may raise.
pub record Services (S : Type 0) : Type 0 where
  pub pool_info_exists : String → S → Bool
  pub mapped_conversation : String → S → Option String
  pub metadata : String → S → Hash
  pub set_draining : String → S → S
  pub delete_metadata : String → S → S
  pub delete_reverse : String → S → S
  pub proxy_stop_callback : Option (String → S → S)
  pub destroy_container : String → ℕ → S → Outcome (Unit {0}) String × S

-- The containers whose destruction was asked for, in their order, and the state. `aborted` is a cycle
-- that an exception ends.
pub data Cycle (S : Type 0) : Type 0 where
  finished : List String → S → Cycle S
  aborted : List String → S → Cycle S

abbrev pub is_empty : String → Bool
is_empty String.[] = true
is_empty (String.◌∷◌ c s) = false

module _ {S : Type 0} (services : Services S) where
  open services use {
    pool_info_exists, mapped_conversation, metadata, set_draining, delete_metadata, delete_reverse,
    proxy_stop_callback, destroy_container,
  }

  -- An exception of the callback is caught: only its effect on the state is left.
  stop_with : Option (String → S → S) → String → S → S
  stop_with none id s = s
  stop_with (some stop) id s = stop id s

  forget : ContainerInfo → Outcome (Unit {0}) String × S → S
  forget i (returned u, s) = delete_reverse i.id (delete_metadata i.conversation_id s)
  forget i (raised e, s) = s

  -- `_graceful_destroy`, which catches what the destruction raises.
  graceful_destroy : GcSettings → ContainerInfo → S → S
  graceful_destroy settings i s = forget i (
      destroy_container i.id settings.container_grace_period
        (stop_with proxy_stop_callback i.id (set_draining i.conversation_id s)))

  -- The conversation of the label, or of the reverse mapping.
  mapped : Option String → String → String
  mapped none label = label
  mapped (some String.[]) label = label
  mapped (some (String.◌∷◌ c m)) label = String.◌∷◌ c m

  pub conversation_of : Listed → S → String
  conversation_of c s =
      if is_empty c.label then mapped (mapped_conversation c.name s) c.label else c.label

  aged : ℕ → Option ℕ → Bool
  aged now none = true
  aged now (some created) = ltb (created + orphan_min_age) now

  -- Whether a container without metadata is old enough: `timestamp` reads "Created" as a number.
  pub old_enough : (String → Option ℕ) → ℕ → String → Bool
  old_enough timestamp now String.[] = true
  old_enough timestamp now (String.◌∷◌ c text) = aged now (timestamp (String.◌∷◌ c text))

  -- The turn of one container: the container that it destroys, whether an exception leaves the
  -- cycle, and the state.
  pub record Turn : Type 0 where
    pub victim : Option String
    pub raises : Bool
    pub after : S

  abbrev keep : S → Turn
  keep s = record { victim = none; raises = false; after = s }

  destroyed_orphan : String → Outcome (Unit {0}) String × S → Turn
  destroyed_orphan name (returned u, s) = record { victim = some name; raises = false; after = s }
  destroyed_orphan name (raised e, s) = record { victim = some name; raises = true; after = s }

  known : GcSettings → ℕ → Option ContainerInfo → S → Turn
  known settings now none s = record { victim = none; raises = true; after = s }
  known settings now (some i) s =
      if should_destroy settings now i
      then record { victim = some i.id; raises = false; after = graceful_destroy settings i s }
      else keep s

  module _ (settings : GcSettings) (fromisoformat timestamp : String → Option ℕ) where
    judge : ℕ → Listed → Hash → S → Turn
    judge now c [] s =
        if old_enough timestamp now c.created
        then destroyed_orphan c.name
            (destroy_container c.name 5 (stop_with proxy_stop_callback c.name s))
        else keep s
    judge now c (f ∷ fs) s = known settings now (from_redis_hash fromisoformat (f ∷ fs)) s

    pub collect_one : ℕ → Listed → S → Turn
    collect_one now c s =
        if is_empty c.name
        then keep s
        else if pool_info_exists c.name s
        then keep s
        else judge now c (metadata (conversation_of c s) s) s

    abbrev with_victim : Option String → List String → List String
    with_victim none ids = ids
    with_victim (some id) ids = id ∷ ids

    then_rest : Option String → Cycle S → Cycle S
    then_rest v (finished ids s) = finished (with_victim v ids) s
    then_rest v (aborted ids s) = aborted (with_victim v ids) s

    -- `_collect`, over the containers that Docker lists, each with the time of its turn.
    unfoldable pub collect : List (ℕ × Listed) → S → Cycle S
    unfolding collect_one judge known destroyed_orphan graceful_destroy then_rest forget stop_with
        conversation_of mapped old_enough aged
    collect [] s = finished [] s
    collect ((now, c) ∷ cs) s =
        let turn = collect_one now c s in
        let rest = collect cs turn.after in
        if turn.raises
        then aborted (with_victim turn.victim []) turn.after
        else then_rest turn.victim rest
