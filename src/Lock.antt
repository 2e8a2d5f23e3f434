-- ===== src/Lock.antt =====
-- The distributed lock: app/infrastructure/distributed_lock.py, and the handler around `acquire` in
-- app/services/execute_service.py. Redis is a parameter, with the documented behaviour of the
-- commands that the code sends; its two Lua scripts are modelled command by command.
pub mod Server
pub mod Holder
pub mod Waiting
mod Tests
use Prim.Native.String.{◌++◌}
use text.Mathlib.Text.{◌==◌}
use claude_multi_agent.Base.{
  ℕ, zero, suc, ◌+◌, ◌*◌, String, Bool, true, false, Option, none, some, List, [], ◌∷◌, ltb,
  if◌then◌else◌,
}
use Server.{Redis}

-- The exception classes of the module.
pub data LockError : Type 0 where
  lock_acquisition_error lock_release_error conversation_lock_error : LockError

-- `except ConversationLockError` around `acquire` in `execute_streaming`: the classes are siblings.
unfoldable pub caught_by_execute : LockError → Bool
caught_by_execute conversation_lock_error = true
caught_by_execute _ = false

abbrev pub lock_prefix : String
lock_prefix = "lock:"

pub make_lock_key : String → String → String
make_lock_key key_prefix resource_id = lock_prefix ++ (key_prefix ++ resource_id)

module _ {S : Type 0} (redis : Redis S) where
  open redis use {get, set_nx_px, del, pexpire}

  -- RELEASE_SCRIPT at time `now`, and whether it deleted the key.
  release_script : ℕ → String → String → S → Bool × S
  release_script now key token s = elim (get now key s) [
    | none ↦ (false, s)
    | some held ↦ if held == token then (true, del key s) else (false, s)
  ]

  -- EXTEND_SCRIPT
  extend_script : ℕ → String → String → ℕ → S → Bool × S
  extend_script now key token ttl_ms s = elim (get now key s) [
    | none ↦ (false, s)
    | some held ↦ if held == token then (true, pexpire now key ttl_ms s) else (false, s)
  ]

  module _ (key_prefix : String) where
    -- `release`: the test says whether Redis answered, and `false` is its RedisError, which the
    -- method turns into `False`.
    unfoldable pub release : Bool → ℕ → String → String → S → Bool × S
    unfolding release_script
    release answered now resource_id token s =
        if answered
        then release_script now (make_lock_key key_prefix resource_id) token s
        else (false, s)

    unfoldable pub extend : Bool → ℕ → String → String → ℕ → S → Bool × S
    unfolding extend_script
    extend answered now resource_id token additional_ttl s =
        if answered
        then extend_script now (make_lock_key key_prefix resource_id) token (additional_ttl * 1000)
            s
        else (false, s)

    unfoldable pub is_locked : Bool → ℕ → String → S → Bool
    is_locked answered now resource_id s =
        if answered
        then elim (get now (make_lock_key key_prefix resource_id) s) [
          | none ↦ false
          | some v ↦ true
        ]
        else false

    -- One SET NX PX.
    unfoldable pub try_acquire : ℕ → String → String → ℕ → S → Bool × S
    try_acquire now resource_id token ttl s =
        set_nx_px now (make_lock_key key_prefix resource_id) token (ttl * 1000) s

-- One round of the loop in `acquire`: what the event loop's clock shows at the test of the `while`,
-- and the time and the state at which Redis is asked, or `none` for a RedisError.
pub record Round (S : Type 0) : Type 0 where
  pub clock : ℕ
  pub asked : Option (ℕ × S)

-- `waiting` is a call that has not returned after the rounds given.
pub data Acquired (S : Type 0) : Type 0 where
  got : String → S → Acquired S
  failed : LockError → Acquired S
  waiting : Acquired S

module _ {S : Type 0} (redis : Redis S) (key_prefix resource_id token : String)
    (ttl end_time : ℕ) where
  after_set : Bool × S → Acquired S → Acquired S
  after_set (true, s) rest = got token s
  after_set (false, s) rest = rest

  ask : Option (ℕ × S) → Acquired S → Acquired S
  ask none rest = failed lock_acquisition_error
  ask (some (now, s)) rest =
      after_set (try_acquire redis key_prefix now resource_id token ttl s) rest

  unfoldable pub acquire : List (Round S) → Acquired S
  unfolding ask after_set
  acquire [] = waiting
  acquire (r ∷ rs) =
      let rest = acquire rs in
      if ltb r.clock end_time then ask r.asked rest else failed lock_acquisition_error
