-- ===== src/Retry.antt =====
-- Retries with exponential backoff: app/infrastructure/retry.py, with delays in whole milliseconds
-- and a whole exponential base.
pub mod Delay
pub mod Attempts
mod Tests
use claude_multi_agent.Base.{
  ℕ, zero, suc, ◌+◌, ◌-◌, ◌*◌, ◌^◌, Bool, Outcome, returned, raised, List, [], ◌∷◌, ◌==◌, min,
  if◌then◌else◌,
}

-- `retryable` is the test of `retryable_exceptions`.
pub record RetryConfig (E : Type 0) : Type 0 where
  pub max_attempts : ℕ
  pub base_delay : ℕ
  pub max_delay : ℕ
  pub exponential_base : ℕ
  pub jitter : Bool
  pub retryable : E → Bool

-- `uniform` stands for `random.uniform(0, delay)`.
unfoldable pub calculate_delay : {E : Type 0} → (ℕ → ℕ) → ℕ → RetryConfig E → ℕ
calculate_delay uniform attempt c =
    let delay = min (c.base_delay * c.exponential_base ^ attempt) c.max_delay in
    if c.jitter then uniform delay else delay

-- The exception that a retried call ends with: one of the function's, or the RuntimeError for which
-- no attempt was made.
pub data RetryError (E : Type 0) : Type 0 where
  last_error : E → RetryError E
  unexpected_state : RetryError E

-- What a retried call does: how it ends, how often it calls the function, and how long it sleeps
-- after each failure.
pub record Run (A E : Type 0) : Type 0 where
  pub outcome : Outcome A (RetryError E)
  pub calls : ℕ
  pub delays : List ℕ

module _ {A E : Type 0} (uniform : ℕ → ℕ → ℕ) (config : RetryConfig E)
    (func : ℕ → Outcome A E) where
  -- A call that fails, a sleep, and the rest.
  after_sleep : ℕ → Run A E → Run A E
  after_sleep delay r = record {
    outcome = r.outcome;
    calls = suc r.calls;
    delays = delay ∷ r.delays;
  }

  stop : Outcome A (RetryError E) → Run A E
  stop o = record { outcome = o; calls = 1; delays = [] }

  on_error : ℕ → E → Run A E → Run A E
  on_error attempt e rest =
      if config.retryable e
      then (if attempt == config.max_attempts - 1
          then stop (raised (last_error e))
          else after_sleep (calculate_delay (uniform attempt) attempt config) rest)
      else stop (raised (last_error e))

  step : ℕ → Outcome A E → Run A E → Run A E
  step attempt (returned a) rest = stop (returned a)
  step attempt (raised e) rest = on_error attempt e rest

  -- The loop of `retry_async`, with the attempts that are left and the number of the next one; what
  -- `func` does may differ from attempt to attempt.
  attempts_async : ℕ → ℕ → Run A E
  attempts_async zero attempt = record { outcome = raised unexpected_state; calls = 0; delays = [] }
  attempts_async (suc left) attempt =
      let rest = attempts_async left (suc attempt) in step attempt (func attempt) rest

  unfoldable pub retry_async : Run A E
  unfolding attempts_async step on_error after_sleep stop
  retry_async = attempts_async config.max_attempts 0

  -- The loop of `retry_sync`, which the source writes out a second time.
  attempts_sync : ℕ → ℕ → Run A E
  attempts_sync zero attempt = record { outcome = raised unexpected_state; calls = 0; delays = [] }
  attempts_sync (suc left) attempt =
      let rest = attempts_sync left (suc attempt) in step attempt (func attempt) rest

  unfoldable pub retry_sync : Run A E
  unfolding attempts_sync step on_error after_sleep stop
  retry_sync = attempts_sync config.max_attempts 0
