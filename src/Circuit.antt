-- ===== src/Circuit.antt =====
-- The circuit breaker of app/infrastructure/circuit_breaker.py.
-- Times are whole ticks of the monotonic clock; `threading.Lock` makes each of the three methods
-- below one atomic step.
pub mod Invariant
pub mod Calls
mod Tests
use claude_multi_agent.Base.{Outcome, returned, raised, ℕ, ◌+◌, ◌-◌, Bool, ltb, leb, if◌then◌else◌}

pub data CircuitState : Type 0 where
  closed opened half_open : CircuitState

-- `half_open_max_calls` is declared by the source and read nowhere in it.
pub record CircuitBreakerConfig : Type 0 where
  pub failure_threshold : ℕ
  pub reset_timeout : ℕ
  pub half_open_max_calls : ℕ

pub record CircuitBreaker : Type 0 where
  pub config : CircuitBreakerConfig
  pub current : CircuitState
  pub failure_count : ℕ
  pub last_failure_time : ℕ

abbrev pub fresh : CircuitBreakerConfig → CircuitBreaker
fresh c = record { config = c; current = closed; failure_count = 0; last_failure_time = 0 }

abbrev reset_elapsed : ℕ → CircuitBreaker → Bool
reset_elapsed now b = ltb b.config.reset_timeout (now - b.last_failure_time)

poll : CircuitState → ℕ → CircuitBreaker → CircuitState
poll opened now b = if reset_elapsed now b then half_open else opened
poll s now b = s

-- The property `state`: reading it at time `now` may move the breaker to half-open.
unfoldable pub state : ℕ → CircuitBreaker → CircuitState × CircuitBreaker
unfolding poll
state now b = let s = poll b.current now b in (s, record b { current = s })

unfoldable pub on_success : CircuitBreaker → CircuitBreaker
on_success b = record b { current = closed; failure_count = 0 }

unfoldable pub on_failure : ℕ → CircuitBreaker → CircuitBreaker
on_failure now b =
    let n = b.failure_count + 1 in
    record b {
      current = if leb b.config.failure_threshold n then opened else b.current;
      failure_count = n;
      last_failure_time = now;
    }

-- `CircuitOpenError`, or the exception of the wrapped function.
pub data CallError {ℓ} (E : Type ℓ) : Type ℓ where
  circuit_open : CallError E
  from_call : E → CallError E

module _ {ℓ} {A E W : Type ℓ} where
  finish : ℕ → CircuitBreaker → Outcome A E × W → Outcome A (CallError E) × CircuitBreaker × W
  finish end_time b (returned a, w) = (returned a, on_success b, w)
  finish end_time b (raised e, w) = (raised (from_call e), on_failure end_time b, w)

  dispatch :
      CircuitState
      → ℕ
      → (W → Outcome A E × W)
      → CircuitBreaker
      → W
      → Outcome A (CallError E) × CircuitBreaker × W
  dispatch opened end_time fn b w = (raised circuit_open, b, w)
  dispatch s end_time fn b w = finish end_time b (fn w)

  -- `execute`, of a function that acts on a world `W`: the state is read at `now`, and a failure
  -- is recorded at `end_time`.
  unfoldable pub execute :
      ℕ
      → ℕ
      → (W → Outcome A E × W)
      → CircuitBreaker
      → W
      → Outcome A (CallError E) × CircuitBreaker × W
  unfolding finish dispatch state on_success on_failure
  execute now end_time fn b w = let (s, b') = state now b in dispatch s end_time fn b' w
