-- ===== src/Circuit/Calls.antt =====
-- What `execute` does, branch by branch, and over runs of failing calls.
use claude_multi_agent.Base.{
  Outcome, returned, raised, ℕ, ◌+◌, ◌-◌, ◌≤◌, ◌<◌, ◌==◌, ◌≡◌, List, [], ◌∷◌, length, arith,
  if◌then◌else◌,
}
use claude_multi_agent.Circuit.{
  CircuitBreaker, CircuitState, closed, opened, circuit_open, from_call, execute,
}
use claude_multi_agent.Circuit.Invariant.{IsValid}

-- The breaker is open and its timeout has not passed.
abbrev pub Blocked : ℕ → CircuitBreaker → Type 0
Blocked now b = (b.current ≡ opened) × (now - b.last_failure_time ≤ b.config.reset_timeout)

abbrev pub after_failure : CircuitState → ℕ → ℕ → CircuitState
after_failure closed n t = if n + 1 == t then opened else closed
after_failure s n t = opened

module _ {A E W : Type 0} (now end_time : ℕ) (fn : W → Outcome A E × W) where
  -- While the breaker is open and its timeout has not passed, `execute` raises the circuit's error
  -- and leaves the world and the breaker as they were: the function is not run.
  pub execute-Blocked :
      (b : CircuitBreaker) (w : W)
      → Blocked now b
      → execute now end_time fn b w ≡ (raised circuit_open, b, w)
  unfolding execute
  execute-Blocked b w h = ground arith

  -- Otherwise the function is run. If it returns, so does `execute`, and the breaker is closed with
  -- no failures counted.
  execute_returned :
      (b : CircuitBreaker) (w : W) {a : A} {w' : W}
      → ¬ (Blocked now b)
      → fn w ≡ (returned a, w')
      → execute now end_time fn b w
        ≡ (returned a, record b { current = closed; failure_count = 0 }, w')
  unfolding execute
  execute_returned b w h e = ground arith

  -- If it raises, `execute` passes the exception on and counts the failure at its time; a breaker
  -- that was not closed is open again, and a closed one opens exactly at the threshold.
  pub execute_raised :
      (b : CircuitBreaker) (w : W) {e : E} {w' : W}
      → IsValid b
      → ¬ (Blocked now b)
      → fn w ≡ (raised e, w')
      → let (r, b', w'') = execute now end_time fn b w in
        (r ≡ raised (from_call e))
        × (w'' ≡ w')
        × (b'.failure_count ≡ b.failure_count + 1)
        × (b'.last_failure_time ≡ end_time)
        × (b'.current ≡ after_failure b.current b.failure_count b.config.failure_threshold)
  unfolding execute
  execute_raised b w v h e = ground arith

-- The times at which each call starts and ends, and the exception that it raises.
abbrev pub FailedCall : Type 0
FailedCall = ℕ × ℕ

fail_call : FailedCall → CircuitBreaker → CircuitBreaker
fail_call (now, end_time) b =
    (execute {A = ℕ} {E = ℕ} {W = ℕ} now end_time (λ w. (raised 0, w)) b 0).1

pub fail_calls : List FailedCall → CircuitBreaker → CircuitBreaker
unfolding fail_call
fail_calls [] b = b
fail_calls (c ∷ cs) b = fail_calls cs (fail_call c b)

fail_calls_from :
    (cs : List FailedCall) (b : CircuitBreaker)
    → b.current ≡ closed
    → b.failure_count + length cs ≤ b.config.failure_threshold
    → b.failure_count < b.config.failure_threshold
    → ((fail_calls cs b).current
        ≡ (if b.failure_count + length cs == b.config.failure_threshold then opened else closed))
      × ((fail_calls cs b).failure_count ≡ b.failure_count + length cs)
unfolding fail_calls execute
fail_calls_from [] b e h k = ground arith
fail_calls_from (c ∷ []) b e h k = ground arith
fail_calls_from (c ∷ d ∷ cs) b e h k = ground (arith, fail_calls_from (d ∷ cs) (fail_call c b))

-- A closed breaker with no failures counted that has a positive threshold stays closed over fewer
-- consecutive failing calls than the threshold, and is open once there are as many, at whatever
-- times the calls start and end.
pub fail_calls_trip :
    (cs : List FailedCall) (b : CircuitBreaker)
    → b.current ≡ closed
    → b.failure_count ≡ 0
    → 0 < b.config.failure_threshold
    → length cs ≤ b.config.failure_threshold
    → (fail_calls cs b).current
      ≡ (if length cs == b.config.failure_threshold then opened else closed)
fail_calls_trip cs b e z p h = ground (arith, fail_calls_from cs b e (omega arith) (omega arith))
