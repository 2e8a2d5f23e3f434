-- ===== src/Circuit/Invariant.antt =====
-- Every interleaving of the breaker's atomic steps, and the invariant that they keep.
use claude_multi_agent.Base.{ℕ, ◌≤◌, ◌<◌, ◌≡◌, arith}
use claude_multi_agent.Circuit.{
  CircuitBreakerConfig, CircuitBreaker, CircuitState, closed, opened, half_open, fresh, state,
  on_success, on_failure, poll,
}

-- Threads read the state, and report the end of calls that they began earlier, in any order.
pub data Step : CircuitBreaker → CircuitBreaker → Type 0 where
  read : (now : ℕ) (b : CircuitBreaker) → Step b (state now b).1
  succeed : (b : CircuitBreaker) → Step b (on_success b)
  fail : (now : ℕ) (b : CircuitBreaker) → Step b (on_failure now b)

pub data Reach (s : CircuitBreaker) : CircuitBreaker → Type 0 where
  here : Reach s s
  next : {t u : CircuitBreaker} → Reach s t → Step t u → Reach s u

-- Closed below the threshold, open or half-open from it on.
abbrev pub Agrees : CircuitState → ℕ → ℕ → Type 0
Agrees closed n t = n < t
Agrees opened n t = t ≤ n
Agrees half_open n t = t ≤ n

pub record IsValid (b : CircuitBreaker) : Type 0 where
  pub positive : 0 < b.config.failure_threshold
  pub agrees : Agrees b.current b.failure_count b.config.failure_threshold

state-Agrees :
    (s : CircuitState) (now : ℕ) (b : CircuitBreaker) (n t : ℕ)
    → Agrees s n t
    → Agrees (poll s now b) n t
unfolding poll
state-Agrees closed now b n t h = h
state-Agrees opened now b n t h = ground arith
state-Agrees half_open now b n t h = h

failed-Agrees :
    (s : CircuitState) (now : ℕ) (b : CircuitBreaker)
    → b.current ≡ s
    → Agrees s b.failure_count b.config.failure_threshold
    → Agrees (on_failure now b).current (on_failure now b).failure_count b.config.failure_threshold
unfolding on_failure
failed-Agrees closed now b e h = ground arith
failed-Agrees opened now b e h = ground arith
failed-Agrees half_open now b e h = ground arith

pub Step-IsValid : {b c : CircuitBreaker} → Step b c → IsValid b → IsValid c
unfolding state on_success on_failure
Step-IsValid (read now b) v = record {
  positive = v.positive;
  agrees = state-Agrees b.current now b b.failure_count b.config.failure_threshold v.agrees;
}
Step-IsValid (succeed b) v = record { positive = v.positive; agrees = v.positive }
Step-IsValid (fail now b) v = record {
  positive = v.positive;
  agrees = failed-Agrees b.current now b (λ i. b.current) v.agrees;
}

Reach-IsValid : {b c : CircuitBreaker} → IsValid b → Reach b c → IsValid c
Reach-IsValid h here = h
Reach-IsValid h (next r st) = Step-IsValid st (Reach-IsValid h r)

-- From a fresh breaker with a positive threshold, after any sequence of reads, successes and
-- failures, the breaker is closed exactly while its failure count is below the threshold.
pub reachable-IsValid :
    (c : CircuitBreakerConfig) {b : CircuitBreaker}
    → 0 < c.failure_threshold
    → Reach (fresh c) b
    → IsValid b
reachable-IsValid c h r = Reach-IsValid (record { positive = h; agrees = h }) r
