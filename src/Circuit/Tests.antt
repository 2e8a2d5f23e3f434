-- ===== src/Circuit/Tests.antt =====
-- Tests of the breaker, and its theorems at concrete inputs.
use claude_multi_agent.Base.{Outcome, returned, raised, ℕ, ◌+◌, ◌≡◌, refl, [], ◌∷◌, arith}
use claude_multi_agent.Circuit.{
  CircuitBreaker, CircuitBreakerConfig, opened, fresh, from_call, execute, state, on_failure,
}
use claude_multi_agent.Circuit.Invariant.{here, next, read, fail, IsValid, reachable-IsValid}
use claude_multi_agent.Circuit.Calls.{fail_calls, fail_calls_trip, after_failure, execute_raised}

abbrev config : CircuitBreakerConfig
config = record { failure_threshold = 2; reset_timeout = 60; half_open_max_calls = 1 }

abbrev tripped : CircuitBreaker
tripped = record { config = config; current = opened; failure_count = 2; last_failure_time = 100 }

abbrev answer : ℕ → Outcome ℕ ℕ × ℕ
answer w = (returned 7, w + 1)

abbrev broken : ℕ → Outcome ℕ ℕ × ℕ
broken w = (raised 9, w + 1)

tripped-IsValid : IsValid tripped
tripped-IsValid = record { positive = omega arith; agrees = omega arith }

reachable-IsValid_example : IsValid (state 200 (on_failure 50 (on_failure 10 (fresh config)))).1
reachable-IsValid_example =
    reachable-IsValid config (omega arith)
      (next (next (next here (fail 10 _)) (fail 50 _)) (read 200 _))

execute_raised_example :
    let (r, b', w) = execute 161 162 broken tripped 0 in
    (r ≡ raised (from_call 9))
    × (w ≡ 1)
    × (b'.failure_count ≡ 3)
    × (b'.last_failure_time ≡ 162)
    × (b'.current ≡ after_failure opened 2 2)
execute_raised_example =
    execute_raised 161 162 broken tripped 0 tripped-IsValid (λ h. omega arith) refl

fail_calls_trip_example : (fail_calls ((1, 2) ∷ (5, 6) ∷ []) (fresh config)).current ≡ opened
fail_calls_trip_example =
    fail_calls_trip ((1, 2) ∷ (5, 6) ∷ []) (fresh config) refl refl (omega arith) (omega arith)
