-- ===== src/Retry/Tests.antt =====
-- Retries of a function that fails twice, and the theorems on it.
use claude_multi_agent.Base.{
  ℕ, ◌≤◌, ◌<◌, true, All, ◌≡◌, refl, Outcome, returned, raised, arith, inl, ltb, if◌then◌else◌,
}
use claude_multi_agent.Retry.{RetryConfig, retry_async, retry_sync}
use claude_multi_agent.Retry.Attempts.{Ends, FailsAt, retry_first_end, retry_bounds}

abbrev three : RetryConfig ℕ
three = record {
  max_attempts = 3;
  base_delay = 1000;
  max_delay = 3000;
  exponential_base = 2;
  jitter = true;
  retryable = λ e. ltb e 100;
}

-- It fails on the attempts before the third.
abbrev flaky : ℕ → Outcome ℕ ℕ
flaky i = if ltb i 2 then raised i else returned 7

abbrev broken : ℕ → Outcome ℕ ℕ
broken i = raised i

abbrev none_at_all : ℕ → ℕ → ℕ
none_at_all i d = 0

flaky-FailsAt : (n : ℕ) → n < 2 → FailsAt none_at_all three flaky n
flaky-FailsAt n h = (n, ground arith, ground arith)

broken-FailsAt : (n : ℕ) → n < 2 → FailsAt none_at_all three broken n
broken-FailsAt n h = (n, refl, ground arith)

retry_first_end_example :
    Ends none_at_all three flaky (retry_async none_at_all three flaky) (returned 7) 3
retry_first_end_example =
    retry_first_end none_at_all three flaky 2 (returned 7) (omega arith) flaky-FailsAt
      (inl (7, refl, refl))

retry_bounds_example :
    let r = retry_async none_at_all three broken in
    (r.calls ≤ 3) × All (λ d. d ≤ 3000) r.delays × (retry_sync none_at_all three broken ≡ r)
retry_bounds_example = retry_bounds none_at_all three broken (λ i d. omega arith)
