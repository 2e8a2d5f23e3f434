-- ===== src/Retry/Delay.antt =====
-- The delays are bounded.
use claude_multi_agent.Base.{ℕ, ◌≤◌, arith}
use claude_multi_agent.Retry.{RetryConfig, calculate_delay}

-- No delay is longer than `max_delay`, with or without jitter, at every attempt.
pub calculate_delay_bound :
    {E : Type 0} (uniform : ℕ → ℕ) (attempt : ℕ) (c : RetryConfig E)
    → ((d : ℕ) → uniform d ≤ d)
    → calculate_delay uniform attempt c ≤ c.max_delay
unfolding calculate_delay
calculate_delay_bound uniform attempt c h = grind (arith, h)
