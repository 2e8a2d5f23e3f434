-- ===== src/RateLimit/Wait.antt =====
-- How long a refusal asks to wait, in whole seconds.
use claude_multi_agent.Base.{ℕ, ◌+◌, ◌*◌, ◌≤◌, ◌<◌, ◌≡◌}
use claude_multi_agent.RateLimit.Server.{SortedSet}

-- `c` seconds are the least that are as long as the ticks.
abbrev Least : ℕ → ℕ → ℕ → Type 0
Least second ticks c =
    (ticks ≤ c * second) × (c * second < ticks + second) × (ticks ≡ 0 → c * second ≡ 0)

module _ {Z : Type 0} (redis : SortedSet Z) (second : ℕ) (name : ℕ → ℕ) (seconds limit : ℕ) where
  open redis use {live, has, card, add, expire, remove_through, oldest}

  abbrev window : ℕ
  window = seconds * second
