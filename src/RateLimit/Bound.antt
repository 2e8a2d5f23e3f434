-- ===== src/RateLimit/Bound.antt =====
-- No window of time lets more requests through than the limit.
use claude_multi_agent.Base.{ℕ, ◌+◌, ◌&&◌, List, [], ◌∷◌, ltb, leb, if◌then◌else◌}

-- How many of the times lie after `b` and at most a window later.
abbrev pub in_window : ℕ → ℕ → List ℕ → ℕ
in_window b window [] = 0
in_window b window (x ∷ xs) =
    (if ltb b x && leb x (b + window) then 1 else 0) + in_window b window xs
