-- ===== src/RateLimit/Window.antt =====
-- The limiter is a sliding window: it lets a request through exactly when fewer than the limit were
-- let through inside the window.
use claude_multi_agent.Base.{
  ℕ, ◌+◌, ◌*◌, ◌≤◌, false, false, List, [], ◌∷◌, ◌==◌, ◌≡◌, ltb, if◌then◌else◌,
}
use claude_multi_agent.RateLimit.Server.{SortedSet}

-- How many of the times are still inside the window at a time.
abbrev pub recent : ℕ → ℕ → List ℕ → ℕ
recent t window [] = 0
recent t window (x ∷ xs) = (if ltb t (x + window) then 1 else 0) + recent t window xs

-- The log that the limiter stands for: the times at which requests were let through.
unfoldable pub log_serve : ℕ → ℕ → List ℕ → List ℕ → List ℕ
log_serve window limit past [] = []
log_serve window limit past (now ∷ rest) =
    let passed = now ∷ log_serve window limit (now ∷ past) rest in
    let refused = log_serve window limit past rest in
    if ltb (recent now window past) limit then passed else refused

-- The times do not go back, and no two of them give the same member.
abbrev pub Ordered : ℕ → List ℕ → Type 0
Ordered t [] = Unit
Ordered t (now ∷ rest) = (t ≤ now) × Ordered now rest

module _ (name : ℕ → ℕ) where
  abbrev pub Unused : ℕ → List ℕ → Type 0
  Unused m [] = Unit
  Unused m (now ∷ rest) = ((m == name now) ≡ false) × Unused m rest

  abbrev pub Fresh : List ℕ → Type 0
  Fresh [] = Unit
  Fresh (now ∷ rest) = Unused (name now) rest × Fresh rest

module _ {Z : Type 0} (redis : SortedSet Z) (second : ℕ) (name : ℕ → ℕ) (seconds limit : ℕ) where
  open redis use {live, has, card, add, expire, remove_through, oldest}

  abbrev window : ℕ
  window = seconds * second

  -- No request has a member with an entry.
  abbrev pub Absent : List ℕ → Z → Type 0
  Absent [] z = Unit
  Absent (now ∷ rest) z = (has (name now) z ≡ false) × Absent rest z

  -- From the time on, the set shows as many entries in the window as the log has times in it.
  abbrev pub Tracks : ℕ → List ℕ → Z → Type 0
  Tracks now past z = (t : ℕ) → now ≤ t → live t window z ≡ recent t window past

  -- The set after a request that is let through.
  abbrev entered : ℕ → Z → Z
  entered now z = expire now window (add now (name now) (remove_through now window z))
