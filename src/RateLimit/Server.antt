-- ===== src/RateLimit/Server.antt =====
-- What the rate limiter relies on of Redis's sorted sets, through the number of entries that are
-- still inside the window at a time: those whose score plus the window is greater than the time.
use claude_multi_agent.Base.{
  ℕ, ◌+◌, ◌≤◌, ◌<◌, Bool, false, ◌||◌, Option, some, ◌==◌, ◌≡◌, ltb, if◌then◌else◌,
}

pub record SortedSet (Z : Type 0) : Type 0 where
  -- ZREMRANGEBYSCORE key -inf (now - window)
  pub remove_through : ℕ → ℕ → Z → Z
  -- ZCARD key
  pub card : Z → ℕ
  -- ZADD key score member
  pub add : ℕ → ℕ → Z → Z
  -- EXPIRE key window, at a time: the whole set is gone after the window.
  pub expire : ℕ → ℕ → Z → Z
  -- The score in ZRANGE key 0 0 WITHSCORES
  pub oldest : Z → Option ℕ
  -- The entries inside the window at a time, and whether a member has an entry.
  pub live : ℕ → ℕ → Z → ℕ
  pub has : ℕ → Z → Bool
  pub card-remove :
      (now window : ℕ) (z : Z) → card (remove_through now window z) ≡ live now window z
  pub live-remove :
      (now later window : ℕ) (z : Z)
      → now ≤ later
      → live later window (remove_through now window z) ≡ live later window z
  -- A member that has no entry yet gets one.
  pub live-add :
      (t now window member : ℕ) (z : Z)
      → has member z ≡ false
      → live t window (add now member z) ≡ (if ltb t (now + window) then 1 else 0) + live t window z
  pub has-add :
      (now member other : ℕ) (z : Z)
      → has other (add now member z) ≡ (member == other || has other z)
  pub has-remove :
      (now window member : ℕ) (z : Z)
      → has member z ≡ false
      → has member (remove_through now window z) ≡ false
  pub live-expire :
      (t now window : ℕ) (z : Z)
      → live t window (expire now window z) ≡ (if ltb t (now + window) then live t window z else 0)
  pub has-expire :
      (now window member : ℕ) (z : Z)
      → has member z ≡ false
      → has member (expire now window z) ≡ false
  -- The entry with the lowest score is the first to leave the window.
  pub oldest-some : (z : Z) → 0 < card z → (score : ℕ) × (oldest z ≡ some score)
  pub oldest-dies :
      (t window score : ℕ) (z : Z)
      → oldest z ≡ some score
      → score + window ≤ t
      → live t window z < card z
  pub oldest-lives :
      (t window score : ℕ) (z : Z)
      → oldest z ≡ some score
      → t < score + window
      → live t window z ≡ card z
