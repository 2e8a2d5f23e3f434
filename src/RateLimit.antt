-- ===== src/RateLimit.antt =====
-- The rate limiter: app/middleware/rate_limit.py. Redis's sorted sets are a parameter; the Lua script
-- is modelled command by command. Times are ticks of the clock, `second` of them in a second.
pub mod Server
pub mod Window
pub mod Wait
pub mod Bound
pub mod Key
mod Tests
use claude_multi_agent.Base.{
  ℕ, zero, suc, ◌*◌, ◌+◌, ◌-◌, Bool, true, false, Option, none, some, List, [], ◌∷◌, ltb, leb, max,
  if◌then◌else◌,
}
use Server.{SortedSet}

-- The script's reply {allowed, remaining, retry_after}.
pub record Verdict : Type 0 where
  pub allowed : Bool
  pub remaining : ℕ
  pub retry_after : ℕ

-- `math.ceil` of so many ticks in seconds, by repeated subtraction; the ticks are fuel enough.
unfoldable pub seconds_up : ℕ → ℕ → ℕ → ℕ
seconds_up second zero ticks = 0
seconds_up second (suc fuel) zero = 0
seconds_up second (suc fuel) (suc n) = suc (seconds_up second fuel (suc n - second))

-- `name now` is the member `now .. ':' .. math.random()`: Redis seeds the generator alike for each run
-- of a script, so that its first number is always the same.
module _ {Z : Type 0} (redis : SortedSet Z) (second : ℕ) (name : ℕ → ℕ) where
  open redis use {remove_through, card, add, expire, oldest}

  -- `math.ceil(oldest + window - now)`, in seconds.
  retry_after_of : ℕ → ℕ → Option ℕ → ℕ
  unfolding seconds_up
  retry_after_of now window none = 0
  retry_after_of now window (some score) =
      seconds_up second (score + window - now) (score + window - now)

  -- RATE_LIMIT_SCRIPT, for a window of so many seconds.
  unfoldable pub rate_limit_script : ℕ → ℕ → ℕ → Z → Verdict × Z
  unfolding retry_after_of
  rate_limit_script now seconds limit z =
      let window = seconds * second in
      let z' = remove_through now window z in
      let count = card z' in
      if ltb count limit
      then (
        record { allowed = true; remaining = limit - count - 1; retry_after = seconds },
        expire now window (add now (name now) z'),
      )
      else (
        record {
          allowed = false;
          remaining = 0;
          retry_after = retry_after_of now window (oldest z');
        },
        z',
      )

  -- `_check_rate_limit`: a Redis error lets the request pass.
  unfoldable pub check_rate_limit : Bool → ℕ → ℕ → ℕ → Z → Verdict × Z
  check_rate_limit answered now seconds limit z =
      if answered
      then (let (v, z') = rate_limit_script now seconds limit z in
          (record v { retry_after = if v.allowed then 0 else v.retry_after }, z'))
      else (record { allowed = true; remaining = limit; retry_after = 0 }, z)

  -- The requests under one key, at their times, while Redis answers; the times at which requests were
  -- let through are collected.
  unfoldable pub serve : ℕ → ℕ → List ℕ → Z → List ℕ × Z
  serve seconds limit [] z = ([], z)
  serve seconds limit (now ∷ rest) z =
      let (v, z') = check_rate_limit true now seconds limit z in
      let (times, last) = serve seconds limit rest z' in
      (if v.allowed then now ∷ times else times, last)
