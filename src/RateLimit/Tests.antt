-- ===== src/RateLimit/Tests.antt =====
-- A small sorted set, and the limiter's theorems on it.
use claude_multi_agent.Base.{
  ℕ, ◌+◌, ◌≤◌, ◌<◌, Bool, false, ◌||◌, Option, none, some, List, [], ◌∷◌, ◌==◌, ◌≡◌, refl, ltb, min,
  length, arith, if◌then◌else◌, Option-cases, inl, inr,
}
use claude_multi_agent.RateLimit.Server.{SortedSet}
use claude_multi_agent.RateLimit.{rate_limit_script, check_rate_limit, serve}
use claude_multi_agent.RateLimit.Key.{Text}

-- The scores and the members.
abbrev Entries : Type 0
Entries = List (ℕ × ℕ)

abbrev remove_old : ℕ → ℕ → Entries → Entries
remove_old now window [] = []
remove_old now window ((s, m) ∷ z) =
    let rest = remove_old now window z in if ltb now (s + window) then (s, m) ∷ rest else rest

abbrev count_live : ℕ → ℕ → Entries → ℕ
count_live t window [] = 0
count_live t window ((s, m) ∷ z) = (if ltb t (s + window) then 1 else 0) + count_live t window z

abbrev member_of : ℕ → Entries → Bool
member_of k [] = false
member_of k ((s, m) ∷ z) = m == k || member_of k z

abbrev least : ℕ → Option ℕ → ℕ
least s none = s
least s (some r) = min s r

abbrev lowest : Entries → Option ℕ
lowest [] = none
lowest ((s, m) ∷ z) = some (least s (lowest z))

remove-count :
    (now window : ℕ) (z : Entries) → length (remove_old now window z) ≡ count_live now window z
remove-count now window [] = refl
remove-count now window ((s, m) ∷ z) = ground (arith, remove-count now window z)

count-remove :
    (now later window : ℕ) (z : Entries)
    → now ≤ later
    → count_live later window (remove_old now window z) ≡ count_live later window z
count-remove now later window [] h = refl
count-remove now later window ((s, m) ∷ z) h = ground (arith, count-remove now later window z)

member-remove :
    (now window k : ℕ) (z : Entries)
    → member_of k z ≡ false
    → member_of k (remove_old now window z) ≡ false
member-remove now window k [] h = refl
member-remove now window k ((s, m) ∷ z) h = ground (arith, member-remove now window k z)

count-le : (t window : ℕ) (z : Entries) → count_live t window z ≤ length z
count-le t window [] = omega arith
count-le t window ((s, m) ∷ z) = ground (arith, count-le t window z)

lowest-some : (z : Entries) → 0 < length z → (score : ℕ) × (lowest z ≡ some score)
lowest-some [] h = absurd (omega arith)
lowest-some ((s, m) ∷ z) h = (least s (lowest z), refl)

lowest-dies :
    (t window score : ℕ) (z : Entries)
    → lowest z ≡ some score
    → score + window ≤ t
    → count_live t window z < length z
lowest-dies t window score [] h k = absurd (cc h)
lowest-dies t window score ((s, m) ∷ z) h k = elim (Option-cases (lowest z)) [
  | inl e ↦ ground (arith, count-le t window z)
  | inr (r, e) ↦ ground (arith, count-le t window z, lowest-dies t window r z e)
]

lowest-lives :
    (t window score : ℕ) (z : Entries)
    → lowest z ≡ some score
    → t < score + window
    → count_live t window z ≡ length z
lowest-lives t window score [] h k = refl
lowest-lives t window score ((s, m) ∷ []) h k = ground arith
lowest-lives t window score ((s, m) ∷ (r, n) ∷ z) h k =
    ground (arith, lowest-lives t window (least r (lowest z)) ((r, n) ∷ z) refl)

-- A set that is gone after the window: no entry lasts longer than one that is added now.
abbrev cap : ℕ → Entries → Entries
cap now [] = []
cap now ((s, m) ∷ z) = (min s now, m) ∷ cap now z

count-cap :
    (t now window : ℕ) (z : Entries)
    → count_live t window (cap now z) ≡ (if ltb t (now + window) then count_live t window z else 0)
count-cap t now window [] = ground arith
count-cap t now window ((s, m) ∷ z) = ground (arith, count-cap t now window z)

member-cap : (now k : ℕ) (z : Entries) → member_of k z ≡ false → member_of k (cap now z) ≡ false
member-cap now k [] h = refl
member-cap now k ((s, m) ∷ z) h = ground (arith, member-cap now k z)

abbrev small_set : SortedSet Entries
small_set = record {
  remove_through = remove_old;
  card = length;
  add = λ now member z. (now, member) ∷ z;
  expire = λ now window z. cap now z;
  oldest = lowest;
  live = count_live;
  has = member_of;
  card-remove = remove-count;
  live-remove = count-remove;
  live-add = λ t now window member z h. refl;
  has-add = λ now member other z. refl;
  has-remove = member-remove;
  live-expire = count-cap;
  has-expire = λ now window k z h. member-cap now k z h;
  oldest-some = lowest-some;
  oldest-dies = lowest-dies;
  oldest-lives = lowest-lives;
}

-- A member is named after its time.
abbrev name : ℕ → ℕ
name now = now

-- With ten ticks in a second: two requests in a window of six seconds, then one too many, then one after
-- the first has left.
abbrev requests : List ℕ
requests = 100 ∷ 110 ∷ 159 ∷ 160 ∷ []

served : (serve small_set 10 name 6 2 requests []).0 ≡ 100 ∷ 110 ∷ 160 ∷ []
unfolding serve check_rate_limit rate_limit_script
served = refl

abbrev same : Text → Text
same t = t
