-- ===== src/Proxy/Words.antt =====
-- Texts and bytes as lists of numbers, with the operations on them of app/services/proxy.
use Prim.Native.Nat.{◌/◌, ◌%◌}
use Prim.Native.Char.{code}
use claude_multi_agent.Base.{
  ℕ, zero, suc, ◌+◌, String, Bool, true, false, ◌||◌, Option, none, some, List, [], ◌∷◌, ltb, ◌==◌,
  if◌then◌else◌,
}
use claude_multi_agent.Execute.Stream.{Text, after}

abbrev pub Bytes : Type 0
Bytes = List ℕ

-- A literal: its bytes are its code points, since all of them are ASCII.
abbrev pub codes : String → List ℕ
codes String.[] = []
codes (String.◌∷◌ c s) = code c ∷ codes s

abbrev pub crlf : Bytes
crlf = 13 ∷ 10 ∷ []

abbrev pub is_some : {A : Type 0} → Option A → Bool
is_some none = false
is_some (some a) = true

-- `word in text`
unfoldable pub contains : Text → Text → Bool
contains word [] = is_some (after word [])
contains word (c ∷ t) = is_some (after word (c ∷ t)) || contains word t

abbrev pub cons_to : ℕ → Text × Option Text → Text × Option Text
cons_to c (before, rest) = (c ∷ before, rest)

-- What stands before the first `mark`, and what follows it, if there is one.
unfoldable pub break_at : ℕ → Text → Text × Option Text
break_at mark [] = ([], none)
break_at mark (c ∷ t) =
    let rest = break_at mark t in if c == mark then ([], some t) else cons_to c rest

abbrev pub cons_word : ℕ → List Text → List Text
cons_word c [] = (c ∷ []) ∷ []
cons_word c (w ∷ ws) = (c ∷ w) ∷ ws

-- `text.split(mark)` for a `mark` of one character
unfoldable pub split_on : ℕ → Text → List Text
split_on mark [] = [] ∷ []
split_on mark (c ∷ t) =
    let rest = split_on mark t in if c == mark then [] ∷ rest else cons_word c rest

-- `text.rstrip(mark)`
abbrev pub drop_if_last : ℕ → ℕ → Text → Text
drop_if_last mark c [] = if c == mark then [] else c ∷ []
drop_if_last mark c (d ∷ t) = c ∷ d ∷ t

unfoldable pub rstrip : ℕ → Text → Text
rstrip mark [] = []
rstrip mark (c ∷ t) = drop_if_last mark c (rstrip mark t)

-- The digit of a number below 16, as `format` writes it.
abbrev pub digit : ℕ → ℕ
digit d = if ltb d 10 then 48 + d else 87 + d

-- The digits of a number in a base, in front of `after`; the number itself is fuel enough, since every
-- division by the base makes it smaller.
unfoldable pub digits : ℕ → ℕ → ℕ → Text → Text
digits base zero n behind = digit (n % base) ∷ behind
digits base (suc f) n behind = elim (ltb n base) [
  | true ↦ digit n ∷ behind
  | false ↦ digits base f (n / base) (digit (n % base) ∷ behind)
]

-- `f"{n}"` and `f"{n:x}"`
abbrev pub decimal : ℕ → Text
decimal n = digits 10 n n []

abbrev pub hexadecimal : ℕ → Text
hexadecimal n = digits 16 n n []

abbrev pub cons_first : ℕ → Option (Bytes × Bytes) → Option (Bytes × Bytes)
cons_first b none = none
cons_first b (some (bs, rest)) = some (b ∷ bs, rest)

-- The first `n` bytes and the rest, if there are so many.
unfoldable pub take_exactly : ℕ → Bytes → Option (Bytes × Bytes)
take_exactly zero t = some ([], t)
take_exactly (suc n) [] = none
take_exactly (suc n) (b ∷ t) = cons_first b (take_exactly n t)
