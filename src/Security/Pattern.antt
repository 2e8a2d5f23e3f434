-- ===== src/Security/Pattern.antt =====
-- The regular expressions of app/utils/security.py: a class of characters, one or more times,
-- between `^` and `$`. Python's `$` also stands before a line feed at the very end.
use claude_multi_agent.Base.{
  ℕ, Bool, true, false, ◌&&◌, ◌||◌, List, [], ◌∷◌, leb, ◌==◌, ◌≡◌, ◌⊎◌, All, arith,
}

abbrev pub Text : Type 0
Text = List ℕ

abbrev pub letter : ℕ → Bool
letter c = (leb 97 c && leb c 122) || (leb 65 c && leb c 90)

abbrev pub digit : ℕ → Bool
digit c = leb 48 c && leb c 57

-- [a-zA-Z0-9_\-]
unfoldable pub safe_skill_char : ℕ → Bool
safe_skill_char c = letter c || digit c || c == 95 || c == 45

-- The hiragana, katakana and kanji ranges that two of the patterns name.
abbrev pub japanese : ℕ → Bool
japanese c =
    (leb 0x3040 c && leb c 0x309F)
    || (leb 0x30A0 c && leb c 0x30FF)
    || (leb 0x4E00 c && leb c 0x9FFF)

-- `^[…]+$` by `match`: the class is repeated to the end, or to a line feed that ends the text.
unfoldable pub matches_rest : (ℕ → Bool) → Text → Bool
matches_rest cls [] = true
matches_rest cls (c ∷ []) = cls c || c == 10
matches_rest cls (c ∷ d ∷ t) = cls c && matches_rest cls (d ∷ t)

unfoldable pub matches : (ℕ → Bool) → Text → Bool
unfolding matches_rest
matches cls [] = false
matches cls (c ∷ t) = cls c && matches_rest cls t

-- Every character is of the class, or is a line feed.
abbrev pub InClass : (ℕ → Bool) → ℕ → Type 0
InClass cls c = (cls c ≡ true) ⊎ (c ≡ 10)

pub matches_rest-InClass :
    (cls : ℕ → Bool) (t : Text) → matches_rest cls t ≡ true → All (InClass cls) t
unfolding matches_rest
matches_rest-InClass cls [] h = tt
matches_rest-InClass cls (c ∷ []) h = ground arith
matches_rest-InClass cls (c ∷ d ∷ t) h = ground (arith, matches_rest-InClass cls (d ∷ t))

-- A text that matches is a character of the class and then characters of the class or line feeds.
pub matches-InClass : (cls : ℕ → Bool) (t : Text) → matches cls t ≡ true → All (InClass cls) t
unfolding matches
matches-InClass cls [] h = tt
matches-InClass cls (c ∷ t) h = ground (arith, matches_rest-InClass cls t)
