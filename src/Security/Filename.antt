-- ===== src/Security/Filename.antt =====
-- `sanitize_filename` of app/utils/security.py; `word` is the class `\w` of the regular expressions.
pub mod Clean
use claude_multi_agent.Base.{
  ℕ, Bool, true, false, ◌&&◌, ◌||◌, Option, none, some, List, [], ◌∷◌, ◌++◌, ◌==◌, if◌then◌else◌,
}
use claude_multi_agent.Security.Pattern.{Text, japanese, matches}

-- `filename.replace("\\", "/")`
slashes : Text → Text
slashes [] = []
slashes (c ∷ t) = (if c == 92 then 47 else c) ∷ slashes t

pub cons_part : ℕ → List Text → List Text
cons_part c [] = (c ∷ []) ∷ []
cons_part c (p ∷ ps) = (c ∷ p) ∷ ps

-- `split("/")`
pub split : Text → List Text
unfolding cons_part
split [] = [] ∷ []
split (c ∷ t) = let rest = split t in if c == 47 then [] ∷ rest else cons_part c rest

-- `"/".join(parts)`
join : List Text → Text
join [] = []
join (p ∷ []) = p
join (p ∷ q ∷ ps) = p ++ (47 ∷ join (q ∷ ps))

-- "." and ".."
abbrev pub is_dots : Text → Bool
is_dots (c ∷ []) = c == 46
is_dots (c ∷ d ∷ []) = c == 46 && d == 46
is_dots _ = false

-- An empty part, or ".".
is_dot : Text → Bool
is_dot [] = true
is_dot (c ∷ []) = c == 46
is_dot _ = false

add_part : Option Text → Option (List Text) → Option (List Text)
add_part (some p) (some ps) = some (p ∷ ps)
add_part _ _ = none

-- The join of the parts, if there is one.
joined : Option (List Text) → Option Text
unfolding join
joined (some (p ∷ ps)) = some (join (p ∷ ps))
joined _ = none

module _ (word : ℕ → Bool) where
  abbrev pub safe_char : ℕ → Bool
  safe_char c = word c || c == 45 || c == 46 || japanese c

  -- `re.sub` of every character outside the class by "_".
  replace_unsafe : Text → Text
  replace_unsafe [] = []
  replace_unsafe (c ∷ t) = (if safe_char c then c else 95) ∷ replace_unsafe t

  -- One part that is not empty: the part that is kept, or `none` for the ValidationError.
  sanitize_part : Text → Option Text
  sanitize_part part =
      if is_dots part
      then none
      else if matches safe_char part
      then some part
      else if is_dot (replace_unsafe part)
      then none
      else some (replace_unsafe part)

  sanitize_parts : List Text → Option (List Text)
  sanitize_parts [] = some []
  sanitize_parts ([] ∷ ps) = sanitize_parts ps
  sanitize_parts ((c ∷ t) ∷ ps) = add_part (sanitize_part (c ∷ t)) (sanitize_parts ps)

  -- `none` is the ValidationError.
  unfoldable pub sanitize_filename : Text → Option Text
  unfolding sanitize_parts sanitize_part replace_unsafe slashes split joined is_dot add_part
  sanitize_filename [] = none
  sanitize_filename (c ∷ t) = joined (sanitize_parts (split (slashes (c ∷ t))))
