-- ===== src/Security/Tests.antt =====
-- The checks at concrete texts, and the theorems on them.
use claude_multi_agent.Base.{ℕ, Bool, true, false, Option, some, [], ◌∷◌, ◌++◌, All, ◌≡◌, refl}
use claude_multi_agent.Security.Pattern.{Text, safe_skill_char, matches}
use claude_multi_agent.Security.Traversal.{
  Paths, occurs, starts_with, any_occurs, is_absolute, validate_path_traversal, validate_file_path,
  validate_file_path_safe,
}
use claude_multi_agent.Security.Filename.{sanitize_filename, split}
use claude_multi_agent.Security.Filename.Clean.{IsComponent, sanitize_filename-IsComponent}

-- Paths without links.
abbrev plain : Paths Text
plain = record {
  resolve_below = λ base t. some (base ++ (47 ∷ t));
  resolve = λ base. some base;
  is_relative_to = λ full base. starts_with base full;
}

abbrev base : Text
base = 47 ∷ 98 ∷ []

abbrev file : Text
file = 97 ∷ 46 ∷ 98 ∷ []

validate_file_path_safe_example :
    (occurs (46 ∷ 46 ∷ []) file ≡ false)
    × (occurs (126 ∷ []) file ≡ false)
    × (occurs (0 ∷ []) file ≡ false)
    × (is_absolute file ≡ false)
    × ((full : Text) × (root : Text) × (◌≡◌ {A = Option Text}
          (some (base ++ (47 ∷ file)))
          (some full))
        × (◌≡◌ {A = Option Text} (some base) (some root))
        × (starts_with root full ≡ true))
validate_file_path_safe_example =
    validate_file_path_safe plain file base
      (unfold validate_file_path validate_path_traversal any_occurs occurs starts_with in refl)

abbrev tenant : Text
tenant = 97 ∷ 49 ∷ []

abbrev word : ℕ → Bool
word c = safe_skill_char c

-- "a\b c" becomes "a/b_c".
sanitize_filename-IsComponent_example : All IsComponent (split (97 ∷ 47 ∷ 98 ∷ 95 ∷ 99 ∷ []))
sanitize_filename-IsComponent_example =
    sanitize_filename-IsComponent word (97 ∷ 92 ∷ 98 ∷ 32 ∷ 99 ∷ []) (97 ∷ 47 ∷ 98 ∷ 95 ∷ 99 ∷ [])
      (unfold sanitize_filename matches safe_skill_char in refl)
