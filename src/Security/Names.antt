-- ===== src/Security/Names.antt =====
-- The checks of skill names, slash commands, tenant and conversation identifiers.
use claude_multi_agent.Base.{
  ℕ, ◌≤◌, Bool, true, false, ◌||◌, Option, none, some, [], ◌∷◌, ◌++◌, length, length-append, ltb,
  ◌==◌, ◌≡◌, refl, arith, All, if◌then◌else◌,
}
use claude_multi_agent.Security.Pattern.{
  Text, safe_skill_char, japanese, matches, matches_rest, matches-InClass, InClass,
}
use claude_multi_agent.Security.Traversal.{
  validation, Result, ok, err, Paths, validate_path_traversal, occurs, starts_with, any_occurs,
}

-- `validate_conversation_id`
unfoldable pub validate_conversation_id : Text → Result (Unit {0})
validate_conversation_id [] = err validation
validate_conversation_id (c ∷ t) =
    if ltb 200 (length (c ∷ t))
    then err validation
    else if matches safe_skill_char (c ∷ t)
    then ok tt
    else err validation

-- `validate_slash_command`, where `word` is the class `\w` of the regular expressions, and an
-- absent command is accepted.
slash_char : (ℕ → Bool) → ℕ → Bool
slash_char word c = word c || japanese c || c == 45

unfoldable pub validate_slash_command : (ℕ → Bool) → Option Text → Result (Unit {0})
unfolding slash_char
validate_slash_command word none = ok tt
validate_slash_command word (some []) = err validation
validate_slash_command word (some (c ∷ t)) =
    if ltb 100 (length (c ∷ t))
    then err validation
    else if matches (slash_char word) (c ∷ t)
    then ok tt
    else err validation

module _ {P : Type 0} (paths : Paths P) where
  -- `validate_skill_name`
  unfoldable pub validate_skill_name : Text → Result (Unit {0})
  validate_skill_name [] = err validation
  validate_skill_name (c ∷ t) =
      if ltb 200 (length (c ∷ t))
      then err validation
      else if matches safe_skill_char (c ∷ t)
      then validate_path_traversal paths (c ∷ t) none
      else err validation

  -- `validate_tenant_id`
  unfoldable pub validate_tenant_id : Text → Result (Unit {0})
  validate_tenant_id [] = err validation
  validate_tenant_id (c ∷ t) =
      if ltb 100 (length (c ∷ t))
      then err validation
      else if matches safe_skill_char (c ∷ t)
      then validate_path_traversal paths (c ∷ t) none
      else err validation

-- A character that is safe or a line feed is none that a path attack needs.
not_special :
    (c : ℕ)
    → InClass safe_skill_char c
    → ((46 == c) ≡ false) × ((126 == c) ≡ false) × ((0 == c) ≡ false) × ((c == 47) ≡ false)
unfolding safe_skill_char
not_special c h = ground arith

-- A character that does not occur.
no_char : (p : ℕ) (ps t : Text) → All (λ c. (p == c) ≡ false) t → occurs (p ∷ ps) t ≡ false
unfolding occurs starts_with
no_char p ps [] h = refl
no_char p ps (c ∷ t) h = ground (arith, no_char p ps t h.1)

All-special :
    (t : Text)
    → All (InClass safe_skill_char) t
    → All (λ c. (46 == c) ≡ false) t
      × All (λ c. (126 == c) ≡ false) t
      × All (λ c. (0 == c) ≡ false) t
All-special [] h = (tt, tt, tt)
All-special (c ∷ t) h =
    let (dot, tilde, null, slash) = not_special c h.0 in
    let (a, b, d) = All-special t h.1 in ((dot, a), (tilde, b), (null, d))

-- What the pattern accepts passes the path check.
matches-passes :
    {P : Type 0} (paths : Paths P) (c : ℕ) (t : Text)
    → matches safe_skill_char (c ∷ t) ≡ true
    → validate_path_traversal paths (c ∷ t) none ≡ ok tt
unfolding validate_path_traversal any_occurs
matches-passes paths c t h =
    let in_class = matches-InClass safe_skill_char (c ∷ t) h in
    let (a, b, d) = All-special (c ∷ t) in_class in
    rw
      (
        no_char 46 (46 ∷ []) (c ∷ t) a,
        no_char 126 [] (c ∷ t) b,
        no_char 0 [] (c ∷ t) d,
        (not_special c in_class.0).3,
      )
      refl

-- The check of a skill name, path check included, gives for every text the result that the check of
-- a conversation identifier gives: its path check never rejects what the pattern accepts.
skill_name-eq-conversation_id :
    {P : Type 0} (paths : Paths P) (t : Text)
    → validate_skill_name paths t ≡ validate_conversation_id t
unfolding validate_skill_name validate_conversation_id
skill_name-eq-conversation_id paths [] = refl
skill_name-eq-conversation_id paths (c ∷ t) = ground (arith, matches-passes paths c t)

-- A tenant identifier that is accepted is not empty, is at most 100 characters long, and consists of
-- letters, digits, `_`, `-` and line feeds.
validate_tenant_id_safe :
    {P : Type 0} (paths : Paths P) (t : Text)
    → validate_tenant_id paths t ≡ ok tt
    → (1 ≤ length t) × (length t ≤ 100) × All (InClass safe_skill_char) t
unfolding validate_tenant_id
validate_tenant_id_safe paths [] h = cc
validate_tenant_id_safe paths (c ∷ t) h =
    (omega arith, ground arith, matches-InClass safe_skill_char (c ∷ t) (ground arith))

matches_rest-line_feed :
    (cls : ℕ → Bool) (t : Text)
    → All (λ c. cls c ≡ true) t
    → matches_rest cls (t ++ (10 ∷ [])) ≡ true
unfolding matches_rest
matches_rest-line_feed cls [] h = ground arith
matches_rest-line_feed cls (c ∷ []) h = ground arith
matches_rest-line_feed cls (c ∷ d ∷ t) h = ground (arith, matches_rest-line_feed cls (d ∷ t))

-- An identifier of at most 99 letters, digits, `_` and `-` is accepted with a line feed behind it.
validate_tenant_id_line_feed :
    {P : Type 0} (paths : Paths P) (c : ℕ) (t : Text)
    → All (λ x. safe_skill_char x ≡ true) (c ∷ t)
    → length (c ∷ t) ≤ 99
    → validate_tenant_id paths (c ∷ (t ++ (10 ∷ []))) ≡ ok tt
unfolding validate_tenant_id matches
validate_tenant_id_line_feed paths c t h k = ground (
  arith,
  matches_rest-line_feed safe_skill_char t h.1,
  matches-passes paths c (t ++ (10 ∷ [])),
  length-append t (10 ∷ []),
)
