-- ===== src/Security/Traversal.antt =====
-- `validate_path_traversal` and `validate_file_path` of app/utils/security.py.
use mathlib.Core.Bool.{false≢true}
use claude_multi_agent.Base.{
  ◌∙◌, Bool, true, false, ◌&&◌, ◌||◌, Option, none, some, List, [], ◌∷◌, ◌==◌, ◌≡◌, refl, arith,
  if◌then◌else◌,
}
use claude_multi_agent.Security.Pattern.{Text}

pub data Error : Type 0 where
  path_traversal : Text → Error
  validation : Error

pub data Result (A : Type 0) : Type 0 where
  ok : A → Result A
  err : Error → Result A

-- `pattern in path`
unfoldable pub starts_with : Text → Text → Bool
starts_with [] t = true
starts_with (p ∷ ps) [] = false
starts_with (p ∷ ps) (c ∷ t) = p == c && starts_with ps t

unfoldable pub occurs : Text → Text → Bool
occurs p [] = starts_with p []
occurs p (c ∷ t) = starts_with p (c ∷ t) || occurs p t

-- "..", "~" and the null character.
abbrev pub path_traversal_patterns : List Text
path_traversal_patterns = (46 ∷ 46 ∷ []) ∷ (126 ∷ []) ∷ (0 ∷ []) ∷ []

unfoldable pub any_occurs : List Text → Text → Bool
any_occurs [] path = false
any_occurs (p ∷ ps) path = occurs p path || any_occurs ps path

-- `Path(path).is_absolute()` on a POSIX system.
abbrev pub is_absolute : Text → Bool
is_absolute [] = false
is_absolute (c ∷ t) = c == 47

-- What the file system contributes: `(base / path).resolve()` and `base.resolve()`, which may raise
-- OSError or ValueError, and `is_relative_to`.
pub record Paths (P : Type 0) : Type 0 where
  pub resolve_below : P → Text → Option P
  pub resolve : P → Option P
  pub is_relative_to : P → P → Bool

module _ {P : Type 0} (paths : Paths P) where
  open paths use {resolve_below, resolve, is_relative_to}

  contained : Option P → Option P → Bool
  contained (some full) (some base) = is_relative_to full base
  contained _ _ = false

  unfoldable pub validate_path_traversal : Text → Option P → Result (Unit {0})
  unfolding any_occurs contained
  validate_path_traversal path base_path =
      if any_occurs path_traversal_patterns path
      then err (path_traversal path)
      else if is_absolute path
      then err (path_traversal path)
      else elim base_path [
        | none ↦ ok tt
        | some base ↦
            if contained (resolve_below base path) (resolve base)
            then ok tt
            else err (path_traversal path)
      ]

  -- `validate_file_path`: the result is resolved once more, and that may raise again, which
  -- `none` stands for.
  unfoldable pub validate_file_path : Text → P → Result (Option P)
  validate_file_path [] base = err validation
  validate_file_path (c ∷ t) base = elim (validate_path_traversal (c ∷ t) (some base)) [
    | err e ↦ err e
    | ok _ ↦ ok (resolve_below base (c ∷ t))
  ]

  contained_parts :
      (a b : Option P)
      → contained a b ≡ true
      → (full : P) × (root : P) × (a ≡ some full)
        × (b ≡ some root)
        × (is_relative_to full root ≡ true)
  unfolding contained
  contained_parts none b h = absurd (false≢true h)
  contained_parts (some f) none h = absurd (false≢true h)
  contained_parts (some f) (some r) h = (f, r, refl, refl, h)

  accepted_parts :
      (path : Text) (base : P)
      → validate_path_traversal path (some base) ≡ ok tt
      → (occurs (46 ∷ 46 ∷ []) path ≡ false)
        × (occurs (126 ∷ []) path ≡ false)
        × (occurs (0 ∷ []) path ≡ false)
        × (is_absolute path ≡ false)
        × (contained (resolve_below base path) (resolve base) ≡ true)
  unfolding validate_path_traversal
  accepted_parts path base h = ground arith

  file_path_parts :
      (path : Text) (base : P) {r : Option P}
      → validate_file_path path base ≡ ok r
      → (validate_path_traversal path (some base) ≡ ok tt) × (r ≡ resolve_below base path)
  unfolding validate_file_path
  file_path_parts [] base h = cc
  file_path_parts (c ∷ t) base h = ground arith

  -- A path that is accepted below a base has none of the three patterns in it, is not absolute, and
  -- what is returned is the resolved path, which lies below the resolved base.
  pub validate_file_path_safe :
      (path : Text) (base : P) {r : Option P}
      → validate_file_path path base ≡ ok r
      → (occurs (46 ∷ 46 ∷ []) path ≡ false)
        × (occurs (126 ∷ []) path ≡ false)
        × (occurs (0 ∷ []) path ≡ false)
        × (is_absolute path ≡ false)
        × ((full : P) × (root : P) × (r ≡ some full)
            × (resolve base ≡ some root)
            × (is_relative_to full root ≡ true))
  validate_file_path_safe path base h =
      let (v, e) = file_path_parts path base h in
      let (dots, tilde, null, relative, inside) = accepted_parts path base v in
      let (full, root, a, b, below) =
        contained_parts (resolve_below base path) (resolve base) inside in
      (dots, tilde, null, relative, (full, root, e ∙ a, b, below))
