-- ===== src/Masking/Places.antt =====
-- What stands at each place of masked data, where a place is the way to it: keys of dictionaries and
-- positions in lists.

use mathlib.Core.Option
use claude_multi_agent.Base.{
  ℕ, zero, suc, ◌+◌, ◌≤◌, ◌<◌, String, true, false, Option, none, some, List, [], ◌∷◌, ◌++◌, length,
  All, ◌≡◌, refl, sym, ap, ◌∙◌, arith, ltb, if◌then◌else◌,
}
use text.Mathlib.TextEquality.{eq_iff}
use claude_multi_agent.Json.{Json, Items, Fields, lookup}
use claude_multi_agent.Execute.Stream.{Text}
use claude_multi_agent.Masking.{
  sanitize_log_data, sanitize_items, sanitize_fields, is_sensitive, mask,
}

pub data Step : Type 0 where
  key : String → Step
  position : ℕ → Step

unfoldable pub item : ℕ → Items → Option Json
item n Items.nil = none
item zero (Items.cons x xs) = some x
item (suc n) (Items.cons x xs) = item n xs

unfoldable pub enter : Step → Json → Option Json
enter (key k) (Json.obj fs) = lookup k fs
enter (position n) (Json.arr xs) = item n xs
enter s x = none

-- The way on from what stands at a place, if anything does.
unfoldable pub follow : List Step → Option Json → Option Json
follow [] o = o
follow (s ∷ p) none = none
follow (s ∷ p) (some x) = follow p (enter s x)

follow-none : (p : List Step) → follow p none ≡ none
unfolding follow
follow-none [] = refl
follow-none (s ∷ p) = refl

follow-append : (p q : List Step) (o : Option Json) → follow (p ++ q) o ≡ follow q (follow p o)
unfolding follow
follow-append [] q o = refl
follow-append (s ∷ p) q none = sym (follow-none q)
follow-append (s ∷ p) q (some x) = follow-append p q (enter s x)

module _ (fold : String → Text) where
  abbrev pub IsPlain : Step → Type 0
  IsPlain (key k) = is_sensitive fold k ≡ false
  IsPlain (position n) = Unit

  item-sanitize_items :
      (d n : ℕ) (xs : Items)
      → item n (sanitize_items fold d xs) ≡ Option.map (sanitize_log_data fold d) (item n xs)
  unfolding item sanitize_items
  item-sanitize_items d n Items.nil = refl
  item-sanitize_items d zero (Items.cons x xs) = refl
  item-sanitize_items d (suc n) (Items.cons x xs) = item-sanitize_items d n xs

  entered : ℕ → String → Json → Json
  entered d k v = if is_sensitive fold k then Json.str mask else sanitize_log_data fold d v

  lookup-sanitize_fields :
      (d : ℕ) (k : String) (fs : Fields)
      → lookup k (sanitize_fields fold d fs) ≡ Option.map (entered d k) (lookup k fs)
  unfolding sanitize_fields entered
  lookup-sanitize_fields d k Fields.end = refl
  lookup-sanitize_fields d k (Fields.field j v fs) =
      ground (arith, eq_iff j k, lookup-sanitize_fields d k fs)

  plain_entered :
      (d : ℕ) (k : String) (o : Option Json)
      → is_sensitive fold k ≡ false
      → Option.map (entered d k) o ≡ Option.map (sanitize_log_data fold d) o
  unfolding entered
  plain_entered d k none h = refl
  plain_entered d k (some v) h = rw h refl

  masked_entered :
      (d : ℕ) (k : String) (o : Option Json)
      → is_sensitive fold k ≡ true
      → Option.map (entered d k) o ≡ Option.map (λ v. Json.str mask) o
  unfolding entered
  masked_entered d k none h = refl
  masked_entered d k (some v) h = rw h refl

  within : (d : ℕ) → d ≤ 10 → ltb 10 d ≡ false
  within d le = ground arith

  enter-plain :
      (d : ℕ) (s : Step) (x : Json)
      → IsPlain s
      → d ≤ 10
      → enter s (sanitize_log_data fold d x)
        ≡ Option.map (sanitize_log_data fold (suc d)) (enter s x)
  unfolding enter sanitize_log_data
  enter-plain d (key k) (Json.obj fs) h le =
      rw (within d le)
        (lookup-sanitize_fields (suc d) k fs ∙ plain_entered (suc d) k (lookup k fs) h)
  enter-plain d (position n) (Json.arr xs) h le =
      rw (within d le) (item-sanitize_items (suc d) n xs)
  enter-plain d (key k) (Json.arr xs) h le = ground arith
  enter-plain d (position n) (Json.obj fs) h le = ground arith
  enter-plain d (key k) Json.null h le = refl
  enter-plain d (key k) (Json.bool b) h le = refl
  enter-plain d (key k) (Json.num n) h le = refl
  enter-plain d (key k) (Json.str t) h le = refl
  enter-plain d (position n) Json.null h le = refl
  enter-plain d (position n) (Json.bool b) h le = refl
  enter-plain d (position n) (Json.num m) h le = refl
  enter-plain d (position n) (Json.str t) h le = refl

  enter-sensitive :
      (d : ℕ) (k : String) (x : Json)
      → is_sensitive fold k ≡ true
      → d ≤ 10
      → enter (key k) (sanitize_log_data fold d x)
        ≡ Option.map (λ v. Json.str mask) (enter (key k) x)
  unfolding enter sanitize_log_data
  enter-sensitive d k (Json.obj fs) h le =
      rw (within d le)
        (lookup-sanitize_fields (suc d) k fs ∙ masked_entered (suc d) k (lookup k fs) h)
  enter-sensitive d k (Json.arr xs) h le = ground arith
  enter-sensitive d k Json.null h le = refl
  enter-sensitive d k (Json.bool b) h le = refl
  enter-sensitive d k (Json.num n) h le = refl
  enter-sensitive d k (Json.str t) h le = refl

  follow-plain :
      (d : ℕ) (p : List Step) (o : Option Json)
      → All IsPlain p
      → d + length p ≤ 11
      → follow p (Option.map (sanitize_log_data fold d) o)
        ≡ Option.map (sanitize_log_data fold (d + length p)) (follow p o)
  unfolding follow
  follow-plain d [] o h le = ap (λ n. Option.map (sanitize_log_data fold n) o) (omega arith)
  follow-plain d (s ∷ p) none h le = refl
  follow-plain d (s ∷ p) (some x) h le =
      ap (follow p) (enter-plain d s x h.0 (omega arith))
      ∙ follow-plain (suc d) p (enter s x) h.1 (omega arith)
      ∙ ap (λ n. Option.map (sanitize_log_data fold n) (follow p (enter s x))) (omega arith)

  at_sensitive :
      (d : ℕ) (k : String) (o : Option Json)
      → is_sensitive fold k ≡ true
      → d ≤ 10
      → follow (key k ∷ []) (Option.map (sanitize_log_data fold d) o)
        ≡ Option.map (λ v. Json.str mask) (follow (key k ∷ []) o)
  unfolding follow
  at_sensitive d k none h le = refl
  at_sensitive d k (some x) h le = enter-sensitive d k x h le

  beyond : (d : ℕ) (o : Option Json) → 10 < d → Option.map (sanitize_log_data fold d) o ≡ o
  unfolding sanitize_log_data
  beyond d none le = refl
  beyond d (some (Json.arr xs)) le = ground arith
  beyond d (some (Json.obj fs)) le = ground arith
  beyond d (some Json.null) le = refl
  beyond d (some (Json.bool b)) le = refl
  beyond d (some (Json.num n)) le = refl
  beyond d (some (Json.str t)) le = refl

  -- Under a sensitive key, at a place that is reached over at most ten keys and positions none of
  -- which is sensitive itself, masked data has the mask wherever the data had a value.
  pub masked_places :
      (p : List Step) (k : String) (x : Json)
      → All IsPlain p
      → is_sensitive fold k ≡ true
      → length p ≤ 10
      → follow (p ++ (key k ∷ [])) (some (sanitize_log_data fold 0 x))
        ≡ Option.map (λ v. Json.str mask) (follow (p ++ (key k ∷ [])) (some x))
  masked_places p k x h s le =
      follow-append p (key k ∷ []) (some (sanitize_log_data fold 0 x))
      ∙ ap (follow (key k ∷ [])) (follow-plain 0 p (some x) h (omega arith))
      ∙ at_sensitive (0 + length p) k (follow p (some x)) s (omega arith)
      ∙ ap (Option.map (λ v. Json.str mask)) (sym (follow-append p (key k ∷ []) (some x)))

  -- Behind eleven keys and positions none of which is sensitive nothing is masked: whatever keys come
  -- then, the places have the values that the data had there.
  pub unmasked_depths :
      (p q : List Step) (x : Json)
      → All IsPlain p
      → length p ≡ 11
      → follow (p ++ q) (some (sanitize_log_data fold 0 x)) ≡ follow (p ++ q) (some x)
  unmasked_depths p q x h le =
      follow-append p q (some (sanitize_log_data fold 0 x))
      ∙ ap (follow q) (follow-plain 0 p (some x) h (omega arith))
      ∙ ap (follow q) (beyond (0 + length p) (follow p (some x)) (omega arith))
      ∙ sym (follow-append p q (some x))
