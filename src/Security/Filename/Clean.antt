-- ===== src/Security/Filename/Clean.antt =====
-- What `sanitize_filename` guarantees of its result.
use claude_multi_agent.Base.{
  ℕ, Bool, false, Option, none, some, List, [], ◌∷◌, ◌++◌, ◌==◌, ◌≡◌, ◌≢◌, ◌⊎◌, refl, arith, All,
  inl, inr, Bool-cases, Option-cases, ap, sym, subst, ◌∙◌,
}
use claude_multi_agent.Security.Pattern.{Text}
use claude_multi_agent.Security.Filename.{
  slashes, cons_part, split, join, is_dots, add_part, joined, replace_unsafe, sanitize_part,
  sanitize_parts, sanitize_filename,
}

-- No "/" and no backslash.
abbrev pub NoSeparator : Text → Type 0
NoSeparator = All (λ c. ((c == 47) ≡ false) × ((c == 92) ≡ false))

-- A component that names an entry of its directory: not empty, no separator, not "." and not "..".
abbrev pub IsComponent : Text → Type 0
IsComponent [] = ⊥
IsComponent (c ∷ t) = NoSeparator (c ∷ t) × (is_dots (c ∷ t) ≡ false)

slashes-NoBackslash : (t : Text) → All (λ c. (c == 92) ≡ false) (slashes t)
unfolding slashes
slashes-NoBackslash [] = tt
slashes-NoBackslash (c ∷ t) = (ground arith, slashes-NoBackslash t)

cons_part-NoSeparator :
    (c : ℕ) (ps : List Text)
    → ((c == 47) ≡ false) × ((c == 92) ≡ false)
    → All NoSeparator ps
    → All NoSeparator (cons_part c ps)
unfolding cons_part
cons_part-NoSeparator c [] h k = ((h, tt), tt)
cons_part-NoSeparator c (p ∷ ps) h k = ((h, k.0), k.1)

split-NoSeparator : (t : Text) → All (λ c. (c == 92) ≡ false) t → All NoSeparator (split t)
unfolding split
split-NoSeparator [] h = (tt, tt)
split-NoSeparator (c ∷ t) h =
    let ih = split-NoSeparator t h.1 in
    elim (Bool-cases (c == 47)) [
      | inl e ↦ rw e (tt, ih)
      | inr e ↦ rw e (cons_part-NoSeparator c (split t) (e, h.0) ih)
    ]

some_eq : {rs qs : List Text} → some rs ≡ some qs → rs ≡ qs
some_eq e = cc

module _ (word : ℕ → Bool) where
  replace-NoSeparator : (t : Text) → NoSeparator t → NoSeparator (replace_unsafe word t)
  unfolding replace_unsafe
  replace-NoSeparator [] h = tt
  replace-NoSeparator (c ∷ t) h = (ground arith, replace-NoSeparator t h.1)

  -- A full stop is safe, and no other character is replaced by one.
  replace-is_dots : (t : Text) → is_dots (replace_unsafe word t) ≡ is_dots t
  unfolding replace_unsafe
  replace-is_dots [] = refl
  replace-is_dots (c ∷ []) = ground arith
  replace-is_dots (c ∷ d ∷ []) = ground arith
  replace-is_dots (c ∷ d ∷ e ∷ t) = refl

  IsComponent-of : (t : Text) → NoSeparator t → is_dots t ≡ false → t ≢ [] → IsComponent t
  IsComponent-of [] h k n = n refl
  IsComponent-of (c ∷ t) h k n = (h, k)

  sanitize_part-cases :
      (c : ℕ) (t r : Text)
      → sanitize_part word (c ∷ t) ≡ some r
      → (is_dots (c ∷ t) ≡ false) × ((r ≡ c ∷ t) ⊎ (r ≡ replace_unsafe word (c ∷ t)))
  unfolding sanitize_part
  sanitize_part-cases c t r e = ground arith

  sanitize_part-IsComponent :
      (c : ℕ) (t r : Text)
      → NoSeparator (c ∷ t)
      → sanitize_part word (c ∷ t) ≡ some r
      → IsComponent r
  sanitize_part-IsComponent c t r h e =
      let (d, which) = sanitize_part-cases c t r e in
      elim which [
        | inl same ↦ subst IsComponent (sym same) (h, d)
        | inr new ↦ subst IsComponent (sym new) (
            IsComponent-of (replace_unsafe word (c ∷ t)) (replace-NoSeparator (c ∷ t) h)
              (replace-is_dots (c ∷ t) ∙ d) (unfold replace_unsafe in λ p. cc p))
      ]

  sanitize_parts-IsComponent :
      (ps rs : List Text)
      → All NoSeparator ps
      → sanitize_parts word ps ≡ some rs
      → All IsComponent rs
  unfolding sanitize_parts add_part
  sanitize_parts-IsComponent [] rs h e = subst (All IsComponent) (some_eq e) tt
  sanitize_parts-IsComponent ([] ∷ ps) rs h e = sanitize_parts-IsComponent ps rs h.1 e
  sanitize_parts-IsComponent ((c ∷ t) ∷ ps) rs h e =
      elim (Option-cases (sanitize_part word (c ∷ t))) [
        | inl p ↦ absurd (ground arith)
        | inr (x, p) ↦ elim (Option-cases (sanitize_parts word ps)) [
          | inl q ↦ absurd (ground arith)
          | inr (xs, q) ↦ subst (All IsComponent) {x = x ∷ xs} (ground arith) (
              let y : All IsComponent (x ∷ xs) =
                (sanitize_part-IsComponent c t x h.0 p, sanitize_parts-IsComponent ps xs h.1 q) in
              y)
        ]
      ]

split_one : (p : Text) → NoSeparator p → split p ≡ p ∷ []
unfolding split
split_one [] h = refl
split_one (c ∷ p) h = rw (h.0.0, split_one p h.1)

split-append : (p t : Text) → NoSeparator p → split (p ++ (47 ∷ t)) ≡ p ∷ split t
unfolding split
split-append [] t h = refl
split-append (c ∷ p) t h = rw (h.0.0, split-append p t h.1)

split-join : (p : Text) (ps : List Text) → All NoSeparator (p ∷ ps) → split (join (p ∷ ps)) ≡ p ∷ ps
unfolding join
split-join p [] h = split_one p h.0
split-join p (q ∷ ps) h = split-append p (join (q ∷ ps)) h.0 ∙ ap (λ l. p ∷ l) (split-join q ps h.1)

All-NoSeparator : (ps : List Text) → All IsComponent ps → All NoSeparator ps
All-NoSeparator [] h = tt
All-NoSeparator ([] ∷ ps) h = absurd h.0
All-NoSeparator ((c ∷ t) ∷ ps) h = (h.0.0, All-NoSeparator ps h.1)

joined-parts :
    (o : Option (List Text)) (r : Text)
    → joined o ≡ some r
    → (p : Text) × (ps : List Text) × (o ≡ some (p ∷ ps)) × (r ≡ join (p ∷ ps))
unfolding joined
joined-parts none r e = absurd (cc e)
joined-parts (some []) r e = absurd (cc e)
joined-parts (some (p ∷ ps)) r e = (p, ps, refl, cc e)

module _ (word : ℕ → Bool) where
  sanitized_parts :
      (t r : Text)
      → sanitize_filename word t ≡ some r
      → joined (sanitize_parts word (split (slashes t))) ≡ some r
  unfolding sanitize_filename
  sanitized_parts [] r h = cc h
  sanitized_parts (c ∷ t) r h = h

  -- A sanitised file name, split at its slashes, consists of components none of which is empty, "."
  -- or "..", or holds a backslash.
  pub sanitize_filename-IsComponent :
      (t r : Text) → sanitize_filename word t ≡ some r → All IsComponent (split r)
  sanitize_filename-IsComponent t r h =
      let (p, ps, e, same) =
        joined-parts (sanitize_parts word (split (slashes t))) r (sanitized_parts t r h) in
      let clean =
        sanitize_parts-IsComponent word (split (slashes t)) (p ∷ ps)
          (split-NoSeparator (slashes t) (slashes-NoBackslash t)) e in
      rw (same, split-join p ps (All-NoSeparator (p ∷ ps) clean)) clean
