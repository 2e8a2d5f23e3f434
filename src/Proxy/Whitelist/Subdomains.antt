-- ===== src/Proxy/Whitelist/Subdomains.antt =====
-- A host is allowed exactly as a whole domain of the list or below one.
use mathlib.Core.Bool.{false≢true, ◌||◌}
use claude_multi_agent.Base.{
  true, Option, none, some, List, [], ◌∷◌, ◌++◌, ◌≡◌, ◌≢◌, ◌↔◌, ◌⊎◌, inl, inr, refl, ap, subst, ap₂,
  arith, Bool-cases,
}
use claude_multi_agent.Execute.Stream.{Text}
use claude_multi_agent.Proxy.Whitelist.{
  same_text, ends_with, matches_any, host_allowed, host_of, allowed_by, is_allowed,
}

-- The domain itself, or a name, a dot and the domain.
abbrev pub IsBelow : Text → Text → Type 0
IsBelow host d = (host ≡ d) ⊎ ((p : Text) × (host ≡ p ++ (46 ∷ d)))

-- Below some domain of the list.
abbrev pub BelowAny : Text → List Text → Type 0
BelowAny host [] = ⊥
BelowAny host (d ∷ ds) = IsBelow host d ⊎ BelowAny host ds

pub same_text-eq : (a b : Text) → same_text a b ≡ true → a ≡ b
unfolding same_text
same_text-eq [] [] h = refl
same_text-eq [] (d ∷ ds) h = cc
same_text-eq (c ∷ cs) [] h = cc
same_text-eq (c ∷ cs) (d ∷ ds) h =
    ap₂ (λ x xs. x ∷ xs) (ground arith) (same_text-eq cs ds (ground arith))

pub same_text_refl : (a : Text) → same_text a a ≡ true
unfolding same_text
same_text_refl [] = refl
same_text_refl (c ∷ cs) = ground (arith, same_text_refl cs)

ends_with-append : (p s : Text) → ends_with (p ++ s) s ≡ true
unfolding ends_with same_text
ends_with-append [] [] = refl
ends_with-append [] (c ∷ s) = rw (same_text_refl (c ∷ s)) refl
ends_with-append (x ∷ p) s = ground (arith, ends_with-append p s)

ends_with-split : (t s : Text) → ends_with t s ≡ true → (p : Text) × (t ≡ p ++ s)
unfolding ends_with
ends_with-split [] s h = ([], same_text-eq [] s h)
ends_with-split (c ∷ t) s h = elim (Bool-cases (same_text (c ∷ t) s)) [
  | inl e ↦ ([], same_text-eq (c ∷ t) s e)
  | inr e ↦ let (p, q) = ends_with-split t s (rw e at h) in (c ∷ p, ap (λ x. c ∷ x) q)
]

IsBelow-iff :
    (host d : Text) → ((same_text host d || ends_with host (46 ∷ d)) ≡ true) ↔ IsBelow host d
IsBelow-iff host d = (forward, back)
  where
    forward : (same_text host d || ends_with host (46 ∷ d)) ≡ true → IsBelow host d
    forward h = elim (Bool-cases (same_text host d)) [
      | inl e ↦ inl (same_text-eq host d e)
      | inr e ↦ inr (ends_with-split host (46 ∷ d) (rw e at h))
    ]

    back : IsBelow host d → (same_text host d || ends_with host (46 ∷ d)) ≡ true
    back (inl e) = rw (e, same_text_refl d) refl
    back (inr (p, e)) = rw e (ground (arith, ends_with-append p (46 ∷ d)))

module _ (lower : Text → Text) where
  matches_any_iff :
      (host : Text) (ds : List Text) → (matches_any lower host ds ≡ true) ↔ BelowAny host ds
  unfolding matches_any
  matches_any_iff host [] = (λ h. absurd (false≢true h), λ h. absurd h)
  matches_any_iff host (d ∷ ds) = ground (arith, IsBelow-iff host d, matches_any_iff host ds)

  host_allowed_iff :
      (h : Text) (ds : List Text) → (host_allowed lower h ds ≡ true) ↔ ((h ≢ []) × BelowAny h ds)
  unfolding host_allowed
  host_allowed_iff [] ds = (λ h. absurd (false≢true h), λ h. absurd (h.0 refl))
  host_allowed_iff (c ∷ cs) ds =
      let both = matches_any_iff (c ∷ cs) ds in (λ h. (λ e. cc e, both.0 h), λ h. both.1 h.1)

  allowed_by_iff :
      (o : Option (Option Text)) (ds : List Text)
      → (allowed_by lower o ds ≡ true) ↔ (
          (parsed : Option Text) × (o ≡ some parsed)
          × (host_of lower parsed ≢ [])
          × BelowAny (host_of lower parsed) ds)
  unfolding allowed_by
  allowed_by_iff none ds = (λ h. absurd (false≢true h), λ h. absurd (cc h.1))
  allowed_by_iff (some parsed) ds =
      let both = host_allowed_iff (host_of lower parsed) ds in
      (
        λ h. (parsed, refl, (both.0 h).0, (both.0 h).1),
        λ (q, e, n, b).
            let same : q ≡ parsed = cc e in
            both.1
              (subst (λ x. (host_of lower x ≢ []) × BelowAny (host_of lower x) ds) same (n, b)),
      )

  -- A URL is allowed exactly when it can be parsed, has a host, and the host in lower case is one of
  -- the domains or ends in a dot and one of the domains: no other name that ends in the same letters.
  pub is_allowed_lem :
      (hostname : Text → Option (Option Text)) (allowed : List Text) (url : Text)
      → (is_allowed lower hostname allowed url ≡ true) ↔ (
          (parsed : Option Text) × (hostname url ≡ some parsed)
          × (host_of lower parsed ≢ [])
          × BelowAny (host_of lower parsed) allowed)
  unfolding is_allowed
  is_allowed_lem hostname allowed url = allowed_by_iff (hostname url) allowed
