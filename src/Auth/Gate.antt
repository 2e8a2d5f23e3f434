-- ===== src/Auth/Gate.antt =====
-- Which requests the check of API keys lets through.
use claude_multi_agent.Base.{
  ℕ, String, true, false, Option, none, some, List, [], ◌∷◌, All, ◌≡◌, ◌≢◌, ◌⊎◌, inl, inr, ◌↔◌,
  refl, sym, subst, ◌∙◌, arith, Bool-cases,
}
use mathlib.Core.Bool.{true≢false}
use claude_multi_agent.Execute.Stream.{Text}
use claude_multi_agent.Proxy.Words.{codes}
use claude_multi_agent.Proxy.Whitelist.{same_text}
use claude_multi_agent.Proxy.Whitelist.Subdomains.{same_text-eq, same_text_refl}
use claude_multi_agent.Auth.{
  Scope, Reply, passed, refused, call, api_key_hashes, is_enabled, verify_key, should_skip_auth,
  extract_api_key, path_of, checked,
}

-- Some element satisfies `P`.
abbrev pub Some : (Text → Type 0) → List Text → Type 0
Some P [] = ⊥
Some P (x ∷ xs) = P x ⊎ Some P xs

-- A provided key has the hash of a configured key only if it is that key.
abbrev pub Separates : (Text → Text) → List Text → Text → Type 0
Separates hash keys provided = All (λ k. hash provided ≡ hash k → provided ≡ k) keys

-- The key that was found is one of the configured ones, and not empty.
abbrev pub IsKeyOf : List Text → Option Text → Type 0
IsKeyOf keys none = ⊥
IsKeyOf keys (some []) = ⊥
IsKeyOf keys (some (c ∷ t)) = Some (λ k. (c ∷ t) ≡ k) keys

abbrev pub SeparatesFound : (Text → Text) → List Text → Option Text → Type 0
SeparatesFound hash keys none = Unit
SeparatesFound hash keys (some provided) = Separates hash keys provided

-- What may go on: another protocol than HTTP; anything, if no key is configured; a path that is
-- exempt; and a request that brings a configured key.
abbrev pub IsPermitted : List Text → Scope → Type 0
IsPermitted keys s =
    (s.kind ≢ codes "http")
    ⊎ (All (λ k. k ≡ []) keys
        ⊎ ((should_skip_auth (path_of s) ≡ true) ⊎ IsKeyOf keys (extract_api_key s)))

module _ (hash : Text → Text) where
  verified :
      (keys : List Text) (provided : Text)
      → Separates hash keys provided
      → verify_key hash (api_key_hashes hash keys) provided ≡ true
      → Some (λ k. provided ≡ k) keys
  unfolding verify_key api_key_hashes
  verified [] provided h e = absurd (ground arith)
  verified ([] ∷ keys) provided h e = inr (verified keys provided h.1 e)
  verified ((c ∷ t) ∷ keys) provided h e =
      elim (Bool-cases (same_text (hash provided) (hash (c ∷ t)))) [
        | inl same ↦ inl (h.0 (same_text-eq _ _ same))
        | inr other ↦ inr (verified keys provided h.1 (ground (arith)))
      ]

  known :
      (keys : List Text) (c : ℕ) (t : Text)
      → Some (λ k. (c ∷ t) ≡ k) keys
      → verify_key hash (api_key_hashes hash keys) (c ∷ t) ≡ true
  unfolding verify_key api_key_hashes
  known [] c t s = absurd s
  known ([] ∷ keys) c t (inl e) = absurd (ground arith)
  known ([] ∷ keys) c t (inr s) = known keys c t s
  known ((d ∷ u) ∷ keys) c t (inl e) =
      let same : same_text (hash (c ∷ t)) (hash (d ∷ u)) ≡ true =
        subst (λ k. same_text (hash (c ∷ t)) (hash k) ≡ true) e (same_text_refl (hash (c ∷ t))) in
      ground arith
  known ((d ∷ u) ∷ keys) c t (inr s) = let ih = known keys c t s in ground arith

  -- With no key that is not empty the check is off.
  disabled :
      (keys : List Text) → (is_enabled (api_key_hashes hash keys) ≡ false) ↔ All (λ k. k ≡ []) keys
  unfolding is_enabled api_key_hashes
  disabled [] = (λ e. tt, λ h. refl)
  disabled ([] ∷ keys) = (λ e. (refl, (disabled keys).0 e), λ h. (disabled keys).1 h.1)
  disabled ((c ∷ t) ∷ keys) = (λ e. absurd (ground arith), λ h. absurd (ground (arith, h.0)))

  abbrev IsRefusal : Reply → Type 0
  IsRefusal r = (message : String) × (r ≡ refused 401 "UNAUTHORIZED" message)

  by_key :
      (keys : List Text) (s : Scope) (o : Option Text)
      → SeparatesFound hash keys o
      → (IsKeyOf keys o × (checked hash (api_key_hashes hash keys) s o ≡ passed s))
        ⊎ ((¬ IsKeyOf keys o) × IsRefusal (checked hash (api_key_hashes hash keys) s o))
  unfolding checked
  by_key keys s none h = inr (λ e. e, ("APIキーが必要です", refl))
  by_key keys s (some []) h = inr (λ e. e, ("APIキーが必要です", refl))
  by_key keys s (some (c ∷ t)) h =
      elim (Bool-cases (verify_key hash (api_key_hashes hash keys) (c ∷ t))) [
        | inl e ↦ inl (verified keys (c ∷ t) h e, rw e refl)
        | inr e ↦
            inr (λ k. absurd (true≢false (sym (known keys c t k) ∙ e)), ("無効なAPIキーです", rw e refl))
      ]

  is_http : (s : Scope) → (s.kind ≡ codes "http") → same_text s.kind (codes "http") ≡ true
  is_http s e = subst (λ k. same_text s.kind k ≡ true) e (same_text_refl s.kind)

  -- With a key configured, a request over HTTP for a path that is not exempt needs a key.
  needs_key :
      (keys : List Text) (s : Scope)
      → same_text s.kind (codes "http") ≡ true
      → is_enabled (api_key_hashes hash keys) ≡ true
      → should_skip_auth (path_of s) ≡ false
      → IsPermitted keys s
      → IsKeyOf keys (extract_api_key s)
  needs_key keys s http on no_skip (inl other) = absurd (other (same_text-eq _ _ http))
  needs_key keys s http on no_skip (inr (inl empty)) =
      absurd (true≢false (sym on ∙ (disabled keys).1 empty))
  needs_key keys s http on no_skip (inr (inr (inl skip))) = absurd (true≢false (sym skip ∙ no_skip))
  needs_key keys s http on no_skip (inr (inr (inr key))) = key

  -- If the hash tells the key that a request brings from the configured ones, the request goes on as
  -- it came exactly when it is permitted, and is answered with 401 and UNAUTHORIZED otherwise.
  pub call-IsPermitted :
      (keys : List Text) (s : Scope)
      → SeparatesFound hash keys (extract_api_key s)
      → (IsPermitted keys s × (call hash keys s ≡ passed s))
        ⊎ ((¬ IsPermitted keys s) × IsRefusal (call hash keys s))
  unfolding call
  call-IsPermitted keys s h = elim (Bool-cases (same_text s.kind (codes "http"))) [
    | inr other ↦ inl (inl λ e. true≢false (sym (is_http s e) ∙ other), rw other refl)
    | inl http ↦ elim (Bool-cases (is_enabled (api_key_hashes hash keys))) [
      | inr off ↦ inl (inr (inl ((disabled keys).0 off)), rw http (rw off refl))
      | inl on ↦ elim (Bool-cases (should_skip_auth (path_of s))) [
        | inl skip ↦ inl (inr (inr (inl skip)), rw http (rw on (rw skip refl)))
        | inr no_skip ↦ elim (by_key keys s (extract_api_key s) h) [
          | inl (k, e) ↦ inl (inr (inr (inr k)), rw http (rw on (rw no_skip e)))
          | inr (n, (m, e)) ↦
              inr (λ p. n (needs_key keys s http on no_skip p), (m, rw http (rw on (rw no_skip e))))
        ]
      ]
    ]
  ]
