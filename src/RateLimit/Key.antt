-- ===== src/RateLimit/Key.antt =====
-- `_get_rate_limit_key` of app/middleware/rate_limit.py, over texts as lists of code points.
use mathlib.Core.List.{append_assoc}
use claude_multi_agent.Base.{
  ℕ, false, Option, none, some, List, [], ◌∷◌, ◌++◌, ◌==◌, ◌≡◌, refl, arith, All, ap, ap₂, ◌↔◌,
  if◌then◌else◌,
}

abbrev pub Text : Type 0
Text = List ℕ

-- "user:" and "ip:" and "unknown"
abbrev user_tag : Text
user_tag = 117 ∷ 115 ∷ 101 ∷ 114 ∷ 58 ∷ []

abbrev ip_tag : Text
ip_tag = 105 ∷ 112 ∷ 58 ∷ []

abbrev unknown : Text
unknown = 117 ∷ 110 ∷ 107 ∷ 110 ∷ 111 ∷ 119 ∷ 110 ∷ []

-- `value.split(",")[0]`
before_comma : Text → Text
before_comma [] = []
before_comma (c ∷ t) = let rest = before_comma t in if c == 44 then [] else c ∷ rest

-- A header that is missing or empty is none.
present : Option Text → Option Text
present (some (c ∷ t)) = some (c ∷ t)
present _ = none

-- The key of an address: of the first forwarded one, or of the client's.
ip_key : (Text → Text) → Text → Option Text → Option Text → Text
ip_key strip prefix (some forwarded) client = prefix ++ (ip_tag ++ strip (before_comma forwarded))
ip_key strip prefix none (some host) = prefix ++ (ip_tag ++ host)
ip_key strip prefix none none = prefix ++ (ip_tag ++ unknown)

user_key : Text → Text → Text → Text
user_key prefix tenant_id user_id = prefix ++ (user_tag ++ (tenant_id ++ (58 ∷ user_id)))

choose_key : (Text → Text) → Text → Option Text → Option Text → Option Text → Option Text → Text
choose_key strip prefix (some user_id) (some tenant_id) forwarded client =
    user_key prefix tenant_id user_id
choose_key strip prefix _ _ forwarded client = ip_key strip prefix forwarded client

-- `strip` is `str.strip`; the headers are X-User-ID, X-Tenant-ID and X-Forwarded-For.
unfoldable pub get_rate_limit_key :
    (Text → Text) → Text → Option Text → Option Text → Option Text → Option Text → Text
unfolding choose_key ip_key user_key present before_comma
get_rate_limit_key strip prefix user_id tenant_id forwarded client =
    choose_key strip prefix (present user_id) (present tenant_id) (present forwarded) client

append_cancel : (p a b : Text) → p ++ a ≡ p ++ b → a ≡ b
append_cancel [] a b h = h
append_cancel (x ∷ p) a b h = append_cancel p a b (cc h)

abbrev NoColon : Text → Type 0
NoColon = All (λ c. (c == 58) ≡ false)

colon_split :
    (a b x y : Text) → NoColon a → NoColon b → a ++ (58 ∷ x) ≡ b ++ (58 ∷ y) → (a ≡ b) × (x ≡ y)
colon_split [] [] x y h k e = (refl, cc e)
colon_split [] (c ∷ b) x y h k e = let head : 58 ≡ c = cc e in absurd (ground arith)
colon_split (c ∷ a) [] x y h k e = let head : c ≡ 58 = cc e in absurd (ground arith)
colon_split (c ∷ a) (d ∷ b) x y h k e =
    let head : c ≡ d = cc e in
    let tails : a ++ (58 ∷ x) ≡ b ++ (58 ∷ y) = cc e in
    let (same, rest) = colon_split a b x y h.1 k.1 tails in (ap₂ (λ z zs. z ∷ zs) head same, rest)

-- Requests that name a user and a tenant without a colon share a counter exactly when both names are
-- the same, whatever their other headers and addresses are.
user_key_injective :
    (strip : Text → Text) (prefix : Text) (u v : ℕ) (us vs : Text) (t w : ℕ) (ts ws : Text)
    (f g c d : Option Text)
    → NoColon (t ∷ ts)
    → NoColon (w ∷ ws)
    → (get_rate_limit_key strip prefix (some (u ∷ us)) (some (t ∷ ts)) f c
        ≡ get_rate_limit_key strip prefix (some (v ∷ vs)) (some (w ∷ ws)) g d)
      ↔ ((◌≡◌ {A = Text} (t ∷ ts) (w ∷ ws)) × (◌≡◌ {A = Text} (u ∷ us) (v ∷ vs)))
unfolding get_rate_limit_key
user_key_injective strip prefix u v us vs t w ts ws f g c d h k = (
  λ e.
      colon_split (t ∷ ts) (w ∷ ws) (u ∷ us) (v ∷ vs) h k
        (append_cancel user_tag _ _ (append_cancel prefix _ _ e)),
  λ p. ap₂ (user_key prefix) p.0 p.1,
)

-- A tenant name with a colon shares its counter with another tenant: what stands behind the colon
-- can as well be the beginning of the user's name.
user_key_collision :
    (strip : Text → Text) (prefix : Text) (u t b : ℕ) (us ts bs : Text) (f c : Option Text)
    → get_rate_limit_key strip prefix (some (u ∷ us)) (some (t ∷ (ts ++ (58 ∷ (b ∷ bs))))) f c
      ≡ get_rate_limit_key strip prefix (some (b ∷ (bs ++ (58 ∷ (u ∷ us))))) (some (t ∷ ts)) f c
unfolding get_rate_limit_key
user_key_collision strip prefix u t b us ts bs f c =
    ap (λ k. prefix ++ (user_tag ++ (t ∷ k))) (append_assoc ts (58 ∷ (b ∷ bs)) (58 ∷ (u ∷ us)))
