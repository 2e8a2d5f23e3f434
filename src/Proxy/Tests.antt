-- ===== src/Proxy/Tests.antt =====
-- The whitelist and the cache at concrete values, and the theorems on them.
use claude_multi_agent.Base.{
  ℕ, ◌+◌, String, true, false, Option, some, List, [], ◌∷◌, Outcome, returned, ◌≡◌, ◌≢◌, ◌↔◌, refl,
}
use claude_multi_agent.Execute.Stream.{Text}
use claude_multi_agent.Proxy.Whitelist.{host_of, is_allowed}
use claude_multi_agent.Proxy.Whitelist.Subdomains.{BelowAny, is_allowed_lem}

-- The URL is its host.
abbrev url_host : Text → Option (Option Text)
url_host url = some (some url)

abbrev same : Text → Text
same t = t

-- "a.b" below "b".
is_allowed_lem_example : (is_allowed same url_host ((98 ∷ []) ∷ []) (97 ∷ 46 ∷ 98 ∷ []) ≡ true) ↔ (
    (parsed : Option Text) × (url_host (97 ∷ 46 ∷ 98 ∷ []) ≡ some parsed)
    × (host_of same parsed ≢ [])
    × BelowAny (host_of same parsed) ((98 ∷ []) ∷ []))
is_allowed_lem_example = is_allowed_lem same url_host ((98 ∷ []) ∷ []) (97 ∷ 46 ∷ 98 ∷ [])

sibling_refused : is_allowed same url_host ((98 ∷ []) ∷ []) (97 ∷ 98 ∷ []) ≡ false
unfolding is_allowed
sibling_refused = refl

abbrev infos : List String
infos = "10.0.0.1" ∷ "10.0.0.2" ∷ "10.0.0.1" ∷ []

abbrev lookup_host : String → ℕ → Outcome (List String) ℕ × ℕ
lookup_host hostname w = (returned infos, w + 1)
