-- ===== src/Auth/Tests.antt =====
-- The check of API keys, run on small scopes; a key stands for its own hash.
use claude_multi_agent.Base.{String, some, List, [], ◌∷◌, ◌≡◌, ◌⊎◌, refl}
use claude_multi_agent.Execute.Stream.{Text}
use claude_multi_agent.Security.Traversal.{starts_with}
use claude_multi_agent.Proxy.Words.{codes}
use claude_multi_agent.Proxy.Whitelist.{same_text}
use claude_multi_agent.Auth.{
  Scope, passed, refused, call, api_key_hashes, is_enabled, verify_key, should_skip_auth, is_member,
  get_header, extract_api_key, checked,
}
use claude_multi_agent.Auth.Gate.{IsPermitted, call-IsPermitted}

abbrev keys : List Text
keys = [] ∷ codes "k1" ∷ codes "k2" ∷ []

abbrev with_header : String → String → Scope
with_header name value = record {
  kind = codes "http";
  path = some (codes "/api/tenants");
  headers = (codes "X-Api-Key", []) ∷ (codes name, codes value) ∷ [];
}

with_bearer :
    call (λ k. k) keys (with_header "Authorization" "Bearer k2")
    ≡ passed (with_header "Authorization" "Bearer k2")
unfolding call api_key_hashes is_enabled verify_key should_skip_auth is_member get_header
    extract_api_key checked same_text starts_with
with_bearer = refl

call-IsPermitted_example :
    (IsPermitted keys (with_header "Authorization" "Bearer k2")
      × (call (λ k. k) keys (with_header "Authorization" "Bearer k2")
          ≡ passed (with_header "Authorization" "Bearer k2")))
    ⊎ ((¬ IsPermitted keys (with_header "Authorization" "Bearer k2"))
        × ((message : String) × (call (λ k. k) keys (with_header "Authorization" "Bearer k2")
              ≡ refused 401 "UNAUTHORIZED" message)))
unfolding get_header extract_api_key same_text
call-IsPermitted_example =
    call-IsPermitted (λ k. k) keys (with_header "Authorization" "Bearer k2")
      (λ e. e, (λ e. e, (λ e. e, tt)))
