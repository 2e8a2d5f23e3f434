-- ===== src/Proxy/Whitelist.antt =====
-- The domain whitelist: app/services/proxy/domain_whitelist.py, over texts as lists of code points.
-- `lower` stands for `str.lower`; `hostname` for `urlparse(url).hostname`, with `none` for an
-- exception and an inner `none` for a URL without a host.
pub mod Subdomains
use claude_multi_agent.Base.{
  ℕ, Bool, true, false, ◌&&◌, ◌||◌, Option, none, some, List, [], ◌∷◌, ◌==◌, if◌then◌else◌,
}
use claude_multi_agent.Execute.Stream.{Text, strip}

-- `host == allowed`
unfoldable pub same_text : Text → Text → Bool
same_text [] [] = true
same_text [] (d ∷ ds) = false
same_text (c ∷ cs) [] = false
same_text (c ∷ cs) (d ∷ ds) = c == d && same_text cs ds

-- `host.endswith(suffix)`
unfoldable pub ends_with : Text → Text → Bool
ends_with [] suffix = same_text [] suffix
ends_with (c ∷ cs) suffix = same_text (c ∷ cs) suffix || ends_with cs suffix

module _ (lower : Text → Text) where
  keep_domain : Text → List Text → List Text
  keep_domain [] rest = rest
  keep_domain (c ∷ cs) rest = lower (c ∷ cs) ∷ rest

  -- `DomainWhitelist(allowed_domains)`, whose set is a list here.
  unfoldable pub domains : List Text → List Text
  unfolding keep_domain
  domains [] = []
  domains (d ∷ ds) = keep_domain (strip d) (domains ds)

  matches_any : Text → List Text → Bool
  matches_any host [] = false
  matches_any host (d ∷ ds) = (same_text host d || ends_with host (46 ∷ d)) || matches_any host ds

  host_allowed : Text → List Text → Bool
  host_allowed [] allowed = false
  host_allowed (c ∷ cs) allowed = matches_any (c ∷ cs) allowed

  -- `(parsed.hostname or "").lower()`
  pub host_of : Option Text → Text
  host_of none = lower []
  host_of (some h) = lower h

  pub allowed_by : Option (Option Text) → List Text → Bool
  allowed_by none allowed = false
  allowed_by (some parsed) allowed = host_allowed (host_of parsed) allowed

  unfoldable pub is_allowed : (Text → Option (Option Text)) → List Text → Text → Bool
  unfolding allowed_by host_allowed matches_any host_of same_text ends_with
  is_allowed hostname allowed url = allowed_by (hostname url) allowed
