-- ===== src/Auth.antt =====
-- The check of API keys in front of the HTTP application: app/middleware/auth.py. A scope is read
-- byte by byte; SHA-256 is a parameter.
pub mod Gate
mod Tests
use claude_multi_agent.Base.{
  ℕ, ◌+◌, String, Bool, true, false, ◌&&◌, ◌||◌, not, Option, none, some, List, [], ◌∷◌, map, leb,
  if◌then◌else◌,
}
use claude_multi_agent.Execute.Stream.{Text}
use claude_multi_agent.Security.Traversal.{starts_with}
use claude_multi_agent.Proxy.Words.{codes}
use claude_multi_agent.Proxy.Whitelist.{same_text}

-- The parts of an ASGI scope that are read.
pub record Scope : Type 0 where
  pub kind : Text
  pub path : Option Text
  pub headers : List (Text × Text)

-- `bytes.lower()`
abbrev lower_byte : ℕ → ℕ
lower_byte c = if leb 65 c && leb c 90 then c + 32 else c

-- `SKIP_AUTH_PATHS`
abbrev pub skip_auth_paths : List Text
skip_auth_paths =
    codes "/"
    ∷ codes "/health"
    ∷ codes "/health/live"
    ∷ codes "/health/ready"
    ∷ codes "/metrics"
    ∷ codes "/docs"
    ∷ codes "/redoc"
    ∷ codes "/openapi.json"
    ∷ []

-- `value in values`
unfoldable pub is_member : Text → List Text → Bool
is_member x [] = false
is_member x (y ∷ ys) = same_text x y || is_member x ys

-- `_should_skip_auth`, with `SKIP_AUTH_PREFIXES`.
unfoldable pub should_skip_auth : Text → Bool
should_skip_auth path =
    is_member path skip_auth_paths
    || (starts_with (codes "/docs") path || starts_with (codes "/redoc") path)

-- `_get_header`: the first header of the name; latin-1 gives each byte its code point.
unfoldable pub get_header : Text → List (Text × Text) → Option Text
get_header name [] = none
get_header name ((k, v) ∷ hs) =
    if same_text (map lower_byte k) name then some v else get_header name hs

-- `auth_header[n:]` after `auth_header.startswith` of a text of n characters.
after_prefix : Text → Text → Option Text
after_prefix [] t = some t
after_prefix (p ∷ ps) [] = none
after_prefix (p ∷ ps) (c ∷ t) =
    let rest = after_prefix ps t in if leb p c && leb c p then rest else none

bearer_key : Option Text → Option Text
bearer_key none = none
bearer_key (some t) = after_prefix (codes "Bearer ") t

or_bearer : Option Text → Option Text → Option Text
or_bearer (some (c ∷ t)) bearer = some (c ∷ t)
or_bearer (some []) bearer = bearer
or_bearer none bearer = bearer

-- `_extract_api_key`
unfoldable pub extract_api_key : Scope → Option Text
unfolding or_bearer bearer_key after_prefix
extract_api_key scope =
    or_bearer (get_header (codes "x-api-key") scope.headers)
      (bearer_key (get_header (codes "authorization") scope.headers))

-- The answers: the scope goes on to the application, or a JSON body with a code goes back.
pub data Reply : Type 0 where
  passed : Scope → Reply
  refused : ℕ → String → String → Reply

abbrev is_empty : Text → Bool
is_empty [] = true
is_empty (c ∷ t) = false

-- `scope.get("path", "")`
abbrev pub path_of : Scope → Text
path_of scope = elim scope.path [ none ↦ [] | some p ↦ p ]

-- `enabled`
unfoldable pub is_enabled : List Text → Bool
is_enabled [] = false
is_enabled (h ∷ hs) = true

module _ (hash : Text → Text) where
  -- `api_key_hashes`, a set, which is a list here: only membership is asked for.
  unfoldable pub api_key_hashes : List Text → List Text
  api_key_hashes [] = []
  api_key_hashes (key ∷ keys) =
      let rest = api_key_hashes keys in if is_empty key then rest else hash key ∷ rest

  -- `_verify_key`
  unfoldable pub verify_key : List Text → Text → Bool
  verify_key [] provided = false
  verify_key (stored ∷ hs) provided =
      let rest = verify_key hs provided in if same_text (hash provided) stored then true else rest

  -- The end of `__call__`, with the key that was extracted.
  unfoldable pub checked : List Text → Scope → Option Text → Reply
  checked hashes scope none = refused 401 "UNAUTHORIZED" "APIキーが必要です"
  checked hashes scope (some []) = refused 401 "UNAUTHORIZED" "APIキーが必要です"
  checked hashes scope (some (c ∷ t)) =
      if verify_key hashes (c ∷ t) then passed scope else refused 401 "UNAUTHORIZED" "無効なAPIキーです"

  -- `__call__`, on the scope alone: what the application then does is not its concern.
  unfoldable pub call : List Text → Scope → Reply
  call api_keys scope =
      let hashes = api_key_hashes api_keys in
      if not (same_text scope.kind (codes "http"))
      then passed scope
      else if not (is_enabled hashes)
      then passed scope
      else if should_skip_auth (path_of scope)
      then passed scope
      else checked hashes scope (extract_api_key scope)
