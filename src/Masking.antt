-- ===== src/Masking.antt =====
-- The masking of secrets before data is logged: `sanitize_log_data` of
-- app/utils/sensitive_filter.py. Python's `re` is asked to ignore case; how it folds the characters
-- of a text is a parameter.
pub mod Twice
pub mod Places
mod Tests
use claude_multi_agent.Base.{ℕ, suc, String, Bool, List, [], ◌∷◌, ltb, if◌then◌else◌}
use claude_multi_agent.Json.{Json, Items, Fields}
use claude_multi_agent.Execute.Stream.{Text}
use claude_multi_agent.Security.Traversal.{any_occurs, occurs, starts_with}
use claude_multi_agent.Proxy.Words.{codes}

-- `_MASK`
abbrev pub mask : String
mask = "***REDACTED***"

-- `_SENSITIVE_DICT_KEYS`, whose alternatives are plain words.
abbrev pub sensitive_dict_keys : List Text
sensitive_dict_keys =
    codes "password"
    ∷ codes "secret"
    ∷ codes "token"
    ∷ codes "api_key"
    ∷ codes "apikey"
    ∷ codes "access_key"
    ∷ codes "private_key"
    ∷ codes "authorization"
    ∷ codes "credential"
    ∷ codes "auth_token"
    ∷ []

-- The depth behind which nothing is looked into.
abbrev pub max_depth : ℕ
max_depth = 10

module _ (fold : String → Text) where
  -- `_SENSITIVE_DICT_KEYS.search(key)`
  unfoldable pub is_sensitive : String → Bool
  is_sensitive key = any_occurs sensitive_dict_keys (fold key)

  -- `sanitize_log_data(data, _depth=depth)`
  unfoldable mutual
    pub sanitize_log_data : ℕ → Json → Json
    sanitize_log_data depth (Json.arr xs) =
        let inside = sanitize_items (suc depth) xs in
        if ltb max_depth depth then Json.arr xs else Json.arr inside
    sanitize_log_data depth (Json.obj fs) =
        let inside = sanitize_fields (suc depth) fs in
        if ltb max_depth depth then Json.obj fs else Json.obj inside
    sanitize_log_data depth Json.null = Json.null
    sanitize_log_data depth (Json.bool b) = Json.bool b
    sanitize_log_data depth (Json.num n) = Json.num n
    sanitize_log_data depth (Json.str s) = Json.str s

    pub sanitize_items : ℕ → Items → Items
    sanitize_items depth Items.nil = Items.nil
    sanitize_items depth (Items.cons x xs) =
        Items.cons (sanitize_log_data depth x) (sanitize_items depth xs)

    pub sanitize_fields : ℕ → Fields → Fields
    sanitize_fields depth Fields.end = Fields.end
    sanitize_fields depth (Fields.field key v fs) =
        let inside = sanitize_log_data depth v in
        Fields.field key (if is_sensitive key then Json.str mask else inside)
          (sanitize_fields depth fs)
