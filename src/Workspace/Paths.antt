-- ===== src/Workspace/Paths.antt =====
-- Which files `sync_from_container` of app/services/workspace/file_sync.py takes over, and what it
-- records of them. Texts are lists of code points.
pub mod Records
use claude_multi_agent.Base.{
  ℕ, ◌+◌, ltb, String, Outcome, returned, raised, Bool, true, false, not, ◌||◌, ◌&&◌, Option, none,
  some, List, [], ◌∷◌, ◌++◌, if◌then◌else◌,
}
use claude_multi_agent.Execute.Stream.{Text, strip, after, newline}
use claude_multi_agent.Proxy.Words.{codes, is_some, split_on}
use claude_multi_agent.Proxy.Whitelist.{same_text, ends_with}

abbrev reserved_prefix : Text
reserved_prefix = codes "_sdk_session/"

-- `_is_reserved_path`
unfoldable pub is_reserved_path : Text → Bool
is_reserved_path path =
    is_some (after reserved_prefix path) || same_text path (codes "_sdk_session")

abbrev excluded_dir_names : List Text
excluded_dir_names =
    codes "__pycache__"
    ∷ codes ".git"
    ∷ codes "node_modules"
    ∷ codes ".venv"
    ∷ codes "venv"
    ∷ codes ".pytest_cache"
    ∷ codes ".mypy_cache"
    ∷ codes ".ruff_cache"
    ∷ codes ".tox"
    ∷ codes ".eggs"
    ∷ codes ".egg-info"
    ∷ []

-- The excluded extensions, and the same without the dot in front.
abbrev excluded_extensions : List (Text × Text)
excluded_extensions =
    (codes ".pyc", codes "pyc")
    ∷ (codes ".pyo", codes "pyo")
    ∷ (codes ".DS_Store", codes "DS_Store")
    ∷ []

abbrev pub is_in : Text → List Text → Bool
is_in t [] = false
is_in t (u ∷ us) = same_text t u || is_in t us

abbrev has_extension : Text → List (Text × Text) → Bool
has_extension name [] = false
has_extension name ((ext, bare) ∷ es) =
    (ends_with name ext || same_text name bare) || has_extension name es

-- The segments: those in front of the last are directories, the last is the file's name.
abbrev pub excludes : List Text → Bool
excludes [] = has_extension [] excluded_extensions
excludes (name ∷ []) = has_extension name excluded_extensions
excludes (dir ∷ s ∷ segments) = is_in dir excluded_dir_names || excludes (s ∷ segments)

-- `_should_exclude`
unfoldable pub should_exclude : Text → Bool
should_exclude path = excludes (split_on 47 path)

-- The paths that `find` has listed, one on a line, and of these the ones that are synchronised.
abbrev pub is_synced : Text → Bool
is_synced path = not (is_reserved_path path) && not (should_exclude path)

abbrev pub put_path : Text → List Text → List Text
put_path [] rest = rest
put_path (c ∷ path) rest = if is_synced (c ∷ path) then (c ∷ path) ∷ rest else rest

unfoldable pub chosen : List Text → List Text
chosen [] = []
chosen (line ∷ lines) = put_path (strip line) (chosen lines)

unfoldable pub synced_paths : Text → List Text
unfolding chosen
synced_paths output = chosen (split_on newline (strip output))

-- The columns of `ConversationFile` that `_upsert_file_record` sets.
pub data Source : Type 0 where
  ai_created : Source
  ai_modified : Source
  user_upload : Source

pub record FileRecord : Type 0 where
  pub conversation_id : Text
  pub file_path : Text
  pub original_name : Text
  pub file_size : ℕ
  pub version : ℕ
  pub source : Source

abbrev pub is_of : Text → Text → FileRecord → Bool
is_of conversation path r = same_text r.conversation_id conversation && same_text r.file_path path

abbrev pub last_segment : List Text → Text
last_segment [] = []
last_segment (s ∷ []) = s
last_segment (s ∷ t ∷ segments) = last_segment (t ∷ segments)

-- The file's record with the new size and the next version, or a new one with version 1.
unfoldable pub updated_records : Text → Text → ℕ → List FileRecord → List FileRecord
updated_records conversation path size [] =
    record {
      conversation_id = conversation;
      file_path = path;
      original_name = last_segment (split_on 47 path);
      file_size = size;
      version = 1;
      source = ai_created;
    }
    ∷ []
updated_records conversation path size (r ∷ rs) =
    if is_of conversation path r
    then record r { file_size = size; version = r.version + 1; source = ai_modified } ∷ rs
    else r ∷ updated_records conversation path size rs

-- How many rows the query finds.
unfoldable pub count_records : Text → Text → List FileRecord → ℕ
count_records conversation path [] = 0
count_records conversation path (r ∷ rs) =
    (if is_of conversation path r then 1 else 0) + count_records conversation path rs

-- `_upsert_file_record`: `scalar_one_or_none` raises when the query finds several rows.
unfoldable pub upsert_file_record :
    Text → Text → ℕ → List FileRecord → Outcome (Unit {0}) String × List FileRecord
unfolding updated_records count_records
upsert_file_record conversation path size rs =
    if ltb 1 (count_records conversation path rs)
    then (raised "MultipleResultsFound", rs)
    else (returned tt, updated_records conversation path size rs)
