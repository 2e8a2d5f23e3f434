-- ===== src/Workspace/Sync.antt =====
-- `sync_to_container`, `sync_from_container` and the session files of
-- app/services/workspace/file_sync.py. The files of one call are handled one after another.
pub mod Spared
use claude_multi_agent.Base.{
  ℕ, ◌+◌, Bool, true, false, Option, none, some, List, [], ◌∷◌, ◌++◌, Outcome, returned, raised,
  length, if◌then◌else◌,
}
use claude_multi_agent.Base.Steps.{Action, pure, fail, and_then, ◌>>=◌, attempt}
use claude_multi_agent.Execute.Stream.{Text}
use claude_multi_agent.Proxy.Words.{Bytes, codes}
use claude_multi_agent.Workspace.Paths.{
  is_reserved_path, synced_paths, FileRecord, upsert_file_record,
}
use claude_multi_agent.Workspace.Transfer.{write_to_container}

-- The storage of the conversation, its container, and `base64`.
pub record Storage (W : Type 0) : Type 0 where
  pub upload : Text → Bytes → Action W (Unit {0})
  pub download : Text → Action W Bytes
  pub exec : List Text → Action W Bool
  -- The exit code as a test, and the output.
  pub exec_in_container : List Text → Action W (Bool × Text)
  pub exec_in_container_binary : List Text → Action W (Bool × Bytes)
  pub b64encode : Bytes → Text

-- The file records and the world.
pub record Files (W : Type 0) : Type 0 where
  pub records : List FileRecord
  pub world : W

module _ {W : Type 0} (storage : Storage W) where
  open storage use {upload, download, exec, exec_in_container, exec_in_container_binary, b64encode}

  abbrev pub outside : {A : Type 0} → Action W A → Action (Files W) A
  outside m s = let (o, w) = m s.world in (o, record s { world = w })

  abbrev some_if_ok : Bool × Bytes → Option Bytes
  some_if_ok (true, content) = some content
  some_if_ok (false, content) = none

  abbrev known : Option (Bool × Bytes) → Option Bytes
  known none = none
  known (some r) = some_if_ok r

  -- `_read_from_container`, in which every exception gives no content.
  pub read_from_container : Text → Action W (Option Bytes)
  read_from_container path = do
    r ← attempt (exec_in_container_binary (codes "cat" ∷ path ∷ []))
    pure (known r)

  pub upsert : Text → Text → ℕ → Action (Files W) (Unit {0})
  unfolding upsert_file_record
  upsert conversation path size s =
      let (o, rs) = upsert_file_record conversation path size s.records in
      (o, record s { records = rs })

  -- One file, from the container to the storage; `none` for an exception.
  store : Text → Text → Option Bytes → Action (Files W) Bool
  unfolding upsert
  store conversation path none = pure false
  store conversation path (some content) = do
    _ ← outside (upload path content)
    _ ← upsert conversation path (length content)
    pure true

  sync_single_from : Text → Text → Action (Files W) Bool
  unfolding read_from_container store
  sync_single_from conversation path = do
    content ← outside (read_from_container (codes "/workspace/" ++ path))
    store conversation path content

  -- `sum(1 for r in results if r is True)`, over the files.
  abbrev pub is_true : Option Bool → ℕ
  is_true (some true) = 1
  is_true _ = 0

  pub sync_all_from : Text → List Text → Action (Files W) ℕ
  unfolding sync_single_from
  sync_all_from conversation [] = pure 0
  sync_all_from conversation (path ∷ paths) = do
    done ← attempt (sync_single_from conversation path)
    rest ← sync_all_from conversation paths
    pure (is_true done + rest)

  from_listing : Text → Bool × Text → Action (Files W) ℕ
  unfolding sync_all_from synced_paths
  from_listing conversation (false, output) = pure 0
  from_listing conversation (true, output) = sync_all_from conversation (synced_paths output)

  -- `sync_from_container`
  unfoldable pub sync_from_container : Text → Action (Files W) ℕ
  unfolding from_listing
  sync_from_container conversation = do
    listing ← outside (
        exec_in_container (
          codes "find"
          ∷ codes "/workspace"
          ∷ codes "-type"
          ∷ codes "f"
          ∷ codes "-printf"
          ∷ codes "%P\\n"
          ∷ []))
    from_listing conversation listing

  -- One file, from the storage to the container.
  fetch : Text → Action W (Unit {0})
  fetch path = do
    content ← download path
    write_to_container b64encode exec (codes "/workspace/" ++ path) content

  sync_single_to : Text → Action W Bool
  unfolding fetch
  sync_single_to path = if is_reserved_path path then pure false else (do _ ← fetch path; pure true)

  sync_all_to : List FileRecord → Action W ℕ
  unfolding sync_single_to
  sync_all_to [] = pure 0
  sync_all_to (r ∷ rs) = do
    done ← attempt (sync_single_to r.file_path)
    rest ← sync_all_to rs
    pure (is_true done + rest)

  -- `sync_to_container`, for the records of the conversation.
  unfoldable pub sync_to_container : List FileRecord → Action W ℕ
  unfolding sync_all_to
  sync_to_container records = sync_all_to records

  -- `save_session_file` and `restore_session_file`
  abbrev session_key : Text → Text
  session_key session = codes "_sdk_session/" ++ (session ++ codes ".jsonl")

  abbrev session_path : Text → Text
  session_path session =
      codes "/home/appuser/.claude/projects/-workspace/" ++ (session ++ codes ".jsonl")

  save_content : Text → Option Bytes → Action W Bool
  save_content session none = pure false
  save_content session (some content) = do _ ← upload (session_key session) content; pure true

  unfoldable pub save_session_file : Text → Action W Bool
  unfolding save_content read_from_container
  save_session_file session = do
    content ← read_from_container (session_path session)
    save_content session content

  restore_content : Text → Option Bytes → Action W Bool
  restore_content session none = pure false
  restore_content session (some content) = do
    _ ← write_to_container b64encode exec (session_path session) content
    pure true

  unfoldable pub restore_session_file : Text → Action W Bool
  unfolding restore_content
  restore_session_file session = do
    content ← attempt (download (session_key session))
    restore_content session content
