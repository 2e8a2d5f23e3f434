-- ===== src/Workspace/Tests.antt =====
-- The theorems on the files of a workspace, at small files.
use claude_multi_agent.Base.{
  ◌⊎◌, inr, ◌≤◌, ◌<◌, String, arith, ℕ, true, ◌&&◌, none, some, [], ◌∷◌, ◌++◌, returned, raised,
  ◌≡◌, ◌≢◌, refl, if◌then◌else◌, ap,
}
use claude_multi_agent.Base.Steps.{and_then}
use claude_multi_agent.Execute.Stream.{Text, after, strip}
use claude_multi_agent.Proxy.Words.{Bytes, codes, split_on, break_at}
use claude_multi_agent.Proxy.Whitelist.{same_text, ends_with}
use claude_multi_agent.Workspace.Paths.{
  FileRecord, user_upload, is_reserved_path, should_exclude, synced_paths, upsert_file_record,
  count_records,
}
use claude_multi_agent.Workspace.Paths.Records.{find_record, upserted, upsert_file_record_lem}
use claude_multi_agent.Workspace.Transfer.{tmp_path, write_to_container}
use claude_multi_agent.Workspace.Transfer.Written.{
  Quotable, Done, write_to_container-Done, write_to_container_empty,
}
use claude_multi_agent.Workspace.Shell.{is_quotable-Quotable, Disk, exec, file, shell}
use claude_multi_agent.Workspace.Sync.{
  Storage, Files, sync_from_container, sync_to_container, save_session_file, restore_session_file,
}
use claude_multi_agent.Workspace.Sync.Spared.{sync_from_container-Spares}

abbrev plain : Bytes → Text
plain b = b

abbrev dest : Text
dest = codes "/workspace/a.txt"

abbrev empty_disk : Disk
empty_disk q = none

abbrev second : Text → ℕ
second (c ∷ d ∷ t) = d
second _ = 0

differs : tmp_path dest ≢ dest
unfolding split_on
differs h = absurd (omega (arith, ap second h))

quotable : Quotable (tmp_path dest)
unfolding split_on
quotable = is_quotable-Quotable (tmp_path dest) refl

write_to_container-Done_example :
    Done exec some file
      (tmp_path dest)
      dest
      dest
      (codes "hi")
      (write_to_container plain exec dest (codes "hi") empty_disk)
write_to_container-Done_example =
    write_to_container-Done exec some file shell plain dest (codes "hi") empty_disk
      (is_quotable-Quotable dest refl) quotable differs (λ e. cc e)
      (is_quotable-Quotable (codes "hi") refl) refl

write_to_container_empty_example :
    (e : String) × ((write_to_container plain exec dest [] empty_disk).0 ≡ raised e)
write_to_container_empty_example =
    write_to_container_empty exec some file shell plain dest [] empty_disk
      (is_quotable-Quotable dest refl) quotable refl refl

abbrev stored : FileRecord
stored = record {
  conversation_id = codes "c1";
  file_path = codes "a.txt";
  original_name = codes "a.txt";
  file_size = 3;
  version = 1;
  source = user_upload;
}

upsert_file_record_lem_example :
    ((1 < count_records (codes "c1") (codes "a.txt") (stored ∷ []))
      × (upsert_file_record (codes "c1") (codes "a.txt") 5 (stored ∷ [])
          ≡ (raised "MultipleResultsFound", stored ∷ [])))
    ⊎ ((count_records (codes "c1") (codes "a.txt") (stored ∷ []) ≤ 1)
        × ((upsert_file_record (codes "c1") (codes "a.txt") 5 (stored ∷ [])).0 ≡ returned tt)
        × (find_record
              (codes "c1")
              (codes "a.txt")
              (upsert_file_record (codes "c1") (codes "a.txt") 5 (stored ∷ [])).1
            ≡ (if same_text (codes "c1") (codes "c1") && same_text (codes "a.txt") (codes "a.txt")
                then some (
                    upserted
                      (codes "c1")
                      (codes "a.txt")
                      5
                      (find_record (codes "c1") (codes "a.txt") (stored ∷ [])))
                else find_record (codes "c1") (codes "a.txt") (stored ∷ []))))
upsert_file_record_lem_example =
    upsert_file_record_lem (codes "c1") (codes "a.txt") 5 (codes "c1") (codes "a.txt") (stored ∷ [])

updated_once : (upsert_file_record (codes "c1") (codes "a.txt") 5 (stored ∷ [])).0 ≡ returned tt
unfolding upsert_file_record same_text
updated_once = refl

-- A container that lists two files, one of them in a cache folder, and a storage that keeps nothing.
abbrev storage : Storage Disk
storage = record {
  upload = λ path content d. (returned tt, d);
  download = λ path d. (returned (codes "hi"), d);
  exec = exec;
  exec_in_container =
      λ cmd d. (returned (true, codes "a.txt" ++ (10 ∷ codes "x/__pycache__/b")), d);
  exec_in_container_binary = λ cmd d. (returned (true, codes "hello"), d);
  b64encode = plain;
}

abbrev files : Files Disk
files = record { records = stored ∷ []; world = empty_disk }

excluded : should_exclude (codes "x/__pycache__/b") ≡ true
unfolding is_reserved_path should_exclude after same_text split_on ends_with
excluded = refl

sync_from_container-Spares_example :
    find_record
      (codes "c1")
      (codes "x/__pycache__/b")
      (sync_from_container storage (codes "c1") files).1.records
    ≡ none
unfolding same_text
sync_from_container-Spares_example =
    sync_from_container-Spares storage (codes "x/__pycache__/b") (codes "c1") (inr excluded)
      (codes "c1") files

one_synced : (sync_from_container storage (codes "c1") files).0 ≡ returned 1
unfolding sync_from_container and_then upsert_file_record synced_paths strip split_on
    is_reserved_path should_exclude after same_text ends_with
one_synced = refl

one_written : (sync_to_container storage (stored ∷ []) empty_disk).0 ≡ returned 1
unfolding sync_to_container and_then is_reserved_path after same_text write_to_container exec
    split_on break_at
one_written = refl

session_kept : (save_session_file storage (codes "s1") empty_disk).0 ≡ returned true
unfolding save_session_file and_then
session_kept = refl

session_restored : (restore_session_file storage (codes "s1") empty_disk).0 ≡ returned true
unfolding restore_session_file and_then write_to_container exec split_on break_at after same_text
session_restored = refl
