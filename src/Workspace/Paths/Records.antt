-- ===== src/Workspace/Paths/Records.antt =====
-- What an upsert changes among the file records, and which paths are excluded.
use claude_multi_agent.Base.{
  ℕ, ◌+◌, ◌≤◌, ◌<◌, ltb, ltb→lt, Bool-cases, inl, inr, ◌⊎◌, returned, raised, refl, ◌&&◌, Option,
  none, some, List, [], ◌∷◌, ◌≡◌, if◌then◌else◌, arith,
}
use claude_multi_agent.Execute.Stream.{Text}
use claude_multi_agent.Proxy.Words.{split_on}
use claude_multi_agent.Proxy.Whitelist.{same_text}
use claude_multi_agent.Proxy.Server.Injected.{same_text_swap, same_text-same}
use claude_multi_agent.Workspace.Paths.{
  FileRecord, count_records, upsert_file_record, ai_created, ai_modified, is_of, last_segment,
  updated_records,
}

-- The record of a file, the first one for its conversation and its path.
abbrev pub find_record : Text → Text → List FileRecord → Option FileRecord
find_record conversation path [] = none
find_record conversation path (r ∷ rs) =
    if is_of conversation path r then some r else find_record conversation path rs

-- What an upsert makes of the record of its file.
abbrev pub upserted : Text → Text → ℕ → Option FileRecord → FileRecord
upserted conversation path size none = record {
  conversation_id = conversation;
  file_path = path;
  original_name = last_segment (split_on 47 path);
  file_size = size;
  version = 1;
  source = ai_created;
}
upserted conversation path size (some r) = record r {
  file_size = size;
  version = r.version + 1;
  source = ai_modified;
}

module _ (c p : Text) (size : ℕ) (c' p' : Text) where
  updated_records_lem :
      (rs : List FileRecord)
      → find_record c' p' (updated_records c p size rs) ≡ (
          if same_text c c' && same_text p p'
          then some (upserted c p size (find_record c p rs))
          else find_record c' p' rs)
  unfolding updated_records
  updated_records_lem [] = ground arith
  updated_records_lem (r ∷ rs) = ground (
    arith,
    updated_records_lem rs,
    same_text-same r.conversation_id c c',
    same_text-same r.file_path p p',
    same_text-same r.conversation_id c' c,
    same_text-same r.file_path p' p,
    same_text_swap c c',
    same_text_swap p p',
  )

  -- If the query for the file finds more than one row, the upsert raises and changes nothing; otherwise
  -- it returns, the record of the file is new with version 1 or has the new size and the next version,
  -- and the records of all other files, of this conversation and of others, stay as they were.
  pub upsert_file_record_lem :
      (rs : List FileRecord)
      → ((1 < count_records c p rs)
          × (upsert_file_record c p size rs ≡ (raised "MultipleResultsFound", rs)))
        ⊎ ((count_records c p rs ≤ 1)
            × ((upsert_file_record c p size rs).0 ≡ returned tt)
            × (find_record c' p' (upsert_file_record c p size rs).1 ≡ (
                if same_text c c' && same_text p p'
                then some (upserted c p size (find_record c p rs))
                else find_record c' p' rs)))
  unfolding upsert_file_record
  upsert_file_record_lem rs = elim (Bool-cases (ltb 1 (count_records c p rs))) [
    | inl e ↦ inl (ltb→lt 1 (count_records c p rs) e, rw e refl)
    | inr e ↦ inr (ground arith, rw e refl, rw e (updated_records_lem rs))
  ]
