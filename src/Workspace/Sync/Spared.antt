-- ===== src/Workspace/Sync/Spared.antt =====
-- Files that are excluded are not recorded.
use mathlib.Core.Bool.{false≢true}
use claude_multi_agent.Base.{
  ℕ, String, Bool, true, false, Option, none, some, List, [], ◌∷◌, ◌++◌, Outcome, returned, raised,
  All, ◌≡◌, refl, ◌∙◌, sym, ap, ◌⊎◌, Bool-cases, inl, inr, arith,
}
use claude_multi_agent.Base.Steps.{Action, and_then, ◌>>=◌, attempt, kept}
use claude_multi_agent.Execute.Stream.{Text, strip, newline}
use claude_multi_agent.Proxy.Words.{Bytes, codes, split_on}
use claude_multi_agent.Proxy.Whitelist.{same_text}
use claude_multi_agent.Proxy.Whitelist.Subdomains.{same_text-eq}
use claude_multi_agent.Workspace.Paths.{
  is_reserved_path, should_exclude, is_synced, put_path, chosen, synced_paths, FileRecord,
  upsert_file_record,
}
use claude_multi_agent.Workspace.Paths.Records.{find_record, upsert_file_record_lem}
use claude_multi_agent.Workspace.Sync.{
  Storage, Files, upsert, outside, read_from_container, store, sync_single_from, sync_all_from,
  from_listing, sync_from_container,
}

put_path-All :
    (path : Text) (rest : List Text)
    → All (λ q. is_synced q ≡ true) rest
    → All (λ q. is_synced q ≡ true) (put_path path rest)
put_path-All [] rest h = h
put_path-All (c ∷ path) rest h = elim (Bool-cases (is_synced (c ∷ path))) [
  | inl e ↦ rw e (e, h)
  | inr e ↦ rw e h
]

chosen-All : (lines : List Text) → All (λ q. is_synced q ≡ true) (chosen lines)
unfolding chosen
chosen-All [] = tt
chosen-All (line ∷ lines) = put_path-All (strip line) (chosen lines) (chosen-All lines)

module _ {W : Type 0} (storage : Storage W) (p : Text) (c' : Text) where
  -- The step leaves the record of the file as it is, however it ends.
  abbrev pub Spares : {A : Type 0} → Action (Files W) A → Type 0
  Spares m = (s : Files W) → find_record c' p (m s).1.records ≡ find_record c' p s.records

  bind-Spares :
      {A B : Type 0} (m : Action (Files W) A) (f : A → Action (Files W) B)
      → Spares m
      → ((a : A) → Spares (f a))
      → Spares (m >>= f)
  bind-Spares {A = A} m f h k s = go (m s) (h s)
    where
      go :
          (r : Outcome A String × Files W)
          → find_record c' p r.1.records ≡ find_record c' p s.records
          → find_record c' p (and_then r f).1.records ≡ find_record c' p s.records
      go (returned a, s') e = unfold and_then in k a s' ∙ e
      go (raised x, s') e = unfold and_then in e

  attempt-Spares : {A : Type 0} (m : Action (Files W) A) → Spares m → Spares (attempt m)
  attempt-Spares {A = A} m h s = go (m s) (h s)
    where
      go :
          (r : Outcome A String × Files W)
          → find_record c' p r.1.records ≡ find_record c' p s.records
          → find_record c' p (kept r).1.records ≡ find_record c' p s.records
      go (returned a, s') e = e
      go (raised x, s') e = e

  -- A path that is reserved, or that is to be excluded.
  abbrev pub IsLeftOut : Type 0
  IsLeftOut = (is_reserved_path p ≡ true) ⊎ (should_exclude p ≡ true)

  not_synced : IsLeftOut → is_synced p ≡ false
  not_synced (inl e) = rw e refl
  not_synced (inr e) = ground arith

  module _ (left_out : IsLeftOut) (conversation : Text) where
    other_path : (q : Text) → is_synced q ≡ true → same_text q p ≡ false
    other_path q e = elim (Bool-cases (same_text q p)) [
      | inl same ↦
          let eq : q ≡ p = same_text-eq q p same in
          absurd (false≢true (sym (not_synced left_out) ∙ rw eq at e))
      | inr other ↦ other
    ]

    upsert-Spares :
        (q : Text) (size : ℕ) (rs : List FileRecord)
        → is_synced q ≡ true
        → find_record c' p (upsert_file_record conversation q size rs).1 ≡ find_record c' p rs
    upsert-Spares q size rs e = elim (upsert_file_record_lem conversation q size c' p rs) [
      | inl (many, same) ↦ ap (λ r. find_record c' p r.1) same
      | inr (few, done, found) ↦ found ∙ ground (arith, other_path q e)
    ]

    single-Spares :
        (q : Text) → is_synced q ≡ true → Spares (sync_single_from storage conversation q)
    unfolding sync_single_from
    single-Spares q e =
        bind-Spares (outside storage (read_from_container storage (codes "/workspace/" ++ q)))
          (store storage conversation q) (λ s. refl) stored
      where
        stored : (o : Option Bytes) → Spares (store storage conversation q o)
        stored none = unfold store in λ s. refl
        stored (some content) =
            unfold store in
            bind-Spares (outside storage (storage.upload q content)) _ (λ s. refl)
              λ u.
                bind-Spares (upsert storage conversation q _) _
                  (unfold upsert in λ s. upsert-Spares q _ s.records e) λ v s. refl

    sync_all_from-Spares :
        (paths : List Text)
        → All (λ q. is_synced q ≡ true) paths
        → Spares (sync_all_from storage conversation paths)
    unfolding sync_all_from
    sync_all_from-Spares [] h = λ s. refl
    sync_all_from-Spares (q ∷ paths) h =
        bind-Spares (attempt (sync_single_from storage conversation q)) _
          (attempt-Spares (sync_single_from storage conversation q) (single-Spares q (h.0)))
          λ done.
            bind-Spares (sync_all_from storage conversation paths) _
              (sync_all_from-Spares paths h.1) λ rest s. refl

    -- Whatever `find` lists in a container, a synchronisation from it leaves the record of a reserved or
    -- excluded path as it was, in every conversation and however it ends.
    pub sync_from_container-Spares : Spares (sync_from_container storage conversation)
    unfolding sync_from_container from_listing synced_paths
    sync_from_container-Spares =
        bind-Spares _ (from_listing storage conversation) (λ s. refl) listed
      where
        listed : (r : Bool × Text) → Spares (from_listing storage conversation r)
        listed (false, output) = λ s. refl
        listed (true, output) =
            sync_all_from-Spares (synced_paths output)
              (chosen-All (split_on newline (strip output)))
