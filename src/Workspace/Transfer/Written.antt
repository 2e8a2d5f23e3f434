-- ===== src/Workspace/Transfer/Written.antt =====
-- What a container has after a file was written to it, by what its shell does.
use mathlib.Core.List.{append_assoc, append-nil}
use claude_multi_agent.Base.{
  String, Bool, true, false, Option, none, some, List, [], ◌∷◌, ◌++◌, Outcome, returned, raised,
  length, ◌⊎◌, inl, inr, All, ◌≡◌, ◌≢◌, refl, sym, ap, ◌∙◌, subst, ◌==◌, arith,
}
use claude_multi_agent.Base.Steps.{Action, ◌>>=◌, fail, and_then, and_then-returned}
use claude_multi_agent.Execute.Stream.{Text}
use claude_multi_agent.Proxy.Words.{Bytes, codes, split_on}
use claude_multi_agent.Workspace.Transfer.{
  slices, chunks, print_command, decode_command, parent_dir, tmp_path, unless_ok, print_chunks,
  write_to_container,
}
use claude_multi_agent.Workspace.Transfer.Chunks.{flat, flat-slices, slices-All, slices-filled}

-- A text that may stand between single quotes.
abbrev pub Quotable : Text → Type 0
Quotable t = All (λ c. (c == 39) ≡ false) t

abbrev pub Succeeds : {W : Type 0} → Outcome Bool String × W → Type 0
Succeeds r = r.0 ≡ returned true

module _ {W : Type 0} (exec : List Text → Action W Bool) (b64decode : Text → Option Bytes)
    (file : Text → W → Option Text) where
  -- What the code relies on of commands that exit with zero: `printf` has written into a file, or behind
  -- what it held, and `base64 -d` has decoded one file into another. Without its file `base64 -d` fails,
  -- and `mkdir -p` comes to an end and leaves the temporary file alone.
  pub record Shell : Type 0 where
    pub print_new :
        (chunk path : Text) (w : W)
        → Quotable chunk
        → Quotable path
        → Succeeds (exec (print_command chunk false path) w)
        → file path (exec (print_command chunk false path) w).1 ≡ some chunk
    pub print_more :
        (chunk path t : Text) (w : W)
        → Quotable chunk
        → Quotable path
        → file path w ≡ some t
        → Succeeds (exec (print_command chunk true path) w)
        → file path (exec (print_command chunk true path) w).1 ≡ some (t ++ chunk)
    pub decode_some :
        (tmp dest t : Text) (content : Bytes) (w : W)
        → Quotable tmp
        → Quotable dest
        → tmp ≢ dest
        → file tmp w ≡ some t
        → b64decode t ≡ some content
        → Succeeds (exec (decode_command tmp dest) w)
        → file dest (exec (decode_command tmp dest) w).1 ≡ some content
    pub decode_none :
        (tmp dest : Text) (w : W)
        → Quotable tmp
        → Quotable dest
        → file tmp w ≡ none
        → (exec (decode_command tmp dest) w).0 ≡ returned false
    pub make_dir :
        (path tmp : Text) (w : W)
        → ((ok : Bool) × ((exec (codes "mkdir" ∷ codes "-p" ∷ path ∷ []) w).0 ≡ returned ok))
          × (file tmp (exec (codes "mkdir" ∷ codes "-p" ∷ path ∷ []) w).1 ≡ file tmp w)

  -- The commands that write a file: those that print into the temporary file, and the one that decodes.
  abbrev pub Writes : Text → Text → List Text → Type 0
  Writes tmp dest cmd =
      ((chunk : Text) × (append : Bool) × (cmd ≡ print_command chunk append tmp))
      ⊎ (cmd ≡ decode_command tmp dest)

  -- The step raised, and one of these commands did not exit with zero.
  abbrev pub Refused : Text → Text → Outcome (Unit {0}) String × W → Type 0
  Refused tmp dest r =
      ((e : String) × (r.0 ≡ raised e))
      × ((cmd : List Text) × (w : W) × Writes tmp dest cmd × ((exec cmd w).0 ≢ returned true))

  -- The step went through and the file has that content, or it raised since a command failed.
  abbrev pub Done : Text → Text → Text → Text → Outcome (Unit {0}) String × W → Type 0
  Done tmp dest path t r = ((r.0 ≡ returned tt) × (file path r.1 ≡ some t)) ⊎ Refused tmp dest r

  module _ (b64encode : Bytes → Text) where
    cleaned-raises :
        (r : Outcome Bool String × W) (next : Unit {0} → Action W (Unit {0}))
        → (e : String) × ((and_then (and_then r (λ ok. fail {A = Unit {0}} "RuntimeError")) next).0
            ≡ raised e)
    unfolding and_then
    cleaned-raises (returned ok, w) next = ("RuntimeError", refl)
    cleaned-raises (raised e, w) next = (e, refl)

    -- A command whose failure raises: what follows is done after a success only.
    guarded :
        (cmd : List Text) (tmp dest : Text) (w : W) (next : Unit {0} → Action W (Unit {0}))
        (r : Outcome Bool String × W)
        → Writes tmp dest cmd
        → (exec cmd w).0 ≡ r.0
        → ((r.0 ≡ returned true)
            × (and_then r (λ ok. unless_ok b64encode exec tmp ok >>= next) ≡ next tt r.1))
          ⊎ Refused tmp dest (and_then r (λ ok. unless_ok b64encode exec tmp ok >>= next))
    unfolding and_then unless_ok
    guarded cmd tmp dest w next (returned true, w') k h = inl (refl, refl)
    guarded cmd tmp dest w next (returned false, w') k h = inr (
      cleaned-raises (exec (codes "rm" ∷ codes "-f" ∷ tmp ∷ []) w') next,
      (cmd, w, k, λ e. cc (sym h ∙ e)),
    )
    guarded cmd tmp dest w next (raised x, w') k h =
        inr ((x, refl), (cmd, w, k, λ e. cc (sym h ∙ e)))

    last_guarded :
        (cmd : List Text) (tmp dest : Text) (w : W) (r : Outcome Bool String × W)
        → Writes tmp dest cmd
        → (exec cmd w).0 ≡ r.0
        → ((r.0 ≡ returned true) × (and_then r (unless_ok b64encode exec tmp) ≡ (returned tt, r.1)))
          ⊎ Refused tmp dest (and_then r (unless_ok b64encode exec tmp))
    unfolding and_then unless_ok
    last_guarded cmd tmp dest w (returned true, w') k h = inl (refl, refl)
    last_guarded cmd tmp dest w (returned false, w') k h = inr (
      removed-raises (exec (codes "rm" ∷ codes "-f" ∷ tmp ∷ []) w'),
      (cmd, w, k, λ e. cc (sym h ∙ e)),
    )
      where
        removed-raises :
            (r : Outcome Bool String × W)
            → (e : String) × ((and_then r (λ ok. fail {A = Unit {0}} "RuntimeError")).0 ≡ raised e)
        removed-raises (returned ok, w) = ("RuntimeError", refl)
        removed-raises (raised e, w) = (e, refl)
    last_guarded cmd tmp dest w (raised x, w') k h =
        inr ((x, refl), (cmd, w, k, λ e. cc (sym h ∙ e)))

  module _ (shell : Shell) (b64encode : Bytes → Text) where
    printed_more :
        (dest tmp t : Text) (ts : List Text) (w : W)
        → Quotable tmp
        → All Quotable ts
        → file tmp w ≡ some t
        → Done tmp dest tmp (t ++ flat ts) (print_chunks b64encode exec true tmp ts w)
    unfolding print_chunks
    printed_more dest tmp t [] w q qs h = inl (refl, h ∙ ap some (sym (append-nil t)))
    printed_more dest tmp t (chunk ∷ ts) w q qs h =
        elim (guarded b64encode (print_command chunk true tmp) tmp dest w
          (λ _. print_chunks b64encode exec true tmp ts) (exec (print_command chunk true tmp) w)
          (inl (chunk, true, refl)) refl) [
            | inl (ok, e) ↦ rw e (
                subst
                  (λ x. Done tmp dest tmp x (
                    print_chunks b64encode exec true tmp ts
                      (exec (print_command chunk true tmp) w).1))
                  (append_assoc t chunk (flat ts))
                  (printed_more dest tmp (t ++ chunk) ts (exec (print_command chunk true tmp) w).1 q
                    qs.1 (shell.print_more chunk tmp t w (qs.0) q h ok)))
            | inr failed ↦ inr failed
          ]

    printed_whole :
        (dest tmp : Text) (ts : List Text) (w : W)
        → Quotable tmp
        → All Quotable ts
        → ts ≢ []
        → Done tmp dest tmp (flat ts) (print_chunks b64encode exec false tmp ts w)
    unfolding print_chunks
    printed_whole dest tmp [] w q qs h = absurd (h refl)
    printed_whole dest tmp (chunk ∷ ts) w q qs h =
        elim (guarded b64encode (print_command chunk false tmp) tmp dest w
          (λ _. print_chunks b64encode exec true tmp ts) (exec (print_command chunk false tmp) w)
          (inl (chunk, false, refl)) refl) [
            | inl (ok, e) ↦ rw e (
                printed_more dest tmp chunk ts (exec (print_command chunk false tmp) w).1 q qs.1
                  (shell.print_new chunk tmp w (qs.0) q ok))
            | inr failed ↦ inr failed
          ]

    -- The decoder, after the temporary file was written.
    decoded-Done :
        (dest t : Text) (content : Bytes) (r : Outcome (Unit {0}) String × W)
        → Quotable dest
        → Quotable (tmp_path dest)
        → tmp_path dest ≢ dest
        → b64decode t ≡ some content
        → Done (tmp_path dest) dest (tmp_path dest) t r
        → Done (tmp_path dest) dest dest content (
            and_then r (λ _ w'.
              and_then
                (exec (decode_command (tmp_path dest) dest) w')
                (unless_ok b64encode exec (tmp_path dest))))
    unfolding and_then
    decoded-Done dest t content (raised x, w) q q' apart e (inl (gone, there)) = absurd (cc gone)
    decoded-Done dest t content (raised x, w) q q' apart e (inr ((y, h), failed)) =
        inr ((x, refl), failed)
    decoded-Done dest t content (returned u, w) q q' apart e (inr ((y, h), failed)) = absurd (cc h)
    decoded-Done dest t content (returned u, w) q q' apart e (inl (done, there)) =
        elim (last_guarded b64encode (decode_command (tmp_path dest) dest) (tmp_path dest) dest w
          (exec (decode_command (tmp_path dest) dest) w) (inr refl) refl) [
            | inl (ok, h) ↦ rw h (
                inl
                  (refl, shell.decode_some (tmp_path dest) dest t content w q' q apart there e ok))
            | inr failed ↦ inr failed
          ]

    removed-raises :
        (r : Outcome Bool String × W)
        → (e : String) × ((and_then r (λ ok. fail {A = Unit {0}} "RuntimeError")).0 ≡ raised e)
    unfolding and_then
    removed-raises (returned ok, w) = ("RuntimeError", refl)
    removed-raises (raised e, w) = (e, refl)

    made_dir : Text → W → W
    made_dir dest w = (exec (codes "mkdir" ∷ codes "-p" ∷ parent_dir (split_on 47 dest) ∷ []) w).1

    module _ (dest : Text) (content : Bytes) (w : W) (q : Quotable dest)
        (q' : Quotable (tmp_path dest)) where
      -- The write of a file whose encoding is not empty, if its name can stand between quotes and it is
      -- not the temporary file itself: either it returns and the file is in the container whole, the
      -- chunks having come to the decoder in their order, none lost; or it raises and a command of it
      -- has not exited with zero.
      pub write_to_container-Done :
          tmp_path dest ≢ dest
          → b64encode content ≢ []
          → Quotable (b64encode content)
          → b64decode (b64encode content) ≡ some content
          → Done
              (tmp_path dest)
              dest
              dest
              content
              (write_to_container b64encode exec dest content w)
      unfolding write_to_container made_dir
      write_to_container-Done apart filled qe e =
          let ((b, made), kept) =
            shell.make_dir (parent_dir (split_on 47 dest)) (tmp_path dest) w in
          let printed =
            printed_whole dest (tmp_path dest) (chunks (b64encode content)) (made_dir dest w) q'
              (slices-All (λ c. (c == 39) ≡ false) (length (b64encode content)) 59999
                (b64encode content) qe)
              (slices-filled 59999 (b64encode content) filled) in
          let whole =
            flat-slices (length (b64encode content)) 59999 (b64encode content) (omega arith) in
          rw
            (and_then-returned
              (exec (codes "mkdir" ∷ codes "-p" ∷ parent_dir (split_on 47 dest) ∷ []) w) b _ made)
            (decoded-Done dest (flat (chunks (b64encode content))) content
              (print_chunks b64encode exec false (tmp_path dest) (chunks (b64encode content))
                (made_dir dest w))
              q q' apart (ap b64decode whole ∙ e) printed)

      -- An empty file is never written, if its name can stand between quotes and no temporary file of
      -- that name is left over: there is no chunk to print, the decoder finds no file, and the write raises.
      pub write_to_container_empty :
          b64encode content ≡ []
          → file (tmp_path dest) w ≡ none
          → (e : String) × ((write_to_container b64encode exec dest content w).0 ≡ raised e)
      unfolding write_to_container unless_ok print_chunks made_dir slices and_then
      write_to_container_empty empty absent =
          let ((b, made), kept) =
            shell.make_dir (parent_dir (split_on 47 dest)) (tmp_path dest) w in
          let failed =
            shell.decode_none (tmp_path dest) dest (made_dir dest w) q' q (kept ∙ absent) in
          rw
            (and_then-returned
              (exec (codes "mkdir" ∷ codes "-p" ∷ parent_dir (split_on 47 dest) ∷ []) w) b _ made)
            (rw empty (
              rw
                (and_then-returned (exec (decode_command (tmp_path dest) dest) (made_dir dest w))
                  false _ failed)
                (removed-raises (
                  exec (codes "rm" ∷ codes "-f" ∷ tmp_path dest ∷ [])
                    (exec (decode_command (tmp_path dest) dest) (made_dir dest w)).1))))
