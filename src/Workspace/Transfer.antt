-- ===== src/Workspace/Transfer.antt =====
-- How files get into a container and out of it: `_write_to_container`, `_read_from_container` and the
-- session files of app/services/workspace/file_sync.py, over `exec_in_container`.
pub mod Chunks
pub mod Written
use claude_multi_agent.Base.{
  ℕ, zero, suc, ◌+◌, ◌-◌, Bool, true, false, Option, none, some, List, [], ◌∷◌, ◌++◌, Outcome,
  returned, raised, length, if◌then◌else◌,
}
use claude_multi_agent.Base.Steps.{Action, pure, fail, and_then, ◌>>=◌, attempt}
use claude_multi_agent.Execute.Stream.{Text}
use claude_multi_agent.Proxy.Words.{Bytes, codes, split_on}
use claude_multi_agent.Workspace.Paths.{last_segment}

-- `encoded[i:i + chunk_size]` for every `i` of `range(0, len(encoded), chunk_size)`. The size is that of
-- the successor, and the length is fuel enough.
pub take : ℕ → Text → Text
take zero t = []
take (suc n) [] = []
take (suc n) (c ∷ t) = c ∷ take n t

pub drop : ℕ → Text → Text
drop zero t = t
drop (suc n) [] = []
drop (suc n) (c ∷ t) = drop n t

pub slices : ℕ → ℕ → Text → List Text
unfolding take drop
slices zero size t = []
slices (suc fuel) size [] = []
slices (suc fuel) size (c ∷ t) =
    take (suc size) (c ∷ t) ∷ slices fuel size (drop (suc size) (c ∷ t))

abbrev pub chunk_size : ℕ
chunk_size = 60000

abbrev pub chunks : Text → List Text
chunks t = slices (length t) 59999 t

-- The commands.
abbrev pub quoted : Text → Text
quoted t = 39 ∷ (t ++ (39 ∷ []))

abbrev pub print_command : Text → Bool → Text → List Text
print_command chunk append path =
    codes "sh"
    ∷ codes "-c"
    ∷ (codes "printf '%s' "
        ++ (quoted chunk ++ ((if append then codes " >> " else codes " > ") ++ quoted path)))
    ∷ []

abbrev pub decode_command : Text → Text → List Text
decode_command tmp dest =
    codes "sh"
    ∷ codes "-c"
    ∷ (codes "base64 -d < "
        ++ (quoted tmp ++ (codes " > " ++ (quoted dest ++ (codes " && rm -f " ++ quoted tmp)))))
    ∷ []

abbrev pub parent_dir : List Text → Text
parent_dir [] = []
parent_dir (s ∷ []) = []
parent_dir (s ∷ t ∷ []) = s
parent_dir (s ∷ t ∷ u ∷ segments) = s ++ (47 ∷ parent_dir (t ∷ u ∷ segments))

abbrev pub tmp_path : Text → Text
tmp_path dest = codes "/tmp/_ws_xfer_" ++ last_segment (split_on 47 dest)

module _ {W : Type 0} (b64encode : Bytes → Text) (exec : List Text → Action W Bool) where
  -- A failed command removes the temporary file and raises.
  abbrev remove_and_raise : Text → Action W (Unit {0})
  remove_and_raise tmp = do _ ← exec (codes "rm" ∷ codes "-f" ∷ tmp ∷ []); fail "RuntimeError"

  pub unless_ok : Text → Bool → Action W (Unit {0})
  unless_ok tmp true = pure tt
  unless_ok tmp false = remove_and_raise tmp

  -- The loop over the chunks; all but the first are appended.
  pub print_chunks : Bool → Text → List Text → Action W (Unit {0})
  unfolding unless_ok
  print_chunks append tmp [] = pure tt
  print_chunks append tmp (chunk ∷ rest) = do
    ok ← exec (print_command chunk append tmp)
    _ ← unless_ok tmp ok
    print_chunks true tmp rest

  -- `_write_to_container`
  unfoldable pub write_to_container : Text → Bytes → Action W (Unit {0})
  unfolding print_chunks unless_ok slices
  write_to_container dest content = do
    _ ← exec (codes "mkdir" ∷ codes "-p" ∷ parent_dir (split_on 47 dest) ∷ [])
    _ ← print_chunks false (tmp_path dest) (chunks (b64encode content))
    ok ← exec (decode_command (tmp_path dest) dest)
    unless_ok (tmp_path dest) ok
