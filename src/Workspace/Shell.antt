-- ===== src/Workspace/Shell.antt =====
-- A shell that understands the commands of app/services/workspace/file_sync.py: it reads what stands
-- between the single quotes. With it the theorems on writing a file have an instance.
use mathlib.Core.List.{append_assoc}
use mathlib.Core.Bool.{false≢true}
use claude_multi_agent.Base.{
  Bool, true, false, Option, none, some, List, [], ◌∷◌, ◌++◌, returned, ◌≡◌, ◌≢◌, refl, ◌==◌,
  Bool-cases, inl, inr, if◌then◌else◌, ap, ◌∙◌,
}
use claude_multi_agent.Base.Steps.{Action}
use claude_multi_agent.Execute.Stream.{Text, after}
use claude_multi_agent.Proxy.Words.{codes, break_at}
use claude_multi_agent.Proxy.Whitelist.{same_text}
use claude_multi_agent.Proxy.Whitelist.Subdomains.{same_text-eq, same_text_refl}
use claude_multi_agent.Workspace.Transfer.{quoted, print_command, decode_command}
use claude_multi_agent.Workspace.Transfer.Written.{Quotable, Shell}

-- The files by their paths; `base64` changes nothing here.
abbrev pub Disk : Type 0
Disk = Text → Option Text

abbrev set_file : Text → Option Text → Disk → Disk
set_file path content disk q = if same_text path q then content else disk q

abbrev joined : Option Text → Text → Text
joined none t = t
joined (some s) t = s ++ t

abbrev unquote : Option Text → Text × Option Text
unquote none = ([], none)
unquote (some t) = break_at 39 t

print_to : Text → Option Text → Option Text → Disk → Bool × Disk
print_to chunk (some more) once disk =
    let path = (break_at 39 more).0 in (true, set_file path (some (joined (disk path) chunk)) disk)
print_to chunk none (some new) disk =
    let path = (break_at 39 new).0 in (true, set_file path (some chunk) disk)
print_to chunk none none disk = (false, disk)

decode_found : Text → Text → Option Text → Disk → Bool × Disk
decode_found tmp dest none disk = (false, disk)
decode_found tmp dest (some t) disk = (true, set_file tmp none (set_file dest (some t) disk))

abbrev rest_of : Option Text → Text
rest_of none = []
rest_of (some t) = t

by_command : Text → Option Text → Option Text → Disk → Bool × Disk
unfolding print_to decode_found
by_command cmd (some printed) decoded disk =
    let (chunk, rest) = break_at 39 printed in
    print_to chunk (after (codes " >> '") (rest_of rest)) (after (codes " > '") (rest_of rest)) disk
by_command cmd none (some decoded) disk =
    let (tmp, rest) = break_at 39 decoded in
    let dest = (break_at 39 (rest_of (after (codes " > '") (rest_of rest)))).0 in
    decode_found tmp dest (disk tmp) disk
by_command cmd none none disk = (false, disk)

unfoldable pub exec : List Text → Action Disk Bool
unfolding by_command
exec (program ∷ option ∷ cmd ∷ []) disk =
    if same_text program (codes "sh")
    then (let (ok, disk') =
          by_command cmd (after (codes "printf '%s' '") cmd) (after (codes "base64 -d < '") cmd)
            disk in
        (returned ok, disk'))
    else (returned true, disk)
exec _ disk = (returned true, disk)

break_at-quoted : (q rest : Text) → Quotable q → break_at 39 (q ++ (39 ∷ rest)) ≡ (q, some rest)
unfolding break_at
break_at-quoted [] rest h = refl
break_at-quoted (c ∷ q) rest h = rw (h.0, break_at) (rw (break_at-quoted q rest h.1) refl)

break_at-closed :
    (q rest : Text) → Quotable q → break_at 39 ((q ++ (39 ∷ [])) ++ rest) ≡ (q, some rest)
break_at-closed q rest h = rw (append_assoc q (39 ∷ []) rest) (break_at-quoted q rest h)

module _ (path : Text) (disk : Disk) (hp : Quotable path) where
  printed_new :
      (chunk : Text)
      → Quotable chunk
      → exec (print_command chunk false path) disk
        ≡ (returned true, set_file path (some chunk) disk)
  unfolding exec after same_text print_to
  printed_new chunk hc =
      rw (break_at-closed chunk (codes " > " ++ quoted path) hc)
        (rw (break_at-quoted path [] hp) refl)

  printed_more :
      (chunk : Text)
      → Quotable chunk
      → exec (print_command chunk true path) disk
        ≡ (returned true, set_file path (some (joined (disk path) chunk)) disk)
  unfolding exec after same_text print_to
  printed_more chunk hc =
      rw (break_at-closed chunk (codes " >> " ++ quoted path) hc)
        (rw (break_at-quoted path [] hp) refl)

  decoded :
      (dest : Text)
      → Quotable dest
      → exec (decode_command path dest) disk ≡ (
        returned (decode_found path dest (disk path) disk).0,
        (decode_found path dest (disk path) disk).1,
      )
  unfolding exec after same_text
  decoded dest hd =
      rw
        (break_at-closed path (codes " > " ++ (quoted dest ++ (codes " && rm -f " ++ quoted path)))
          hp)
        (rw (break_at-closed dest (codes " && rm -f " ++ quoted path) hd) refl)

made :
    (path : Text) (disk : Disk)
    → exec (codes "mkdir" ∷ codes "-p" ∷ path ∷ []) disk ≡ (returned true, disk)
unfolding exec same_text
made path disk = refl

set_file-same : (path : Text) (o : Option Text) (disk : Disk) → set_file path o disk path ≡ o
set_file-same path o disk = rw (same_text_refl path) refl

set_file-other :
    (path q : Text) (o : Option Text) (disk : Disk) → path ≢ q → set_file path o disk q ≡ disk q
set_file-other path q o disk h = elim (Bool-cases (same_text path q)) [
  | inl e ↦ absurd (h (same_text-eq path q e))
  | inr e ↦ rw e refl
]

abbrev pub file : Text → Disk → Option Text
file path disk = disk path

pub shell : Shell exec some file
unfolding decode_found
shell = record {
  print_new = λ chunk path disk hc hp ok.
      rw (printed_new path disk hp chunk hc) (set_file-same path (some chunk) disk);
  print_more = λ chunk path t disk hc hp h ok. rw (printed_more path disk hp chunk hc) (
      set_file-same path (some (joined (disk path) chunk)) disk
      ∙ ap (λ o. some (joined o chunk)) h);
  decode_some = λ tmp dest t content disk ht hd apart h e ok. rw (decoded tmp disk ht dest hd) (
      rw h (
        set_file-other tmp dest none (set_file dest (some t) disk) apart
        ∙ set_file-same dest (some t) disk
        ∙ e));
  decode_none = λ tmp dest disk ht hd h. rw (decoded tmp disk ht dest hd) (rw h refl);
  make_dir = λ path tmp disk. rw (made path disk) ((true, refl), refl);
}

abbrev pub is_quotable : Text → Bool
is_quotable [] = true
is_quotable (c ∷ t) = if c == 39 then false else is_quotable t

pub is_quotable-Quotable : (t : Text) → is_quotable t ≡ true → Quotable t
is_quotable-Quotable [] h = tt
is_quotable-Quotable (c ∷ t) h = elim (Bool-cases (c == 39)) [
  | inl e ↦ absurd (false≢true (rw e at h))
  | inr e ↦ (e, is_quotable-Quotable t (rw e at h))
]
