-- ===== src/Execute/Stream.antt =====
-- The event stream from a container: the buffer loop of `_stream_from_container` and
-- `_parse_sse_event` of app/services/execute_service.py, and `event_to_sse_bytes` of
-- app/utils/streaming.py, over text as a list of code points.
pub mod Chunks
pub mod RoundTrip
mod Tests
use mathlib.Core.List.{reverse}
use claude_multi_agent.Base.{
  ℕ, zero, suc, ◌+◌, Bool, true, false, ◌&&◌, ◌||◌, Option, none, some, List, [], ◌∷◌, ◌++◌, map,
  length, leb, ◌==◌, if◌then◌else◌,
}

abbrev pub Text : Type 0
Text = List ℕ

abbrev pub newline : ℕ
newline = 10

-- What stands before the first blank line, and what follows it, as by `split("\n\n", 1)`.
pub begins_line : Text → Option Text
begins_line [] = none
begins_line (x ∷ xs) = if x == newline then some xs else none

keep_char : ℕ → Option (Text × Text) → Option (Text × Text)
keep_char x none = none
keep_char x (some (a, b)) = some (x ∷ a, b)

pub split_step : ℕ → Option Text → Option (Text × Text) → Option (Text × Text)
unfolding keep_char
split_step x none later = keep_char x later
split_step x (some rest) later = if x == newline then some ([], rest) else keep_char x later

pub split_first : Text → Option (Text × Text)
split_first [] = none
split_first (x ∷ xs) = split_step x (begins_line xs) (split_first xs)

-- `while "\n\n" in buffer`, with fuel: the texts of the events, and the buffer that is left.
unfoldable pub drain : ℕ → Text → List Text × Text
drain zero buffer = ([], buffer)
drain (suc f) buffer = elim (split_first buffer) [
  | none ↦ ([], buffer)
  | some (event, rest) ↦ let (es, last) = drain f rest in (event ∷ es, last)
]

-- The loop on a buffer; each round shortens it, so one more than its length is fuel enough.
abbrev pub take_events : Text → List Text × Text
take_events buffer = drain (suc (length buffer)) buffer

-- The chunks of a response, one after another: `buffer += decoded`, then the loop.
unfoldable pub feed : Text → List Text → List Text × Text
feed buffer [] = ([], buffer)
feed buffer (chunk ∷ chunks) =
    let (es, rest) = take_events (buffer ++ chunk) in
    let (es', rest') = feed rest chunks in (es ++ es', rest')

-- The chunks as they arrive: each is decoded by itself, with `errors="replace"`. The decoder is a
-- parameter.
unfoldable pub feed_bytes : (List ℕ → Text) → Text → List (List ℕ) → List Text × Text
feed_bytes decode buffer chunks = feed buffer (map decode chunks)

-- The characters that `str.strip` removes.
pub is_space : ℕ → Bool
is_space c =
    (leb 9 c && leb c 13)
    || (leb 28 c && leb c 32)
    || c == 133
    || c == 160
    || c == 5760
    || (leb 8192 c && leb c 8202)
    || c == 8232
    || c == 8233
    || c == 8239
    || c == 8287
    || c == 12288

strip_left : Text → Text
strip_left [] = []
strip_left (x ∷ xs) = let rest = strip_left xs in if is_space x then rest else x ∷ xs

unfoldable pub strip : Text → Text
unfolding strip_left is_space
strip t = reverse (strip_left (reverse (strip_left t)))

cons_line : ℕ → List Text → List Text
cons_line c [] = (c ∷ []) ∷ []
cons_line c (l ∷ ls) = (c ∷ l) ∷ ls

-- `split("\n")`
lines : Text → List Text
unfolding cons_line
lines [] = [] ∷ []
lines (c ∷ t) = let rest = lines t in if c == newline then [] ∷ rest else cons_line c rest

-- What follows a prefix, if the text starts with it.
unfoldable pub after : Text → Text → Option Text
after [] t = some t
after (p ∷ ps) [] = none
after (p ∷ ps) (c ∷ t) = let rest = after ps t in if p == c then rest else none

abbrev event_prefix : Text
event_prefix = 101 ∷ 118 ∷ 101 ∷ 110 ∷ 116 ∷ 58 ∷ 32 ∷ []

abbrev data_prefix : Text
data_prefix = 100 ∷ 97 ∷ 116 ∷ 97 ∷ 58 ∷ 32 ∷ []

abbrev message_kind : Text
message_kind = 109 ∷ 101 ∷ 115 ∷ 115 ∷ 97 ∷ 103 ∷ 101 ∷ []

-- One line, onto the event type and the data text so far.
read_line : Text → Text × Text → Text × Text
read_line line (kind, content) = elim (after event_prefix line) [
  | some rest ↦ (strip rest, content)
  | none ↦ elim (after data_prefix line) [ some rest ↦ (kind, rest) | none ↦ (kind, content) ]
]

read_lines : List Text → Text × Text → Text × Text
read_lines [] acc = acc
read_lines (l ∷ ls) acc = read_lines ls (read_line l acc)

module _ {D : Type 0} (loads : Text → Option D) (raw : Text → D) where
  with_content : Text × Text → Option (Text × D)
  with_content (kind, []) = none
  with_content (kind, c ∷ cs) = elim (loads (c ∷ cs)) [
    | some d ↦ some (kind, d)
    | none ↦ some (kind, raw (c ∷ cs))
  ]

  -- `loads` is `json.loads`, with `none` for a JSONDecodeError; `raw` makes {"raw": text}.
  unfoldable pub parse_sse_event : Text → Option (Text × D)
  unfolding with_content read_lines read_line strip strip_left is_space lines after
  parse_sse_event event_str = with_content (read_lines (lines (strip event_str)) (message_kind, []))

-- `event_to_sse_bytes`, before it is encoded; `dumps` is `json.dumps`.
unfoldable pub event_to_sse : {D : Type 0} → (D → Text) → Text → D → Text
event_to_sse dumps kind d =
    event_prefix ++ (kind ++ (newline ∷ (data_prefix ++ (dumps d ++ (newline ∷ newline ∷ [])))))
