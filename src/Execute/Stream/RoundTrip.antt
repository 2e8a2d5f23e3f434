-- ===== src/Execute/Stream/RoundTrip.antt =====
-- What the orchestrator prints as an event is read back as that event.
use mathlib.Core.List.{reverse, reverse-append, reverse-reverse, append_assoc, append-nil}
use claude_multi_agent.Base.{
  map, ℕ, false, ◌==◌, Option, some, [], ◌∷◌, ◌++◌, ◌≡◌, refl, arith, ◌∙◌, ap, sym, subst, All,
  All-append,
}
use claude_multi_agent.Execute.Stream.Chunks.{split_first_lem, take_events_lem}
use claude_multi_agent.Execute.Stream.{
  Text, newline, event_prefix, data_prefix, message_kind, is_space, strip_left, strip, lines,
  split_first, split_step, begins_line, keep_char, take_events, drain, after, read_line, read_lines,
  with_content, parse_sse_event, event_to_sse,
}

-- A text on one line.
abbrev pub OneLine : Text → Type 0
OneLine t = All (λ c. (c == newline) ≡ false) t

lines_one : (t : Text) → OneLine t → lines t ≡ t ∷ []
unfolding lines
lines_one [] h = refl
lines_one (c ∷ t) h = rw (h.0, lines_one t h.1)

lines-append : (a b : Text) → OneLine a → lines (a ++ (newline ∷ b)) ≡ a ∷ lines b
unfolding lines
lines-append [] b h = refl
lines-append (c ∷ a) b h = rw (h.0, lines-append a b h.1)

after-append : (p t : Text) → after p (p ++ t) ≡ some t
unfolding after
after-append [] t = refl
after-append (c ∷ p) t = ground (arith, after-append p t)

strip_left_keep : (a : ℕ) (t : Text) → is_space a ≡ false → strip_left (a ∷ t) ≡ a ∷ t
unfolding strip_left
strip_left_keep a t h = rw h

-- Stripping leaves a text that begins and ends with no white space.
strip_lem :
    (a z : ℕ) (t : Text)
    → is_space a ≡ false
    → is_space z ≡ false
    → strip (a ∷ (t ++ (z ∷ []))) ≡ a ∷ (t ++ (z ∷ []))
unfolding strip
strip_lem a z t h k = rw (strip_left_keep a (t ++ (z ∷ [])) h) (
    rw (reverse-append (a ∷ t) (z ∷ [])) (
      rw (strip_left_keep z (reverse (a ∷ t)) k)
        (rw (← reverse-append (a ∷ t) (z ∷ [])) (reverse-reverse ((a ∷ t) ++ (z ∷ []))))))

-- What the code relies on of `json.dumps` and `json.loads`: a value is printed on one line, the last
-- character of which is no white space, and is read back.
pub record JsonCodec {D : Type 0} (dumps : D → Text) (loads : Text → Option D) : Type 0 where
  pub one_line : (d : D) → OneLine (dumps d)
  pub ends : (d : D) → (m : Text) × (z : ℕ) × (dumps d ≡ m ++ (z ∷ [])) × (is_space z ≡ false)
  pub loads-dumps : (d : D) → loads (dumps d) ≡ some d

event_prefix-OneLine : OneLine event_prefix
event_prefix-OneLine = (refl, (refl, (refl, (refl, (refl, (refl, (refl, tt)))))))

data_prefix-OneLine : OneLine data_prefix
data_prefix-OneLine = (refl, (refl, (refl, (refl, (refl, (refl, tt))))))

parse_sse_event_lem :
    {D : Type 0} (loads : Text → Option D) (raw : Text → D) (t : Text)
    → parse_sse_event loads raw t
      ≡ with_content loads raw (read_lines (lines (strip t)) (message_kind, []))
unfolding parse_sse_event
parse_sse_event_lem loads raw t = refl

with_content_lem :
    {D : Type 0} (loads : Text → Option D) (raw : Text → D) (kind t m : Text) (z : ℕ) (d : D)
    → t ≡ m ++ (z ∷ [])
    → loads t ≡ some d
    → with_content loads raw (kind, t) ≡ some (kind, d)
unfolding with_content
with_content_lem loads raw kind [] [] z d e h = cc
with_content_lem loads raw kind [] (x ∷ m) z d e h = cc
with_content_lem loads raw kind (c ∷ cs) m z d e h = rw (h, with_content)

split_first_one :
    (x : ℕ) (xs : Text)
    → (x == newline) ≡ false
    → split_first (x ∷ xs) ≡ keep_char x (split_first xs)
unfolding split_first split_step
split_first_one x xs h = ground arith

-- No blank line ends inside a line.
split_first-line :
    (a b e r : Text)
    → OneLine a
    → split_first b ≡ some (e, r)
    → split_first (a ++ b) ≡ some (a ++ e, r)
split_first-line [] b e r h k = k
split_first-line (x ∷ a) b e r h k =
    rw (split_first_one x (a ++ b) h.0)
      (rw (split_first-line a b e r h.1 k) (unfold keep_char in refl))

split_first_end : split_first (newline ∷ newline ∷ []) ≡ some ([], [])
unfolding split_first split_step begins_line
split_first_end = refl

split_first_data :
    (b e r : Text)
    → split_first (data_prefix ++ b) ≡ some (e, r)
    → split_first (newline ∷ (data_prefix ++ b)) ≡ some (newline ∷ e, r)
unfolding split_step begins_line keep_char
split_first_data b e r h = rw (split_first_lem newline (data_prefix ++ b)) (rw h)

module _ {D : Type 0} (loads : Text → Option D) (raw : Text → D) (dumps : D → Text)
    (codec : JsonCodec dumps loads) where
  body : Text → D → Text
  body kind d = event_prefix ++ (kind ++ (newline ∷ (data_prefix ++ dumps d)))

  strip-body : (kind : Text) (d : D) → strip (body kind d) ≡ body kind d
  unfolding body is_space
  strip-body kind d =
      let (m, z, e, k) = codec.ends d in
      let inner : Text =
        (118 ∷ 101 ∷ 110 ∷ 116 ∷ 58 ∷ 32 ∷ []) ++ (kind ++ (newline ∷ (data_prefix ++ m))) in
      let same : body kind d ≡ 101 ∷ (inner ++ (z ∷ [])) = rw e (simp append_assoc) in
      subst (λ t. strip t ≡ t) (sym same) (strip_lem 101 z inner refl k)

  lines-body :
      (kind : Text) (d : D)
      → OneLine kind
      → lines (body kind d) ≡ (event_prefix ++ kind) ∷ (data_prefix ++ dumps d) ∷ []
  unfolding body
  lines-body kind d h = rw (← append_assoc event_prefix kind (newline ∷ (data_prefix ++ dumps d))) (
      lines-append (event_prefix ++ kind) (data_prefix ++ dumps d)
        (All-append _ event_prefix kind event_prefix-OneLine h)
      ∙ ap (λ l. (event_prefix ++ kind) ∷ l)
          (lines_one (data_prefix ++ dumps d)
            (All-append _ data_prefix (dumps d) data_prefix-OneLine (codec.one_line d))))

  read-body :
      (kind : Text) (d : D)
      → strip kind ≡ kind
      → read_lines ((event_prefix ++ kind) ∷ (data_prefix ++ dumps d) ∷ []) (message_kind, [])
        ≡ (kind, dumps d)
  unfolding read_lines read_line after
  read-body kind d k = ap (λ t. (t, dumps d)) k

  parse-body :
      (kind : Text) (d : D)
      → OneLine kind
      → strip kind ≡ kind
      → parse_sse_event loads raw (body kind d) ≡ some (kind, d)
  parse-body kind d h k =
      let (m, z, e, w) = codec.ends d in
      parse_sse_event_lem loads raw (body kind d)
      ∙ ap (λ t. with_content loads raw (read_lines (lines t) (message_kind, [])))
          (strip-body kind d)
      ∙ ap (λ ls. with_content loads raw (read_lines ls (message_kind, []))) (lines-body kind d h)
      ∙ ap (with_content loads raw) (read-body kind d k)
      ∙ with_content_lem loads raw kind (dumps d) m z d e (codec.loads-dumps d)

  split-event_to_sse :
      (kind : Text) (d : D)
      → OneLine kind
      → split_first (event_to_sse dumps kind d) ≡ some (body kind d, [])
  unfolding event_to_sse body
  split-event_to_sse kind d h =
      let content = data_prefix ++ (dumps d ++ []) in
      let a = split_first-line (dumps d) _ [] [] (codec.one_line d) split_first_end in
      let b = split_first-line data_prefix _ (dumps d ++ []) [] data_prefix-OneLine a in
      let c = split_first_data _ content [] b in
      let k = split_first-line kind _ (newline ∷ content) [] h c in
      let p =
        split_first-line event_prefix _ (kind ++ (newline ∷ content)) [] event_prefix-OneLine k in
      rw append-nil at p

  -- An event whose type is one line with no white space at its ends, printed by the orchestrator and
  -- received as one text, is taken off the buffer as one event, leaves nothing, and is read back with
  -- its type and its data, by a JSON codec that reads back what it prints on one line.
  pub sse_round_trip :
      (kind : Text) (d : D)
      → OneLine kind
      → strip kind ≡ kind
      → (map (parse_sse_event loads raw) (take_events (event_to_sse dumps kind d)).0
          ≡ some (kind, d) ∷ [])
        × ((take_events (event_to_sse dumps kind d)).1 ≡ [])
  unfolding drain split_first
  sse_round_trip kind d h k =
      let whole =
        take_events_lem (event_to_sse dumps kind d) (body kind d) []
          (split-event_to_sse kind d h) in
      rw whole (ap (λ (o : Option (Text × D)). o ∷ []) (parse-body kind d h k), refl)
