-- ===== src/Execute/Translate/Numbering.antt =====
-- The translation hands out consecutive numbers.
use text.Mathlib.Text.{◌==◌}
use claude_multi_agent.Base.{
  subst, ℕ, suc, ◌≤◌, String, Bool, true, false, not, ◌||◌, if◌then◌else◌, ◌&&◌, Option, none, some,
  ◌≡◌, refl, arith, inl, inr, Option-cases,
}
use claude_multi_agent.Json.{Json, null, obj, end, Fields, lookup, get_or, is_text}
use claude_multi_agent.Streaming.{Event, next_seq}
use claude_multi_agent.Streaming.Sequence.{
  HasSeq, Numbered, create_event-HasSeq, init-HasSeq, progress-HasSeq, assistant-HasSeq,
  thinking-HasSeq, tool_call-HasSeq, tool_result-HasSeq, done-HasSeq, container_recovered-HasSeq,
}
use claude_multi_agent.Execute.Translate.{
  Setting, Translated, events, raised, translate_event, translate_init, progress_then,
  translate_text, translate_thinking, translate_tool_use, translate_tool_result, translate_done,
  translate_recovered, relay, all_tools, init_data, tool_call_event, done_event,
}

-- The events are numbered from the counter on, and the counter stands where they end; after an
-- exception it stands no lower than before.
abbrev pub Advances : ℕ → Translated → Type 0
Advances c (events es c') = Numbered c es c'
Advances c (raised c') = c ≤ c'

-- The kinds of events that the translation relays as they are.
abbrev pub is_relayed : String → Fields → Bool
is_relayed kind fs =
    if kind == "system" && is_text "init" (get_or "subtype" null fs)
    then false
    else not (
        kind == "text_delta"
        || kind == "thinking"
        || kind == "tool_use"
        || kind == "tool_result"
        || kind == "done"
        || kind == "container_recovered")

some_eq : {a b : Event} → some a ≡ some b → a ≡ b
some_eq h = cc

module _ (s : Setting) (fs : Fields) (c : ℕ) where
  init-Advances :
      (conversation_id : Option Json) → Advances c (translate_init s conversation_id fs c)
  unfolding translate_init next_seq
  init-Advances conversation_id = elim (Option-cases (all_tools s (init_data fs))) [
    | inl e ↦ rw (e, Advances) (omega arith)
    | inr (tools, e) ↦ rw (e, Advances) (init-HasSeq s.clock (suc c) _ _ _ _, refl)
  ]

  then-Advances :
      (kind : String) (i n t : Option Json) (message : Option String) (second : ℕ → Option Event)
      → ((seq : ℕ) (e : Event) → second seq ≡ some e → HasSeq seq e)
      → Advances c (progress_then s kind i n t message second c)
  unfolding progress_then next_seq
  then-Advances kind i n t none second h = omega arith
  then-Advances kind i n t (some m) second h = elim (Option-cases (second (suc (suc c)))) [
    | inl e ↦ rw (e, Advances) (omega arith)
    | inr (x, e) ↦
        rw (e, Advances)
          (progress-HasSeq s.clock (suc c) kind m i n t none, (h (suc (suc c)) x e, refl))
  ]

  tool_call-Follows :
      (i n : Json) (input : Option Fields) (seq : ℕ) (e : Event)
      → tool_call_event s i n input seq ≡ some e
      → HasSeq seq e
  unfolding tool_call_event
  tool_call-Follows i n none seq e h = cc
  tool_call-Follows i n (some x) seq e h =
      subst (HasSeq seq) (some_eq h) (tool_call-HasSeq s.clock seq i n x _ none)

  text-Advances : Advances c (translate_text s fs c)
  unfolding translate_text
  text-Advances =
      then-Advances "generating" none none none _ _
        λ seq e h. subst (HasSeq seq) (some_eq h) (assistant-HasSeq s.clock seq _ none)

  thinking-Advances : Advances c (translate_thinking s fs c)
  unfolding translate_thinking
  thinking-Advances =
      then-Advances "thinking" none none none _ _
        λ seq e h. subst (HasSeq seq) (some_eq h) (thinking-HasSeq s.clock seq _ none)

  tool_use-Advances : Advances c (translate_tool_use s fs c)
  unfolding translate_tool_use
  tool_use-Advances = then-Advances "tool" _ _ _ _ _ (tool_call-Follows _ _ _)

  tool_result-Advances : Advances c (translate_tool_result s fs c)
  unfolding translate_tool_result next_seq
  tool_result-Advances = (tool_result-HasSeq s.clock (suc c) _ _ _ _ _ none, refl)

  done-Advances : Advances c (translate_done s fs c)
  unfolding translate_done done_event next_seq
  done-Advances = elim (Option-cases (s.read_usage (get_or "usage" (obj end) fs))) [
    | inl e ↦ rw (e, Advances) (omega arith)
    | inr (r, e) ↦ rw (e, Advances) (done-HasSeq s.clock (suc c) _ _ _ _ _ _ _ _ _ _, refl)
  ]

  recovered-Advances : Advances c (translate_recovered s fs c)
  unfolding translate_recovered next_seq
  recovered-Advances = (container_recovered-HasSeq s.clock (suc c) _ _ _, refl)

  relay-Advances : (kind : String) → lookup "seq" fs ≡ none → Advances c (relay s kind fs c)
  unfolding relay next_seq
  relay-Advances kind h = (create_event-HasSeq s.clock kind (suc c) fs h, refl)

  -- One test of the ladder.
  branch-Advances :
      (b : Bool) (f g : ℕ → Translated)
      → Advances c (f c)
      → (b ≡ false → Advances c (g c))
      → Advances c ((if b then f else g) c)
  branch-Advances true f g h k = h
  branch-Advances false f g h k = k refl

  -- Whatever the SDK sends, the events that come out carry the numbers that follow the counter, one
  -- after another with no gap, and the counter ends at the last of them; an exception only moves the
  -- counter forward. The one condition is that a relayed event brings no "seq" of its own.
  pub translate_event-Advances :
      (conversation_id : Option Json) (kind : String)
      → (is_relayed kind fs ≡ true → lookup "seq" fs ≡ none)
      → Advances c (translate_event s conversation_id kind fs c)
  unfolding translate_event
  translate_event-Advances conversation_id kind h =
      branch-Advances (kind == "system" && is_text "init" (get_or "subtype" null fs))
        (translate_init s conversation_id fs) _ (init-Advances conversation_id)
        λ e0. branch-Advances (kind == "text_delta") (translate_text s fs) _ text-Advances λ e1.
          branch-Advances (kind == "thinking") (translate_thinking s fs) _ thinking-Advances λ e2.
            branch-Advances (kind == "tool_use") (translate_tool_use s fs) _ tool_use-Advances λ e3.
              branch-Advances (kind == "tool_result") (translate_tool_result s fs) _
                tool_result-Advances
                λ e4. branch-Advances (kind == "done") (translate_done s fs) _ done-Advances λ e5.
                  branch-Advances (kind == "container_recovered") (translate_recovered s fs) _
                    recovered-Advances
                    λ e6. relay-Advances kind (h (rw (e0, e1, e2, e3, e4, e5, e6)))
