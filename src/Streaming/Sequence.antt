-- ===== src/Streaming/Sequence.antt =====
-- Every formatted event carries the sequence number that it was made with.
use text.Mathlib.Text.{◌==◌}
use claude_multi_agent.Base.{
  Bool, false, ℕ, suc, String, Option, none, some, ◌≡◌, refl, List, [], ◌∷◌, ◌++◌,
}
use claude_multi_agent.Json.{
  insert_truthy-none, insert_some-none, insert_truthy, Json, num, str, Items, Fields, end, field,
  lookup, lookup-merge,
}
use claude_multi_agent.Streaming.{
  format_tool_call_event, format_subagent_end_event, format_progress_event, format_title_event,
  format_assistant_event, format_subagent_start_event, format_container_recovered_event,
  format_error_event, format_tool_result_event, format_context_status_event, format_ping_event,
  format_thinking_event, format_done_event, Event, create_event, format_init_event,
}

-- The event's sequence number is `n`.
abbrev pub HasSeq : ℕ → Event → Type 0
HasSeq n e = lookup "seq" e.body ≡ some (num n)

-- The events are numbered one after another, from the counter `c` to the counter `c'`.
abbrev pub Numbered : ℕ → List Event → ℕ → Type 0
Numbered c [] c' = c ≡ c'
Numbered c (e ∷ es) c' = HasSeq (suc c) e × Numbered (suc c) es c'

pub Numbered-append :
    (a b c : ℕ) (xs ys : List Event) → Numbered a xs b → Numbered b ys c → Numbered a (xs ++ ys) c
Numbered-append a b c [] ys h k = subst_from h k
  where
    subst_from : a ≡ b → Numbered b ys c → Numbered a ys c
    subst_from e q = rw e q
Numbered-append a b c (x ∷ xs) ys h k = (h.0, Numbered-append (suc a) b c xs ys h.1 k)

pub create_event-HasSeq :
    (clock : ℕ → String) (kind : String) (seq : ℕ) (fs : Fields)
    → lookup "seq" fs ≡ none
    → HasSeq seq (create_event clock kind seq fs)
unfolding create_event
create_event-HasSeq clock kind seq fs h =
    lookup-merge "seq" (field "seq" (num seq) (field "timestamp" (str (clock seq)) end)) fs h

module _ (clock : ℕ → String) (seq : ℕ) where
  -- One optional key behind the others.
  optional :
      (kind k : String) (o : Option Json) (fs : Fields)
      → (k == "seq") ≡ false
      → lookup "seq" fs ≡ none
      → HasSeq seq (create_event clock kind seq (insert_truthy k o fs))
  optional kind k o fs h e =
      create_event-HasSeq clock kind seq (insert_truthy k o fs)
        (insert_truthy-none "seq" k o fs h e)

  pub init-HasSeq :
      (s : Json) (ts : Items) (m : Json) (c : Option Json)
      → HasSeq seq (format_init_event clock seq s ts m c)
  unfolding format_init_event
  init-HasSeq s ts m c = optional "init" "conversation_id" c _ refl refl

  pub thinking-HasSeq :
      (x : Json) (p : Option Json) → HasSeq seq (format_thinking_event clock seq x p)
  unfolding format_thinking_event
  thinking-HasSeq x p = optional "thinking" "parent_agent_id" p _ refl refl

  pub assistant-HasSeq :
      (x : Items) (p : Option Json) → HasSeq seq (format_assistant_event clock seq x p)
  unfolding format_assistant_event
  assistant-HasSeq x p = optional "assistant" "parent_agent_id" p _ refl refl

  pub tool_call-HasSeq :
      (i n : Json) (x : Fields) (s : String) (p : Option Json)
      → HasSeq seq (format_tool_call_event clock seq i n x s p)
  unfolding format_tool_call_event
  tool_call-HasSeq i n x s p = optional "tool_call" "parent_agent_id" p _ refl refl

  pub tool_result-HasSeq :
      (i n : Json) (s : String) (c e : Json) (p : Option Json)
      → HasSeq seq (format_tool_result_event clock seq i n s c e p)
  unfolding format_tool_result_event
  tool_result-HasSeq i n s c e p = optional "tool_result" "parent_agent_id" p _ refl refl

  pub subagent_start-HasSeq :
      (i t d : Json) (m : Option Json) → HasSeq seq (format_subagent_start_event clock seq i t d m)
  unfolding format_subagent_start_event
  subagent_start-HasSeq i t d m = optional "subagent_start" "model" m _ refl refl

  pub subagent_end-HasSeq :
      (i t s : Json) (r : Option Json) → HasSeq seq (format_subagent_end_event clock seq i t s r)
  unfolding format_subagent_end_event
  subagent_end-HasSeq i t s r = optional "subagent_end" "result_preview" r _ refl refl

  pub progress-HasSeq :
      (t m : String) (i n s p : Option Json)
      → HasSeq seq (format_progress_event clock seq t m i n s p)
  unfolding format_progress_event
  progress-HasSeq t m i n s p = optional "progress" "parent_agent_id" p _ refl (
      insert_truthy-none "seq" "tool_status" s _ refl (
        insert_truthy-none "seq" "tool_name" n _ refl
          (insert_truthy-none "seq" "tool_use_id" i _ refl refl)))

  pub title-HasSeq : (t : String) → HasSeq seq (format_title_event clock seq t)
  unfolding format_title_event
  title-HasSeq t = create_event-HasSeq clock "title" seq _ refl

  pub ping-HasSeq : (n : ℕ) → HasSeq seq (format_ping_event clock seq n)
  unfolding format_ping_event
  ping-HasSeq n = create_event-HasSeq clock "ping" seq _ refl

  pub context_status-HasSeq :
      (a b : ℕ) (u : Json) (l : String) (c : Bool) (m r : Option Json)
      → HasSeq seq (format_context_status_event clock seq a b u l c m r)
  unfolding format_context_status_event
  context_status-HasSeq a b u l c m r =
      optional "context_status" "recommended_action" r _ refl
        (insert_truthy-none "seq" "message" m _ refl refl)

  pub done-HasSeq :
      (s : String) (r e : Json) (u : Fields) (c t d : Json) (i m y : Option Json)
      → HasSeq seq (format_done_event clock seq s r e u c t d i m y)
  unfolding format_done_event
  done-HasSeq s r e u c t d i m y = create_event-HasSeq clock "done" seq _ (
      insert_some-none "seq" "model_usage" y _ refl (
        insert_some-none "seq" "messages" m _ refl
          (insert_some-none "seq" "session_id" i _ refl refl)))

  pub error-HasSeq : (t m : String) (r : Bool) → HasSeq seq (format_error_event clock seq t m r)
  unfolding format_error_event
  error-HasSeq t m r = create_event-HasSeq clock "error" seq _ refl

  pub container_recovered-HasSeq :
      (m r y : Json) → HasSeq seq (format_container_recovered_event clock seq m r y)
  unfolding format_container_recovered_event
  container_recovered-HasSeq m r y = create_event-HasSeq clock "container_recovered" seq _ refl

pub ruleset has_seq = (
  init-HasSeq, thinking-HasSeq, assistant-HasSeq, tool_call-HasSeq, tool_result-HasSeq,
  progress-HasSeq, title-HasSeq, context_status-HasSeq, done-HasSeq, error-HasSeq,
  container_recovered-HasSeq,
)
