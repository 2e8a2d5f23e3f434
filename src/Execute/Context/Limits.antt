-- ===== src/Execute/Context/Limits.antt =====
-- The three places that judge the context window agree.
use claude_multi_agent.Base.{
  sym, ap, ◌∙◌, lt→ltb, ℕ, ◌+◌, ◌<◌, String, Bool, true, false, Option, none, some, ◌≡◌, refl,
  arith,
}
use claude_multi_agent.Json.{Json, lookup, bool}
use claude_multi_agent.Streaming.{Event, next_seq, format_context_status_event, create_event}
use claude_multi_agent.Execute.Usage.{Usage}
use claude_multi_agent.Execute.Context.{
  Conversation, WarningLevel, normal, warning, critical, blocked, warning_level, can_continue,
  level_name, level_message, recommended_action, update_context_status, build_context_status_event,
  check_context_limit,
}

-- Whether the check before the next run lets it start.
abbrev pub passes : Option Event × ℕ → Bool
passes (none, c) = true
passes (some e, c) = false

-- What an event says under `can_continue`.
abbrev pub says : Option Event → Option Json
says none = none
says (some e) = lookup "can_continue" e.body

module _ (clock : ℕ → String) (percent : ℕ → ℕ → Json) where
  status_event-can_continue :
      (seq tokens m : ℕ) (l : WarningLevel) (p : Json)
      → lookup "can_continue"
          (format_context_status_event clock seq tokens m p
            (level_name l)
            (can_continue l)
            (level_message l)
            (recommended_action l)).body
        ≡ some (bool (can_continue l))
  unfolding format_context_status_event create_event level_name can_continue level_message
      recommended_action
  status_event-can_continue seq tokens m normal p = refl
  status_event-can_continue seq tokens m warning p = refl
  status_event-can_continue seq tokens m critical p = refl
  status_event-can_continue seq tokens m blocked p = refl

  check_after_update :
      (limit_message : ℕ → ℕ → String) (m i o n : ℕ) (c : Conversation)
      → 0 < m
      → passes (check_context_limit clock limit_message m (update_context_status m i o (some c)) n)
        ≡ can_continue (warning_level (c.estimated_context_tokens + (i + o)) m)
  unfolding check_context_limit update_context_status can_continue warning_level
  check_after_update limit_message m i o n c h = ground arith

  -- For a model with a context window, the `can_continue` that a run reports is exactly whether the
  -- context check lets the next run of the conversation start, once the run's usage is recorded.
  pub can_continue-eq-passes :
      (limit_message : ℕ → ℕ → String) (m n n' : ℕ) (u : Usage) (c : Conversation)
      → 0 < m
      → says (build_context_status_event clock percent m u (some c) n).0
        ≡ some (
            bool (
              passes (
                check_context_limit clock limit_message m
                  (update_context_status m u.input_tokens u.output_tokens (some c))
                  n')))
  unfolding build_context_status_event
  can_continue-eq-passes limit_message m n n' u c h =
      let t = c.estimated_context_tokens + (u.input_tokens + u.output_tokens) in
      rw (lt→ltb 0 m h) (
        status_event-can_continue (next_seq n).1 t m (warning_level t m) (percent t m)
        ∙ ap (λ b. some (bool b))
            (sym (check_after_update limit_message m u.input_tokens u.output_tokens n' c h)))
