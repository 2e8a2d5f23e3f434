-- ===== src/Streaming.antt =====
-- The host's event format: app/utils/streaming.py.
-- `clock` stands for `get_timestamp`: the text that it gives while the event of a number is made.
pub mod Sequence
mod Truncation
mod Tests
use Prim.Native.String.{◌++◌, count}
use claude_multi_agent.Base.{
  ℕ, zero, suc, ◌+◌, String, Bool, true, not, Option, none, some, ltb, if◌then◌else◌,
}
use claude_multi_agent.Json.{
  Json, null, bool, num, str, arr, obj, Items, Fields, end, field, merge, insert_truthy,
  insert_some, is_text,
}

-- `SequenceCounter.next`: the new counter and the number handed out, which are the same.
unfoldable pub next_seq : ℕ → ℕ × ℕ
next_seq counter = let n = suc counter in (n, n)

-- {"event": event, "data": body}
pub record Event : Type 0 where
  pub event : String
  pub body : Fields

abbrev pub take_chars : ℕ → String → String
take_chars zero s = String.[]
take_chars (suc n) String.[] = String.[]
take_chars (suc n) (String.◌∷◌ c s) = String.◌∷◌ c (take_chars n s)

truncate_value : Json → Json
truncate_value (str s) = if ltb 500 (count s) then str (take_chars 500 s ++ "...") else str s
truncate_value v = v

-- The loop over `tool_input.items()` of `format_tool_call_event`.
pub truncate_input : Fields → Fields
truncate_input end = end
truncate_input (field k v fs) = field k (truncate_value v) (truncate_input fs)

module _ (clock : ℕ → String) where
  unfoldable pub create_event : String → ℕ → Fields → Event
  create_event event_type seq data_fields = record {
    event = event_type;
    body = merge (field "seq" (num seq) (field "timestamp" (str (clock seq)) end)) data_fields;
  }

  unfoldable pub format_init_event : ℕ → Json → Items → Json → Option Json → Event
  format_init_event seq session_id tools model conversation_id = create_event "init" seq (
      insert_truthy "conversation_id" conversation_id
        (field "session_id" session_id (field "tools" (arr tools) (field "model" model end))))

  unfoldable pub format_thinking_event : ℕ → Json → Option Json → Event
  format_thinking_event seq content parent_agent_id =
      create_event "thinking" seq
        (insert_truthy "parent_agent_id" parent_agent_id (field "content" content end))

  unfoldable pub format_assistant_event : ℕ → Items → Option Json → Event
  format_assistant_event seq content_blocks parent_agent_id = create_event "assistant" seq (
      insert_truthy "parent_agent_id" parent_agent_id
        (field "content_blocks" (arr content_blocks) end))

  unfoldable pub format_tool_call_event : ℕ → Json → Json → Fields → String → Option Json → Event
  format_tool_call_event seq tool_use_id tool_name tool_input summary parent_agent_id =
      create_event "tool_call" seq (
        insert_truthy "parent_agent_id" parent_agent_id (
          field "tool_use_id" tool_use_id (
            field "tool_name" tool_name (
              field "input" (obj (truncate_input tool_input))
                (field "summary" (str summary) end)))))

  unfoldable pub format_tool_result_event :
      ℕ → Json → Json → String → Json → Json → Option Json → Event
  format_tool_result_event seq tool_use_id tool_name status content is_error parent_agent_id =
      create_event "tool_result" seq (
        insert_truthy "parent_agent_id" parent_agent_id (
          field "tool_use_id" tool_use_id (
            field "tool_name" tool_name (
              field "status" (str status)
                (field "content" content (field "is_error" is_error end))))))

  unfoldable pub format_subagent_start_event : ℕ → Json → Json → Json → Option Json → Event
  format_subagent_start_event seq agent_id agent_type description model =
      create_event "subagent_start" seq (
        insert_truthy "model" model (
          field "agent_id" agent_id
            (field "agent_type" agent_type (field "description" description end))))

  unfoldable pub format_subagent_end_event : ℕ → Json → Json → Json → Option Json → Event
  format_subagent_end_event seq agent_id agent_type status result_preview =
      create_event "subagent_end" seq (
        insert_truthy "result_preview" result_preview
          (field "agent_id" agent_id (field "agent_type" agent_type (field "status" status end))))

  unfoldable pub format_progress_event :
      ℕ → String → String → Option Json → Option Json → Option Json → Option Json → Event
  format_progress_event seq progress_type message tool_use_id tool_name tool_status
        parent_agent_id =
      create_event "progress" seq (
        insert_truthy "parent_agent_id" parent_agent_id (
          insert_truthy "tool_status" tool_status (
            insert_truthy "tool_name" tool_name (
              insert_truthy "tool_use_id" tool_use_id
                (field "type" (str progress_type) (field "message" (str message) end))))))

  unfoldable pub format_title_event : ℕ → String → Event
  format_title_event seq title = create_event "title" seq (field "title" (str title) end)

  unfoldable pub format_ping_event : ℕ → ℕ → Event
  format_ping_event seq elapsed_ms =
      create_event "ping" seq (field "elapsed_ms" (num elapsed_ms) end)

  -- `usage_percent` is the rounded float, which the model does not compute.
  unfoldable pub format_context_status_event :
      ℕ → ℕ → ℕ → Json → String → Bool → Option Json → Option Json → Event
  format_context_status_event seq current_tokens max_tokens usage_percent warning_level can_continue
        message recommended_action =
      create_event "context_status" seq (
        insert_truthy "recommended_action" recommended_action (
          insert_truthy "message" message (
            field "current_context_tokens" (num current_tokens) (
              field "max_context_tokens" (num max_tokens) (
                field "usage_percent" usage_percent (
                  field "warning_level" (str warning_level)
                    (field "can_continue" (bool can_continue) end)))))))

  unfoldable pub format_done_event :
      ℕ
      → String
      → Json
      → Json
      → Fields
      → Json
      → Json
      → Json
      → Option Json
      → Option Json
      → Option Json
      → Event
  format_done_event seq status result errors usage cost_usd turn_count duration_ms session_id
        messages model_usage =
      create_event "done" seq (
        insert_some "model_usage" model_usage (
          insert_some "messages" messages (
            insert_some "session_id" session_id (
              field "status" (str status) (
                field "result" result (
                  field "is_error" (bool (not (is_text "success" (str status)))) (
                    field "errors" errors (
                      field "usage" (obj usage) (
                        field "cost_usd" cost_usd (
                          field "turn_count" turn_count
                            (field "duration_ms" duration_ms end)))))))))))

  unfoldable pub format_error_event : ℕ → String → String → Bool → Event
  format_error_event seq error_type message recoverable = create_event "error" seq (
      field "error_type" (str error_type)
        (field "message" (str message) (field "recoverable" (bool recoverable) end)))

  unfoldable pub format_container_recovered_event : ℕ → Json → Json → Json → Event
  format_container_recovered_event seq message recovered retry_recommended =
      create_event "container_recovered" seq (
        field "message" message
          (field "recovered" recovered (field "retry_recommended" retry_recommended end)))
