-- ===== src/Execute/Context.antt =====
-- The context window: `_check_context_limit`, `_update_context_status` and
-- `_build_context_status_event` of app/services/execute_service.py, and `update_context_status` of
-- app/repositories/conversation_repository.py.
-- The code compares `(tokens / max_context) * 100` with a bound; the model compares
-- `tokens * 100` with `bound * max_context`, which is the same in exact arithmetic.
pub mod Limits
use claude_multi_agent.Base.{
  ℕ, ◌+◌, ◌*◌, String, Bool, true, false, ◌&&◌, Option, none, some, ltb, leb, if◌then◌else◌,
}
use claude_multi_agent.Json.{Json, str}
use claude_multi_agent.Streaming.{Event, next_seq, format_context_status_event, format_error_event}
use claude_multi_agent.Execute.Usage.{Usage}

-- The columns of a conversation that the code reads and writes. A counter that is NULL counts as 0.
pub record Conversation : Type 0 where
  pub total_input_tokens : ℕ
  pub total_output_tokens : ℕ
  pub estimated_context_tokens : ℕ
  pub context_limit_reached : Bool

abbrev at_least : ℕ → ℕ → ℕ → Bool
at_least bound tokens max_context = leb (bound * max_context) (tokens * 100)

-- `update_context_status` of the repository.
abbrev accumulate : ℕ → ℕ → Bool → Conversation → Conversation
accumulate input output reached c = record {
  total_input_tokens = c.total_input_tokens + input;
  total_output_tokens = c.total_output_tokens + output;
  estimated_context_tokens = c.estimated_context_tokens + (input + output);
  context_limit_reached = reached;
}

-- `_update_context_status`, of the conversation that the database holds, if it holds one.
unfoldable pub update_context_status : ℕ → ℕ → ℕ → Option Conversation → Option Conversation
update_context_status max_context input output none = none
update_context_status max_context input output (some c) =
    let accumulated = c.estimated_context_tokens + (input + output) in
    let reached = ltb 0 max_context && at_least 95 accumulated max_context in
    some (accumulate input output reached c)

pub data WarningLevel : Type 0 where
  normal warning critical blocked : WarningLevel

-- The ladder of thresholds in `_build_context_status_event`.
unfoldable pub warning_level : ℕ → ℕ → WarningLevel
warning_level tokens max_context =
    if at_least 95 tokens max_context
    then blocked
    else if at_least 85 tokens max_context
    then critical
    else if at_least 70 tokens max_context
    then warning
    else normal

level_name : WarningLevel → String
level_name normal = "normal"
level_name warning = "warning"
level_name critical = "critical"
level_name blocked = "blocked"

can_continue : WarningLevel → Bool
can_continue blocked = false
can_continue _ = true

level_message : WarningLevel → Option Json
level_message normal = none
level_message warning = some (str "会話が長くなっています。新しいチャットを開始することをおすすめします。")
level_message critical = some (str "コンテキストが残りわずかです。次の返信でエラーの可能性があります。")
level_message blocked = some (str "コンテキスト制限に達しました。新しいチャットを開始してください。")

recommended_action : WarningLevel → Option Json
recommended_action normal = none
recommended_action _ = some (str "new_chat")

abbrev accumulated_with : Option Conversation → ℕ → ℕ
accumulated_with none new_tokens = new_tokens
accumulated_with (some c) new_tokens = c.estimated_context_tokens + new_tokens

module _ (clock : ℕ → String) (percent : ℕ → ℕ → Json) where
  status_event : ℕ → ℕ → ℕ → Event
  status_event seq tokens max_context =
      let level = warning_level tokens max_context in
      format_context_status_event clock seq tokens max_context (percent tokens max_context)
        (level_name level) (can_continue level) (level_message level) (recommended_action level)

  -- `_build_context_status_event`; `percent` is the rounded percentage, a float.
  unfoldable pub build_context_status_event : ℕ → Usage → Option Conversation → ℕ → Option Event × ℕ
  unfolding status_event level_name can_continue level_message recommended_action
  build_context_status_event max_context usage conversation counter =
      let tokens = accumulated_with conversation (usage.input_tokens + usage.output_tokens) in
      let (counter', seq) = next_seq counter in
      if ltb 0 max_context
      then (some (status_event seq tokens max_context), counter')
      else (none, counter)

module _ (clock : ℕ → String) (limit_message : ℕ → ℕ → String) where
  limit_error : String → ℕ → Option Event × ℕ
  limit_error message counter =
      let (counter', seq) = next_seq counter in
      (some (format_error_event clock seq "context_limit_exceeded" message false), counter')

  -- `_check_context_limit`; `limit_message` writes the percentage into the message.
  unfoldable pub check_context_limit : ℕ → Option Conversation → ℕ → Option Event × ℕ
  unfolding limit_error
  check_context_limit max_context none counter = (none, counter)
  check_context_limit max_context (some c) counter =
      if c.context_limit_reached
      then limit_error "この会話はコンテキスト制限に達しています。新しいチャットを開始してください。" counter
      else if ltb 0 max_context
          && ltb 0 c.estimated_context_tokens
          && at_least 95 c.estimated_context_tokens max_context
      then limit_error (limit_message c.estimated_context_tokens max_context) counter
      else (none, counter)
