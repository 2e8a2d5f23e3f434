-- ===== src/Execute/Translate.antt =====
-- `_translate_event` of app/services/execute_service.py: an event of the SDK becomes events of the
-- host, each with the next sequence number. `none` is an exception of Python, raised where a value
-- is not of the type that the code takes it for.
pub mod Numbering
use Prim.Native.String.{◌++◌}
use text.Mathlib.Text.{◌==◌}
use claude_multi_agent.Base.{
  ℕ, zero, suc, String, Bool, true, false, ◌&&◌, Option, none, some, List, [], ◌∷◌, if◌then◌else◌,
}
use claude_multi_agent.Json.{
  Json, null, bool, num, str, arr, obj, Items, nil, cons, Fields, end, field, get_or, lookup,
  truthy, append_items, is_text,
}
use claude_multi_agent.Streaming.{
  Event, next_seq, create_event, format_init_event, format_thinking_event, format_assistant_event,
  format_tool_call_event, format_tool_result_event, format_progress_event, format_done_event,
  format_container_recovered_event,
}
use claude_multi_agent.Progress.{get_initial_message}
use claude_multi_agent.Execute.Usage.{RawUsage, Usage, normalize_usage}

-- What the translation takes from elsewhere: the clock, Python's `str` of a value that is no text,
-- `random.choice`, and the reading of a usage dictionary, which raises where a count is no number.
pub record Setting : Type 0 where
  pub clock : ℕ → String
  pub render : Json → String
  pub choice : List String → Option String
  pub read_usage : Json → Option RawUsage

-- The characters of a text, as one-letter texts.
chars : String → Items
chars String.[] = nil
chars (String.◌∷◌ c s) = cons (str (String.◌∷◌ c String.[])) (chars s)

keys : Fields → Items
keys end = nil
keys (field k v fs) = cons (str k) (keys fs)

-- `list(value)`: what iterating over a value gives.
iterate : Json → Option Items
iterate (arr xs) = some xs
iterate (str s) = some (chars s)
iterate (obj fs) = some (keys fs)
iterate _ = none

-- `value.get(…)` wants a dictionary.
pub as_dict : Json → Option Fields
as_dict (obj fs) = some fs
as_dict _ = none

infixl 5 ◌>>=◌
abbrev ◌>>=◌ {ℓ κ} : {A : Type ℓ} {B : Type κ} → Option A → (A → Option B) → Option B
none >>= f = none
some a >>= f = f a

pub usage_fields : Usage → Fields
usage_fields u = field "input_tokens" (num u.input_tokens) (
    field "output_tokens" (num u.output_tokens) (
      field "cache_creation_5m_tokens" (num u.cache_creation_5m_tokens) (
        field "cache_creation_1h_tokens" (num u.cache_creation_1h_tokens) (
          field "cache_read_tokens" (num u.cache_read_tokens)
            (field "total_tokens" (num u.total_tokens) end)))))

-- The events and the counter behind them, or an exception, which leaves the numbers already taken.
pub data Translated : Type 0 where
  events : List Event → ℕ → Translated
  raised : ℕ → Translated

init_of : Fields → Option Json → Fields
init_of fs (some (obj inner)) = inner
init_of fs _ = fs

-- `data["data"]`, if that is a dictionary, and `data` itself otherwise.
pub init_data : Fields → Fields
unfolding init_of
init_data fs = init_of fs (lookup "data" fs)

pub not_null : Json → Option Json
not_null null = none
not_null v = some v

module _ (s : Setting) where
  open s use {clock, render, choice, read_usage}

  -- A value inside an f-string.
  pub text_of : Json → String
  text_of (str t) = t
  text_of v = render v

  -- `mcp__<server>__<tool>` for each tool of one connected server.
  tool_names : Json → Items → Items
  tool_names server nil = nil
  tool_names server (cons tool ts) =
      cons (str ("mcp__" ++ text_of server ++ "__" ++ text_of tool)) (tool_names server ts)

  server_tools : Json → Option Items
  server_tools server = do
    fs ← as_dict server
    let name = get_or "name" (str "") fs
    if truthy name && is_text "connected" (get_or "status" (str "") fs)
        then (do ts ← iterate (get_or "tools" (arr nil) fs); some (tool_names name ts))
        else some nil

  mcp_tools : Items → Option Items
  mcp_tools nil = some nil
  mcp_tools (cons server rest) =
      let later = mcp_tools rest in
      do here ← server_tools server; there ← later; some (append_items here there)

  -- `get_initial_message("tool", tool_name)`: a name that is truthy and no text raises.
  tool_message : Json → Option String
  tool_message (str t) = get_initial_message choice "tool" t
  tool_message v = if truthy v then none else get_initial_message choice "tool" ""

  pub all_tools : Fields → Option Items
  all_tools init = do
    tools ← iterate (get_or "tools" (arr nil) init)
    servers ← iterate (get_or "mcp_servers" (arr nil) init)
    more ← mcp_tools servers
    some (append_items tools more)

  translate_init : Option Json → Fields → ℕ → Translated
  translate_init conversation_id fs counter =
      let init = init_data fs in
      elim (all_tools init) [
        | none ↦ raised counter
        | some tools ↦
            let (counter', seq) = next_seq counter in
            events
              (format_init_event clock seq (get_or "session_id" (str "") init) tools
                  (get_or "model" (str "") init) conversation_id
                ∷ [])
              counter'
      ]

  -- A progress event, and behind it the event that `second` makes with the number after its own.
  progress_then :
      String
      → Option Json
      → Option Json
      → Option Json
      → Option String
      → (ℕ → Option Event)
      → ℕ
      → Translated
  progress_then kind tool_use_id tool_name tool_status message second counter =
      let (counter', seq) = next_seq counter in
      let (counter'', seq') = next_seq counter' in
      elim message [
        | none ↦ raised counter'
        | some m ↦ elim (second seq') [
          | none ↦ raised counter''
          | some e ↦
              events
                (format_progress_event clock seq kind m tool_use_id tool_name tool_status none
                  ∷ e
                  ∷ [])
                counter''
        ]
      ]

  text_block : Fields → Items
  text_block fs =
      cons (obj (field "type" (str "text") (field "text" (get_or "text" (str "") fs) end))) nil

  translate_text : Fields → ℕ → Translated
  translate_text fs =
      progress_then "generating" none none none (get_initial_message choice "generating" "")
        (λ seq. some (format_assistant_event clock seq (text_block fs) none))

  translate_thinking : Fields → ℕ → Translated
  translate_thinking fs =
      progress_then "thinking" none none none (get_initial_message choice "thinking" "")
        (λ seq. some (format_thinking_event clock seq (get_or "content" (str "") fs) none))

  tool_call_event : Json → Json → Option Fields → ℕ → Option Event
  tool_call_event tool_use_id tool_name none seq = none
  tool_call_event tool_use_id tool_name (some input) seq = some (
      format_tool_call_event clock seq tool_use_id tool_name input ("ツール実行: " ++ text_of tool_name)
        none)

  translate_tool_use : Fields → ℕ → Translated
  translate_tool_use fs =
      let tool_name = get_or "tool_name" (str "") fs in
      let tool_use_id = get_or "tool_use_id" (str "") fs in
      progress_then "tool" (some tool_use_id) (some tool_name) (some (str "running"))
        (tool_message tool_name)
        (tool_call_event tool_use_id tool_name (as_dict (get_or "input" (obj end) fs)))

  translate_tool_result : Fields → ℕ → Translated
  translate_tool_result fs counter =
      let (counter', seq) = next_seq counter in
      let is_error = get_or "is_error" (bool false) fs in
      events
        (format_tool_result_event clock seq (get_or "tool_use_id" (str "") fs)
            (get_or "tool_name" (str "") fs) (if truthy is_error then "error" else "completed")
            (get_or "content" (str "") fs) is_error none
          ∷ [])
        counter'

  done_event : Fields → ℕ → Usage → Event
  done_event fs seq usage =
      format_done_event clock seq
        (if is_text "error_during_execution" (get_or "subtype" null fs) then "error" else "success")
        (get_or "result" null fs) null (usage_fields usage)
        (str (text_of (get_or "cost_usd" (str "0") fs))) (get_or "num_turns" (num 0) fs)
        (get_or "duration_ms" (num 0) fs) (not_null (get_or "session_id" null fs)) none none

  translate_done : Fields → ℕ → Translated
  translate_done fs counter =
      let (counter', seq) = next_seq counter in
      elim (read_usage (get_or "usage" (obj end) fs)) [
        | none ↦ raised counter'
        | some r ↦ events (done_event fs seq (normalize_usage r) ∷ []) counter'
      ]

  translate_recovered : Fields → ℕ → Translated
  translate_recovered fs counter =
      let (counter', seq) = next_seq counter in
      events
        (format_container_recovered_event clock seq
            (get_or "message" (str "Container recovered") fs) (get_or "recovered" (bool true) fs)
            (get_or "retry_recommended" (bool true) fs)
          ∷ [])
        counter'

  -- An error, or any other event: relayed under the next number.
  relay : String → Fields → ℕ → Translated
  relay kind fs counter =
      let (counter', seq) = next_seq counter in
      events (create_event clock kind seq fs ∷ []) counter'

  unfoldable pub translate_event : Option Json → String → Fields → ℕ → Translated
  unfolding translate_init translate_text translate_thinking translate_tool_use
      translate_tool_result translate_done translate_recovered relay progress_then tool_call_event
      tool_message done_event text_block
  translate_event conversation_id kind fs =
      if kind == "system" && is_text "init" (get_or "subtype" null fs)
      then translate_init conversation_id fs
      else if kind == "text_delta"
      then translate_text fs
      else if kind == "thinking"
      then translate_thinking fs
      else if kind == "tool_use"
      then translate_tool_use fs
      else if kind == "tool_result"
      then translate_tool_result fs
      else if kind == "done"
      then translate_done fs
      else if kind == "container_recovered"
      then translate_recovered fs
      else relay kind fs
