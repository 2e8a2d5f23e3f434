-- ===== src/Execute/Relay.antt =====
-- The loop of `execute_streaming` of app/services/execute_service.py over the events of the container,
-- and the steps that its parts share: progress, errors, the context status and the title.
pub mod Once
pub mod Keeps
use text.Mathlib.Text.{◌==◌}
use claude_multi_agent.Base.{
  ℕ, ◌+◌, ◌-◌, String, Bool, ◌&&◌, ◌||◌, Option, none, some, List, [], ◌∷◌, ◌++◌, Outcome, returned,
  raised, ltb, if◌then◌else◌,
}
use claude_multi_agent.Json.{Json, null, num, str, arr, nil, cons, obj, end, Fields, get_or}
use claude_multi_agent.Streaming.{
  Event, format_progress_event, format_error_event, format_done_event, format_title_event,
}
use claude_multi_agent.Execute.Usage.{Usage, normalize_usage}
use claude_multi_agent.Execute.Context.{Conversation, build_context_status_event}
use claude_multi_agent.Execute.Translate.{
  Setting, Translated, events, translate_event, usage_fields,
}
use claude_multi_agent.Execute.Files.{is_file_tool_result, collect_external_file_path}
use claude_multi_agent.Execute.Services.{
  Services, Step, pure, fail, ◌>>=◌, read, act, number, send, or_raise,
}

-- The request, the model's context window, and how numbers are written into events.
pub record Request : Type 0 where
  pub setting : Setting
  pub conversation_id : Json
  pub workspace_enabled : Bool
  pub s3_bucket_name : Bool
  pub max_context : ℕ
  pub percent : ℕ → ℕ → Json
  pub limit_message : ℕ → ℕ → String

-- The variables of the loop over the stream.
pub record Loop : Type 0 where
  pub done_data : Option Fields
  pub last_sync_time : ℕ
  pub last_lock_extend_time : ℕ
  pub external_file_paths : List String
  pub assistant_events : List Event

pub no_usage : Usage
no_usage = record {
  input_tokens = 0;
  output_tokens = 0;
  cache_creation_5m_tokens = 0;
  cache_creation_1h_tokens = 0;
  cache_read_tokens = 0;
  total_tokens = 0;
}

abbrev is_kept : Event → Bool
is_kept e =
    e.event == "assistant"
    || e.event == "thinking"
    || e.event == "tool_call"
    || e.event == "tool_result"

module _ {W : Type 0} (services : Services W) (request : Request) where
  abbrev clock : ℕ → String
  clock = request.setting.clock

  unfoldable pub progress : String → Step W (Unit {0})
  progress message = do
    n ← number
    send (format_progress_event clock n "setup" message none none none none)

  unfoldable pub send_error : String → String → Bool → Step W (Unit {0})
  send_error error_type message recoverable = do
    n ← number
    send (format_error_event clock n error_type message recoverable)

  -- `_error_done`
  unfoldable pub error_done : ℕ → Step W (Unit {0})
  error_done start_time = do
    n ← number
    now ← read services.time
    send (
        format_done_event clock n "error" null (arr (cons (str "エージェント実行に失敗しました") nil))
          (usage_fields no_usage) (str "0") (num 0) (num (now - start_time)) none none none)

  send_some : Option Event → Step W (Unit {0})
  send_some none = pure tt
  send_some (some e) = send e

  -- `_build_context_status_event`, in which every exception gives no event.
  status_of : Option Usage → Outcome (Option Conversation) String → ℕ → Option Event × ℕ
  status_of (some u) (returned c) counter =
      build_context_status_event clock request.percent request.max_context u c counter
  status_of _ _ counter = (none, counter)

  usage_of : Json → Option Usage
  usage_of j = elim (request.setting.read_usage j) [
    | none ↦ none
    | some r ↦ some (normalize_usage r)
  ]

  context_status : Fields → Step W (Option Event)
  unfolding status_of usage_of
  context_status done_data l =
      let (c, w) = services.find_conversation l.world in
      let (e, n) = status_of (usage_of (get_or "usage" (obj end) done_data)) c l.counter in
      (returned e, record l { counter = n; world = w })

  -- `_generate_title_if_needed`
  send_title : Option String → Step W (Unit {0})
  send_title none = pure tt
  send_title (some title) = do n ← number; send (format_title_event clock n title)

  on_done : Event → Loop → Step W Loop
  unfolding context_status send_some send_title
  on_done e k =
      if e.event == "done"
      then (do
        status ← context_status e.body
        _ ← send_some status
        title ← read (services.generate_title k.assistant_events)
        _ ← send_title title
        pure (record k { done_data = some e.body }))
      else pure k

  extend_lock : String → Loop → Step W Loop
  extend_lock token k = do
    now ← read services.time
    if ltb (k.last_lock_extend_time + 60000) now
        then (do
          _ ← act (services.extend token)
          later ← read services.time
          pure (record k { last_lock_extend_time = later }))
        else pure k

  sync_after : String → Event → Loop → Step W Loop
  sync_after container e k =
      if request.workspace_enabled && request.s3_bucket_name && e.event == "tool_result"
      then (do
        of_file ← or_raise (is_file_tool_result e)
        now ← (if of_file then read services.time else pure 0)
        if of_file && ltb (k.last_sync_time + 10000) now
            then (do
              later ← read services.time
              _ ← act (services.start_sync container)
              pure (record k { last_sync_time = later }))
            else pure k)
      else pure k

  -- The body of the loop, for one event of the host.
  handle : String → String → Event → Loop → Step W Loop
  unfolding on_done extend_lock sync_after
  handle token container e k = do
    k1 ← on_done e k
    paths ← or_raise (collect_external_file_path e k1.external_file_paths)
    k2 ← extend_lock token (record k1 { external_file_paths = paths })
    k3 ← sync_after container e k2
    _ ← send e
    pure
        (if is_kept e then record k3 { assistant_events = k3.assistant_events ++ (e ∷ []) } else k3)

  handle_all : String → String → List Event → Loop → Step W Loop
  unfolding handle
  handle_all token container [] k = pure k
  handle_all token container (e ∷ es) k = do
    k' ← handle token container e k
    handle_all token container es k'

  -- `_translate_event` of one event of the SDK.
  translated : Translated → Step W (List Event)
  translated (events es c) l = (returned es, record l { counter = c })
  translated (Translated.raised c) l =
      (raised "a value is not of the expected type", record l { counter = c })

  translate : String × Fields → Step W (List Event)
  unfolding translated
  translate (kind, fs) l =
      translated (translate_event request.setting (some request.conversation_id) kind fs l.counter)
        l

  unfoldable pub relay_stream : String → String → List (String × Fields) → Loop → Step W Loop
  unfolding translate handle_all
  relay_stream token container [] k = pure k
  relay_stream token container (x ∷ xs) k = do
    es ← translate x
    k' ← handle_all token container es k
    relay_stream token container xs k'

  unfoldable pub raise_some : Option String → Step W (Unit {0})
  raise_some none = pure tt
  raise_some (some e) = fail e
