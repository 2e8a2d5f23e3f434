-- ===== src/Execute/Run/Tests.antt =====
-- A run on a small world, and the theorems on it.
use claude_multi_agent.Base.{
  String, Bool, true, false, Option, none, some, List, [], ◌∷◌, returned, ◌≡◌, refl,
}
use claude_multi_agent.Streaming.{
  Event, create_event, format_progress_event, format_assistant_event, format_error_event,
  format_done_event,
}
use claude_multi_agent.Json.{str, num, end, field}
use claude_multi_agent.Execute.Services.{Services, and_then}
use claude_multi_agent.Execute.Context.{check_context_limit}
use claude_multi_agent.Execute.Translate.{translate_event}
use claude_multi_agent.Execute.Files.{collect_external_file_path}
use claude_multi_agent.Progress.{get_initial_message}
use claude_multi_agent.Execute.Relay.{Request, progress, send_error, error_done}
use claude_multi_agent.Execute.Run.{execute_streaming}
use claude_multi_agent.Execute.Relay.Once.{Once}
use claude_multi_agent.Execute.Run.Numbers.{execute_streaming-Once}
use claude_multi_agent.Execute.Run.Cleanup.{
  Frees, Accounted, execute_streaming-Free, execute_streaming-Accounted,
}

abbrev first : List String → Option String
first [] = none
first (m ∷ ms) = some m

abbrev request : Request
request = record {
  setting = record {
    clock = λ n. "now";
    render = λ j. "{}";
    choice = first;
    read_usage = λ j. none;
  };
  conversation_id = str "c1";
  workspace_enabled = true;
  s3_bucket_name = true;
  max_context = 200000;
  percent = λ a b. num a;
  limit_message = λ a b. "95%";
}

-- The world is whether the lock is held. The container sends one text and breaks off.
abbrev services : Services Bool
services = record {
  time = λ w. (0, w);
  find_conversation = λ w. (returned none, w);
  acquire = λ w. (returned "token", true);
  extend = λ token w. w;
  release = λ token w. false;
  save_user_message = λ w. (returned tt, w);
  get_or_create = λ w. (returned "ws-1", w);
  sync_to_container = λ c w. w;
  find_session = λ w. (returned none, w);
  restore_session_file = λ c s w. w;
  stream = λ c w. ((("text_delta", field "text" (str "hello") end) ∷ [], some "broken"), w);
  generate_title = λ es w. (none, w);
  start_sync = λ c w. w;
  wait_for_sync = λ w. w;
  rescue = λ c ps w. w;
  sync_from_container = λ c w. w;
  record_usage = λ d w. w;
  save_session = λ s w. (returned tt, w);
  save_session_file = λ c s w. w;
  save_assistant_message = λ es w. w;
  commit = λ w. (true, w);
  rollback = λ w. w;
}

abbrev under : String → Bool → Bool
under token w = w

frees : Frees services request under "token"
frees = record {
  by_release = λ w. refl;
  by_time = λ w h. h;
  by_find = λ w h. h;
  by_acquire = λ w e h k. absurd (cc k);
  by_commit = λ w h. h;
  by_rollback = λ w h. h;
}

execute_streaming-Free_example : (execute_streaming services request false).1.world ≡ false
execute_streaming-Free_example =
    execute_streaming-Free services request under "token" frees false refl λ other e. cc e

execute_streaming-Accounted_example :
    Accounted services request (execute_streaming services request false)
execute_streaming-Accounted_example = execute_streaming-Accounted services request false

kinds : List Event → List String
kinds [] = []
kinds (e ∷ es) = e.event ∷ kinds es

-- The run of the small world: its phases, the text with its progress, and the error.
broken_run :
    kinds (execute_streaming services request false).1.sent
    ≡ "progress" ∷ "progress" ∷ "progress" ∷ "progress" ∷ "progress" ∷ "assistant" ∷ "error"
      ∷ "done" ∷ []
unfolding kinds execute_streaming check_context_limit and_then progress translate_event
    get_initial_message format_progress_event create_event collect_external_file_path
    format_assistant_event send_error error_done format_error_event format_done_event
broken_run = refl

execute_streaming-Once_example : Once [] (execute_streaming services request false).1
execute_streaming-Once_example =
    execute_streaming-Once services request (λ c w. ((λ h. refl), tt)) false
