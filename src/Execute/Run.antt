-- ===== src/Execute/Run.antt =====
-- `execute_streaming` of app/services/execute_service.py, over the services that it calls. Audit
-- entries and logs are left out.
pub mod Cleanup
pub mod Numbers
mod Tests
use text.Mathlib.Text.{◌==◌}
use claude_multi_agent.Base.{
  ℕ, ◌+◌, ◌-◌, String, Bool, true, false, ◌&&◌, ◌||◌, Option, none, some, List, [], ◌∷◌, ◌++◌,
  Outcome, returned, raised, ltb, if◌then◌else◌,
}
use claude_multi_agent.Json.{
  Json, null, num, str, arr, nil, cons, obj, end, field, Fields, get_or, truthy, lookup,
}
use claude_multi_agent.Lock.{LockError, caught_by_execute}
use claude_multi_agent.Streaming.{
  Event, next_seq, format_progress_event, format_error_event, format_done_event, format_title_event,
}
use claude_multi_agent.Execute.Usage.{Usage, normalize_usage}
use claude_multi_agent.Execute.Context.{
  Conversation, check_context_limit, build_context_status_event,
}
use claude_multi_agent.Execute.Translate.{
  Setting, Translated, events, translate_event, usage_fields,
}
use claude_multi_agent.Execute.Files.{is_file_tool_result, collect_external_file_path}
use claude_multi_agent.Execute.Services.{
  Services, Local, Step, pure, fail, and_then, ◌>>=◌, call, read, act, number, send, or_raise,
}
use claude_multi_agent.Execute.Relay.{
  Request, Loop, progress, send_error, error_done, relay_stream, raise_some,
}

-- How the generator ends: after its last event, or with an exception that leaves it.
pub data Ended : Type 0 where
  complete : Ended
  escaped : String → Ended
  escaped_lock : LockError → Ended

module _ {W : Type 0} (services : Services W) (request : Request) where
  restore : String → Option String → Step W (Unit {0})
  restore container none = pure tt
  restore container (some session) = act (services.restore_session_file container session)

  -- `if new_session_id:` and what follows.
  store_session : String → Json → Step W (Unit {0})
  store_session container session =
      if truthy session
      then (do
        _ ← call (services.save_session session)
        act (services.save_session_file container session))
      else pure tt

  record_done : String → Option Fields → Step W (Unit {0})
  unfolding store_session
  record_done container none = pure tt
  record_done container (some d) = do
    _ ← act (services.record_usage d)
    store_session container (get_or "session_id" null d)

  -- The container after the stream, by another `get_or_create` whose exceptions are caught.
  refreshed : String → Outcome String String → String
  refreshed container (returned c) = c
  refreshed container (raised e) = container

  refresh : String → Step W String
  unfolding refreshed
  refresh container l =
      let (c, w) = services.get_or_create l.world in
      (returned (refreshed container c), record l { world = w })

  abbrev unless_empty : {A : Type 0} → List A → Step W (Unit {0}) → Step W (Unit {0})
  unless_empty [] m = pure tt
  unless_empty (a ∷ xs) m = m

  -- What follows the stream.
  finish : String → Loop → Step W (Unit {0})
  unfolding refresh record_done
  finish container k = do
    c ← refresh container
    _ ← act services.wait_for_sync
    _ ← unless_empty k.external_file_paths (act (services.rescue c k.external_file_paths))
    _ ← (if request.workspace_enabled then act (services.sync_from_container c) else pure tt)
    _ ← record_done c k.done_data
    unless_empty k.assistant_events (act (services.save_assistant_message k.assistant_events))

  -- The body of the `try` that holds the lock.
  pub body : String → Step W (Unit {0})
  unfolding restore finish relay_stream raise_some
  body token = do
    _ ← call services.save_user_message
    _ ← progress services request "ワークスペースを準備しています..."
    container ← call services.get_or_create
    _ ←
        (if request.workspace_enabled
          then (do
            _ ← progress services request "ファイルを同期中..."
            act (services.sync_to_container container))
          else pure tt)
    session ← call services.find_session
    _ ← restore container session
    _ ← progress services request "エージェントを起動しています..."
    started ← read services.time
    (arrived, failure) ← read (services.stream container)
    k ← relay_stream services request token container arrived (record {
      done_data = none;
      last_sync_time = 0;
      last_lock_extend_time = started;
      external_file_paths = [];
      assistant_events = [];
    })
    _ ← raise_some services request failure
    finish container k

  pub commit_or_rollback : Bool × W → W
  commit_or_rollback (true, w) = w
  commit_or_rollback (false, w) = services.rollback w

  -- The `except` and the `finally` around the body: the error is told, the lock is released, and the
  -- database is committed or rolled back.
  settle : ℕ → String → Outcome (Unit {0}) String × Local W → Ended × Local W
  unfolding commit_or_rollback
  settle start_time token (returned u, l) = (
    complete,
    record l { world = commit_or_rollback (services.commit (services.release token l.world)) },
  )
  settle start_time token (raised e, l) =
      let (o, l1) =
        (do
          _ ← send_error services request "execution_error" e false
          error_done services request start_time)
          l in
      (complete, record l1 { world = services.rollback (services.release token l1.world) })

  abbrev ended_early : Outcome (Unit {0}) String × Local W → Ended × Local W
  ended_early (o, l) = (complete, l)

  locked : ℕ → Outcome String LockError × W → Local W → Ended × Local W
  locked start_time (returned token, w) l =
      settle start_time token (body token (record l { world = w }))
  locked start_time (raised e, w) l =
      if caught_by_execute e
      then ended_early (
          (do
            _ ←
                send_error services request "conversation_locked" "会話は現在使用中です。しばらくしてから再試行してください。"
                  true
            error_done services request start_time)
            (record l { world = w }))
      else (escaped_lock e, record l { world = w })

  -- After the context check.
  checked : ℕ → Option Event → Local W → Ended × Local W
  checked start_time (some e) l =
      ended_early ((do _ ← send e; error_done services request start_time) l)
  checked start_time none l = locked start_time (services.acquire l.world) l

  looked_up : ℕ → Outcome (Option Conversation) String → Local W → Ended × Local W
  looked_up start_time (raised e) l = (escaped e, l)
  looked_up start_time (returned c) l =
      let (event, n) =
        check_context_limit request.setting.clock request.limit_message request.max_context c
          l.counter in
      checked start_time event (record l { counter = n })

  after_greeting : ℕ → Outcome (Unit {0}) String × Local W → Ended × Local W
  after_greeting start_time (o, l) =
      let (c, w) = services.find_conversation l.world in
      looked_up start_time c (record l { world = w })

  pub execute_streaming : W → Ended × Local W
  unfolding after_greeting looked_up checked locked settle body
  execute_streaming w =
      let (start_time, w1) = services.time w in
      after_greeting start_time
        (progress services request "実行を開始しています..." (record { counter = 0; sent = []; world = w1 }))
