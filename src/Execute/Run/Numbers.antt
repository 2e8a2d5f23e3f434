-- ===== src/Execute/Run/Numbers.antt =====
-- The numbers of the events of a whole run.
use claude_multi_agent.Base.{
  suc, arith, ℕ, String, Bool, false, Option, none, some, List, [], ◌∷◌, Outcome, returned, raised,
  All, ltb, leb, ◌*◌, inl, inr, Bool-cases, refl, ◌&&◌,
}
use claude_multi_agent.Json.{Json, null, Fields, get_or, truthy}
use claude_multi_agent.Lock.{LockError, caught_by_execute}
use claude_multi_agent.Streaming.{Event, next_seq}
use claude_multi_agent.Streaming.Sequence.{error-HasSeq}
use claude_multi_agent.Execute.Context.{Conversation, check_context_limit}
use claude_multi_agent.Execute.Services.{
  Services, Local, Step, pure, ◌>>=◌, and_then, call, read, act,
}
use claude_multi_agent.Execute.Relay.{Request, Loop, send_error, error_done}
use claude_multi_agent.Execute.Relay.Once.{Once, numbered-Once, passed-Once}
use claude_multi_agent.Execute.Relay.Keeps.{
  Keeps, Unnumbered, IsNext, bind-Keeps, if-Keeps, call-Keeps, act-Keeps, read-Keeps, same-Once,
  progress-Keeps, send_error-Keeps, error_done-Keeps, relay_stream-Keeps, raise_some-Keeps,
}
use claude_multi_agent.Execute.Run.{
  unless_empty, store_session, record_done, restore, refresh, finish, body, settle, locked, checked,
  looked_up, after_greeting, execute_streaming,
}

check_context_limit-IsNext :
    (clock : ℕ → String) (message : ℕ → ℕ → String) (max : ℕ) (c : Option Conversation) (n : ℕ)
    → IsNext n (check_context_limit clock message max c n)
unfolding check_context_limit next_seq
check_context_limit-IsNext clock message max none n = refl
check_context_limit-IsNext clock message max (some c) n =
    elim (Bool-cases c.context_limit_reached) [
      | inl h ↦ rw h (refl, error-HasSeq clock (suc n) _ _ _)
      | inr h ↦
          rw h
            (elim (Bool-cases (
              ltb 0 max
              && ltb 0 c.estimated_context_tokens
              && leb (95 * max) (c.estimated_context_tokens * 100))) [
                | inl k ↦ rw k (refl, error-HasSeq clock (suc n) _ _ _)
                | inr k ↦ rw k refl
              ])
    ]

module _ {W : Type 0} (services : Services W) (request : Request) where
  unless_empty-Keeps :
      {A : Type 0} (xs : List A) (m : Step W (Unit {0}))
      → Keeps [] m
      → Keeps [] (unless_empty services request xs m)
  unless_empty-Keeps [] m h = λ l o. o
  unless_empty-Keeps (x ∷ xs) m h = h

  store_session-Keeps :
      (container : String) (session : Json)
      → Keeps [] (store_session services request container session)
  unfolding store_session
  store_session-Keeps container session =
      if-Keeps [] (truthy session)
        (call (services.save_session session) >>= λ _.
          act (services.save_session_file container session))
        (pure tt)
        (bind-Keeps [] (call (services.save_session session))
          (λ _. act (services.save_session_file container session))
          (call-Keeps [] (services.save_session session))
          λ _. act-Keeps [] (services.save_session_file container session))
        (λ l o. o)

  record_done-Keeps :
      (container : String) (d : Option Fields) → Keeps [] (record_done services request container d)
  unfolding record_done
  record_done-Keeps container none = λ l o. o
  record_done-Keeps container (some d) =
      bind-Keeps [] (act (services.record_usage d))
        (λ _. store_session services request container (get_or "session_id" null d))
        (act-Keeps [] (services.record_usage d))
        λ _. store_session-Keeps container (get_or "session_id" null d)

  restore-Keeps :
      (container : String) (s : Option String) → Keeps [] (restore services request container s)
  unfolding restore
  restore-Keeps container none = λ l o. o
  restore-Keeps container (some session) =
      act-Keeps [] (services.restore_session_file container session)

  refresh-Keeps : (container : String) → Keeps [] (refresh services request container)
  unfolding refresh
  refresh-Keeps container l o = same-Once [] l (services.get_or_create l.world).1 o

  finish-Keeps : (container : String) (k : Loop) → Keeps [] (finish services request container k)
  unfolding finish
  finish-Keeps container k = bind-Keeps [] _ _ (refresh-Keeps container) λ c.
      bind-Keeps [] _ _ (act-Keeps [] services.wait_for_sync) λ _.
        bind-Keeps [] _ _
          (unless_empty-Keeps k.external_file_paths _
            (act-Keeps [] (services.rescue c k.external_file_paths)))
          λ _.
            bind-Keeps [] _ _
              (if-Keeps [] request.workspace_enabled _ _
                (act-Keeps [] (services.sync_from_container c)) (λ l o. o))
              λ _. bind-Keeps [] _ _ (record_done-Keeps c k.done_data) λ _.
                unless_empty-Keeps k.assistant_events _
                  (act-Keeps [] (services.save_assistant_message k.assistant_events))

  -- What follows the arrival of the events.
  streamed-Keeps :
      {A : Type 0} (container : String) (f : (List (String × Fields)) × Option String → Step W A)
      → ((w : W) → Keeps [] (f (services.stream container w).0))
      → Keeps [] (read (services.stream container) >>= f)
  unfolding and_then
  streamed-Keeps container f h l o =
      h l.world _ (same-Once [] l (services.stream container l.world).1 o)

  module _ (plain : (c : String) (w : W) → All Unnumbered (services.stream c w).0.0) where
    body-Keeps : (token : String) → Keeps [] (body services request token)
    unfolding body
    body-Keeps token = bind-Keeps [] _ _ (call-Keeps [] services.save_user_message) λ _.
        bind-Keeps [] _ _ (progress-Keeps services request [] "ワークスペースを準備しています...") λ _.
          bind-Keeps [] _ _ (call-Keeps [] services.get_or_create) λ container.
            bind-Keeps [] _ _
              (if-Keeps [] request.workspace_enabled _ _
                (bind-Keeps [] _ _ (progress-Keeps services request [] "ファイルを同期中...")
                  λ _. act-Keeps [] (services.sync_to_container container))
                (λ l o. o))
              λ _. bind-Keeps [] _ _ (call-Keeps [] services.find_session) λ session.
                bind-Keeps [] _ _ (restore-Keeps container session) λ _.
                  bind-Keeps [] _ _ (progress-Keeps services request [] "エージェントを起動しています...") λ _.
                    bind-Keeps [] _ _ (read-Keeps [] services.time) λ started.
                      streamed-Keeps container _ λ w.
                        bind-Keeps [] _ _
                          (relay_stream-Keeps services request token container
                            (services.stream container w).0.0 _ (plain container w))
                          λ k.
                            bind-Keeps [] _ _
                              (raise_some-Keeps services request (services.stream container w).0.1)
                              λ _. finish-Keeps container k

    module _ (start_time : ℕ) where
      told-Once :
          (t m : String) (r : Bool) (l : Local W)
          → Once [] l
          → Once []
              ((send_error services request t m r >>= λ _. error_done services request start_time)
                l).1
      told-Once t m r =
          bind-Keeps [] _ _ (send_error-Keeps services request [] t m r)
            λ _. error_done-Keeps services request [] start_time

      settle-Once :
          (token : String) (r : Outcome (Unit {0}) String × Local W)
          → Once [] r.1
          → Once [] (settle services request start_time token r).1
      unfolding settle
      settle-Once token (returned u, l) o = same-Once [] l _ o
      settle-Once token (raised e, l) o = same-Once [] _ _ (told-Once "execution_error" e false l o)

      locked-Once :
          (r : Outcome String LockError × W) (l : Local W)
          → Once [] l
          → Once [] (locked services request start_time r l).1
      unfolding locked
      locked-Once (returned token, w) l o =
          settle-Once token _ (body-Keeps token _ (same-Once [] l w o))
      locked-Once (raised e, w) l o = elim (Bool-cases (caught_by_execute e)) [
        | inl c ↦ rw c (told-Once _ _ _ _ (same-Once [] l w o))
        | inr c ↦ rw c (same-Once [] l w o)
      ]

      checked-Once :
          (r : Option Event × ℕ) (l : Local W)
          → IsNext l.counter r
          → Once [] l
          → Once [] (checked services request start_time r.0 (record l { counter = r.1 })).1
      unfolding checked and_then
      checked-Once (some e, n) l h o =
          error_done-Keeps services request [] start_time _
            (passed-Once (record l { counter = n }) [] e (rw (h.0) (numbered-Once l [] e h.1 o)))
      checked-Once (none, n) l h o =
          locked-Once (services.acquire l.world) (record l { counter = n }) (rw h o)

      looked_up-Once :
          (c : Outcome (Option Conversation) String) (l : Local W)
          → Once [] l
          → Once [] (looked_up services request start_time c l).1
      unfolding looked_up
      looked_up-Once (raised e) l o = o
      looked_up-Once (returned c) l o =
          checked-Once
            (check_context_limit request.setting.clock request.limit_message request.max_context c
              l.counter)
            l
            (check_context_limit-IsNext request.setting.clock request.limit_message
              request.max_context c l.counter)
            o

    nothing_sent : (w : W) → Once [] (record { counter = 0; sent = []; world = w })
    nothing_sent w = record { numbered = tt; waiting_numbered = tt; once = λ n. omega arith }

    -- However a run goes, and whatever it raises on the way, every event that it has sent has a number
    -- from 1 to the counter, and no two of them have the same, if the container's events that are
    -- relayed as they are bring no "seq" of their own.
    pub execute_streaming-Once : (w : W) → Once [] (execute_streaming services request w).1
    unfolding execute_streaming after_greeting
    execute_streaming-Once w = looked_up-Once (services.time w).0 _ _ (
        same-Once [] _ _
          (progress-Keeps services request [] "実行を開始しています..." _ (nothing_sent (services.time w).1)))
