-- ===== src/Execute/Run/Cleanup.antt =====
-- How a run ends: with the lock released, and with an error told to the client.
use claude_multi_agent.Base.{
  ℕ, String, Bool, true, false, Option, none, some, List, [], ◌∷◌, ◌++◌, Outcome, returned, raised,
  ◌≡◌, refl, ◌⊎◌, inl, inr, Bool-cases,
}
use claude_multi_agent.Json.{null, num, str, arr, nil, cons}
use claude_multi_agent.Lock.{LockError, caught_by_execute}
use claude_multi_agent.Streaming.{Event, format_done_event, next_seq}
use claude_multi_agent.Execute.Context.{Conversation}
use claude_multi_agent.Execute.Translate.{usage_fields}
use claude_multi_agent.Execute.Services.{Services, Local, and_then}
use claude_multi_agent.Execute.Relay.{Request, no_usage, progress, send_error, error_done}
use claude_multi_agent.Execute.Run.{
  Ended, complete, escaped, escaped_lock, body, commit_or_rollback, settle, locked, checked,
  looked_up, after_greeting, execute_streaming,
}

module _ {W : Type 0} (services : Services W) (request : Request) (holds : String → W → Bool)
    (token : String) where
  open services use {time, find_conversation, acquire, release, commit, rollback}

  -- `holds token` tells whether the lock of the conversation is held under the token. What the services
  -- do to it: after `release` of a token the lock is not held under that token, as its script sees to
  -- while Redis answers, and the database, the
  -- clock and an `acquire` that raises do not put it under the token.
  pub record Frees : Type 0 where
    pub by_release : (w : W) → holds token (release token w) ≡ false
    pub by_time : (w : W) → holds token w ≡ false → holds token (time w).1 ≡ false
    pub by_find : (w : W) → holds token w ≡ false → holds token (find_conversation w).1 ≡ false
    pub by_acquire :
        (w : W) (e : LockError)
        → holds token w ≡ false
        → (acquire w).0 ≡ raised e
        → holds token (acquire w).1 ≡ false
    pub by_commit : (w : W) → holds token w ≡ false → holds token (commit w).1 ≡ false
    pub by_rollback : (w : W) → holds token w ≡ false → holds token (rollback w) ≡ false

  -- If `acquire` gives a token, it is this one.
  abbrev pub Ours : W → Type 0
  Ours w = (other : String) → (acquire w).0 ≡ returned other → other ≡ token

  abbrev Free : Ended × Local W → Type 0
  Free r = holds token r.1.world ≡ false

  module _ (frees : Frees) (start_time : ℕ) where
    commit-Free :
        (r : Bool × W)
        → holds token r.1 ≡ false
        → holds token (commit_or_rollback services request r) ≡ false
    unfolding commit_or_rollback
    commit-Free (true, w) h = h
    commit-Free (false, w) h = frees.by_rollback w h

    settle-Free :
        (r : Outcome (Unit {0}) String × Local W)
        → Free (settle services request start_time token r)
    unfolding settle
    settle-Free (returned u, l) =
        commit-Free (commit (release token l.world)) (frees.by_commit _ (frees.by_release l.world))
    settle-Free (raised e, l) = frees.by_rollback _ (frees.by_release _)

    locked-Free :
        (r : Outcome String LockError × W) (l : Local W)
        → ((e : LockError) → r.0 ≡ raised e → holds token r.1 ≡ false)
        → ((other : String) → r.0 ≡ returned other → other ≡ token)
        → Free (locked services request start_time r l)
    unfolding locked error_done send_error and_then
    locked-Free (returned other, w) l h k = rw (k other refl) (settle-Free _)
    locked-Free (raised e, w) l h k = elim (Bool-cases (caught_by_execute e)) [
      | inl c ↦ rw c (frees.by_time w (h e refl))
      | inr c ↦ rw c (h e refl)
    ]

    checked-Free :
        (e : Option Event) (l : Local W)
        → holds token l.world ≡ false
        → Ours l.world
        → Free (checked services request start_time e l)
    unfolding checked error_done and_then
    checked-Free (some e) l h k = frees.by_time l.world h
    checked-Free none l h k =
        locked-Free (acquire l.world) l (λ e raise. frees.by_acquire l.world e h raise) k

    looked_up-Free :
        (c : Outcome (Option Conversation) String) (l : Local W)
        → holds token l.world ≡ false
        → Ours l.world
        → Free (looked_up services request start_time c l)
    unfolding looked_up
    looked_up-Free (raised e) l h k = h
    looked_up-Free (returned c) l h k = checked-Free _ _ h k

  -- Whatever the services answer and whatever is raised on the way: a run that is not cancelled, and
  -- begins with the lock not held under the token that its `acquire` would give, ends with the lock not
  -- held under that token, if the lock is not held under a token that has been released, and if the
  -- clock, the database and an `acquire` that raises do not put the lock under it.
  pub execute_streaming-Free :
      Frees
      → (w : W) → holds token w ≡ false
      → Ours (find_conversation (time w).1).1
      → holds token (execute_streaming services request w).1.world ≡ false
  unfolding execute_streaming after_greeting progress and_then
  execute_streaming-Free frees w h k =
      looked_up-Free frees (time w).0 (find_conversation (time w).1).0 _
        (frees.by_find (time w).1 (frees.by_time w h)) k

module _ {W : Type 0} (services : Services W) (request : Request) where
  open services use {time, find_conversation, acquire, release, commit}

  -- The last event is a done event of status "error", under the last number.
  abbrev pub Reported : Local W → Type 0
  Reported l =
      (before : List Event) × (duration : ℕ) × (l.sent
        ≡ before
          ++ (format_done_event request.setting.clock l.counter "error" null
                (arr (cons (str "エージェント実行に失敗しました") nil)) (usage_fields no_usage) (str "0") (num 0)
                (num duration) none none none
              ∷ []))

  -- The body went through, and the lock was released before the commit.
  abbrev pub Succeeded : Local W → Type 0
  Succeeded l =
      (token : String) × (l0 : Local W) × (l1 : Local W) × (body services request token l0
        ≡ (returned tt, l1))
      × (l.sent ≡ l1.sent)
      × (l.world ≡ commit_or_rollback services request (commit (release token l1.world)))

  abbrev pub Accounted : Ended × Local W → Type 0
  Accounted (complete, l) = Reported l ⊎ Succeeded l
  Accounted (escaped e, l) = Unit
  Accounted (escaped_lock e, l) = caught_by_execute e ≡ false

  module _ (start_time : ℕ) where
    settle-Accounted :
        (token : String) (l0 : Local W) (r : Outcome (Unit {0}) String × Local W)
        → body services request token l0 ≡ r
        → Accounted (settle services request start_time token r)
    unfolding settle error_done send_error and_then next_seq
    settle-Accounted token l0 (returned u, l) h = inr (token, l0, l, h, refl, refl)
    settle-Accounted token l0 (raised e, l) h = inl (_, _, refl)

    locked-Accounted :
        (r : Outcome String LockError × W) (l : Local W)
        → Accounted (locked services request start_time r l)
    unfolding locked error_done send_error and_then next_seq
    locked-Accounted (returned token, w) l = settle-Accounted token _ _ refl
    locked-Accounted (raised e, w) l = elim (Bool-cases (caught_by_execute e)) [
      | inl c ↦ rw c (inl (_, _, refl))
      | inr c ↦ rw c c
    ]

    checked-Accounted :
        (e : Option Event) (l : Local W) → Accounted (checked services request start_time e l)
    unfolding checked error_done and_then next_seq
    checked-Accounted (some e) l = inl (_, _, refl)
    checked-Accounted none l = locked-Accounted (acquire l.world) l

    looked_up-Accounted :
        (c : Outcome (Option Conversation) String) (l : Local W)
        → Accounted (looked_up services request start_time c l)
    unfolding looked_up
    looked_up-Accounted (raised e) l = tt
    looked_up-Accounted (returned c) l = checked-Accounted _ _

  -- A run that comes to its end either sends, as its last event and under its last number, a done
  -- event of status "error", or has gone through its whole body, with the lock released before the
  -- commit; a run that an error of the lock leaves, leaves by one that the handler does not catch.
  pub execute_streaming-Accounted : (w : W) → Accounted (execute_streaming services request w)
  unfolding execute_streaming after_greeting progress and_then next_seq
  execute_streaming-Accounted w = looked_up-Accounted (time w).0 (find_conversation (time w).1).0 _
