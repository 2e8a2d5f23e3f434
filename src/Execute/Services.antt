-- ===== src/Execute/Services.antt =====
-- What `execute_streaming` of app/services/execute_service.py calls, acting on a world, and the steps
-- that its own code is made of.
use claude_multi_agent.Base.{
  ℕ, String, Bool, Option, none, some, List, [], ◌∷◌, ◌++◌, Outcome, returned, raised,
}
use claude_multi_agent.Json.{Json, Fields}
use claude_multi_agent.Lock.{LockError}
use claude_multi_agent.Streaming.{Event, next_seq}
use claude_multi_agent.Execute.Context.{Conversation}

-- An exception is given by its text, `str(e)`. A call whose exceptions are all caught by the code is
-- only its effect.
pub record Services (W : Type 0) : Type 0 where
  -- `time.time()`, in milliseconds
  pub time : W → ℕ × W
  -- The conversation's counters, from the database.
  pub find_conversation : W → Outcome (Option Conversation) String × W
  -- The lock of the conversation.
  pub acquire : W → Outcome String LockError × W
  pub extend : String → W → W
  pub release : String → W → W
  pub save_user_message : W → Outcome (Unit {0}) String × W
  -- The orchestrator: the container's identifier.
  pub get_or_create : W → Outcome String String × W
  pub sync_to_container : String → W → W
  pub find_session : W → Outcome (Option String) String × W
  pub restore_session_file : String → String → W → W
  -- The events that the container sends, in their order, and the exception that ends them, if any.
  pub stream : String → W → (List (String × Fields) × Option String) × W
  -- The title that is generated and stored for the events so far, if one is needed.
  pub generate_title : List Event → W → Option String × W
  pub start_sync : String → W → W
  pub wait_for_sync : W → W
  pub rescue : String → List String → W → W
  pub sync_from_container : String → W → W
  pub record_usage : Fields → W → W
  pub save_session : Json → W → Outcome (Unit {0}) String × W
  pub save_session_file : String → Json → W → W
  pub save_assistant_message : List Event → W → W
  -- Whether the commit succeeds.
  pub commit : W → Bool × W
  pub rollback : W → W

-- What a run has done so far: the counter, the events sent, the world.
pub record Local (W : Type 0) : Type 0 where
  pub counter : ℕ
  pub sent : List Event
  pub world : W

-- A step of the run, which may raise.
abbrev pub Step : Type 0 → Type 0 → Type 0
Step W A = Local W → Outcome A String × Local W

module _ {W : Type 0} where
  abbrev pub pure : {A : Type 0} → A → Step W A
  pure a l = (returned a, l)

  abbrev pub fail : {A : Type 0} → String → Step W A
  fail e l = (raised e, l)

  unfoldable pub and_then :
      {A B : Type 0} → Outcome A String × Local W → (A → Step W B) → Outcome B String × Local W
  and_then (returned a, l) f = f a l
  and_then (raised e, l) f = (raised e, l)

  infixl 5 ◌>>=◌
  abbrev pub ◌>>=◌ : {A B : Type 0} → Step W A → (A → Step W B) → Step W B
  (m >>= f) l = and_then (m l) f

  abbrev pub call : {A : Type 0} → (W → Outcome A String × W) → Step W A
  call f l = let (o, w) = f l.world in (o, record l { world = w })

  abbrev pub read : {A : Type 0} → (W → A × W) → Step W A
  read f l = let (a, w) = f l.world in (returned a, record l { world = w })

  abbrev pub act : (W → W) → Step W (Unit {0})
  act f l = (returned tt, record l { world = f l.world })

  abbrev pub number : Step W ℕ
  number l = let (c, n) = next_seq l.counter in (returned n, record l { counter = c })

  abbrev pub send : Event → Step W (Unit {0})
  send e l = (returned tt, record l { sent = l.sent ++ (e ∷ []) })

  abbrev pub or_raise : {A : Type 0} → Option A → Step W A
  or_raise none = fail "a value is not of the expected type"
  or_raise (some a) = pure a
