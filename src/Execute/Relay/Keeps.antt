-- ===== src/Execute/Relay/Keeps.antt =====
-- Every step of the loop keeps the numbers in order: none is used twice.
use text.Mathlib.Text.{◌==◌}
use claude_multi_agent.Base.{
  ℕ, suc, String, Bool, true, false, Option, none, some, List, [], ◌∷◌, ◌++◌, Outcome, returned,
  raised, ◌≡◌, refl, All, ltb, Bool-cases, inl, inr, if◌then◌else◌,
}
use claude_multi_agent.Json.{Fields, lookup, get_or, obj, end}
use claude_multi_agent.Streaming.{Event, next_seq}
use claude_multi_agent.Streaming.Sequence.{
  HasSeq, progress-HasSeq, title-HasSeq, context_status-HasSeq, done-HasSeq, error-HasSeq,
}
use claude_multi_agent.Execute.Usage.{Usage}
use claude_multi_agent.Execute.Context.{Conversation, build_context_status_event}
use claude_multi_agent.Execute.Translate.{Translated, events, translate_event}
use claude_multi_agent.Execute.Translate.Numbering.{Advances, is_relayed, translate_event-Advances}
use claude_multi_agent.Execute.Files.{collect_external_file_path}
use claude_multi_agent.Execute.Services.{
  Services, Local, Step, pure, and_then, ◌>>=◌, call, read, act, number, send, or_raise,
}
use claude_multi_agent.Execute.Relay.{
  Request, Loop, progress, send_error, error_done, send_some, status_of, usage_of, context_status,
  send_title, on_done, extend_lock, sync_after, handle, handle_all, translated, translate,
  relay_stream, raise_some, is_kept,
}
use claude_multi_agent.Execute.Relay.Once.{
  Once, sent-Once, numbered-Once, passed-Once, dropped-Once, none_waiting-Once, translated-Once,
  skipped-Once,
}

module _ {W : Type 0} where
  -- From the first list of waiting events to the second, however the step ends.
  abbrev pub Between : {A : Type 0} → List Event → List Event → Step W A → Type 0
  Between before after m = (l : Local W) → Once before l → Once after (m l).1

  abbrev pub Keeps : {A : Type 0} → List Event → Step W A → Type 0
  Keeps waiting m = Between waiting waiting m

  pub bind-Between :
      {A B : Type 0} (before between after : List Event) (m : Step W A) (f : A → Step W B)
      → ((l : Local W) → Once between l → Once after l)
      → Between before between m
      → ((a : A) → Between between after (f a))
      → Between before after (m >>= f)
  bind-Between {A = A} before between after m f weaken h k l o = go (m l) (h l o)
    where
      go : (r : Outcome A String × Local W) → Once between r.1 → Once after (and_then r f).1
      go (returned a, l') o' = unfold and_then in k a l' o'
      go (raised e, l') o' = unfold and_then in weaken l' o'

  pub bind-Keeps :
      {A B : Type 0} (waiting : List Event) (m : Step W A) (f : A → Step W B)
      → Keeps waiting m
      → ((a : A) → Keeps waiting (f a))
      → Keeps waiting (m >>= f)
  bind-Keeps waiting m f h k = bind-Between waiting waiting waiting m f (λ l o. o) h k

  pub if-Keeps :
      {A : Type 0} (waiting : List Event) (b : Bool) (m n : Step W A)
      → Keeps waiting m
      → Keeps waiting n
      → Keeps waiting (if b then m else n)
  if-Keeps waiting true m n h k = h
  if-Keeps waiting false m n h k = k

  -- A step that only changes the world.
  pub same-Once :
      (waiting : List Event) (l : Local W) (w : W)
      → Once waiting l
      → Once waiting (record l { world = w })
  same-Once waiting l w o = record {
    numbered = o.numbered;
    waiting_numbered = o.waiting_numbered;
    once = o.once;
  }

  module _ (waiting : List Event) where
    pub call-Keeps : {A : Type 0} (f : W → Outcome A String × W) → Keeps waiting (call f)
    call-Keeps f l o = same-Once waiting l (f l.world).1 o

    pub read-Keeps : {A : Type 0} (f : W → A × W) → Keeps waiting (read f)
    read-Keeps f l o = same-Once waiting l (f l.world).1 o

    pub act-Keeps : (f : W → W) → Keeps waiting (act f)
    act-Keeps f l o = same-Once waiting l (f l.world) o

    pub or_raise-Keeps : {A : Type 0} (a : Option A) → Keeps waiting (or_raise a)
    or_raise-Keeps none l o = o
    or_raise-Keeps (some a) l o = o

  -- A number is taken, and an event with it is sent.
  pub number-send-Keeps :
      (waiting : List Event) (f : ℕ → Event)
      → ((n : ℕ) → HasSeq n (f n))
      → Keeps waiting (number >>= (λ n. send (f n)))
  unfolding and_then next_seq
  number-send-Keeps waiting f h l o = sent-Once l waiting (f (suc l.counter)) (h (suc l.counter)) o

-- The event, if there is one, has the next number.
abbrev pub IsNext : ℕ → Option Event × ℕ → Type 0
IsNext c (none, n) = n ≡ c
IsNext c (some e, n) = (n ≡ suc c) × HasSeq (suc c) e

module _ {W : Type 0} (services : Services W) (request : Request) where
  module _ (waiting : List Event) where
    pub progress-Keeps : (message : String) → Keeps waiting (progress services request message)
    unfolding progress
    progress-Keeps message =
        number-send-Keeps waiting _
          λ n. progress-HasSeq request.setting.clock n "setup" message none none none none

    pub send_error-Keeps :
        (t m : String) (r : Bool) → Keeps waiting (send_error services request t m r)
    unfolding send_error
    send_error-Keeps t m r =
        number-send-Keeps waiting _ λ n. error-HasSeq request.setting.clock n t m r

    pub error_done-Keeps : (start_time : ℕ) → Keeps waiting (error_done services request start_time)
    unfolding error_done and_then next_seq
    error_done-Keeps start_time l o = same-Once waiting _ _ (
        sent-Once l waiting _
          (done-HasSeq request.setting.clock (suc l.counter) _ _ _ _ _ _ _ _ _ _) o)

    title-Keeps : (t : Option String) → Keeps waiting (send_title services request t)
    unfolding send_title
    title-Keeps none = λ l o. o
    title-Keeps (some t) = number-send-Keeps waiting _ λ n. title-HasSeq request.setting.clock n t

    status_of-IsNext :
        (u : Option Usage) (c : Outcome (Option Conversation) String) (n : ℕ)
        → IsNext n (status_of services request u c n)
    unfolding status_of build_context_status_event next_seq
    status_of-IsNext none c n = refl
    status_of-IsNext (some u) (raised e) n = refl
    status_of-IsNext (some u) (returned c) n = elim (Bool-cases (ltb 0 request.max_context)) [
      | inl h ↦ rw h (refl, context_status-HasSeq request.setting.clock (suc n) _ _ _ _ _ _ _)
      | inr h ↦ rw h refl
    ]

    send_next-Keeps :
        (rest : Step W Loop) (r : Option Event × ℕ) (l : Local W)
        → Keeps waiting rest
        → IsNext l.counter r
        → Once waiting l
        → Once waiting
            ((send_some services request r.0 >>= (λ u. rest)) (record l { counter = r.1 })).1
    unfolding send_some and_then
    send_next-Keeps rest (none, n) l k h o = k (record l { counter = n }) (rw h o)
    send_next-Keeps rest (some e, n) l k h o = k _ (
        passed-Once (record l { counter = n }) waiting e
          (rw (h.0) (numbered-Once l waiting e h.1 o)))

    titled-Keeps :
        (k : Loop) (f : Fields)
        → Keeps waiting (
            read (services.generate_title k.assistant_events) >>= λ t.
            send_title services request t >>= λ u. pure (record k { done_data = some f }))
    unfolding send_title
    titled-Keeps k f =
        bind-Keeps waiting (read (services.generate_title k.assistant_events)) _
          (read-Keeps waiting (services.generate_title k.assistant_events))
          λ t.
            bind-Keeps waiting (send_title services request t)
              (λ u. pure (record k { done_data = some f })) (title-Keeps t) λ u l o. o

    on_done-Keeps : (e : Event) (k : Loop) → Keeps waiting (on_done services request e k)
    unfolding on_done context_status and_then
    on_done-Keeps e k =
        if-Keeps waiting (e.event == "done") _ _
          (λ l o.
            send_next-Keeps
              (read (services.generate_title k.assistant_events) >>= λ t.
                send_title services request t >>= λ u. pure (record k { done_data = some e.body }))
              (status_of services request
                (usage_of services request (get_or "usage" (obj end) e.body))
                (services.find_conversation l.world).0 l.counter)
              (record l { world = (services.find_conversation l.world).1 }) (titled-Keeps k e.body)
              (status_of-IsNext (usage_of services request (get_or "usage" (obj end) e.body))
                (services.find_conversation l.world).0 l.counter)
              (same-Once waiting l _ o))
          (λ l o. o)

    extend_lock-Keeps :
        (token : String) (k : Loop) → Keeps waiting (extend_lock services request token k)
    unfolding extend_lock
    extend_lock-Keeps token k = bind-Keeps waiting _ _ (read-Keeps waiting services.time) λ now.
        if-Keeps waiting _ _ _
          (bind-Keeps waiting _ _ (act-Keeps waiting _)
            λ u. bind-Keeps waiting _ _ (read-Keeps waiting services.time) λ later l o. o)
          (λ l o. o)

    sync_after-Keeps :
        (container : String) (e : Event) (k : Loop)
        → Keeps waiting (sync_after services request container e k)
    unfolding sync_after
    sync_after-Keeps container e k =
        if-Keeps waiting _ _ _
          (bind-Keeps waiting _ _ (or_raise-Keeps waiting _) λ of_file.
            bind-Keeps waiting _ _
              (if-Keeps waiting of_file _ _ (read-Keeps waiting services.time) (λ l o. o))
              λ now.
                if-Keeps waiting _ _ _
                  (bind-Keeps waiting _ _ (read-Keeps waiting services.time)
                    λ later. bind-Keeps waiting _ _ (act-Keeps waiting _) λ u l o. o)
                  (λ l o. o))
          (λ l o. o)

module _ {W : Type 0} (services : Services W) (request : Request) (token container : String) where
  -- The event of the host that is handled waits, and is sent or dropped.
  handle-Between :
      (e : Event) (es : List Event) (k : Loop)
      → Between (e ∷ es) es (handle services request token container e k)
  unfolding handle and_then
  handle-Between e es k =
      let drop = λ (l : Local W). dropped-Once l es e in
      let last : Loop → Step W Loop = λ k3. send e >>= λ _. pure (
        if is_kept e
        then record k3 { assistant_events = k3.assistant_events ++ (e ∷ []) }
        else k3) in
      let synced : Loop → Step W Loop = λ k2. sync_after services request container e k2 >>= last in
      let extended : Loop → List String → Step W Loop = λ k1 paths.
        extend_lock services request token (record k1 { external_file_paths = paths }) >>= synced in
      let collected : Loop → Step W Loop =
        λ k1. or_raise (collect_external_file_path e k1.external_file_paths) >>= extended k1 in
      bind-Between (e ∷ es) (e ∷ es) es (on_done services request e k) collected drop
        (on_done-Keeps services request (e ∷ es) e k)
        λ k1.
          bind-Between (e ∷ es) (e ∷ es) es
            (or_raise (collect_external_file_path e k1.external_file_paths)) (extended k1) drop
            (or_raise-Keeps (e ∷ es) (collect_external_file_path e k1.external_file_paths))
            λ paths.
              bind-Between (e ∷ es) (e ∷ es) es
                (extend_lock services request token (record k1 { external_file_paths = paths }))
                synced drop
                (extend_lock-Keeps services request (e ∷ es) token
                  (record k1 { external_file_paths = paths }))
                λ k2.
                  bind-Between (e ∷ es) (e ∷ es) es (sync_after services request container e k2)
                    last drop (sync_after-Keeps services request (e ∷ es) container e k2)
                    λ k3 l o. passed-Once l es e o

  handle_all-Between :
      (es : List Event) (k : Loop)
      → Between es [] (handle_all services request token container es k)
  unfolding handle_all
  handle_all-Between [] k = λ l o. o
  handle_all-Between (e ∷ es) k =
      bind-Between (e ∷ es) es [] (handle services request token container e k)
        (handle_all services request token container es) (λ l. none_waiting-Once l es)
        (handle-Between e es k) (handle_all-Between es)

-- No event that is relayed brings a number of its own.
abbrev pub Unnumbered : String × Fields → Type 0
Unnumbered x = is_relayed x.0 x.1 ≡ true → lookup "seq" x.1 ≡ none

module _ {W : Type 0} (services : Services W) (request : Request) where
  translate-Once :
      {B : Type 0} (x : String × Fields) (f : List Event → Step W B)
      → Unnumbered x
      → ((es : List Event) → Between es [] (f es))
      → Keeps [] (translate services request x >>= f)
  unfolding translate
  translate-Once {B = B} (kind, body) f h k l o =
      go (translate_event request.setting (some request.conversation_id) kind body l.counter) (
        translate_event-Advances request.setting body l.counter (some request.conversation_id) kind
          h)
    where
      go :
          (t : Translated)
          → Advances l.counter t
          → Once [] (and_then (translated services request t l) f).1
      go (events es c) a = unfold translated and_then in k es _ (translated-Once l c es a o)
      go (Translated.raised c) a = unfold translated and_then in skipped-Once l c a o

  pub relay_stream-Keeps :
      (token container : String) (xs : List (String × Fields)) (k : Loop)
      → All Unnumbered xs
      → Keeps [] (relay_stream services request token container xs k)
  unfolding relay_stream
  relay_stream-Keeps token container [] k h = λ l o. o
  relay_stream-Keeps token container (x ∷ xs) k h = translate-Once x _ (h.0) λ es.
      bind-Between es [] [] _ _ (λ l o. o)
        (handle_all-Between services request token container es k)
        λ k'. relay_stream-Keeps token container xs k' h.1

  pub raise_some-Keeps : (e : Option String) → Keeps [] (raise_some services request e)
  unfolding raise_some
  raise_some-Keeps none = λ l o. o
  raise_some-Keeps (some e) = λ l o. o
