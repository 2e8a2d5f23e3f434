-- ===== src/Execute/Relay/Once.antt =====
-- How often a number is used among the events of a run.
use claude_multi_agent.Base.{
  ℕ, suc, ◌+◌, ◌≤◌, Bool, false, ◌&&◌, Option, some, List, [], ◌∷◌, ◌++◌, ◌≡◌, All, All-append, ltb,
  leb, ◌==◌, arith, if◌then◌else◌,
}
use claude_multi_agent.Json.{Json, num, lookup}
use claude_multi_agent.Streaming.{Event}
use claude_multi_agent.Streaming.Sequence.{HasSeq, Numbered}
use claude_multi_agent.Execute.Services.{Local}

abbrev is_number : ℕ → Option Json → Bool
is_number n (some (num m)) = m == n
is_number n _ = false

-- How many of the events carry the number.
abbrev pub times : ℕ → List Event → ℕ
times n [] = 0
times n (e ∷ es) = (if is_number n (lookup "seq" e.body) then 1 else 0) + times n es

-- Once for a number from 1 to the counter, and never for another.
abbrev pub quota : ℕ → ℕ → ℕ
quota n counter = if ltb 0 n && leb n counter then 1 else 0

abbrev pub HasNumber : Event → Type 0
HasNumber e = (m : ℕ) × HasSeq m e

-- The events sent and those that wait to be sent use no number twice, and none beyond the counter.
pub record Once {W : Type 0} (waiting : List Event) (l : Local W) : Type 0 where
  pub numbered : All HasNumber l.sent
  pub waiting_numbered : All HasNumber waiting
  pub once : (n : ℕ) → times n l.sent + times n waiting ≤ quota n l.counter

times-append : (n : ℕ) (xs ys : List Event) → times n (xs ++ ys) ≡ times n xs + times n ys
times-append n [] ys = omega arith
times-append n (x ∷ xs) ys = omega (arith, times-append n xs ys)

times-HasSeq : (n m : ℕ) (e : Event) → HasSeq m e → times n (e ∷ []) ≡ (if m == n then 1 else 0)
times-HasSeq n m e h = rw h (omega arith)

times-Numbered :
    (n c c' : ℕ) (es : List Event)
    → Numbered c es c'
    → (c ≤ c') × (times n es ≤ (if ltb c n && leb n c' then 1 else 0))
times-Numbered n c c' [] h = (omega arith, omega arith)
times-Numbered n c c' (e ∷ es) h =
    let (a, b) = times-Numbered n (suc c) c' es h.1 in
    (omega arith, rw (h.0) (ground (arith, a, b)))

Numbered-HasNumber : (c c' : ℕ) (es : List Event) → Numbered c es c' → All HasNumber es
Numbered-HasNumber c c' [] h = tt
Numbered-HasNumber c c' (e ∷ es) h = ((suc c, h.0), Numbered-HasNumber (suc c) c' es h.1)

module _ {W : Type 0} (l : Local W) (waiting : List Event) where
  -- A new event, under the next number.
  pub sent-Once :
      (e : Event)
      → HasSeq (suc l.counter) e
      → Once waiting l
      → Once waiting (record l { counter = suc l.counter; sent = l.sent ++ (e ∷ []) })
  sent-Once e h o = record {
    numbered = All-append HasNumber l.sent (e ∷ []) o.numbered ((suc l.counter, h), tt);
    waiting_numbered = o.waiting_numbered;
    once = λ n.
        ground
          (arith, times-append n l.sent (e ∷ []), times-HasSeq n (suc l.counter) e h, o.once n);
  }

  -- A new event, under the next number, waits.
  pub numbered-Once :
      (e : Event)
      → HasSeq (suc l.counter) e
      → Once waiting l
      → Once (e ∷ waiting) (record l { counter = suc l.counter })
  numbered-Once e h o = record {
    numbered = o.numbered;
    waiting_numbered = ((suc l.counter, h), o.waiting_numbered);
    once = λ n. ground (arith, times-HasSeq n (suc l.counter) e h, o.once n);
  }

  -- The first event that waits is sent.
  pub passed-Once :
      (e : Event) → Once (e ∷ waiting) l → Once waiting (record l { sent = l.sent ++ (e ∷ []) })
  passed-Once e o = record {
    numbered = All-append HasNumber l.sent (e ∷ []) o.numbered (o.waiting_numbered.0, tt);
    waiting_numbered = o.waiting_numbered.1;
    once = λ n. rw (times-append n l.sent (e ∷ [])) (omega (arith, o.once n));
  }

  -- An event that waits is dropped.
  pub dropped-Once : (e : Event) → Once (e ∷ waiting) l → Once waiting l
  dropped-Once e o = record {
    numbered = o.numbered;
    waiting_numbered = o.waiting_numbered.1;
    once = λ n. omega (arith, o.once n);
  }

  -- All events that wait are dropped.
  pub none_waiting-Once : Once waiting l → Once [] l
  none_waiting-Once o = record {
    numbered = o.numbered;
    waiting_numbered = tt;
    once = λ n. omega (arith, o.once n);
  }

-- Events that have just been numbered wait.
pub translated-Once :
    {W : Type 0} (l : Local W) (c' : ℕ) (es : List Event)
    → Numbered l.counter es c'
    → Once [] l
    → Once es (record l { counter = c' })
translated-Once l c' es h o = record {
  numbered = o.numbered;
  waiting_numbered = Numbered-HasNumber l.counter c' es h;
  once = λ n. ground (arith, times-Numbered n l.counter c' es h, o.once n);
}

-- The counter moves on, and its numbers stay unused.
pub skipped-Once :
    {W : Type 0} (l : Local W) (c' : ℕ)
    → l.counter ≤ c'
    → Once [] l
    → Once [] (record l { counter = c' })
skipped-Once l c' h o = record {
  numbered = o.numbered;
  waiting_numbered = tt;
  once = λ n. ground (arith, o.once n);
}
