-- ===== src/Base/Steps.antt =====
-- Steps of code that changes a state and may raise; an exception is given by its text.
use Prim.Native.String.{String}
use mathlib.Core.Path.{◌≡◌, refl}
use mathlib.Core.Option.{Option, none, some}
use claude_multi_agent.Base.Calls.{Outcome, returned, raised}

abbrev pub Action : Type 0 → Type 0 → Type 0
Action S A = S → Outcome A String × S

module _ {S : Type 0} where
  abbrev pub pure : {A : Type 0} → A → Action S A
  pure a s = (returned a, s)

  abbrev pub fail : {A : Type 0} → String → Action S A
  fail e s = (raised e, s)

  unfoldable pub and_then :
      {A B : Type 0} → Outcome A String × S → (A → Action S B) → Outcome B String × S
  and_then (returned a, s) f = f a s
  and_then (raised e, s) f = (raised e, s)

  infixl 5 ◌>>=◌
  abbrev pub ◌>>=◌ : {A B : Type 0} → Action S A → (A → Action S B) → Action S B
  (m >>= f) s = and_then (m s) f

  abbrev pub modify : (S → S) → Action S (Unit {0})
  modify f s = (returned tt, f s)

  abbrev pub or_raise : {A : Type 0} → String → Option A → Action S A
  or_raise e none = fail e
  or_raise e (some a) = pure a

  abbrev pub kept : {A : Type 0} → Outcome A String × S → Outcome (Option A) String × S
  kept (returned a, s) = (returned (some a), s)
  kept (raised e, s) = (returned none, s)

  -- `try: ... except Exception:` with the exception dropped.
  abbrev pub attempt : {A : Type 0} → Action S A → Action S (Option A)
  attempt m s = kept (m s)

  -- A step that returns hands on its value and its state.
  pub and_then-returned :
      {A B : Type 0} (r : Outcome A String × S) (a : A) (f : A → Action S B)
      → r.0 ≡ returned a
      → and_then r f ≡ f a r.1
  unfolding and_then
  and_then-returned r a f h = rw (h, and_then) refl
