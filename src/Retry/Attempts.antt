-- ===== src/Retry/Attempts.antt =====
-- How many attempts are made, and which outcome a retried call has.
use claude_multi_agent.Base.{
  ℕ, zero, suc, ◌+◌, ◌-◌, ◌≤◌, ◌<◌, ◌==◌, true, false, length, [], All, ◌≡◌, refl, sym, subst, ap,
  ◌⊎◌, inl, inr, Outcome, returned, raised, Bool-cases, arith,
}
use claude_multi_agent.Retry.{
  RetryConfig, RetryError, last_error, Run, calculate_delay, on_error, after_sleep, stop, step,
  attempts_async, retry_async, attempts_sync, retry_sync,
}
use claude_multi_agent.Retry.Delay.{calculate_delay_bound}

module _ {A E : Type 0} (uniform : ℕ → ℕ → ℕ) (config : RetryConfig E)
    (func : ℕ → Outcome A E) where
  -- The attempt raises an exception that is retried.
  abbrev pub FailsAt : ℕ → Type 0
  FailsAt i = (e : E) × (func i ≡ raised e) × (config.retryable e ≡ true)

  -- The attempt ends the loop: it returns, or it raises an exception that is not retried.
  abbrev pub EndsAt : ℕ → Outcome A (RetryError E) → Type 0
  EndsAt i o =
      ((a : A) × (func i ≡ returned a) × (o ≡ returned a))
      ⊎ ((e : E) × (func i ≡ raised e) × (config.retryable e ≡ false) × (o ≡ raised (last_error e)))

  ends :
      (left i : ℕ) (o : Outcome A (RetryError E))
      → EndsAt i o
      → attempts_async uniform config func (suc left) i
        ≡ record { outcome = o; calls = 1; delays = [] }
  unfolding attempts_async step on_error stop
  ends left i o (inl (a, f, e)) = rw (f, e)
  ends left i o (inr (x, f, n, e)) = rw (f, step, n, e)

  fails :
      (left i : ℕ)
      → FailsAt i
      → (i == config.max_attempts - 1) ≡ false
      → attempts_async uniform config func (suc left) i
        ≡ after_sleep uniform config func
            (calculate_delay (uniform i) i config)
            (attempts_async uniform config func left (suc i))
  unfolding attempts_async step on_error
  fails left i (e, f, y) n = rw (f, step, y, n)

  -- A run that ends as told, after the calls told, with one sleep fewer than calls.
  abbrev pub Ends : Run A E → Outcome A (RetryError E) → ℕ → Type 0
  Ends r o n = (r.outcome ≡ o) × (r.calls ≡ n) × (length r.delays + 1 ≡ n)

  slept :
      (d n : ℕ) (r : Run A E) (o : Outcome A (RetryError E))
      → Ends r o n
      → Ends (after_sleep uniform config func d r) o (suc n)
  unfolding after_sleep
  slept d n r o (a, b, c) = (a, ap suc b, omega arith)

  first_end :
      (j left i : ℕ) (o : Outcome A (RetryError E))
      → left + i ≡ config.max_attempts
      → j < left
      → ((n : ℕ) → n < i + j → FailsAt n)
      → EndsAt (i + j) o
      → Ends (attempts_async uniform config func left i) o (suc j)
  first_end j zero i o s l f e = absurd (omega arith)
  first_end zero (suc left) i o s l f e =
      subst (λ r. Ends r o 1) (sym (ends left i o (subst (λ m. EndsAt m o) (omega arith) e)))
        (refl, refl, refl)
  first_end (suc j) (suc left) i o s l f e =
      let now = fails left i (f i (omega arith)) (grind arith) in
      let rest =
        first_end j left (suc i) o (omega arith) (omega arith) (λ n h. f n (omega arith))
          (subst (λ m. EndsAt m o) (omega arith) e) in
      subst (λ r. Ends r o (suc (suc j))) (sym now) (slept _ (suc j) _ o rest)

  -- If the attempts before number `k` raise exceptions that are retried, and attempt `k` returns, or
  -- raises one that is not, and it is one of the attempts allowed, then that is the outcome: after
  -- `k + 1` calls and `k` sleeps.
  pub retry_first_end :
      (k : ℕ) (o : Outcome A (RetryError E))
      → k < config.max_attempts
      → ((n : ℕ) → n < k → FailsAt n)
      → EndsAt k o
      → Ends (retry_async uniform config func) o (suc k)
  unfolding retry_async
  retry_first_end k o l f e =
      first_end k config.max_attempts 0 o (omega arith) l (λ n h. f n (omega arith))
        (subst (λ m. EndsAt m o) (omega arith) e)

  last_fails :
      (i : ℕ) (e : E)
      → func i ≡ raised e
      → (i == config.max_attempts - 1) ≡ true
      → attempts_async uniform config func 1 i
        ≡ record { outcome = raised (last_error e); calls = 1; delays = [] }
  unfolding attempts_async step on_error stop
  last_fails i e f y = rw (f, step) (ground arith)

  exhausted :
      (j i : ℕ) (e : E)
      → suc j + i ≡ config.max_attempts
      → ((n : ℕ) → n < i + j → FailsAt n)
      → func (i + j) ≡ raised e
      → Ends (attempts_async uniform config func (suc j) i) (raised (last_error e)) (suc j)
  exhausted zero i e s f y =
      subst (λ r. Ends r (raised (last_error e)) 1)
        (sym (last_fails i e (subst (λ m. func m ≡ raised e) (omega arith) y) (grind arith)))
        (refl, refl, refl)
  exhausted (suc j) i e s f y =
      let now = fails (suc j) i (f i (omega arith)) (grind arith) in
      let rest =
        exhausted j (suc i) e (omega arith) (λ n h. f n (omega arith))
          (subst (λ m. func m ≡ raised e) (omega arith) y) in
      subst (λ r. Ends r (raised (last_error e)) (suc (suc j))) (sym now)
        (slept _ (suc j) _ (raised (last_error e)) rest)

  -- If every attempt allowed raises an exception that is retried, the last one's is the outcome,
  -- after as many calls as attempts and one sleep fewer.
  retry_exhausted :
      (k : ℕ) (e : E)
      → config.max_attempts ≡ suc k
      → ((n : ℕ) → n < k → FailsAt n)
      → func k ≡ raised e
      → Ends (retry_async uniform config func) (raised (last_error e)) (suc k)
  unfolding retry_async
  retry_exhausted k e m f y =
      subst (λ m. Ends (attempts_async uniform config func m 0) (raised (last_error e)) (suc k))
        (sym m)
        (exhausted k 0 e (omega arith) (λ n h. f n (omega arith))
          (subst (λ n. func n ≡ raised e) (omega arith) y))

  sync-eq-async :
      (left i : ℕ)
      → attempts_sync uniform config func left i ≡ attempts_async uniform config func left i
  unfolding attempts_sync attempts_async
  sync-eq-async zero i = refl
  sync-eq-async (suc left) i = rw (sync-eq-async left (suc i))

  abbrev Bounded : ℕ → Run A E → Type 0
  Bounded n r = (r.calls ≤ n) × All (λ d. d ≤ config.max_delay) r.delays

  one-Bounded :
      (n : ℕ) (o : Outcome A (RetryError E)) → Bounded (suc n) (stop uniform config func o)
  unfolding stop
  one-Bounded n o = (omega arith, tt)

  error-Bounded :
      (n i : ℕ) (e : E) (r : Run A E)
      → ((i d : ℕ) → uniform i d ≤ d)
      → Bounded n r
      → Bounded (suc n) (on_error uniform config func i e r)
  unfolding on_error after_sleep
  error-Bounded n i e r h b = elim (Bool-cases (config.retryable e)) [
    | inr p ↦ rw (p) (one-Bounded n (raised (last_error e)))
    | inl p ↦ elim (Bool-cases (i == config.max_attempts - 1)) [
      | inl q ↦ rw (p, q) (one-Bounded n (raised (last_error e)))
      | inr q ↦
          rw (p, q) (omega (arith, b.0), (calculate_delay_bound (uniform i) i config (h i), b.1))
    ]
  ]

  step-Bounded :
      (n i : ℕ) (o : Outcome A E) (r : Run A E)
      → ((i d : ℕ) → uniform i d ≤ d)
      → Bounded n r
      → Bounded (suc n) (step uniform config func i o r)
  unfolding step
  step-Bounded n i (returned a) r h b = one-Bounded n (returned a)
  step-Bounded n i (raised e) r h b = error-Bounded n i e r h b

  bounded :
      ((i d : ℕ) → uniform i d ≤ d)
      → (left i : ℕ) → Bounded left (attempts_async uniform config func left i)
  unfolding attempts_async step
  bounded h zero i = (omega arith, tt)
  bounded h (suc left) i = step-Bounded left i (func i) _ h (bounded h left (suc i))

  -- Whatever the function does on its attempts, it is called at most as often as the attempts
  -- allowed, and no sleep is longer than the maximal delay, for a random choice that does not exceed
  -- its bound; and the synchronous and the asynchronous loops do the same.
  pub retry_bounds :
      ((i d : ℕ) → uniform i d ≤ d)
      → let r = retry_async uniform config func in
        (r.calls ≤ config.max_attempts)
        × All (λ d. d ≤ config.max_delay) r.delays
        × (retry_sync uniform config func ≡ r)
  unfolding retry_async retry_sync
  retry_bounds h =
      let b = bounded h config.max_attempts 0 in (b.0, b.1, sync-eq-async config.max_attempts 0)
