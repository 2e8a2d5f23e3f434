-- ===== src/Lock/Waiting.antt =====
-- The loop of `acquire`: what it returns, what it raises, and that it ends.
use claude_multi_agent.Base.{
  ℕ, suc, ◌+◌, ◌*◌, ◌≤◌, String, true, false, Option, none, some, List, [], ◌∷◌, length, ◌≡◌, ◌≢◌,
  refl, subst, ◌⊎◌, ltb, arith, inl, inr, Option-cases, Bool-cases,
}
use claude_multi_agent.Lock.Server.{Redis}
use claude_multi_agent.Lock.{
  LockError, lock_acquisition_error, caught_by_execute, make_lock_key, try_acquire, Round, Acquired,
  got, failed, waiting, ask, after_set, acquire,
}

-- The clock shows at least `c` in the first round, and each round `step` more at least: the code
-- sleeps between two rounds.
abbrev pub Paced : {S : Type 0} → ℕ → ℕ → List (Round S) → Type 0
Paced step c [] = Unit
Paced step c (r ∷ rs) = (c ≤ r.clock) × Paced step (c + step) rs

module _ {S : Type 0} (redis : Redis S) (key_prefix resource_id token : String)
    (ttl end_time : ℕ) where
  -- The lock was free when it was taken.
  abbrev pub TookFree : S → Type 0
  TookFree s' =
      (now : ℕ) × (s : S) × (redis.get now (make_lock_key key_prefix resource_id) s ≡ none)
      × (s' ≡ (try_acquire redis key_prefix now resource_id token ttl s).1)

  took_free :
      (now : ℕ) (s : S)
      → (try_acquire redis key_prefix now resource_id token ttl s).0 ≡ true
      → TookFree (try_acquire redis key_prefix now resource_id token ttl s).1
  unfolding try_acquire
  took_free now s h =
      let key = make_lock_key key_prefix resource_id in
      elim (Option-cases (redis.get now key s)) [
        | inl free ↦ (now, s, free, refl)
        | inr (w, taken) ↦
            absurd (ground (arith, redis.set-taken now key token (ttl * 1000) s w taken))
      ]

  after_set-got :
      (now : ℕ) (s : S) (rest : Acquired S) (t : String) (s' : S)
      → after_set redis key_prefix resource_id token ttl end_time
          (try_acquire redis key_prefix now resource_id token ttl s)
          rest
        ≡ got t s'
      → (rest ≡ got t s') ⊎ ((t ≡ token) × TookFree s')
  unfolding after_set
  after_set-got now s rest t s' h =
      elim (Bool-cases (try_acquire redis key_prefix now resource_id token ttl s).0) [
        | inl e ↦ inr (ground arith, subst TookFree (ground arith) (took_free now s e))
        | inr e ↦ inl (ground arith)
      ]

  ask-got :
      (o : Option (ℕ × S)) (rest : Acquired S) (t : String) (s' : S)
      → ask redis key_prefix resource_id token ttl end_time o rest ≡ got t s'
      → (rest ≡ got t s') ⊎ ((t ≡ token) × TookFree s')
  unfolding ask
  ask-got none rest t s' h = absurd (cc h)
  ask-got (some (now, s)) rest t s' h = after_set-got now s rest t s' h

  -- An attempt fails only by the class of its own error; it goes on only if the rest does.
  ask-failed :
      (o : Option (ℕ × S)) (rest : Acquired S) (e : LockError)
      → ask redis key_prefix resource_id token ttl end_time o rest ≡ failed e
      → (rest ≡ failed e) ⊎ (e ≡ lock_acquisition_error)
  unfolding ask after_set
  ask-failed none rest e h = inr (cc h)
  ask-failed (some (now, s)) rest e h = ground arith

  ask-waiting :
      (o : Option (ℕ × S)) (rest : Acquired S)
      → ask redis key_prefix resource_id token ttl end_time o rest ≡ waiting
      → rest ≡ waiting
  unfolding ask after_set
  ask-waiting none rest h = cc
  ask-waiting (some (now, s)) rest h = ground arith

  -- What `acquire` returns is its token, and it returns only after it has set the key while the lock
  -- was free.
  pub acquire-TookFree :
      (rs : List (Round S)) {t : String} {s' : S}
      → acquire redis key_prefix resource_id token ttl end_time rs ≡ got t s'
      → (t ≡ token) × TookFree s'
  unfolding acquire
  acquire-TookFree [] h = cc
  acquire-TookFree (r ∷ rs) {t} {s'} h = elim (Bool-cases (ltb r.clock end_time)) [
    | inl e ↦
        elim (ask-got r.asked (acquire redis key_prefix resource_id token ttl end_time rs) t s'
          (rw e at h)) [ inl later ↦ acquire-TookFree rs later | inr now ↦ now ]
    | inr e ↦ absurd (ground arith)
  ]

  -- Whatever `acquire` raises, the handler around it in `execute_streaming` does not catch it.
  pub acquire_error_uncaught :
      (rs : List (Round S)) {e : LockError}
      → acquire redis key_prefix resource_id token ttl end_time rs ≡ failed e
      → (e ≡ lock_acquisition_error) × (caught_by_execute e ≡ false)
  unfolding acquire caught_by_execute
  acquire_error_uncaught [] h = cc
  acquire_error_uncaught (r ∷ rs) {e} h = elim (Bool-cases (ltb r.clock end_time)) [
    | inl b ↦
        elim (ask-failed r.asked (acquire redis key_prefix resource_id token ttl end_time rs) e
          (rw b at h)) [ inl later ↦ acquire_error_uncaught rs later | inr own ↦ (own, rw own) ]
    | inr b ↦ ground arith
  ]

  -- Once the rounds reach the end time at their pace, `acquire` has returned or raised.
  pub acquire_ends :
      (step c : ℕ) (r : Round S) (rs : List (Round S))
      → Paced step c (r ∷ rs)
      → end_time ≤ c + step * length rs
      → acquire redis key_prefix resource_id token ttl end_time (r ∷ rs) ≢ waiting
  unfolding acquire
  acquire_ends step c r [] p h w = ground arith
  acquire_ends step c r (q ∷ rs) p h w =
      let grown : step * suc (length rs) ≡ step + step * length rs = omega arith in
      acquire_ends step (c + step) q rs p.1 (omega (arith, grown))
        (elim (Bool-cases (ltb r.clock end_time)) [
          | inl b ↦
              ask-waiting r.asked (acquire redis key_prefix resource_id token ttl end_time (q ∷ rs))
                (rw b at w)
          | inr b ↦ absurd (ground arith)
        ])
