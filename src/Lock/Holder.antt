-- ===== src/Lock/Holder.antt =====
-- Whoever holds the lock keeps it until its deadline, whatever the others do.
use mathlib.Core.Bool.{false≢true}
use text.Mathlib.Text.{◌==◌}
use text.Mathlib.TextEquality.{eq_iff}
use text.Mathlib.TextPositions.{eq_refl}
use claude_multi_agent.Base.{
  ℕ, ◌+◌, ◌*◌, ◌≤◌, ◌<◌, String, Bool, true, false, none, some, ◌≡◌, ◌≢◌, ap, sym, ◌∙◌, ◌⊎◌, ltb,
  arith, inl, inr, Option-cases, Bool-cases,
}
use claude_multi_agent.Lock.Server.{Redis}
use claude_multi_agent.Lock.{make_lock_key, release, extend, try_acquire, is_locked}

module _ {S : Type 0} (redis : Redis S) (key_prefix : String) where
  open redis use {get}

  -- What the clients with other tokens do, each command at once: time passes, and they try to take,
  -- release and extend the lock of any resource.
  pub data Others (token : String) : ℕ × S → ℕ × S → Type 0 where
    wait : (t u : ℕ) (s : S) → t ≤ u → Others token (t, s) (u, s)
    try :
        (t : ℕ) (r other : String) (ttl : ℕ) (s : S)
        → Others token (t, s) (t, (try_acquire redis key_prefix t r other ttl s).1)
    let_go :
        (a : Bool) (t : ℕ) (r other : String) (s : S)
        → other ≢ token
        → Others token (t, s) (t, (release redis key_prefix a t r other s).1)
    prolong :
        (a : Bool) (t : ℕ) (r other : String) (ttl : ℕ) (s : S)
        → other ≢ token
        → Others token (t, s) (t, (extend redis key_prefix a t r other ttl s).1)

  -- The key shows the token at every time from now up to the deadline.
  abbrev pub Holds : String → String → ℕ → ℕ × S → Type 0
  Holds r token deadline c =
      (t : ℕ) → c.0 ≤ t → t < deadline → get t (make_lock_key key_prefix r) c.1 ≡ some token

  -- A command by another token at time `n`, seen at a later time at a key that shows `token`.
  try-get :
      (n t : ℕ) (r other : String) (ttl : ℕ) (k token : String) (s : S)
      → n ≤ t
      → get n k s ≡ some token
      → get t k s ≡ some token
      → get t k (try_acquire redis key_prefix n r other ttl s).1 ≡ some token
  unfolding try_acquire
  try-get n t r other ttl k token s h e f =
      let key = make_lock_key key_prefix r in
      elim (Option-cases (get n key s)) [
        | inl free ↦
            ground (arith, redis.get-set n t key k other (ttl * 1000) s free h, eq_iff key k)
        | inr (w, taken) ↦ ground (arith, redis.set-taken n key other (ttl * 1000) s w taken)
      ]

  release-get :
      (a : Bool) (n t : ℕ) (r other : String) (k token : String) (s : S)
      → other ≢ token
      → get n k s ≡ some token
      → get t k s ≡ some token
      → get t k (release redis key_prefix a n r other s).1 ≡ some token
  unfolding release
  release-get a n t r other k token s d e f =
      let key = make_lock_key key_prefix r in
      ground (arith, redis.get-del t key k s, eq_iff key k, eq_iff token other)

  extend-get :
      (a : Bool) (n t : ℕ) (r other : String) (ttl : ℕ) (k token : String) (s : S)
      → other ≢ token
      → n ≤ t
      → get n k s ≡ some token
      → get t k s ≡ some token
      → get t k (extend redis key_prefix a n r other ttl s).1 ≡ some token
  unfolding extend
  extend-get a n t r other ttl k token s d h e f =
      let key = make_lock_key key_prefix r in
      elim (Option-cases (get n key s)) [
        | inl free ↦ ground arith
        | inr (w, taken) ↦ ground (
          arith,
          redis.get-pexpire n t key k w (ttl * 1000) s taken h,
          eq_iff key k,
          eq_iff w other,
          ap (λ j. get n j s),
        )
      ]

  Others-Holds :
      {token : String} {c d : ℕ × S} (r : String) (deadline : ℕ)
      → Others token c d
      → d.0 < deadline
      → Holds r token deadline c
      → Holds r token deadline d
  Others-Holds r deadline (wait t u s h) k x = λ v p q. x v (omega arith) q
  Others-Holds r deadline (try t q other ttl s) k x =
      λ v p l. try-get t v q other ttl _ _ s p (x t (omega arith) k) (x v p l)
  Others-Holds r deadline (let_go a t q other s n) k x =
      λ v p l. release-get a t v q other _ _ s n (x t (omega arith) k) (x v p l)
  Others-Holds r deadline (prolong a t q other ttl s n) k x =
      λ v p l. extend-get a t v q other ttl _ _ s n p (x t (omega arith) k) (x v p l)

  Others-time : {token : String} {c d : ℕ × S} → Others token c d → c.0 ≤ d.0
  Others-time (wait t u s h) = h
  Others-time (try t q other ttl s) = omega arith
  Others-time (let_go a t q other s n) = omega arith
  Others-time (prolong a t q other ttl s n) = omega arith

  -- Any number of such commands.
  pub data Meanwhile (token : String) (c : ℕ × S) : ℕ × S → Type 0 where
    nothing : Meanwhile token c c
    then_step : {d e : ℕ × S} → Meanwhile token c d → Others token d e → Meanwhile token c e

  Meanwhile-Holds :
      {token : String} {c d : ℕ × S} (r : String) (deadline : ℕ)
      → Meanwhile token c d
      → d.0 < deadline
      → Holds r token deadline c
      → Holds r token deadline d
  Meanwhile-Holds r deadline nothing k x = x
  Meanwhile-Holds r deadline (then_step m o) k x =
      let before = Others-time o in
      Others-Holds r deadline o k (Meanwhile-Holds r deadline m (omega arith) x)

  acquired-Holds :
      (now : ℕ) (r token : String) (ttl : ℕ) (s : S)
      → get now (make_lock_key key_prefix r) s ≡ none
      → Holds r token (now + ttl * 1000) (now, (try_acquire redis key_prefix now r token ttl s).1)
  unfolding try_acquire
  acquired-Holds now r token ttl s free = λ t h k.
      let key = make_lock_key key_prefix r in
      ground (arith, redis.get-set now t key key token (ttl * 1000) s free h, eq_refl key)

  -- Who takes a free lock holds it until its time to live has passed, whatever the clients with
  -- other tokens do to this and to other locks meanwhile; and until then every other attempt to take
  -- it fails and changes nothing.
  pub lock_exclusive :
      (now : ℕ) (r token : String) (ttl : ℕ) (s : S) (d : ℕ × S) (other : String) (other_ttl : ℕ)
      → get now (make_lock_key key_prefix r) s ≡ none
      → Meanwhile token (now, (try_acquire redis key_prefix now r token ttl s).1) d
      → d.0 < now + ttl * 1000
      → (get d.0 (make_lock_key key_prefix r) d.1 ≡ some token)
        × (try_acquire redis key_prefix d.0 r other other_ttl d.1 ≡ (false, d.1))
  unfolding try_acquire
  lock_exclusive now r token ttl s d other other_ttl free m k =
      let held =
        Meanwhile-Holds r (now + ttl * 1000) m k (acquired-Holds now r token ttl s free) d.0
          (omega arith) k in
      (
        held,
        redis.set-taken d.0 (make_lock_key key_prefix r) other (other_ttl * 1000) d.1 token held,
      )

  -- The holder's release succeeds and frees the lock from then on; with any other token, on a lock
  -- that is taken, it fails and changes nothing.
  pub release_by_token :
      (now t : ℕ) (r token given : String) (s : S)
      → get now (make_lock_key key_prefix r) s ≡ some token
      → let (done, s') = release redis key_prefix true now r given s in
        ((given ≡ token) × (done ≡ true) × (is_locked redis key_prefix true t r s' ≡ false))
        ⊎ ((given ≢ token) × (done ≡ false) × (s' ≡ s))
  unfolding release is_locked
  release_by_token now t r token given s held =
      let key = make_lock_key key_prefix r in
      elim (Bool-cases (token == given)) [
        | inl e ↦ inl (
          sym ((eq_iff token given).0 e),
          ground arith,
          ground (arith, redis.get-del t key key s, eq_refl key),
        )
        | inr e ↦
            inr
              (λ p. false≢true (sym e ∙ (eq_iff token given).1 (sym p)), ground arith, ground arith)
      ]

  -- The holder's extension succeeds, and from then on the lock's deadline is the extension after the
  -- present time, whatever it was before.
  extend_sets_deadline :
      (now t : ℕ) (r token : String) (additional_ttl : ℕ) (s : S)
      → get now (make_lock_key key_prefix r) s ≡ some token
      → now ≤ t
      → let (done, s') = extend redis key_prefix true now r token additional_ttl s in
        (done ≡ true)
        × (is_locked redis key_prefix true t r s' ≡ ltb t (now + additional_ttl * 1000))
  unfolding extend is_locked
  extend_sets_deadline now t r token additional_ttl s held h =
      let key = make_lock_key key_prefix r in
      let px = additional_ttl * 1000 in
      ground (arith, redis.get-pexpire now t key key token px s held h, eq_refl key, eq_refl token)
