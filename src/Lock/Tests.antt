-- ===== src/Lock/Tests.antt =====
-- A small Redis with keys that expire, and the lock's theorems on it.
use mathlib.Core.Bool.{false≢true}
use text.Mathlib.TextEquality.{eq_iff}
use text.Mathlib.Text.{◌==◌}
use claude_multi_agent.Base.{
  ℕ, ◌+◌, ◌≤◌, String, Bool, true, false, Option, none, some, [], ◌∷◌, ◌≡◌, ◌≢◌, refl, ltb, arith,
  if◌then◌else◌, ◌⊎◌,
}
use claude_multi_agent.Lock.Server.{Redis}
use claude_multi_agent.Lock.{
  lock_acquisition_error, caught_by_execute, make_lock_key, release, is_locked, try_acquire, Round,
  acquire, waiting,
}
use claude_multi_agent.Lock.Holder.{
  wait, let_go, try, nothing, then_step, lock_exclusive, release_by_token,
}
use claude_multi_agent.Lock.Waiting.{
  TookFree, acquire-TookFree, acquire_error_uncaught, acquire_ends,
}

-- A value and its deadline under each key.
abbrev Store : Type 0
Store = String → Option (String × ℕ)

abbrev live : ℕ → Option (String × ℕ) → Option String
live t none = none
live t (some (v, deadline)) = if ltb t deadline then some v else none

abbrev shown : ℕ → String → Store → Option String
shown t k s = live t (s k)

abbrev put : String → Option (String × ℕ) → Store → Store
put k e s = λ j. if k == j then e else s j

set_new : ℕ → String → String → ℕ → Store → Option String → Bool × Store
set_new now k v px s none = (true, put k (some (v, now + px)) s)
set_new now k v px s (some w) = (false, s)

move : ℕ → String → ℕ → Store → Option String → Store
move now k px s none = s
move now k px s (some v) = put k (some (v, now + px)) s

live-later : (t u : ℕ) (e : Option (String × ℕ)) → live t e ≡ none → t ≤ u → live u e ≡ none
live-later t u none h k = refl
live-later t u (some (v, d)) h k = ground arith

put-get :
    (t : ℕ) (k j : String) (e : Option (String × ℕ)) (s : Store)
    → shown t j (put k e s) ≡ (if k == j then live t e else shown t j s)
put-get t k j e s = ground arith

abbrev small_redis : Redis Store
small_redis = record {
  get = shown;
  set_nx_px = λ now k v px s. set_new now k v px s (shown now k s);
  del = λ k s. put k none s;
  pexpire = λ now k px s. move now k px s (shown now k s);
  set-taken = λ now k v px s w h. unfold set_new in rw h refl;
  set-free = λ now k v px s h. unfold set_new in rw h refl;
  get-set = λ now t k j v px s h n. unfold set_new in rw h (put-get t k j (some (v, now + px)) s);
  get-del = λ t k j s. put-get t k j none s;
  get-pexpire = λ now t k j v px s h n. unfold move in rw h (put-get t k j (some (v, now + px)) s);
  get-expired = λ t u k s h n. live-later t u (s k) h n;
}

abbrev client_a : String
client_a = "a"

abbrev client_b : String
client_b = "b"

abbrev empty : Store
empty = λ k. none

abbrev taken : Store
taken = (try_acquire small_redis "conversation:" 1000 "c1" "a" 5 empty).1

others_differ : client_b ≢ client_a
others_differ h = false≢true ((eq_iff client_b client_a).1 h)

-- While "a" holds the lock, "b" tries to release it and to take it.
abbrev let_go_state : Store
let_go_state = (release small_redis "conversation:" true 1000 "c1" client_b taken).1

abbrev tried : Store
tried = (try_acquire small_redis "conversation:" 5000 "c1" client_b 9 let_go_state).1

lock_exclusive_example :
    (shown 5000 (make_lock_key "conversation:" "c1") tried ≡ some "a")
    × (try_acquire small_redis "conversation:" 5000 "c1" "d" 7 tried ≡ (false, tried))
lock_exclusive_example =
    lock_exclusive small_redis "conversation:" 1000 "c1" client_a 5 empty (5000, tried) "d" 7 refl
      (then_step
        (then_step (then_step nothing (let_go true 1000 "c1" client_b taken others_differ))
          (wait 1000 5000 let_go_state (omega arith)))
        (try 5000 "c1" client_b 9 let_go_state))
      (omega arith)

release_by_token_example :
    let (done, s') = release small_redis "conversation:" true 2000 "c1" "a" taken in
    ((client_a ≡ client_a)
      × (done ≡ true)
      × (is_locked small_redis "conversation:" true 2000 "c1" s' ≡ false))
    ⊎ ((client_a ≢ client_a) × (done ≡ false) × (s' ≡ taken))
release_by_token_example =
    release_by_token small_redis "conversation:" 2000 2000 "c1" "a" "a" taken
      (unfold try_acquire set_new make_lock_key in refl)

abbrev round : ℕ → Round Store
round t = record { clock = t; asked = some (t, taken) }

abbrev last_round : Round Store
last_round = record { clock = 6100; asked = some (6100, taken) }

acquire-TookFree_example :
    (client_b ≡ client_b)
    × TookFree small_redis "conversation:" "c1" "b" 5 9000
        (try_acquire small_redis "conversation:" 6100 "c1" "b" 5 taken).1
acquire-TookFree_example =
    acquire-TookFree small_redis "conversation:" "c1" "b" 5 9000 (round 2000 ∷ last_round ∷ [])
      (unfold acquire try_acquire set_new make_lock_key in refl)

acquire_error_uncaught_example :
    (lock_acquisition_error ≡ lock_acquisition_error)
    × (caught_by_execute lock_acquisition_error ≡ false)
acquire_error_uncaught_example =
    acquire_error_uncaught small_redis "conversation:" "c1" "b" 5 3000
      (round 2000 ∷ round 3000 ∷ []) (unfold acquire try_acquire set_new make_lock_key in refl)

acquire_ends_example :
    acquire small_redis "conversation:" "c1" "b" 5 3000 (round 2000 ∷ round 2500 ∷ round 3000 ∷ [])
    ≢ waiting
acquire_ends_example =
    acquire_ends small_redis "conversation:" "c1" "b" 5 3000 500 2000 (round 2000)
      (round 2500 ∷ round 3000 ∷ []) (omega arith, (omega arith, (omega arith, tt))) (omega arith)
