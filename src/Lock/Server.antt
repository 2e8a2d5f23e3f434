-- ===== src/Lock/Server.antt =====
-- What the lock relies on of Redis: string keys that expire. `get` at a time shows a key's value
-- unless it has expired by then.
use text.Mathlib.Text.{◌==◌}
use claude_multi_agent.Base.{
  ℕ, ◌+◌, ◌≤◌, String, Bool, true, false, Option, none, some, ◌≡◌, ltb, if◌then◌else◌,
}

pub record Redis (S : Type 0) : Type 0 where
  pub get : ℕ → String → S → Option String
  pub set_nx_px : ℕ → String → String → ℕ → S → Bool × S
  pub del : String → S → S
  pub pexpire : ℕ → String → ℕ → S → S
  -- SET key value NX PX ms, on a key that is there: nothing is written.
  pub set-taken :
      (now : ℕ) (k v : String) (px : ℕ) (s : S) (w : String)
      → get now k s ≡ some w
      → set_nx_px now k v px s ≡ (false, s)
  -- On a key that is not there: it is set, and stays for `px` milliseconds.
  pub set-free :
      (now : ℕ) (k v : String) (px : ℕ) (s : S)
      → get now k s ≡ none
      → (set_nx_px now k v px s).0 ≡ true
  pub get-set :
      (now t : ℕ) (k j v : String) (px : ℕ) (s : S)
      → get now k s ≡ none
      → now ≤ t
      → get t j (set_nx_px now k v px s).1
        ≡ (if k == j then (if ltb t (now + px) then some v else none) else get t j s)
  -- DEL key
  pub get-del :
      (t : ℕ) (k j : String) (s : S) → get t j (del k s) ≡ (if k == j then none else get t j s)
  -- PEXPIRE key ms, on a key that is there.
  pub get-pexpire :
      (now t : ℕ) (k j v : String) (px : ℕ) (s : S)
      → get now k s ≡ some v
      → now ≤ t
      → get t j (pexpire now k px s)
        ≡ (if k == j then (if ltb t (now + px) then some v else none) else get t j s)
  -- A key that has expired stays away.
  pub get-expired : (t u : ℕ) (k : String) (s : S) → get t k s ≡ none → t ≤ u → get u k s ≡ none
