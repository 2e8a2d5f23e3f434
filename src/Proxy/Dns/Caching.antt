-- ===== src/Proxy/Dns/Caching.antt =====
-- What the cache saves, and for how long.
use text.Mathlib.Text.{◌==◌}
use text.Mathlib.TextEquality.{eq_iff}
use text.Mathlib.TextPositions.{eq_refl}
use claude_multi_agent.Base.{
  ℕ, ◌+◌, String, false, none, some, List, [], ◌∷◌, Outcome, returned, ◌≡◌, refl, ap, ltb, arith,
  if◌then◌else◌, ◌&&◌, not, Bool-cases, inl, inr,
}
use claude_multi_agent.Proxy.Dns.{
  CacheEntry, Cache, find_entry, set_entry, seen_in, unique, valid_at, store, answer, resolve,
}

-- No address stands twice.
abbrev pub Distinct : List String → Type 0
Distinct [] = Unit
Distinct (x ∷ xs) = (seen_in x xs ≡ false) × Distinct xs

find-set :
    (j k : String) (e : CacheEntry) (c : Cache)
    → find_entry j (set_entry k e c) ≡ (if k == j then some e else find_entry j c)
unfolding find_entry set_entry
find-set j k e [] = refl
find-set j k e ((i, f) ∷ c) = ground (arith, eq_iff k j, eq_iff i k, eq_iff i j, find-set j k e c)

seen-unique :
    (a : String) (seen xs : List String)
    → seen_in a (unique seen xs) ≡ (seen_in a xs && not (seen_in a seen))
unfolding unique
seen-unique a seen [] = refl
seen-unique a seen (x ∷ xs) = ground (
  arith,
  eq_iff x a,
  ap (λ b. seen_in b seen),
  seen-unique a seen xs,
  seen-unique a (x ∷ seen) xs,
)

unique-seen-Distinct : (seen xs : List String) → Distinct (unique seen xs)
unfolding unique
unique-seen-Distinct seen [] = tt
unique-seen-Distinct seen (x ∷ xs) = elim (Bool-cases (seen_in x seen)) [
  | inl e ↦ rw e (unique-seen-Distinct seen xs)
  | inr e ↦ rw e (head x seen xs, unique-seen-Distinct (x ∷ seen) xs)
]
  where
    head : (x : String) (seen xs : List String) → seen_in x (unique (x ∷ seen) xs) ≡ false
    head x seen xs = rw (seen-unique x (x ∷ seen) xs) (ground (arith, eq_refl x))

-- The addresses that were looked up are kept each once: none is lost, and none is added.
unique-Distinct :
    (xs : List String)
    → Distinct (unique [] xs) × ((a : String) → seen_in a (unique [] xs) ≡ seen_in a xs)
unique-Distinct xs = (unique-seen-Distinct [] xs, λ a. ground (arith, seen-unique a [] xs))

module _ {E W : Type 0} (ttl : ℕ) (lookup_host : String → W → Outcome (List String) E × W) where
  resolve_again :
      (later t u : ℕ) (hostname : String) (cache : Cache) (w : W) (xs : List String)
      → find_entry hostname cache ≡ some (record { addresses = xs; expires_at = later + ttl })
      → resolve ttl lookup_host t u hostname cache w ≡ (
          if ltb t (later + ttl)
          then (returned xs, cache, w)
          else store ttl lookup_host u hostname cache (lookup_host hostname w))
  unfolding resolve answer valid_at
  resolve_again later t u hostname cache w xs h = elim (Bool-cases (ltb t (later + ttl))) [
    | inl e ↦ rw (h, e) refl
    | inr e ↦ rw (h, e) refl
  ]

  -- After a lookup that succeeds, the name is resolved to the same addresses without another lookup
  -- and without a change as long as the time to live lasts, and is looked up again from then on; other
  -- names are as they were.
  resolve_cached :
      (now later t u : ℕ) (hostname : String) (cache : Cache) (w w' : W) (infos : List String)
      → valid_at now (find_entry hostname cache) ≡ none
      → lookup_host hostname w ≡ (returned infos, w')
      → let (r, cache', v) = resolve ttl lookup_host now later hostname cache w in
        (r ≡ returned (unique [] infos))
        × (v ≡ w')
        × (resolve ttl lookup_host t u hostname cache' v ≡ (
            if ltb t (later + ttl)
            then (returned (unique [] infos), cache', v)
            else store ttl lookup_host u hostname cache' (lookup_host hostname v)))
        × ((other : String)
            → (hostname == other) ≡ false
            → find_entry other cache' ≡ find_entry other cache)
  unfolding resolve answer store
  resolve_cached now later t u hostname cache w w' infos h k =
      let e : CacheEntry = record { addresses = unique [] infos; expires_at = later + ttl } in
      let found : find_entry hostname (set_entry hostname e cache) ≡ some e =
        rw (find-set hostname hostname e cache, eq_refl hostname) refl in
      let again =
        resolve_again later t u hostname (set_entry hostname e cache) w' (unique [] infos) found in
      rw (h, k) (refl, refl, again, λ other d. rw (find-set other hostname e cache, d) refl)
