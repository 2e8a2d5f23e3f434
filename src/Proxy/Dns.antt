-- ===== src/Proxy/Dns.antt =====
-- The DNS cache: app/services/proxy/dns_cache.py, with times in whole ticks. `lookup_host` stands for
-- `getaddrinfo`, which acts on a world and may raise OSError; its addresses are texts.
pub mod Caching
use text.Mathlib.Text.{◌==◌}
use claude_multi_agent.Base.{
  ℕ, ◌+◌, String, Bool, true, false, ◌||◌, Option, none, some, List, [], ◌∷◌, Outcome, returned,
  raised, ltb, if◌then◌else◌,
}

pub record CacheEntry : Type 0 where
  pub addresses : List String
  pub expires_at : ℕ

-- A dictionary with text keys.
abbrev pub Cache : Type 0
Cache = List (String × CacheEntry)

unfoldable pub find_entry : String → Cache → Option CacheEntry
find_entry k [] = none
find_entry k ((j, e) ∷ c) = if j == k then some e else find_entry k c

pub set_entry : String → CacheEntry → Cache → Cache
set_entry k e [] = (k, e) ∷ []
set_entry k e ((j, f) ∷ c) = if j == k then (j, e) ∷ c else (j, f) ∷ set_entry k e c

abbrev pub seen_in : String → List String → Bool
seen_in a [] = false
seen_in a (b ∷ bs) = b == a || seen_in a bs

-- The loop of `_do_resolve`: the addresses that are not yet seen, in their order.
unfoldable pub unique : List String → List String → List String
unique seen [] = []
unique seen (a ∷ rest) =
    let skipped = unique seen rest in
    let kept = unique (a ∷ seen) rest in if seen_in a seen then skipped else a ∷ kept

-- `entry is not None and entry.expires_at > now`
unfoldable pub valid_at : ℕ → Option CacheEntry → Option (List String)
valid_at now none = none
valid_at now (some e) = if ltb now e.expires_at then some e.addresses else none

module _ {E W : Type 0} (ttl : ℕ) (lookup_host : String → W → Outcome (List String) E × W) where
  pub store : ℕ → String → Cache → Outcome (List String) E × W → Outcome (List String) E × Cache × W
  store later hostname cache (raised e, w) = (raised e, cache, w)
  store later hostname cache (returned infos, w) =
      let addresses = unique [] infos in
      (
        returned addresses,
        set_entry hostname (record { addresses = addresses; expires_at = later + ttl }) cache,
        w,
      )

  answer : ℕ → String → Cache → W → Option (List String) → Outcome (List String) E × Cache × W
  answer later hostname cache w (some addresses) = (returned addresses, cache, w)
  answer later hostname cache w none = store later hostname cache (lookup_host hostname w)

  -- `resolve`, which reads the clock at `now` and, after a lookup, at `later`.
  unfoldable pub resolve : ℕ → ℕ → String → Cache → W → Outcome (List String) E × Cache × W
  unfolding answer valid_at find_entry store set_entry unique
  resolve now later hostname cache w =
      answer later hostname cache w (valid_at now (find_entry hostname cache))
