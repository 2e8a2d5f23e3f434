-- ===== src/Container/Gc/Spared.antt =====
-- Which containers a cycle destroys.
use claude_multi_agent.Base.{ℕ, String, true, false, Option, some, List, [], ◌∷◌, ◌≡◌, ◌⊎◌}
use claude_multi_agent.Container.{ContainerInfo, Hash, from_redis_hash}
use claude_multi_agent.Container.Gc.{
  GcSettings, should_destroy, Listed, Services, Turn, Cycle, finished, aborted, conversation_of,
  old_enough, collect_one,
}

abbrev pub victims : {S : Type 0} → Cycle S → List String
victims (finished ids s) = ids
victims (aborted ids s) = ids

module _ {S : Type 0} (services : Services S) (settings : GcSettings)
    (fromisoformat timestamp : String → Option ℕ) where
  open services use {pool_info_exists, metadata}

  -- The metadata of the container says that it is to be destroyed.
  abbrev pub Expired : ℕ → String → Hash → Type 0
  Expired now id hash =
      (i : ContainerInfo) × (from_redis_hash fromisoformat hash ≡ some i)
      × (i.id ≡ id)
      × (should_destroy settings now i ≡ true)

  -- A container without metadata that counts as old enough.
  abbrev pub Orphan : ℕ → Listed → String → Hash → Type 0
  Orphan now c id hash =
      (hash ≡ []) × (c.name ≡ id) × (old_enough services timestamp now c.created ≡ true)

  -- At the turn of a listed container, in the state of that time.
  abbrev pub Justified : ℕ → Listed → S → String → Type 0
  Justified now c s id =
      (pool_info_exists c.name s ≡ false)
      × (Expired now id (metadata (conversation_of services c s) s)
          ⊎ Orphan now c id (metadata (conversation_of services c s) s))

  -- The destroyed containers, in their order, have each a turn of the cycle at which the destruction is
  -- justified, with the time of that turn and the state that the turns before it have left.
  abbrev pub Explained : List (ℕ × Listed) → S → List String → Type 0
  Explained [] s ids = ids ≡ []
  Explained ((now, c) ∷ cs) s ids =
      let after = (collect_one services settings fromisoformat timestamp now c s).after in
      (ids ≡ [])
      ⊎ (Explained cs after ids
          ⊎ ((id : String) × (rest : List String) × (ids ≡ id ∷ rest)
              × Justified now c s id
              × Explained cs after rest))

  module _ (now : ℕ) (c : Listed) (s : S) (cs : List (ℕ × Listed)) where
    abbrev turn : Turn services
    turn = collect_one services settings fromisoformat timestamp now c s
