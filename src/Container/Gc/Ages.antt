-- ===== src/Container/Gc/Ages.antt =====
-- How the ages of containers decide.
use claude_multi_agent.Base.{
  ℕ, ◌+◌, ◌≤◌, String, true, false, ◌||◌, Option, none, [], ◌∷◌, Outcome, returned, raised, ◌≡◌,
  refl, arith, ltb, if◌then◌else◌,
}
use claude_multi_agent.Container.{ContainerInfo, touch}
use claude_multi_agent.Container.Gc.{
  finished, aborted, GcSettings, should_destroy, is_draining, Listed, Services, is_empty,
  conversation_of, collect, collect_one, judge, old_enough, aged, destroyed_orphan, then_rest,
  with_victim,
}
use claude_multi_agent.Container.Gc.Spared.{victims}

-- A container that is to be destroyed is to be destroyed at every later time; and a container that is
-- touched is spared as long as the inactive time has not passed since then, unless it is too old
-- altogether or draining.
should_destroy_ages :
    (s : GcSettings) (now t u : ℕ) (i : ContainerInfo)
    → now ≤ t
    → t ≤ u + s.container_inactive_ttl
    → (should_destroy s now i ≡ true → should_destroy s t i ≡ true)
      × (should_destroy s t (touch u i)
          ≡ (ltb (i.created_at + s.container_absolute_ttl) t || is_draining i.status))
unfolding should_destroy touch
should_destroy_ages s now t u i h k = (ground arith, ground arith)

orphan-victims :
    {S : Type 0} (services : Services S) (settings : GcSettings)
    (fromisoformat timestamp : String → Option ℕ) (name : String)
    (r : Outcome (Unit {0}) String × S)
    → let turn = destroyed_orphan services name r in
      victims (
        if turn.raises
        then aborted
            (with_victim services settings fromisoformat timestamp turn.victim [])
            turn.after
        else finished
            (with_victim services settings fromisoformat timestamp turn.victim [])
            turn.after)
      ≡ name ∷ []
unfolding destroyed_orphan
orphan-victims services settings fromisoformat timestamp name (returned u, s) = refl
orphan-victims services settings fromisoformat timestamp name (raised e, s) = refl

old_enough_unreadable :
    {S : Type 0} (services : Services S) (timestamp : String → Option ℕ) (now : ℕ) (text : String)
    → timestamp text ≡ none
    → old_enough services timestamp now text ≡ true
unfolding old_enough aged
old_enough_unreadable services timestamp now String.[] h = refl
old_enough_unreadable services timestamp now (String.◌∷◌ c t) h = rw (h, old_enough) refl

-- A listed container that is not in the pool and has no metadata is destroyed, however young it is, if
-- the text that Docker gives for its creation is not a number.
young_orphan_destroyed :
    {S : Type 0} (services : Services S) (settings : GcSettings)
    (fromisoformat timestamp : String → Option ℕ) (now : ℕ) (c : Listed) (s : S)
    → is_empty c.name ≡ false
    → services.pool_info_exists c.name s ≡ false
    → services.metadata (conversation_of services c s) s ≡ []
    → timestamp c.created ≡ none
    → victims (collect services settings fromisoformat timestamp ((now, c) ∷ []) s) ≡ c.name ∷ []
unfolding collect collect_one judge then_rest
young_orphan_destroyed services settings fromisoformat timestamp now c s n p m t =
    rw (n, p, m, old_enough_unreadable services timestamp now c.created t)
      (orphan-victims services settings fromisoformat timestamp c.name _)
