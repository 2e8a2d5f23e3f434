-- ===== src/Container/WarmPool/Accounts.antt =====
-- Where the containers of the warm pool go.
use mathlib.Core.List.{append_assoc, append-nil}
use claude_multi_agent.Base.{
  ℕ, String, Bool, true, false, Option, none, some, List, [], ◌∷◌, ◌++◌, map, Outcome, returned,
  raised, ◌≡◌, refl, sym, ap, ◌∙◌, subst, if◌then◌else◌,
}
use claude_multi_agent.Base.Tables.{find, Table, remove}
use claude_multi_agent.Base.Steps.{pure, and_then, ◌>>=◌, modify}
use claude_multi_agent.Container.{ContainerInfo, Hash}
use claude_multi_agent.Container.WarmPool.{
  number_or, Lifecycle, Task, replenishing, cleanup, Pool, reload_config, with_min, with_max,
  pool_info, taken, discarded, create_one, try_next, pop_loop, acquire,
}

module _ {W : Type 0} (lifecycle : Lifecycle W) where
  -- What is left of the pool's table when the entries of some containers are gone.
  abbrev pub without : List String → Table Hash → Table Hash
  without [] infos = infos
  without (id ∷ ids) infos = without ids (remove id infos)

  -- How a call of `acquire` ends that has popped the identifiers of `gone` beside those that it gave up:
  -- with a new container after the last identifier was popped, or with the container that the table
  -- describes under the popped identifier.
  abbrev pub Ends :
      List String → List String → Table Hash → List Task → Outcome ContainerInfo String → Type 0
  Ends [] waiting infos last o =
      (waiting ≡ [])
      × (last ≡ replenishing ∷ [])
      × ((w : W) × ((lifecycle.create_container w).0 ≡ o))
  Ends (id ∷ []) waiting infos last (returned i) =
      (last ≡ replenishing ∷ [])
      × ((w : W) × ((lifecycle.is_healthy id w).0 ≡ true))
      × (pool_info lifecycle (find id infos) ≡ returned (some i))
  Ends (id ∷ []) waiting infos last (raised e) =
      (last ≡ []) × (pool_info lifecycle (find id infos) ≡ raised e)
  Ends (id ∷ j ∷ ids) waiting infos last o = ⊥

  -- The identifiers that waited are those given up, each with its destruction scheduled, then `gone`, and
  -- then those that still wait.
  abbrev pub Accounted :
      List String → Table Hash → List Task → Outcome ContainerInfo String × Pool W → Type 0
  Accounted ids infos before r =
      (skipped : List String) × (gone : List String) × (last : List Task) × (ids
        ≡ skipped ++ (gone ++ r.1.waiting))
      × (r.1.tasks ≡ before ++ (map cleanup skipped ++ last))
      × Ends gone r.1.waiting (without skipped infos) last r.0

  skip :
      (id : String) (ids : List String) (infos : Table Hash) (before : List Task)
      (r : Outcome ContainerInfo String × Pool W)
      → Accounted ids (remove id infos) (before ++ (cleanup id ∷ [])) r
      → Accounted (id ∷ ids) infos before r
  skip id ids infos before r (skipped, gone, last, e, t, end_) = (
    id ∷ skipped,
    gone,
    last,
    ap (λ x. id ∷ x) e,
    t ∙ append_assoc before (cleanup id ∷ []) (map cleanup skipped ++ last),
    end_,
  )

  create_one-Accounted :
      (s : Pool W) → s.waiting ≡ [] → Accounted [] s.infos s.tasks (create_one lifecycle s)
  unfolding create_one and_then
  create_one-Accounted s h = from (lifecycle.create_container s.world) refl
    where
      from :
          (r : Outcome ContainerInfo String × W)
          → (lifecycle.create_container s.world).0 ≡ r.0
          → Accounted [] s.infos s.tasks (
              and_then
                (r.0, record s { tasks = s.tasks ++ (replenishing ∷ []); world = r.1 })
                λ info l. (
                  returned info,
                  record l { world = (lifecycle.wait_for_agent_ready info l.world).1 },
                ))
      from (returned i, w) e = ([], [], replenishing ∷ [], sym h, refl, (h, refl, (s.world, e)))
      from (raised x, w) e = ([], [], replenishing ∷ [], sym h, refl, (h, refl, (s.world, e)))

  Onward : List String → Type 0
  Onward ids =
      (s : Pool W) → s.waiting ≡ ids → Accounted ids s.infos s.tasks (pop_loop lifecycle ids s)

  pop_next :
      List String
      → Outcome (Option ContainerInfo) String × Pool W
      → Outcome ContainerInfo String × Pool W
  pop_next ids r =
      and_then r (λ info. elim info [ some i ↦ pure i | none ↦ pop_loop lifecycle ids ])

  module _ (id : String) (ids : List String) (onward : Onward ids) where
    healthy-Accounted :
        (i : ContainerInfo) (s : Pool W) (r : Bool × W)
        → s.waiting ≡ ids
        → pool_info lifecycle (find id s.infos) ≡ returned (some i)
        → (r.0 ≡ true → (w : W) × ((lifecycle.is_healthy id w).0 ≡ true))
        → Accounted (id ∷ ids) s.infos s.tasks (
            pop_next ids (
              (if r.0
                  then (modify (taken lifecycle id) >>= λ _. pure (some i))
                  else (modify (discarded lifecycle id) >>= λ _. pure none))
                (record s { world = r.1 })))
    unfolding pop_next and_then Onward
    healthy-Accounted i s (true, w) h p k =
        ([], id ∷ [], replenishing ∷ [], ap (λ x. id ∷ x) (sym h), refl, (refl, k refl, p))
    healthy-Accounted i s (false, w) h p k =
        skip id ids s.infos s.tasks
          (pop_loop lifecycle ids (discarded lifecycle id (record s { world = w })))
          (onward (discarded lifecycle id (record s { world = w })) h)

    tried-Accounted :
        (o : Outcome (Option ContainerInfo) String) (s : Pool W)
        → s.waiting ≡ ids
        → pool_info lifecycle (find id s.infos) ≡ o
        → Accounted (id ∷ ids) s.infos s.tasks (pop_next ids (try_next lifecycle id o s))
    unfolding pop_next and_then try_next Onward
    tried-Accounted (raised e) s h p =
        ([], id ∷ [], [], ap (λ x. id ∷ x) (sym h), sym (append-nil s.tasks), (refl, p))
    tried-Accounted (returned none) s h p =
        skip id ids s.infos s.tasks (pop_loop lifecycle ids (discarded lifecycle id s))
          (onward (discarded lifecycle id s) h)
    tried-Accounted (returned (some i)) s h p =
        healthy-Accounted i s (lifecycle.is_healthy id s.world) h p (λ e. (s.world, e))

  pop_loop-Accounted : (ids : List String) → Onward ids
  unfolding pop_loop pop_next Onward and_then
  pop_loop-Accounted [] s h = create_one-Accounted s h
  pop_loop-Accounted (id ∷ ids) s h =
      tried-Accounted id ids (pop_loop-Accounted ids) (pool_info lifecycle (find id s.infos))
        (record s { waiting = ids }) refl refl

  max-keeps :
      (o : Option ℕ) (s : Pool W)
      → ((with_max lifecycle o s).waiting ≡ s.waiting)
        × ((with_max lifecycle o s).tasks ≡ s.tasks)
        × ((with_max lifecycle o s).infos ≡ s.infos)
  unfolding with_max
  max-keeps none s = (refl, refl, refl)
  max-keeps (some n) s = (refl, refl, refl)

  min-keeps :
      (o : Option ℕ) (s : Pool W)
      → ((with_min lifecycle o s).waiting ≡ s.waiting)
        × ((with_min lifecycle o s).tasks ≡ s.tasks)
        × ((with_min lifecycle o s).infos ≡ s.infos)
  unfolding with_min
  min-keeps none s = (refl, refl, refl)
  min-keeps (some n) s =
      max-keeps (number_or lifecycle (find "max_size" s.config) s.max_size)
        (record s { min_size = n })

  -- No container that waited is lost by `acquire`: those in front of the one that is taken have each their
  -- destruction scheduled, in their order; the one that is taken was found healthy and is the one that is
  -- returned, as the pool's table describes it, and those behind it still wait. None is taken only when
  -- none is left waiting, and then the result is that of a creation. In both cases the pool is
  -- replenished. Otherwise the description of one container could not be read, and that one is dropped.
  pub acquire-Accounted : (s : Pool W) → Accounted s.waiting s.infos s.tasks (acquire lifecycle s)
  unfolding acquire Onward reload_config
  acquire-Accounted s =
      let kept = min-keeps (number_or lifecycle (find "min_size" s.config) s.min_size) s in
      subst
        (λ t.
          Accounted s.waiting t s.tasks (pop_loop lifecycle s.waiting (reload_config lifecycle s)))
        (kept.2)
        (subst
          (λ t.
            Accounted s.waiting (reload_config lifecycle s).infos t
              (pop_loop lifecycle s.waiting (reload_config lifecycle s)))
          (kept.1) (pop_loop-Accounted s.waiting (reload_config lifecycle s) (kept.0)))
