-- ===== src/Container/WarmPool/Sizes.antt =====
-- How large the warm pool gets while `gather` runs its tasks in any order.
use native.Mathlib.Decide.{dec_le}
use claude_multi_agent.Base.{
  String, max, ℕ, zero, suc, ◌+◌, ◌-◌, ◌*◌, ◌≤◌, ◌<◌, Bool, true, false, List, [], ◌∷◌, Outcome,
  returned, raised, length, length-append, leb, ◌==◌, ◌≡◌, ◌⊎◌, inl, inr, refl, if◌then◌else◌,
  Bool-cases, arith, ◌∙◌,
}
use claude_multi_agent.Container.{ContainerInfo}
use claude_multi_agent.Container.WarmPool.{
  Lifecycle, Pool, Phase, checking, creating, awaiting, adding, discarding, backing_off, ended, add,
  failed_attempt, next_attempt, after_create, after_destroy, step, step_at, gather, tasks_of,
  created, preheat,
}

module _ {W : Type 0} (lifecycle : Lifecycle W) where
  -- One for a task that has added its container.
  done : Phase lifecycle → ℕ
  done (ended true) = 1
  done _ = 0

  -- How many steps a task takes at most.
  abbrev pub rank : Phase lifecycle → ℕ
  rank (checking left number) = 6 * left + 5
  rank (creating left number) = 6 * left + 4
  rank (awaiting left number i) = 6 * left + 3
  rank (adding left number i) = 6 * left + 1
  rank (discarding left number i) = 6 * left + 2
  rank (backing_off left number) = 6 * left + 1
  rank (ended b) = 0

  abbrev failed : ℕ → ℕ → Phase lifecycle
  failed left number = failed_attempt lifecycle left number

  failed_lem :
      (left number : ℕ)
      → (done (failed left number) ≡ 0) × (rank (failed left number) ≤ 6 * left + 1)
  unfolding done
  failed_lem zero number = (refl, omega arith)
  failed_lem (suc left) number = (refl, omega arith)

  next_lem :
      (left number : ℕ)
      → (done (next_attempt lifecycle left number) ≡ 0)
        × (rank (next_attempt lifecycle left number) ≤ 6 * left)
  unfolding done
  next_lem zero number = (refl, omega arith)
  next_lem (suc left) number = (refl, omega arith)

  -- A step of a task: what the pool gains is what the task then counts for, and its rank goes down.
  abbrev Moves : Phase lifecycle → Pool W → Phase lifecycle × Pool W → Type 0
  Moves p s (p', s') =
      (length s'.waiting + done p ≡ length s.waiting + done p')
      × (s'.min_size ≡ s.min_size)
      × (rank p' ≤ rank p - 1)

  step-Moves : (p : Phase lifecycle) (s : Pool W) → Moves p s (step lifecycle p s)
  unfolding step done add
  step-Moves (checking left number) s = elim (Bool-cases (leb s.max_size (length s.waiting))) [
    | inl e ↦ rw e (refl, refl, omega arith)
    | inr e ↦ rw e (refl, refl, omega arith)
  ]
  step-Moves (creating left number) s = from (lifecycle.create_container s.world)
    where
      from :
          (r : Outcome ContainerInfo String × W)
          → Moves
              (creating left number)
              s
              (after_create lifecycle left number r.0, record s { world = r.1 })
      from (returned i, w) = unfold after_create in (refl, refl, omega arith)
      from (raised e, w) =
          let (none_done, low) = failed_lem left number in
          unfold after_create in (omega (arith, none_done), refl, omega (arith, low))
  step-Moves (awaiting left number i) s = from (lifecycle.wait_for_agent_ready i s.world)
    where
      from :
          (r : Bool × W)
          → Moves (awaiting left number i) s (
            if r.0 then adding left number i else discarding left number i,
            record s { world = r.1 },
          )
      from (true, w) = (refl, refl, omega arith)
      from (false, w) = (refl, refl, omega arith)
  step-Moves (adding left number i) s =
      (omega (arith, length-append s.waiting (i.id ∷ [])), refl, omega arith)
  step-Moves (discarding left number i) s = from (lifecycle.destroy i.id s.world)
    where
      from :
          (r : Outcome (Unit {0}) String × W)
          → Moves
              (discarding left number i)
              s
              (after_destroy lifecycle left number r.0, record s { world = r.1 })
      from (returned u, w) =
          let (none_done, low) = next_lem left number in
          unfold after_destroy in (omega (arith, none_done), refl, omega (arith, low))
      from (raised e, w) =
          let (none_done, low) = failed_lem left number in
          unfold after_destroy in (omega (arith, none_done), refl, omega (arith, low))
  step-Moves (backing_off left number) s =
      let (none_done, low) = next_lem left number in
      (omega (arith, none_done), refl, omega (arith, low))
  step-Moves (ended true) s = (refl, refl, omega arith)
  step-Moves (ended false) s = (refl, refl, omega arith)

  created_lem :
      (p : Phase lifecycle) (ps : List (Phase lifecycle))
      → created lifecycle (p ∷ ps) ≡ done p + created lifecycle ps
  unfolding created done
  created_lem (ended true) ps = omega arith
  created_lem (ended false) ps = omega arith
  created_lem (checking left number) ps = omega arith
  created_lem (creating left number) ps = omega arith
  created_lem (awaiting left number i) ps = omega arith
  created_lem (adding left number i) ps = omega arith
  created_lem (discarding left number i) ps = omega arith
  created_lem (backing_off left number) ps = omega arith

  -- How many times a position is in a schedule, and the rank of the task there.
  abbrev pub turns : ℕ → List ℕ → ℕ
  turns n [] = 0
  turns n (m ∷ schedule) = (if m == n then 1 else 0) + turns n schedule

  abbrev pub rank_at : ℕ → List (Phase lifecycle) → ℕ
  rank_at n [] = 0
  rank_at zero (p ∷ ps) = rank p
  rank_at (suc n) (p ∷ ps) = rank_at n ps

  abbrev Moved : List (Phase lifecycle) → Pool W → List (Phase lifecycle) × Pool W → Type 0
  Moved ps s (ps', s') =
      (length s'.waiting + created lifecycle ps ≡ length s.waiting + created lifecycle ps')
      × (s'.min_size ≡ s.min_size)
      × (length ps' ≡ length ps)

  step_at-Moved :
      (n : ℕ) (ps : List (Phase lifecycle)) (s : Pool W) → Moved ps s (step_at lifecycle n ps s)
  unfolding step_at
  step_at-Moved n [] s = (refl, refl, refl)
  step_at-Moved zero (p ∷ ps) s =
      let (grown, same, low) = step-Moves p s in
      (omega (arith, grown, created_lem p ps, created_lem (step lifecycle p s).0 ps), same, refl)
  step_at-Moved (suc n) (p ∷ ps) s =
      let (grown, same, size) = step_at-Moved n ps s in
      (
        omega (arith, grown, created_lem p ps, created_lem p (step_at lifecycle n ps s).0),
        same,
        omega (arith, size),
      )

  step_at-rank :
      (k n : ℕ) (ps : List (Phase lifecycle)) (s : Pool W)
      → rank_at k (step_at lifecycle n ps s).0 ≤ rank_at k ps - (if n == k then 1 else 0)
  unfolding step_at
  step_at-rank k n [] s = omega arith
  step_at-rank zero zero (p ∷ ps) s = let (grown, same, low) = step-Moves p s in omega (arith, low)
  step_at-rank (suc k) zero (p ∷ ps) s = ground arith
  step_at-rank zero (suc n) (p ∷ ps) s = ground arith
  step_at-rank (suc k) (suc n) (p ∷ ps) s = ground (arith, step_at-rank k n ps s)

  gather-Moved :
      (schedule : List ℕ) (ps : List (Phase lifecycle)) (s : Pool W)
      → Moved ps s (gather lifecycle schedule ps s)
  unfolding gather
  gather-Moved [] ps s = (refl, refl, refl)
  gather-Moved (n ∷ schedule) ps s =
      let (grown, same, size) = step_at-Moved n ps s in
      let (grown', same', size') =
        gather-Moved schedule (step_at lifecycle n ps s).0 (step_at lifecycle n ps s).1 in
      (omega (arith, grown, grown'), same' ∙ same, size' ∙ size)

  gather-rank :
      (k : ℕ) (schedule : List ℕ) (ps : List (Phase lifecycle)) (s : Pool W)
      → rank_at k (gather lifecycle schedule ps s).0 ≤ rank_at k ps - turns k schedule
  unfolding gather
  gather-rank k [] ps s = omega arith
  gather-rank k (n ∷ schedule) ps s =
      let first = step_at-rank k n ps s in
      let rest = gather-rank k schedule (step_at lifecycle n ps s).0 (step_at lifecycle n ps s).1 in
      omega (arith, first, rest)

  fresh_tasks :
      (n : ℕ)
      → (created lifecycle (tasks_of lifecycle n) ≡ 0)
        × (length (tasks_of lifecycle n) ≡ n)
        × ((k : ℕ) → rank_at k (tasks_of lifecycle n) ≤ 17)
  unfolding tasks_of created
  fresh_tasks zero = (refl, refl, λ k. omega arith)
  fresh_tasks (suc n) =
      let (none_done, size, low) = fresh_tasks n in
      (
        none_done,
        omega (arith, size),
        λ k. elim k as (λ k. rank_at k (tasks_of lifecycle (suc n)) ≤ 17) [
          | zero ↦ omega arith
          | suc m ↦ low m
        ],
      )

  created-le : (ps : List (Phase lifecycle)) → created lifecycle ps ≤ length ps
  unfolding created done
  created-le [] = omega arith
  created-le (p ∷ ps) = omega (arith, created_lem p ps, created-le ps, done-le p)
    where
      done-le : (p : Phase lifecycle) → done p ≤ 1
      done-le (ended true) = omega arith
      done-le (ended false) = omega arith
      done-le (checking left number) = omega arith
      done-le (creating left number) = omega arith
      done-le (awaiting left number i) = omega arith
      done-le (adding left number i) = omega arith
      done-le (discarding left number i) = omega arith
      done-le (backing_off left number) = omega arith

  -- The task at a position is `ended`, if there is one.
  abbrev pub EndedAt : ℕ → List (Phase lifecycle) → Type 0
  EndedAt n [] = Unit
  EndedAt zero (p ∷ ps) = (b : Bool) × (p ≡ ended b)
  EndedAt (suc n) (p ∷ ps) = EndedAt n ps

  rank-EndedAt : (n : ℕ) (ps : List (Phase lifecycle)) → rank_at n ps ≡ 0 → EndedAt n ps
  rank-EndedAt n [] h = tt
  rank-EndedAt (suc n) (p ∷ ps) h = rank-EndedAt n ps h
  rank-EndedAt zero (ended b ∷ ps) h = (b, refl)
  rank-EndedAt zero (checking left number ∷ ps) h = absurd (omega arith)
  rank-EndedAt zero (creating left number ∷ ps) h = absurd (omega arith)
  rank-EndedAt zero (awaiting left number i ∷ ps) h = absurd (omega arith)
  rank-EndedAt zero (adding left number i ∷ ps) h = absurd (omega arith)
  rank-EndedAt zero (discarding left number i ∷ ps) h = absurd (omega arith)
  rank-EndedAt zero (backing_off left number ∷ ps) h = absurd (omega arith)

  abbrev pub Filled : List ℕ → Pool W → List (Phase lifecycle) × Pool W → Type 0
  Filled schedule s (ps, s') =
      (length s'.waiting ≡ length s.waiting + created lifecycle ps)
      × (length s'.waiting ≤ max (length s.waiting) s.min_size)
      × ((n : ℕ) → (turns n schedule < 17) ⊎ EndedAt n ps)

  -- In whatever order the tasks of `preheat` take their steps, with no other call in between: at every
  -- point the pool has grown by the number of tasks that have ended with true, which is what `preheat`
  -- returns at the end, it is no larger than the minimum unless it was before, and each task that has
  -- had seventeen turns has ended.
  pub preheat-Filled :
      (schedule : List ℕ) (s : Pool W) → Filled schedule s (preheat lifecycle schedule s)
  unfolding preheat
  preheat-Filled schedule s =
      let missing = s.min_size - length s.waiting in
      let tasks = tasks_of lifecycle missing in
      let (none_done, size, low) = fresh_tasks missing in
      let (grown, same, kept) = gather-Moved schedule tasks s in
      let few = created-le (gather lifecycle schedule tasks s).0 in
      (
        omega (arith, grown, none_done),
        omega (arith, grown, none_done, few, kept, size),
        λ n.
            let ranked = gather-rank n schedule tasks s in
            let start = low n in
            elim (dec_le 17 (turns n schedule)) [
              | yes e ↦ inr (rank-EndedAt n (gather lifecycle schedule tasks s).0 (omega arith))
              | no e ↦ inl (omega arith)
            ],
      )
