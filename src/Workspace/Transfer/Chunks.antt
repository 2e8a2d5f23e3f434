-- ===== src/Workspace/Transfer/Chunks.antt =====
-- The slices of a text make it up again, and none is longer than the size.
use claude_multi_agent.Base.{
  ℕ, zero, suc, ◌≤◌, List, [], ◌∷◌, ◌++◌, length, All, ◌≡◌, ◌≢◌, refl, ap, ◌∙◌, arith,
}
use claude_multi_agent.Execute.Stream.{Text}
use claude_multi_agent.Workspace.Transfer.{take, drop, slices}

abbrev pub flat : List Text → Text
flat [] = []
flat (t ∷ ts) = t ++ flat ts

take-append-drop : (n : ℕ) (t : Text) → take n t ++ drop n t ≡ t
unfolding take drop
take-append-drop zero t = refl
take-append-drop (suc n) [] = refl
take-append-drop (suc n) (c ∷ t) = ap (λ x. c ∷ x) (take-append-drop n t)

length-take : (n : ℕ) (t : Text) → length (take n t) ≤ n
unfolding take
length-take zero t = omega arith
length-take (suc n) [] = omega arith
length-take (suc n) (c ∷ t) = omega (arith, length-take n t)

length-drop : (n : ℕ) (t : Text) → length (drop n t) ≤ length t
unfolding drop
length-drop zero t = omega arith
length-drop (suc n) [] = omega arith
length-drop (suc n) (c ∷ t) = omega (arith, length-drop n t)

pub flat-slices : (fuel size : ℕ) (t : Text) → length t ≤ fuel → flat (slices fuel size t) ≡ t
unfolding slices drop
flat-slices zero size [] h = refl
flat-slices zero size (c ∷ t) h = absurd (omega arith)
flat-slices (suc fuel) size [] h = refl
flat-slices (suc fuel) size (c ∷ t) h =
    ap (λ x. take (suc size) (c ∷ t) ++ x)
      (flat-slices fuel size (drop size t) (omega (arith, length-drop size t)))
    ∙ take-append-drop (suc size) (c ∷ t)

-- Every chunk of a text is at most 60000 characters long, and together they are the text.
pub slices-Fit : (fuel size : ℕ) (t : Text) → All (λ s. length s ≤ suc size) (slices fuel size t)
unfolding slices
slices-Fit zero size t = tt
slices-Fit (suc fuel) size [] = tt
slices-Fit (suc fuel) size (c ∷ t) =
    (length-take (suc size) (c ∷ t), slices-Fit fuel size (drop (suc size) (c ∷ t)))

module _ (P : ℕ → Type 0) where
  take-All : (n : ℕ) (t : Text) → All P t → All P (take n t)
  unfolding take
  take-All zero t h = tt
  take-All (suc n) [] h = tt
  take-All (suc n) (c ∷ t) h = (h.0, take-All n t h.1)

  drop-All : (n : ℕ) (t : Text) → All P t → All P (drop n t)
  unfolding drop
  drop-All zero t h = h
  drop-All (suc n) [] h = tt
  drop-All (suc n) (c ∷ t) h = drop-All n t h.1

  pub slices-All : (fuel size : ℕ) (t : Text) → All P t → All (All P) (slices fuel size t)
  unfolding slices
  slices-All zero size t h = tt
  slices-All (suc fuel) size [] h = tt
  slices-All (suc fuel) size (c ∷ t) h = (
    take-All (suc size) (c ∷ t) h,
    slices-All fuel size (drop (suc size) (c ∷ t)) (drop-All (suc size) (c ∷ t) h),
  )

pub slices-filled : (size : ℕ) (t : Text) → t ≢ [] → slices (length t) size t ≢ []
unfolding slices
slices-filled size [] h = absurd (h refl)
slices-filled size (c ∷ t) h = λ e. cc e
