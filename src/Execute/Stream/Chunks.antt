-- ===== src/Execute/Stream/Chunks.antt =====
-- How a response is cut into chunks does not matter.
use mathlib.Core.List.{append-nil, append_assoc}
use claude_multi_agent.Base.{
  sym, ◌∙◌, ℕ, zero, suc, ◌+◌, ◌≤◌, ◌<◌, none, some, List, [], ◌∷◌, ◌++◌, length, map, ◌≡◌, refl,
  arith, inl, inr, Option-cases, ap,
}
use claude_multi_agent.Execute.Stream.{
  Text, split_first, begins_line, split_step, drain, take_events, feed, feed_bytes,
}

pub split_first_lem :
    (x : ℕ) (xs : Text) → split_first (x ∷ xs) ≡ split_step x (begins_line xs) (split_first xs)
unfolding split_first
split_first_lem x xs = refl

-- A blank line that has been found stays where it is when more text arrives.
split_first-append :
    (xs ys e r : Text) → split_first xs ≡ some (e, r) → split_first (xs ++ ys) ≡ some (e, r ++ ys)
unfolding split_step begins_line
split_first-append [] ys e r h = unfold split_first in cc h
split_first-append (x ∷ []) ys e r h = unfold split_first in ground arith
split_first-append (x ∷ y ∷ xs) ys e r h = elim (Option-cases (split_first (y ∷ xs))) [
  | inl q ↦ ground (arith, split_first_lem x (y ∷ xs), split_first_lem x (y ∷ (xs ++ ys)))
  | inr ((a, b), q) ↦ ground (
    arith,
    split_first-append (y ∷ xs) ys a b q,
    split_first_lem x (y ∷ xs),
    split_first_lem x (y ∷ (xs ++ ys)),
  )
]

-- The event that is taken off is shorter than the buffer.
split_first-shorter : (xs e r : Text) → split_first xs ≡ some (e, r) → length r + 2 ≤ length xs
unfolding split_step begins_line
split_first-shorter [] e r h = unfold split_first in cc h
split_first-shorter (x ∷ []) e r h = unfold split_first in ground arith
split_first-shorter (x ∷ y ∷ xs) e r h = elim (Option-cases (split_first (y ∷ xs))) [
  | inl q ↦ ground (arith, split_first_lem x (y ∷ xs))
  | inr ((a, b), q) ↦ ground (arith, split_first-shorter (y ∷ xs) a b q, split_first_lem x (y ∷ xs))
]

drain-fuel : (f g : ℕ) (xs : Text) → length xs < f → length xs < g → drain f xs ≡ drain g xs
unfolding drain
drain-fuel zero g xs h k = absurd (omega arith)
drain-fuel (suc f) zero xs h k = absurd (omega arith)
drain-fuel (suc f) (suc g) xs h k = elim (Option-cases (split_first xs)) [
  | inl e ↦ rw (e, drain)
  | inr ((a, r), e) ↦
      let s = split_first-shorter xs a r e in
      rw (e, drain) (ap (λ p. (a ∷ p.0, p.1)) (drain-fuel f g r (omega arith) (omega arith)))
]

pub take_events_lem :
    (xs a r : Text)
    → split_first xs ≡ some (a, r)
    → take_events xs ≡ (a ∷ (take_events r).0, (take_events r).1)
unfolding drain
take_events_lem xs a r e =
    let s = split_first-shorter xs a r e in
    rw (e, drain)
      (ap (λ p. (a ∷ p.0, p.1))
        (drain-fuel (length xs) (suc (length r)) r (omega arith) (omega arith)))

-- What is left in the buffer holds no complete event: the fuel is enough.
pub drain_ends : (f : ℕ) (xs : Text) → length xs < f → split_first (drain f xs).1 ≡ none
unfolding drain
drain_ends zero xs h = absurd (omega arith)
drain_ends (suc f) xs h = elim (Option-cases (split_first xs)) [
  | inl e ↦ rw (e, drain) e
  | inr ((a, r), e) ↦
      let s = split_first-shorter xs a r e in rw (e, drain) (drain_ends f r (omega arith))
]

abbrev joined : List Text × Text → List Text → List Text × Text
joined p es = (es ++ p.0, p.1)

drain-none : (f : ℕ) (xs : Text) → split_first xs ≡ none → drain (suc f) xs ≡ ([], xs)
unfolding drain
drain-none f xs e = rw (e, drain)

drain-some :
    (f : ℕ) (xs a r : Text)
    → split_first xs ≡ some (a, r)
    → drain (suc f) xs ≡ (a ∷ (drain f r).0, (drain f r).1)
unfolding drain
drain-some f xs a r e = rw (e, drain)

-- More text after a buffer: the events of the buffer come first, and what was left goes on.
drain-append :
    (f : ℕ) (xs ys : Text)
    → length xs < f
    → take_events (xs ++ ys) ≡ joined (take_events ((drain f xs).1 ++ ys)) (drain f xs).0
drain-append zero xs ys h = absurd (omega arith)
drain-append (suc f) xs ys h = elim (Option-cases (split_first xs)) [
  | inl e ↦ rw (drain-none f xs e)
  | inr ((a, r), e) ↦
      let s = split_first-shorter xs a r e in
      rw (drain-some f xs a r e) (
        take_events_lem (xs ++ ys) a (r ++ ys) (split_first-append xs ys a r e)
        ∙ ap (λ p. (a ∷ p.0, p.1)) (drain-append f r ys (omega arith)))
]

abbrev pub flat : List Text → Text
flat [] = []
flat (c ∷ cs) = c ++ flat cs

feed-flat :
    (chunks : List Text) (buffer : Text)
    → split_first buffer ≡ none
    → (feed buffer chunks ≡ take_events (buffer ++ flat chunks))
      × (split_first (feed buffer chunks).1 ≡ none)
unfolding feed
feed-flat [] buffer h = (rw append-nil (sym (drain-none (length buffer) buffer h)), h)
feed-flat (c ∷ cs) buffer h =
    let ends = drain_ends (suc (length (buffer ++ c))) (buffer ++ c) (omega arith) in
    let ih = feed-flat cs (take_events (buffer ++ c)).1 ends in
    (
      ap (λ p. joined p (take_events (buffer ++ c)).0) ih.0
          ∙ sym (drain-append (suc (length (buffer ++ c))) (buffer ++ c) (flat cs) (omega arith))
          ∙ ap take_events (append_assoc buffer c (flat cs)),
      ih.1,
    )

-- From a buffer that holds no complete event, and if the bytes are cut at places where the chunks,
-- decoded each by itself, give the text of the whole: the events that are taken off, and what is left
-- in the end, are those of the whole response decoded at once, and no complete event is left in the
-- buffer.
pub feed_bytes-flat :
    (decode : List ℕ → Text) (chunks : List (List ℕ)) (buffer : Text)
    → flat (map decode chunks) ≡ decode (flat chunks)
    → split_first buffer ≡ none
    → (feed_bytes decode buffer chunks ≡ take_events (buffer ++ decode (flat chunks)))
      × (split_first (feed_bytes decode buffer chunks).1 ≡ none)
unfolding feed_bytes
feed_bytes-flat decode chunks buffer cut h =
    let (events, ends) = feed-flat (map decode chunks) buffer h in
    (events ∙ ap (λ t. take_events (buffer ++ t)) cut, ends)
