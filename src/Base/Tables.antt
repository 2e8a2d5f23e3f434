-- ===== src/Base/Tables.antt =====
-- Tables from texts to values, as association lists.
use Prim.Native.String.{String}
use text.Mathlib.Text.{◌==◌}
use text.Mathlib.TextEquality.{eq_iff}
use text.Mathlib.TextPositions.{eq_refl}
use mathlib.Core.Path.{◌≡◌, refl}
use mathlib.Core.Option.{Option, none, some}
use mathlib.Core.List.{List, [], ◌∷◌}
use native.Mathlib.Omega.{arith}
use claude_multi_agent.Base.Tests.{if◌then◌else◌}

abbrev pub Table {ℓ} : Type ℓ → Type ℓ
Table V = List (String × V)

module _ {ℓ} {V : Type ℓ} where
  unfoldable pub find : String → Table V → Option V
  find k [] = none
  find k ((j, v) ∷ t) = if j == k then some v else find k t

  unfoldable pub put : String → V → Table V → Table V
  put k v [] = (k, v) ∷ []
  put k v ((j, u) ∷ t) = if j == k then (j, v) ∷ t else (j, u) ∷ put k v t

  unfoldable pub remove : String → Table V → Table V
  remove k [] = []
  remove k ((j, u) ∷ t) = let rest = remove k t in if j == k then rest else (j, u) ∷ rest

  pub find-put :
      (j k : String) (v : V) (t : Table V)
      → find j (put k v t) ≡ (if k == j then some v else find j t)
  unfolding find put
  find-put j k v [] = refl
  find-put j k v ((i, u) ∷ t) = ground (arith, eq_iff k j, eq_iff i k, eq_iff i j, find-put j k v t)

  pub find-remove :
      (j k : String) (t : Table V) → find j (remove k t) ≡ (if k == j then none else find j t)
  unfolding find remove
  find-remove j k [] = ground arith
  find-remove j k ((i, u) ∷ t) =
      ground (arith, eq_iff k j, eq_iff i k, eq_iff i j, find-remove j k t)

  pub find-put_same : (k : String) (v : V) (t : Table V) → find k (put k v t) ≡ some v
  find-put_same k v t = rw (find-put k k v t) (rw (eq_refl k) refl)

  pub find-remove_same : (k : String) (t : Table V) → find k (remove k t) ≡ none
  find-remove_same k t = rw (find-remove k k t) (rw (eq_refl k) refl)
