-- ===== src/Json/Laws.antt =====
-- Laws of the dictionaries.
use text.Mathlib.Text.{◌==◌}
use text.Mathlib.TextEquality.{eq_iff}
use claude_multi_agent.Base.{
  String, false, Option, none, some, ◌≡◌, refl, ◌∙◌, inl, inr, Bool-cases, arith, if◌then◌else◌,
}
use claude_multi_agent.Json.Defs.{
  Json, Fields, end, field, lookup, insert, merge, insert_truthy, truthy, insert_some,
}

pub lookup-insert :
    (j k : String) (v : Json) (fs : Fields)
    → lookup j (insert k v fs) ≡ (if k == j then some v else lookup j fs)
lookup-insert j k v end = refl
lookup-insert j k v (field i w fs) =
    ground (arith, eq_iff k j, eq_iff i k, eq_iff i j, lookup-insert j k v fs)

-- A key that the second dictionary lacks keeps the value that it has in the first.
pub lookup-merge :
    (j : String) (a fs : Fields) → lookup j fs ≡ none → lookup j (merge a fs) ≡ lookup j a
lookup-merge j a end h = refl
lookup-merge j a (field k v fs) h =
    ground (arith, lookup-merge j (insert k v a) fs, lookup-insert j k v a, eq_iff k j)

pub lookup-insert_truthy :
    (j k : String) (o : Option Json) (fs : Fields)
    → (k == j) ≡ false
    → lookup j (insert_truthy k o fs) ≡ lookup j fs
lookup-insert_truthy j k none fs h = refl
lookup-insert_truthy j k (some v) fs h = elim (Bool-cases (truthy v)) [
  | inl e ↦ rw e (ground (arith, lookup-insert j k v fs))
  | inr e ↦ rw e
]

pub lookup-insert_some :
    (j k : String) (o : Option Json) (fs : Fields)
    → (k == j) ≡ false
    → lookup j (insert_some k o fs) ≡ lookup j fs
lookup-insert_some j k none fs h = refl
lookup-insert_some j k (some v) fs h = ground (arith, lookup-insert j k v fs)

-- An optional key does not bring in another key.
pub insert_truthy-none :
    (j k : String) (o : Option Json) (fs : Fields)
    → (k == j) ≡ false
    → lookup j fs ≡ none
    → lookup j (insert_truthy k o fs) ≡ none
insert_truthy-none j k o fs h e = lookup-insert_truthy j k o fs h ∙ e

pub insert_some-none :
    (j k : String) (o : Option Json) (fs : Fields)
    → (k == j) ≡ false
    → lookup j fs ≡ none
    → lookup j (insert_some k o fs) ≡ none
insert_some-none j k o fs h e = lookup-insert_some j k o fs h ∙ e
