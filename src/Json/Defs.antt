-- ===== src/Json/Defs.antt =====
-- JSON values, with the dictionary operations of Python that the code uses.
use text.Mathlib.Text.{◌==◌}
use claude_multi_agent.Base.{
  ℕ, zero, suc, String, Bool, true, false, Option, none, some, if◌then◌else◌,
}

mutual
  pub data Json : Type 0 where
    null : Json
    bool : Bool → Json
    num : ℕ → Json
    str : String → Json
    arr : Items → Json
    obj : Fields → Json

  pub data Items : Type 0 where
    nil : Items
    cons : Json → Items → Items

  pub data Fields : Type 0 where
    end : Fields
    field : String → Json → Fields → Fields

-- `d[key]`, where a missing key gives `none`.
abbrev pub lookup : String → Fields → Option Json
lookup k end = none
lookup k (field j v fs) = if j == k then some v else lookup k fs

abbrev pub contains : String → Fields → Bool
contains k fs = elim (lookup k fs) [ none ↦ false | some _ ↦ true ]

-- `d[key] = value`
abbrev pub insert : String → Json → Fields → Fields
insert k v end = field k v end
insert k v (field j w fs) = if j == k then field j v fs else field j w (insert k v fs)

-- `{**a, **b}`
abbrev pub merge : Fields → Fields → Fields
merge a end = a
merge a (field k v fs) = merge (insert k v a) fs

-- `d.get(key, default)`
abbrev pub get_or : String → Json → Fields → Json
get_or k d fs = elim (lookup k fs) [ none ↦ d | some v ↦ v ]

abbrev pub truthy : Json → Bool
truthy null = false
truthy (bool b) = b
truthy (num zero) = false
truthy (num (suc n)) = true
truthy (str String.[]) = false
truthy (str (String.◌∷◌ c s)) = true
truthy (arr nil) = false
truthy (arr (cons x xs)) = true
truthy (obj end) = false
truthy (obj (field k v fs)) = true

abbrev pub append_items : Items → Items → Items
append_items nil ys = ys
append_items (cons x xs) ys = cons x (append_items xs ys)

-- `value == "text"`
abbrev pub is_text : String → Json → Bool
is_text s (str t) = t == s
is_text s _ = false

-- A key that is written only if its optional value is there and is truthy, as in
-- `if model: data["model"] = model`.
abbrev pub insert_truthy : String → Option Json → Fields → Fields
insert_truthy k none fs = fs
insert_truthy k (some v) fs = if truthy v then insert k v fs else fs

-- A key that is written if the value `is not None`.
abbrev pub insert_some : String → Option Json → Fields → Fields
insert_some k none fs = fs
insert_some k (some v) fs = insert k v fs
