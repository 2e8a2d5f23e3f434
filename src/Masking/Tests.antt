-- ===== src/Masking/Tests.antt =====
-- Masking, run on small data; a text is folded by the letters of ASCII here.
use claude_multi_agent.Base.{
  ℕ, zero, suc, ◌+◌, String, false, All, ◌&&◌, some, List, [], ◌∷◌, ◌++◌, map, leb, ◌≡◌, refl,
  if◌then◌else◌, arith,
}
use claude_multi_agent.Json.{Json, Items, Fields}
use claude_multi_agent.Execute.Stream.{Text}
use claude_multi_agent.Security.Traversal.{any_occurs, occurs, starts_with}
use claude_multi_agent.Proxy.Words.{codes}
use claude_multi_agent.Masking.{sanitize_log_data, is_sensitive, mask}
use claude_multi_agent.Masking.Places.{
  Step, key, position, follow, enter, item, masked_places, unmasked_depths, IsPlain,
}

abbrev ascii_lower : ℕ → ℕ
ascii_lower c = if leb 65 c && leb c 90 then c + 32 else c

abbrev fold : String → Text
fold s = map ascii_lower (codes s)

abbrev login : Json
login = Json.obj (
    Fields.field "users"
      (Json.arr (
        Items.cons
          (Json.obj (
            Fields.field "name" (Json.str "ann")
              (Fields.field "Auth_Token" (Json.str "abc") Fields.end)))
          Items.nil))
      Fields.end)

abbrev first_user : List Step
first_user = key "users" ∷ position 0 ∷ []

abbrev nested : ℕ → Json → Json
nested zero x = x
nested (suc n) x = Json.obj (Fields.field "a" (nested n x) Fields.end)

abbrev downs : ℕ → List Step
downs zero = []
downs (suc n) = key "a" ∷ downs n

abbrev deep_secret : Json
deep_secret = nested 11 (Json.obj (Fields.field "password" (Json.str "abc") Fields.end))

masked_places_example :
    follow (first_user ++ (key "Auth_Token" ∷ [])) (some (sanitize_log_data fold 0 login))
    ≡ some (Json.str mask)
unfolding follow enter item
masked_places_example =
    masked_places fold first_user "Auth_Token" login
      (unfold is_sensitive any_occurs occurs starts_with in refl, (tt, tt))
      (unfold is_sensitive any_occurs occurs starts_with in refl) (omega arith)

plain_a : is_sensitive fold "a" ≡ false
unfolding is_sensitive any_occurs occurs starts_with
plain_a = refl

downs-IsPlain : (n : ℕ) → All (IsPlain fold) (downs n)
downs-IsPlain zero = tt
downs-IsPlain (suc n) = (plain_a, downs-IsPlain n)

unmasked_depths_example :
    follow (downs 11 ++ (key "password" ∷ [])) (some (sanitize_log_data fold 0 deep_secret))
    ≡ some (Json.str "abc")
unfolding follow enter
unmasked_depths_example =
    unmasked_depths fold (downs 11) (key "password" ∷ []) deep_secret (downs-IsPlain 11) refl
