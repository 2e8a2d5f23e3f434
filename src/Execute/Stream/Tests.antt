-- ===== src/Execute/Stream/Tests.antt =====
-- Chunks, and a codec of two values, with the theorems on them.
use claude_multi_agent.Base.{
  ℕ, Bool, true, false, Option, none, some, List, [], ◌∷◌, ◌++◌, map, ◌==◌, if◌then◌else◌, leb, ◌≡◌,
  refl,
}
use claude_multi_agent.Execute.Stream.{
  Text, split_first, take_events, feed_bytes, parse_sse_event, event_to_sse, strip, strip_left,
  is_space,
}
use claude_multi_agent.Execute.Stream.Chunks.{feed_bytes-flat}
use claude_multi_agent.Execute.Stream.RoundTrip.{JsonCodec, OneLine, sse_round_trip}

-- A decoder of the characters below 128, with U+FFFD for each other byte, and a blank line that is cut
-- between two chunks.
abbrev decode : List ℕ → Text
decode [] = []
decode (b ∷ bs) = (if leb b 127 then b else 65533) ∷ decode bs

abbrev chunks : List (List ℕ)
chunks = (97 ∷ 10 ∷ []) ∷ (10 ∷ 98 ∷ []) ∷ []

feed_bytes-flat_example :
    (feed_bytes decode [] chunks ≡ take_events (97 ∷ 10 ∷ 10 ∷ 98 ∷ []))
    × (split_first (feed_bytes decode [] chunks).1 ≡ none)
feed_bytes-flat_example = feed_bytes-flat decode chunks [] refl (unfold split_first in refl)

-- A codec of two values.
abbrev dumps : Bool → Text
dumps true = 49 ∷ []
dumps false = 48 ∷ []

abbrev loads : Text → Option Bool
loads (c ∷ []) = if c == 49 then some true else if c == 48 then some false else none
loads _ = none

dumps-OneLine : (d : Bool) → OneLine (dumps d)
dumps-OneLine true = (refl, tt)
dumps-OneLine false = (refl, tt)

dumps_ends : (d : Bool) → (m : Text) × (z : ℕ) × (dumps d ≡ m ++ (z ∷ [])) × (is_space z ≡ false)
unfolding is_space
dumps_ends true = ([], 49, refl, refl)
dumps_ends false = ([], 48, refl, refl)

loads-dumps : (d : Bool) → loads (dumps d) ≡ some d
loads-dumps true = refl
loads-dumps false = refl

abbrev codec : JsonCodec dumps loads
codec = record { one_line = dumps-OneLine; ends = dumps_ends; loads-dumps = loads-dumps }

abbrev done_kind : Text
done_kind = 100 ∷ 111 ∷ 110 ∷ 101 ∷ []

sse_round_trip_example :
    (map (parse_sse_event loads (λ t. true)) (take_events (event_to_sse dumps done_kind true)).0
      ≡ some (done_kind, true) ∷ [])
    × ((take_events (event_to_sse dumps done_kind true)).1 ≡ [])
sse_round_trip_example =
    sse_round_trip loads (λ t. true) dumps codec done_kind true (refl, (refl, (refl, (refl, tt))))
      (unfold strip strip_left is_space in refl)
