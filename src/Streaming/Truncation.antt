-- ===== src/Streaming/Truncation.antt =====
-- The length of the inputs that a tool call event shows.
use Prim.Native.String.{count}
use Prim.Native.String.count
use text.Mathlib.TextLemmas.{length-append}
use claude_multi_agent.Base.{ℕ, zero, suc, ◌≤◌, String, ◌≡◌, some, arith}
use claude_multi_agent.Json.{Json, str, Fields, end, field, lookup}
use claude_multi_agent.Streaming.{take_chars, truncate_value, truncate_input}

count-take_chars : (n : ℕ) (s : String) → count (take_chars n s) ≤ n
count-take_chars zero s = omega arith
count-take_chars (suc n) String.[] = omega arith
count-take_chars (suc n) (String.◌∷◌ c s) =
    rw (count.cons c (take_chars n s)) (omega (arith, count-take_chars n s))

truncate_value_bound : (v : Json) {s : String} → truncate_value v ≡ str s → count s ≤ 503
unfolding truncate_value
truncate_value_bound (str t) h =
    ground (arith, length-append (take_chars 500 t) "...", count-take_chars 500 t)
truncate_value_bound _ h = cc

-- Every text among a tool call's inputs, as the event shows it, is at most 503 characters long:
-- longer ones are cut to 500 and three dots.
truncate_input_bound :
    (k : String) (fs : Fields) {s : String}
    → lookup k (truncate_input fs) ≡ some (str s)
    → count s ≤ 503
unfolding truncate_input
truncate_input_bound k end {s} h = cc
truncate_input_bound k (field j v fs) {s} h =
    ground (arith, truncate_value_bound v {s = s}, truncate_input_bound k fs {s = s})
