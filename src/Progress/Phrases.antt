-- ===== src/Progress/Phrases.antt =====
-- Picking a phrase never fails.
use claude_multi_agent.Base.{
  Bool, true, false, if◌then◌else◌, subst, String, Option, some, List, [], ◌∷◌, ◌≡◌, arith,
  Option-cases, Bool-cases, inl, inr, All,
}
use text.Mathlib.Text.{◌==◌, starts_with}
use claude_multi_agent.Progress.{
  Table, phase_messages, builtin_tool_messages, default_mcp_messages, default_tool_messages,
  find_messages, by_phase, by_tool, get_initial_message,
}

-- `random.choice` gives a value for every list that is not empty.
abbrev pub Chooses : (List String → Option String) → Type 0
Chooses choice = (x : String) (xs : List String) → (m : String) × (choice (x ∷ xs) ≡ some m)

abbrev IsFilled : List String → Type 0
IsFilled [] = ⊥
IsFilled (m ∷ ms) = Unit

heads : (xs ms : List String) → some xs ≡ some ms → xs ≡ ms
heads xs ms h = cc

find_messages-IsFilled :
    (k : String) (t : Table) (ms : List String)
    → All (λ e. IsFilled e.1) t
    → find_messages k t ≡ some ms
    → IsFilled ms
unfolding find_messages
find_messages-IsFilled k [] ms h e = cc
find_messages-IsFilled k ((j, xs) ∷ t) ms h e = elim (Bool-cases (j == k)) [
  | inl same ↦ subst IsFilled (heads xs ms (rw same at e)) h.0
  | inr other ↦ find_messages-IsFilled k t ms h.1 (rw other at e)
]

module _ (choice : List String → Option String) (chooses : Chooses choice) where
  choose : (ms : List String) → IsFilled ms → (m : String) × (choice ms ≡ some m)
  choose [] h = absurd h
  choose (x ∷ xs) h = chooses x xs

  by_phase_total : (phase : String) → (m : String) × (by_phase choice phase ≡ some m)
  unfolding by_phase
  by_phase_total phase = elim (Option-cases (find_messages phase phase_messages)) [
    | inl e ↦ ("処理中...", rw (e, by_phase))
    | inr (ms, e) ↦
        let (m, h) = choose ms (find_messages-IsFilled phase phase_messages ms (omega arith) e) in
        (m, rw (e, by_phase) h)
  ]

  default_total :
      (mcp : Bool)
      → (m : String) × (choice (if mcp then default_mcp_messages else default_tool_messages)
          ≡ some m)
  default_total true = choose default_mcp_messages tt
  default_total false = choose default_tool_messages tt

  by_tool_total : (tool : String) → (m : String) × (by_tool choice tool ≡ some m)
  unfolding by_tool
  by_tool_total tool = elim (Option-cases (find_messages tool builtin_tool_messages)) [
    | inl e ↦ let (m, h) = default_total (starts_with tool "mcp__") in (m, rw (e, by_tool) h)
    | inr (ms, e) ↦
        let (m, h) =
          choose ms (find_messages-IsFilled tool builtin_tool_messages ms (omega arith) e) in
        (m, rw (e, by_tool) h)
  ]

  -- Whatever phase and tool name it is asked for, an initial message is found: the random choice is
  -- made from no empty list.
  get_initial_message_total :
      (phase tool : String) → (m : String) × (get_initial_message choice phase tool ≡ some m)
  unfolding get_initial_message
  get_initial_message_total phase String.[] = by_phase_total phase
  get_initial_message_total phase (String.◌∷◌ c name) = elim (Bool-cases (phase == "tool")) [
    | inl tool ↦ let (m, h) = by_tool_total (String.◌∷◌ c name) in (m, rw tool h)
    | inr other ↦ let (m, h) = by_phase_total phase in (m, rw other h)
  ]
