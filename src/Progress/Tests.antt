-- ===== src/Progress/Tests.antt =====
-- A choice of the first phrase.
use claude_multi_agent.Base.{String, Option, none, some, List, [], ◌∷◌, ◌≡◌, refl}
use claude_multi_agent.Progress.{get_initial_message}

abbrev first : List String → Option String
first [] = none
first (m ∷ ms) = some m

unknown_tool : get_initial_message first "tool" "mcp__x__y" ≡ some "MCPツールを実行しています..."
unfolding get_initial_message
unknown_tool = refl
