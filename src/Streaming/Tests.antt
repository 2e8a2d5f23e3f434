-- ===== src/Streaming/Tests.antt =====
-- The truncation of one short input.
use claude_multi_agent.Json.{str, null, Fields, end, field}

abbrev inputs : Fields
inputs = field "path" (str "a.txt") (field "limit" null end)
