-- ===== src/Execute/Tests.antt =====
-- Events, usage and limits at concrete values, and the theorems on them.
use claude_multi_agent.Base.{
  ◌*◌, ◌≤◌, String, false, Option, none, some, List, [], ◌∷◌, ◌≡◌, refl, arith,
}
use claude_multi_agent.Json.{null, str, num, bool, Fields, end, field}
use claude_multi_agent.Execute.Usage.{
  RawUsage, dict, Prices, normalize_usage, usage_cost, usage_cost_bounds,
}
use claude_multi_agent.Execute.Context.{
  Conversation, update_context_status, build_context_status_event, check_context_limit,
}
use claude_multi_agent.Execute.Context.Limits.{passes, says, can_continue-eq-passes}
use claude_multi_agent.Execute.Translate.{Setting, translate_event}
use claude_multi_agent.Execute.Translate.Numbering.{Advances, translate_event-Advances}
use claude_multi_agent.Execute.Mcp.{McpServerConfig, extract_mcp_headers_to_proxy}
use claude_multi_agent.Execute.Mcp.Confinement.{settings_confined}

abbrev first : List String → Option String
first [] = none
first (m ∷ ms) = some m

abbrev setting : Setting
setting = record { clock = λ n. "now"; render = λ j. "{}"; choice = first; read_usage = λ j. none }

abbrev call : Fields
call = field "tool_name" (str "Read") (field "tool_use_id" (str "t1") end)

translate_event-Advances_example : Advances 4 (translate_event setting none "tool_use" call 4)
translate_event-Advances_example =
    translate_event-Advances setting call 4 none "tool_use" (λ h. refl)

abbrev raw_usage : RawUsage
raw_usage = record {
  input_tokens = some 10;
  output_tokens = some 20;
  cache_creation_5m_tokens = none;
  cache_creation_1h_tokens = none;
  cache_read_tokens = none;
  cache_creation = some (dict (some 3) none);
  cache_creation_input_tokens = some 4;
  cache_read_input_tokens = some 5;
}

abbrev prices : Prices
prices = record {
  input_token_price = 3000;
  output_token_price = 15000;
  cache_creation_5m_price = 3750;
  cache_creation_1h_price = 6000;
  cache_read_price = 300;
}

usage_cost_bounds_example :
    let u = normalize_usage raw_usage in
    (u.total_tokens * 300 ≤ usage_cost prices u) × (usage_cost prices u ≤ u.total_tokens * 15000)
usage_cost_bounds_example =
    usage_cost_bounds prices 300 15000 raw_usage (omega arith, omega arith)
      (omega arith, omega arith) (omega arith, omega arith) (omega arith, omega arith)
      (omega arith, omega arith)

abbrev conversation : Conversation
conversation = record {
  total_input_tokens = 100;
  total_output_tokens = 50;
  estimated_context_tokens = 189975;
  context_limit_reached = false;
}

can_continue-eq-passes_example :
    let u = normalize_usage raw_usage in
    says (build_context_status_event (λ n. "now") (λ a b. num a) 200000 u (some conversation) 7).0
    ≡ some (
        bool (
          passes (
            check_context_limit
              (λ n. "now")
              (λ a b. "95%")
              200000
              (update_context_status 200000 u.input_tokens u.output_tokens (some conversation))
              0)))
can_continue-eq-passes_example =
    can_continue-eq-passes (λ n. "now") (λ a b. num a) (λ a b. "95%") 200000 7 0
      (normalize_usage raw_usage) conversation (omega arith)

abbrev with_token : McpServerConfig
with_token = record {
  server_name = "crm";
  openapi_spec = null;
  base_url = "https://crm.example.com";
  headers = field "Authorization" (str "Bearer secret") end;
}

abbrev without_token : McpServerConfig
without_token = record with_token { headers = end; base_url = "https://other.example.com" }

settings_confined_example :
    (extract_mcp_headers_to_proxy (with_token ∷ []) (some [])).1
    ≡ (extract_mcp_headers_to_proxy (without_token ∷ []) none).1
settings_confined_example =
    settings_confined (with_token ∷ []) (without_token ∷ []) (some []) none (refl, refl, refl, tt)
