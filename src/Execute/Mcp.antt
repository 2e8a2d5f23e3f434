-- ===== src/Execute/Mcp.antt =====
-- MCP server settings on their way to a container:
-- `_extract_mcp_headers_to_proxy` and `_compute_allowed_tools` of app/services/execute_service.py,
-- with `update_mcp_header_rules` of app/services/container/orchestrator.py.
pub mod Confinement
use Prim.Native.String.{◌++◌}
use text.Mathlib.Text.{◌==◌}
use claude_multi_agent.Base.{
  String, Bool, true, false, Option, none, some, List, [], ◌∷◌, if◌then◌else◌,
}
use claude_multi_agent.Json.{Json, Fields, end, field, truthy}

pub record McpServerConfig : Type 0 where
  pub server_name : String
  pub openapi_spec : Json
  pub base_url : String
  pub headers : Fields

pub record McpHeaderRule : Type 0 where
  pub real_base_url : String
  pub headers : Fields

-- What the container is given: it has no place for headers.
pub record ContainerMcpConfig : Type 0 where
  pub server_name : String
  pub openapi_spec : Json
  pub base_url : String

-- A dictionary with text keys.
abbrev pub Rules : Type 0
Rules = List (String × McpHeaderRule)

pub find_rule : String → Rules → Option McpHeaderRule
find_rule k [] = none
find_rule k ((j, r) ∷ rs) = if j == k then some r else find_rule k rs

pub set_rule : String → McpHeaderRule → Rules → Rules
set_rule k r [] = (k, r) ∷ []
set_rule k r ((j, q) ∷ rs) = if j == k then (j, r) ∷ rs else (j, q) ∷ set_rule k r rs

abbrev pub no_url : String → Bool
no_url String.[] = true
no_url (String.◌∷◌ c s) = false

-- The body of the loop, for one server: onto the rules and the container's settings so far.
container_config : McpServerConfig → ContainerMcpConfig
container_config c = record {
  server_name = c.server_name;
  openapi_spec = c.openapi_spec;
  base_url = if no_url c.base_url then "" else "http://127.0.0.1:8080/mcp/" ++ c.server_name;
}

add_rule : McpServerConfig → Rules → Rules
add_rule c rules =
    if no_url c.base_url
    then rules
    else set_rule c.server_name (record { real_base_url = c.base_url; headers = c.headers }) rules

extract : List McpServerConfig → Rules → Rules × List ContainerMcpConfig
extract [] rules = (rules, [])
extract (c ∷ cs) rules =
    let (rules', rest) = extract cs (add_rule c rules) in (rules', container_config c ∷ rest)

-- The rules that the proxy of a container holds. `update_mcp_header_rules` replaces them, if the
-- container has a proxy; here `none` is a container without one.
register : Rules → Option Rules → Option Rules
register [] proxy = proxy
register (r ∷ rs) none = none
register (r ∷ rs) (some old) = some (r ∷ rs)

-- `_extract_mcp_headers_to_proxy`: the proxy's rules after it, and the container's settings.
unfoldable pub extract_mcp_headers_to_proxy :
    List McpServerConfig → Option Rules → Option Rules × List ContainerMcpConfig
unfolding extract add_rule container_config register
extract_mcp_headers_to_proxy configs proxy =
    let (rules, settings) = extract configs [] in (register rules proxy, settings)

server_patterns : List McpServerConfig → List String → List String
server_patterns [] last = last
server_patterns (c ∷ cs) last = ("mcp__" ++ (c.server_name ++ "__*")) ∷ server_patterns cs last

-- `_compute_allowed_tools`; the test says whether the request has preferred skills.
unfoldable pub compute_allowed_tools : Bool → List McpServerConfig → List String
unfolding server_patterns
compute_allowed_tools preferred_skills configs =
    "mcp__file-tools__*"
    ∷ "mcp__file-presentation__*"
    ∷ server_patterns configs (if preferred_skills then "Skill" ∷ [] else [])
