-- ===== src/Execute/Mcp/Confinement.antt =====
-- Tokens stay on the proxy's side.
use text.Mathlib.Text.{◌==◌}
use text.Mathlib.TextEquality.{eq_iff}
use claude_multi_agent.Base.{String, Option, some, List, [], ◌∷◌, ◌≡◌, refl, arith, if◌then◌else◌}
use claude_multi_agent.Execute.Mcp.{
  McpServerConfig, McpHeaderRule, Rules, find_rule, set_rule, no_url, extract, add_rule,
  container_config, extract_mcp_headers_to_proxy,
}

-- The same servers with the same addresses, whatever their headers are.
abbrev pub SameServers : List McpServerConfig → List McpServerConfig → Type 0
SameServers [] [] = Unit
SameServers [] (d ∷ ds) = ⊥
SameServers (c ∷ cs) [] = ⊥
SameServers (c ∷ cs) (d ∷ ds) =
    (c.server_name ≡ d.server_name)
    × (c.openapi_spec ≡ d.openapi_spec)
    × (no_url c.base_url ≡ no_url d.base_url)
    × SameServers cs ds

container_config-same :
    (c d : McpServerConfig)
    → c.server_name ≡ d.server_name
    → c.openapi_spec ≡ d.openapi_spec
    → no_url c.base_url ≡ no_url d.base_url
    → container_config c ≡ container_config d
unfolding container_config
container_config-same c d a b e = cc

extract-same :
    (cs ds : List McpServerConfig) (r q : Rules)
    → SameServers cs ds
    → (extract cs r).1 ≡ (extract ds q).1
unfolding extract
extract-same [] [] r q h = refl
extract-same [] (d ∷ ds) r q h = absurd h
extract-same (c ∷ cs) [] r q h = absurd h
extract-same (c ∷ cs) (d ∷ ds) r q (a, b, e, h) =
    cc (container_config-same c d a b e, extract-same cs ds (add_rule c r) (add_rule d q) h)

-- What a container is told of its MCP servers does not depend on their headers, nor on where they
-- really are, nor on the rules that its proxy held: two lists of servers that differ only in these
-- give the container the same settings.
pub settings_confined :
    (cs ds : List McpServerConfig) (p q : Option Rules)
    → SameServers cs ds
    → (extract_mcp_headers_to_proxy cs p).1 ≡ (extract_mcp_headers_to_proxy ds q).1
unfolding extract_mcp_headers_to_proxy
settings_confined cs ds p q h = extract-same cs ds [] [] h

find-set :
    (j k : String) (r : McpHeaderRule) (rs : Rules)
    → find_rule j (set_rule k r rs) ≡ (if k == j then some r else find_rule j rs)
unfolding find_rule set_rule
find-set j k r [] = refl
find-set j k r ((i, q) ∷ rs) = ground (arith, eq_iff k j, eq_iff i k, eq_iff i j, find-set j k r rs)
