-- ===== src/Proxy/Server/Permitted.antt =====
-- What a container can reach through its proxy.
use claude_multi_agent.Base.{true, some, List, ◌++◌, ◌≡◌}
use claude_multi_agent.Execute.Stream.{Text}
use claude_multi_agent.Proxy.Words.{Bytes, codes}
use claude_multi_agent.Proxy.Headers.{Headers}
use claude_multi_agent.Proxy.Connection.{Python}
use claude_multi_agent.Proxy.Answer.{
  McpHeaderRule, Proxy, Network, Serving, find_rule, target_url, mcp_headers, connect_target,
  connect_url,
}
use claude_multi_agent.Proxy.Server.{allows, bedrock_url, first_or}

module _ {W : Type 0} (python : Python) (network : Network W) (p : Proxy) (I : W → Type 0) where
  open network use {request, stream, resolve, open_connection, exchange}

  -- `I` is kept by what the proxy may do for a container: streams from Bedrock's host, each for a path that begins with a slash, requests to the MCP
  -- servers of the rules with the rules' headers, requests to allowed URLs, and tunnels to the targets
  -- of allowed hosts.
  pub record Permits : Type 0 where
    pub by_bedrock :
        (m path rest : Text) (hs : Headers) (b : Bytes) (w : W)
        → path ≡ codes "/" ++ rest
        → I w
        → I (stream m (bedrock_url python network p path) hs b w).1
    pub by_rule_of :
        (name path : Text) (rule : McpHeaderRule) (m : Text) (given hs : Headers) (b : Bytes)
        (w : W)
        → find_rule name p.mcp_header_rules ≡ some rule
        → mcp_headers python rule (target_url python rule path) given ≡ some hs
        → I w
        → I (request m (target_url python rule path) hs b w).1
    pub by_allowed :
        (m url : Text) (hs : Headers) (b : Bytes) (w : W)
        → allows python network p url ≡ true
        → I w
        → I (request m url hs b w).1
    pub by_lookup :
        (host_port : Text) (w : W)
        → allows python network p (connect_url python host_port) ≡ true
        → I w
        → I (resolve (connect_target python host_port).0 w).1
    pub by_tunnel :
        (host_port : Text) (addresses : List Text) (before w : W)
        → allows python network p (connect_url python host_port) ≡ true
        → (resolve (connect_target python host_port).0 before).0 ≡ some addresses
        → I w
        → I
            (open_connection
              (first_or python network (connect_target python host_port).0 addresses)
              (connect_target python host_port).1
              w).1
    pub by_exchange : (b : Bytes) (w : W) → I w → I (exchange b w).1

  abbrev Safe : Serving W → Type 0
  Safe s = I s.world
