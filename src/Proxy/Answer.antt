-- ===== src/Proxy/Answer.antt =====
-- The parts of the credential proxy, `CredentialInjectionProxy` of
-- app/services/proxy/credential_proxy.py: its state, what it answers, and where it sends requests.
use claude_multi_agent.Base.{
  ℕ, Bool, true, false, ◌||◌, Option, none, some, List, [], ◌∷◌, ◌++◌, Outcome, ltb, if◌then◌else◌,
}
use claude_multi_agent.Execute.Stream.{Text}
use claude_multi_agent.Proxy.Words.{Bytes, codes, crlf, break_at, split_on, rstrip, decimal}
use claude_multi_agent.Proxy.Whitelist.{same_text}
use claude_multi_agent.Proxy.Headers.{Headers, set_header, update, forwardable}
use claude_multi_agent.Proxy.Connection.{Python}

pub record McpHeaderRule : Type 0 where
  pub real_base_url : Text
  pub headers : Headers

-- The state of the proxy: whether its HTTP client is there, the rules, and how many requests were blocked.
pub record Proxy : Type 0 where
  pub whitelist_domains : List Text
  pub region : Text
  pub http_client : Bool
  pub mcp_header_rules : List (Text × McpHeaderRule)
  pub blocked : ℕ

-- Why a request upstream fails: `httpx.TimeoutException`, or another exception.
pub data Failure : Type 0 where
  timeout : Failure
  failed : Failure

-- `fields` are the headers one by one, `merged` the dictionary made of them.
pub record Response : Type 0 where
  pub status_code : ℕ
  pub fields : Headers
  pub merged : Headers
  pub content : Bytes

-- A response that is read chunk by chunk, and how it breaks off, if it does.
pub record Streamed : Type 0 where
  pub status_code : ℕ
  pub fields : Headers
  pub chunks : List Bytes
  pub broken : Option Failure

-- The network, and the signer of botocore: what `sign` gives is `none` for an exception.
pub record Network (W : Type 0) : Type 0 where
  pub sign : Text → Text → Headers → Bytes → Option Headers
  pub request : Text → Text → Headers → Bytes → W → Outcome Response Failure × W
  pub stream : Text → Text → Headers → Bytes → W → Outcome Streamed Failure × W
  -- The addresses of a name, by the cache; `none` for an exception.
  pub resolve : Text → W → Option (List Text) × W
  pub open_connection : Text → ℕ → W → Bool × W
  -- What comes back through a tunnel for the bytes that go into it.
  pub exchange : Bytes → W → Bytes × W

-- A connection that is served: what has been written to it, the proxy and the world.
pub record Serving (W : Type 0) : Type 0 where
  pub written : Bytes
  pub proxy : Proxy
  pub world : W

-- `start`, `update_mcp_header_rules` and `stop`
unfoldable pub start : Proxy → Proxy
start p = record p { http_client = true }

unfoldable pub update_mcp_header_rules : List (Text × McpHeaderRule) → Proxy → Proxy
update_mcp_header_rules rules p = record p { mcp_header_rules = rules }

unfoldable pub stop : Proxy → Proxy
stop p = record p { mcp_header_rules = [] }

unfoldable pub find_rule : Text → List (Text × McpHeaderRule) → Option McpHeaderRule
find_rule k [] = none
find_rule k ((j, r) ∷ rs) = if same_text j k then some r else find_rule k rs

abbrev pub status_line : ℕ → Bytes
status_line status =
    codes "HTTP/1.1 "
    ++ (decimal status ++ (32 ∷ ((if ltb status 400 then codes "OK" else codes "Error") ++ crlf)))

abbrev pub content_length_line : ℕ → Bytes
content_length_line n = codes "Content-Length: " ++ (decimal n ++ crlf)

abbrev pub not_initialized : Bytes
not_initialized =
    codes "HTTP/1.1 503 Service Unavailable"
    ++ (crlf
        ++ (codes "Content-Length: 22"
            ++ (crlf ++ (crlf ++ (codes "Proxy not initialized" ++ crlf)))))

abbrev pub forbidden : Bytes
forbidden =
    codes "HTTP/1.1 403 Forbidden"
    ++ (crlf
        ++ (codes "Content-Length: 26"
            ++ (crlf ++ (crlf ++ (codes "Domain not in whitelist" ++ crlf)))))

abbrev pub failure_answer : Failure → Bytes
failure_answer timeout =
    codes "HTTP/1.1 504 Gateway Timeout"
    ++ (crlf ++ (codes "Content-Length: 15" ++ (crlf ++ (crlf ++ codes "Gateway Timeout"))))
failure_answer failed =
    codes "HTTP/1.1 502 Bad Gateway"
    ++ (crlf ++ (codes "Content-Length: 11" ++ (crlf ++ (crlf ++ codes "Bad Gateway"))))

module _ (python : Python) where
  open python use {lower, utf8, hostname, read_int}

  -- `f"{k}: {v}\r\n".encode()`
  abbrev pub header_line : Text → Text → Bytes
  header_line k v = utf8 (k ++ (codes ": " ++ (v ++ crlf)))

  unfoldable pub header_lines : Headers → Bytes
  header_lines [] = []
  header_lines ((k, v) ∷ hs) = header_line k v ++ header_lines hs

  -- The headers of a response that are passed on: those whose names are not dropped.
  unfoldable pub kept_lines : (Text → Bool) → Headers → Bytes
  kept_lines dropped [] = []
  kept_lines dropped ((k, v) ∷ hs) =
      let rest = kept_lines dropped hs in
      if dropped (lower k) then rest else header_line k v ++ rest

  abbrev pub is_framing : Text → Bool
  is_framing k = same_text k (codes "transfer-encoding") || same_text k (codes "connection")

  abbrev pub is_framing_or_length : Text → Bool
  is_framing_or_length k = is_framing k || same_text k (codes "content-length")

  unfoldable pub has_content_length : Headers → Bool
  has_content_length [] = false
  has_content_length ((k, v) ∷ hs) =
      same_text (lower k) (codes "content-length") || has_content_length hs

  -- `urlparse(target_url)`, which may raise, and the Host header of its host, if it has one.
  unfoldable pub with_host : Option (Option Text) → Headers → Option Headers
  with_host none hs = none
  with_host (some none) hs = some hs
  with_host (some (some [])) hs = some hs
  with_host (some (some (c ∷ host))) hs = some (set_header (codes "Host") (c ∷ host) hs)

  -- The server's name and the rest of the path, behind "/mcp/".
  unfoldable pub server_and_path : Text → Text × Text
  server_and_path mcp_path =
      let (name, rest) = break_at 47 mcp_path in
      (name, elim rest [ none ↦ [] | some path ↦ 47 ∷ path ])

  abbrev pub target_url : McpHeaderRule → Text → Text
  target_url rule remaining = rstrip 47 rule.real_base_url ++ remaining

  -- The headers that go to an MCP server: the container's, then the host, then the rule's.
  unfoldable pub mcp_headers : McpHeaderRule → Text → Headers → Option Headers
  unfolding with_host
  mcp_headers rule url headers = elim (with_host (hostname url) (forwardable lower headers)) [
    | none ↦ none
    | some hs ↦ some (update hs rule.headers)
  ]

  -- The host and the port of "host:port", with 443 where it is not of that form.
  abbrev pub port_or_default : Text → Text → Option ℕ → Text × ℕ
  port_or_default host_port host none = (host_port, 443)
  port_or_default host_port host (some port) = (host, port)

  abbrev pub target_of : Text → List Text → Text × ℕ
  target_of host_port (host ∷ port ∷ []) = port_or_default host_port host (read_int port)
  target_of host_port _ = (host_port, 443)

  unfoldable pub connect_target : Text → Text × ℕ
  connect_target host_port = target_of host_port (split_on 58 host_port)

  -- `host_port.split(":")[0]`
  abbrev pub connect_host : Text → Text
  connect_host host_port = (break_at 58 host_port).0

  abbrev pub connect_url : Text → Text
  connect_url host_port = codes "https://" ++ (connect_host host_port ++ (47 ∷ []))
