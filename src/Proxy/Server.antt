-- ===== src/Proxy/Server.antt =====
-- The handlers of the credential proxy, `CredentialInjectionProxy` of
-- app/services/proxy/credential_proxy.py, over the network behind it. The client stays connected while
-- it is answered. Logs, audit entries and durations are left out.
pub mod Injected
pub mod Routes
pub mod Permitted
mod Tests
use claude_multi_agent.Base.{
  ℕ, zero, suc, ◌+◌, Bool, true, false, ◌||◌, Option, none, some, List, [], ◌∷◌, ◌++◌, Outcome,
  returned, raised, length, ltb, if◌then◌else◌,
}
use claude_multi_agent.Execute.Stream.{Text, after}
use claude_multi_agent.Proxy.Words.{
  Bytes, codes, crlf, contains, break_at, split_on, rstrip, decimal, is_some,
}
use claude_multi_agent.Proxy.Chunked.{write_chunk, write_chunks, last_chunk}
use claude_multi_agent.Proxy.Whitelist.{same_text, is_allowed, domains}
use claude_multi_agent.Proxy.Headers.{Headers, set_header, update, forwardable}
use claude_multi_agent.Proxy.Answer.{
  McpHeaderRule, Proxy, Failure, timeout, failed, Response, Streamed, Network, Serving, find_rule,
  status_line, content_length_line, not_initialized, forbidden, failure_answer, header_lines,
  kept_lines, is_framing, is_framing_or_length, has_content_length, server_and_path, target_url,
  mcp_headers, connect_target, connect_url,
}
use claude_multi_agent.Proxy.Connection.{joined, Python, HttpRequest, joined, read_request}

module _ {W : Type 0} (python : Python) (network : Network W) where
  open python use {lower, utf8, hostname}

  abbrev pub write : Bytes → Serving W → Serving W
  write b s = record s { written = s.written ++ b }

  abbrev pub allows : Proxy → Text → Bool
  allows p url = is_allowed lower hostname (domains lower p.whitelist_domains) url

  abbrev bedrock_host : Proxy → Text
  bedrock_host p = codes "bedrock-runtime." ++ (p.region ++ codes ".amazonaws.com")

  abbrev pub bedrock_url : Proxy → Text → Text
  bedrock_url p path = codes "https://" ++ (bedrock_host p ++ path)

  -- The response of Bedrock, chunk by chunk. A failure on the way is answered behind what was written.
  abbrev broken_off : Option Failure → Bool → Bytes
  broken_off (some f) has_length = failure_answer f
  broken_off none true = []
  broken_off none false = last_chunk

  pub relay_stream : Streamed → Bytes
  unfolding has_content_length kept_lines
  relay_stream r =
      let has_length = has_content_length python r.fields in
      status_line r.status_code
      ++ (kept_lines python (is_framing python) r.fields
          ++ ((if has_length then [] else codes "Transfer-Encoding: chunked" ++ crlf)
              ++ (crlf
                  ++ ((if has_length then joined r.chunks else write_chunks r.chunks)
                      ++ broken_off r.broken has_length))))

  streamed : Outcome Streamed Failure × W → Serving W → Serving W
  streamed (raised f, w) s = write (failure_answer f) (record s { world = w })
  streamed (returned r, w) s = write (relay_stream r) (record s { world = w })

  send_bedrock : HttpRequest → Text → Option Headers → Serving W → Serving W
  unfolding streamed
  send_bedrock q url none s = s
  send_bedrock q url (some signed) s =
      if s.proxy.http_client
      then streamed (network.stream q.method url signed q.body s.world) s
      else write not_initialized s

  -- `_handle_bedrock_reverse_proxy`
  pub handle_bedrock_reverse_proxy : HttpRequest → Serving W → Serving W
  unfolding send_bedrock forwardable set_header
  handle_bedrock_reverse_proxy q s =
      let url = bedrock_url s.proxy q.url in
      let headers =
        set_header (codes "Host") (bedrock_host s.proxy) (forwardable lower q.headers) in
      send_bedrock q url (network.sign q.method url headers q.body) s

  -- `_handle_mcp_reverse_proxy`
  pub mcp_answer : Response → Bytes
  unfolding kept_lines
  mcp_answer r =
      status_line r.status_code
      ++ (kept_lines python (is_framing_or_length python) r.fields
          ++ (content_length_line (length r.content) ++ (crlf ++ r.content)))

  answered : Outcome Response Failure × W → Serving W → Serving W
  answered (raised f, w) s = write (failure_answer f) (record s { world = w })
  answered (returned r, w) s = write (mcp_answer r) (record s { world = w })

  send_mcp : HttpRequest → Text → Option Headers → Serving W → Serving W
  unfolding answered
  send_mcp q url none s = s
  send_mcp q url (some headers) s =
      if s.proxy.http_client
      then answered (network.request q.method url headers q.body s.world) s
      else write not_initialized s

  pub unknown_server : Text → Bytes
  unknown_server name =
      let error_body = utf8 (codes "Unknown MCP server: " ++ name) in
      codes "HTTP/1.1 404 Not Found"
      ++ (crlf ++ (content_length_line (length error_body) ++ (crlf ++ error_body)))

  by_rule : HttpRequest → Text → Text → Option McpHeaderRule → Serving W → Serving W
  unfolding send_mcp mcp_headers unknown_server
  by_rule q name remaining none s = write (unknown_server name) s
  by_rule q name remaining (some rule) s =
      let url = target_url python rule remaining in
      send_mcp q url (mcp_headers python rule url q.headers) s

  pub handle_mcp_reverse_proxy : HttpRequest → Text → Serving W → Serving W
  unfolding by_rule find_rule server_and_path
  handle_mcp_reverse_proxy q mcp_path s =
      let (name, remaining) = server_and_path python mcp_path in
      by_rule q name remaining (find_rule name s.proxy.mcp_header_rules) s

  -- `_forward_request`: the status, the headers and the body.
  forward_failure : Failure → ℕ × Headers × Bytes
  forward_failure timeout = (504, [], codes "Gateway Timeout")
  forward_failure failed = (502, [], codes "Bad Gateway")

  forward_outcome : Outcome Response Failure × W → Serving W → (ℕ × Headers × Bytes) × Serving W
  unfolding forward_failure
  forward_outcome (returned r, w) s = ((r.status_code, r.merged, r.content), record s { world = w })
  forward_outcome (raised f, w) s = (forward_failure f, record s { world = w })

  forward_request : HttpRequest → Headers → Serving W → (ℕ × Headers × Bytes) × Serving W
  unfolding forward_outcome
  forward_request q headers s =
      if s.proxy.http_client
      then forward_outcome (network.request q.method q.url headers q.body s.world) s
      else ((503, [], codes "Proxy not initialized"), s)

  -- `handle_request`; `none` for an exception.
  signed : HttpRequest → Option Headers
  signed q =
      if contains (codes "bedrock-runtime") q.url
      then network.sign q.method q.url q.headers q.body
      else some q.headers

  forward_signed :
      HttpRequest → Option Headers → Serving W → Option (ℕ × Headers × Bytes) × Serving W
  unfolding forward_request
  forward_signed q none s = (none, s)
  forward_signed q (some headers) s =
      let (answer, s') = forward_request q headers s in (some answer, s')

  abbrev count_blocked : Serving W → Serving W
  count_blocked s = record s { proxy = record (s.proxy) { blocked = s.proxy.blocked + 1 } }

  pub handle_request : HttpRequest → Serving W → Option (ℕ × Headers × Bytes) × Serving W
  unfolding forward_signed signed
  handle_request q s =
      if allows s.proxy q.url
      then forward_signed q (signed q) s
      else (some (403, [], codes "Domain not in whitelist"), count_blocked s)

  -- The answer in forward mode.
  pub write_answer : Option (ℕ × Headers × Bytes) × Serving W → Serving W
  unfolding header_lines
  write_answer (none, s) = s
  write_answer (some (status, headers, body), s) =
      write
        (status_line status
          ++ (header_lines python headers ++ (content_length_line (length body) ++ (crlf ++ body))))
        s

  -- `_handle_connect`, after 200 has been written.
  abbrev pub first_or : Text → List Text → Text
  first_or host [] = host
  first_or host (a ∷ as_) = a

  tunnel : HttpRequest → Bool × W → Serving W → Serving W
  tunnel q (false, w) s = record s { world = w }
  tunnel q (true, w) s =
      let (back, w') = network.exchange q.unread w in write back (record s { world = w' })

  connect_to : HttpRequest → Text × ℕ → Option (List Text) × W → Serving W → Serving W
  unfolding tunnel
  connect_to q (host, port) (none, w) s = record s { world = w }
  connect_to q (host, port) (some addresses, w) s =
      tunnel q (network.open_connection (first_or host addresses) port w) s

  pub handle_connect : HttpRequest → Serving W → Serving W
  unfolding connect_to connect_target
  handle_connect q s =
      if allows s.proxy (connect_url python q.url)
      then (let s' = write (codes "HTTP/1.1 200 Connection Established" ++ (crlf ++ crlf)) s in
          let target = connect_target python q.url in
          connect_to q target (network.resolve (target.0) s'.world) s')
      else write forbidden (count_blocked s)

  -- `_handle_connection`, once the request has been read.
  route : HttpRequest → Serving W → Serving W
  unfolding handle_connect handle_mcp_reverse_proxy handle_bedrock_reverse_proxy handle_request
      write_answer
  route q s =
      if same_text q.method (codes "CONNECT")
      then handle_connect q s
      else elim (after (codes "/mcp/") q.url) [
        | some mcp_path ↦ handle_mcp_reverse_proxy q mcp_path s
        | none ↦
            if is_some (after (codes "/") q.url)
            then handle_bedrock_reverse_proxy q s
            else write_answer (handle_request q s)
      ]

  served : Option HttpRequest → Serving W → Serving W
  unfolding route
  served none s = s
  served (some q) s = route q s

  pub handle_connection : List Bytes → Proxy → W → Serving W
  unfolding served read_request
  handle_connection input p w =
      served (read_request python input) (record { written = []; proxy = p; world = w })
