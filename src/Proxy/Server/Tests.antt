-- ===== src/Proxy/Server/Tests.antt =====
-- A small network, and the theorems on it.
use claude_multi_agent.Base.{
  ℕ, true, false, none, some, List, [], ◌∷◌, ◌++◌, returned, ◌≡◌, ◌⊎◌, refl, All, length,
  if◌then◌else◌, leb, ◌&&◌, ◌+◌, map,
}
use claude_multi_agent.Execute.Stream.{Text, after, strip}
use claude_multi_agent.Proxy.Words.{
  Bytes, codes, crlf, digits, rstrip, break_at, split_on, contains, take_exactly,
}
use claude_multi_agent.Proxy.Whitelist.{same_text, is_allowed, domains}
use claude_multi_agent.Proxy.Headers.{
  Headers, get_header, set_header, update, is_hop_by_hop, forwardable,
}
use claude_multi_agent.Proxy.Chunked.{write_chunks, last_chunk, decode}
use claude_multi_agent.Proxy.Chunked.RoundTrip.{flat, decode_written}
use claude_multi_agent.Proxy.Connection.{Python, read_request, joined}
use claude_multi_agent.Proxy.Answer.{
  McpHeaderRule, Proxy, Network, Response, find_rule, header_lines, server_and_path, mcp_headers,
  with_host, connect_target, connect_host, start, stop, update_mcp_header_rules,
}
use claude_multi_agent.Proxy.Server.{handle_connection}
use claude_multi_agent.Proxy.Server.Injected.{or_else, last_value, mcp_headers_lem}
use claude_multi_agent.Proxy.Server.Routes.{NoMark, IsPath, server_and_path_lem, connect_target_lem}

abbrev lower_code : ℕ → ℕ
lower_code c = if leb 65 c && leb c 90 then c + 32 else c

abbrev python : Python
python = record {
  lower = map lower_code;
  decode = λ b. b;
  utf8 = λ t. t;
  read_int = λ t. some (length t);
  too_long = λ b. false;
  hostname = λ url. some (some (codes "api.example"));
}

abbrev answer : Response
answer = record {
  status_code = 200;
  fields = (codes "content-length", codes "2") ∷ [];
  merged = (codes "content-length", codes "2") ∷ [];
  content = codes "ok";
}

-- The world is the list of the addresses that requests went to.
abbrev network : Network (List Text)
network = record {
  sign = λ m url hs b. some ((codes "Authorization", codes "AWS4") ∷ hs);
  request = λ m url hs b w. (returned answer, url ∷ w);
  stream = λ m url hs b w. (
    returned (record {
      status_code = 200;
      fields = [];
      chunks = codes "hello" ∷ [] ∷ codes "!" ∷ [];
      broken = none;
    }),
    url ∷ w,
  );
  resolve = λ h w. (some [], w);
  open_connection = λ h port w. (true, h ∷ w);
  exchange = λ b w. (b, w);
}

abbrev rule : McpHeaderRule
rule = record {
  real_base_url = codes "https://api.example/v1/";
  headers = (codes "Authorization", codes "Bearer s") ∷ [];
}

abbrev empty_proxy : List Text → Proxy
empty_proxy allowed = record {
  whitelist_domains = allowed;
  region = codes "us-west-2";
  http_client = false;
  mcp_header_rules = [];
  blocked = 0;
}

abbrev proxy : Proxy
proxy = start (update_mcp_header_rules ((codes "crm", rule) ∷ []) (empty_proxy []))

-- Every address that was asked begins with an "h".
abbrev IsWeb : Text → Type 0
IsWeb [] = ⊥
IsWeb (c ∷ t) = c ≡ 104

abbrev OnlyWeb : List Text → Type 0
OnlyWeb w = All IsWeb w

abbrev call_crm : List Bytes
call_crm = (codes "GET /mcp/crm/users HTTP/1.1" ++ crlf) ∷ (codes "accept: x" ++ crlf) ∷ crlf ∷ []

served_crm :
    (handle_connection python network call_crm proxy []).world
    ≡ codes "https://api.example/v1/users" ∷ []
unfolding handle_connection same_text after find_rule rstrip server_and_path break_at split_on strip
    take_exactly joined read_request mcp_headers with_host forwardable update set_header start
    update_mcp_header_rules
served_crm = refl

given : Headers
given =
    (codes "accept", codes "x")
    ∷ (codes "Host", codes "api.example")
    ∷ (codes "Authorization", codes "Bearer s")
    ∷ []

given-eq :
    mcp_headers python rule
      (codes "https://api.example/v1")
      ((codes "accept", codes "x") ∷ (codes "Connection", codes "close") ∷ [])
    ≡ some given
unfolding mcp_headers with_host forwardable update set_header same_text given
given-eq = refl

mcp_headers_lem_example :
    get_header (codes "Authorization") given
    ≡ or_else (last_value (codes "Authorization") rule.headers) (
        or_else
          (if same_text (codes "Host") (codes "Authorization")
            then some (codes "api.example")
            else none)
          (if is_hop_by_hop python.lower (codes "Authorization")
            then none
            else get_header
                (codes "Authorization")
                ((codes "accept", codes "x") ∷ (codes "Connection", codes "close") ∷ [])))
mcp_headers_lem_example =
    mcp_headers_lem python rule (codes "https://api.example/v1")
      ((codes "accept", codes "x") ∷ (codes "Connection", codes "close") ∷ []) given given-eq
      (codes "Authorization")

server_and_path_lem_example :
    ((server_and_path python (codes "crm/users")).0
        ++ (server_and_path python (codes "crm/users")).1
      ≡ codes "crm/users")
    × NoMark 47 (server_and_path python (codes "crm/users")).0
    × IsPath python (server_and_path python (codes "crm/users")).1
server_and_path_lem_example = server_and_path_lem python (codes "crm/users")

connect_target_lem_example :
    ((connect_target python (codes "api.example:443")).0
      ≡ connect_host python (codes "api.example:443"))
    ⊎ (connect_target python (codes "api.example:443") ≡ (codes "api.example:443", 443))
connect_target_lem_example = connect_target_lem python (codes "api.example:443")

decode_written_example :
    decode (write_chunks (codes "hello" ∷ [] ∷ codes "!" ∷ []) ++ (last_chunk ++ codes "rest"))
    ≡ some (flat (codes "hello" ∷ [] ∷ codes "!" ∷ []), codes "rest")
decode_written_example = decode_written (codes "hello" ∷ [] ∷ codes "!" ∷ []) (codes "rest")

-- In forward mode the length of the body is written twice.
abbrev forward : List Bytes
forward = (codes "GET http://api.example/ HTTP/1.1" ++ crlf) ∷ crlf ∷ []

length_written_twice :
    (handle_connection python network forward
      (start (empty_proxy (codes "api.example" ∷ [])))
      []).written
    ≡ codes "HTTP/1.1 200 OK"
      ++ (crlf
          ++ (codes "content-length: 2"
              ++ (crlf ++ (codes "Content-Length: 2" ++ (crlf ++ (crlf ++ codes "ok"))))))
unfolding handle_connection same_text after contains strip break_at split_on is_allowed domains
    take_exactly joined read_request set_header start header_lines digits
length_written_twice = refl

-- A proxy that is stopped keeps no rule.
stopped : (stop proxy).mcp_header_rules ≡ []
unfolding stop
stopped = refl
