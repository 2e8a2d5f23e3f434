-- ===== src/Proxy/Connection.antt =====
-- How `_handle_connection` of app/services/proxy/credential_proxy.py reads a request. The bytes that
-- arrive are a list of lines, each with its line feed but perhaps the last, as `readline` gives them;
-- the empty list is the end of the stream.
use claude_multi_agent.Base.{ℕ, Bool, ◌||◌, Option, none, some, List, [], ◌∷◌, ◌++◌, if◌then◌else◌}
use claude_multi_agent.Execute.Stream.{Text, strip}
use claude_multi_agent.Proxy.Words.{Bytes, codes, crlf, break_at, split_on, take_exactly}
use claude_multi_agent.Proxy.Whitelist.{same_text}
use claude_multi_agent.Proxy.Headers.{Headers, set_header}

-- What the proxy uses of Python: `decode` is `bytes.decode("utf-8", errors="replace")`; `read_int` is
-- `int`, with `none` for a ValueError and 0 for a negative number; `too_long` tells the lines that the
-- reader refuses to buffer.
pub record Python : Type 0 where
  pub lower : Text → Text
  pub decode : Bytes → Text
  pub utf8 : Text → Bytes
  pub read_int : Text → Option ℕ
  pub too_long : Bytes → Bool
  -- `urlparse(url).hostname`, with `none` for an exception
  pub hostname : Text → Option (Option Text)

-- A request, and the bytes behind it that have not been read.
pub record HttpRequest : Type 0 where
  pub method : Text
  pub url : Text
  pub headers : Headers
  pub body : Bytes
  pub unread : Bytes

unfoldable pub joined : List Bytes → Bytes
joined [] = []
joined (l ∷ ls) = l ++ joined ls

-- `line in (b"\r\n", b"\n", b"")`
abbrev pub ends_headers : Bytes → Bool
ends_headers line = same_text line crlf || same_text line (10 ∷ []) || same_text line []

module _ (python : Python) where
  open python use {lower, decode, read_int, too_long}

  with_header : Text → Text → Headers × ℕ → Option (Headers × ℕ)
  with_header k v (hs, n) =
      if same_text (lower k) (codes "content-length")
      then elim (read_int v) [ none ↦ none | some m ↦ some (set_header k v hs, m) ]
      else some (set_header k v hs, n)

  -- One line; one without a colon is passed over.
  header_line : Text × Option Text → Headers × ℕ → Option (Headers × ℕ)
  header_line (k, none) acc = some acc
  header_line (k, some v) acc = with_header (strip k) (strip v) acc

  -- The headers, the length of the body and the bytes behind; `none` for an exception.
  read_headers : List Bytes → Headers × ℕ → Option (Headers × ℕ × Bytes)
  read_headers [] (hs, n) = some (hs, n, [])
  read_headers (line ∷ ls) (hs, n) =
      if too_long line
      then none
      else if ends_headers line
      then some (hs, n, joined ls)
      else elim (header_line (break_at 58 (strip (decode line))) (hs, n)) [
        | none ↦ none
        | some acc ↦ read_headers ls acc
      ]

  with_body : Text → Text → Option (Headers × ℕ × Bytes) → Option HttpRequest
  with_body method url none = none
  with_body method url (some (hs, n, rest)) = elim (take_exactly n rest) [
    | none ↦ none
    | some (body, unread) ↦
        some (record { method = method; url = url; headers = hs; body = body; unread = unread })
  ]

  request_line : List Text → List Bytes → Option HttpRequest
  request_line (method ∷ url ∷ version ∷ more) ls = with_body method url (read_headers ls ([], 0))
  request_line _ ls = none

  -- `none` where the connection is closed without an answer: at its end, a request line of fewer than
  -- three parts, or an exception.
  unfoldable pub read_request : List Bytes → Option HttpRequest
  unfolding request_line with_body read_headers header_line with_header
  read_request [] = none
  read_request (line ∷ ls) =
      if too_long line then none else request_line (split_on 32 (strip (decode line))) ls
