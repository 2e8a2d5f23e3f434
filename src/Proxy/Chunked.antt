-- ===== src/Proxy/Chunked.antt =====
-- The chunked transfer encoding that `_handle_bedrock_reverse_proxy` of
-- app/services/proxy/credential_proxy.py writes, and a decoder for it by RFC 9112, section 7.1.
pub mod RoundTrip
use claude_multi_agent.Base.{
  ℕ, zero, suc, ◌+◌, ◌-◌, ◌*◌, Bool, true, false, ◌&&◌, ◌||◌, Option, none, some, List, [], ◌∷◌,
  ◌++◌, length, ltb, leb, ◌==◌, if◌then◌else◌,
}
use claude_multi_agent.Proxy.Words.{Bytes, crlf, hexadecimal, take_exactly}

-- `if chunk: ...`
pub write_chunk : Bytes → Bytes
write_chunk [] = []
write_chunk (b ∷ bs) = hexadecimal (length (b ∷ bs)) ++ (crlf ++ ((b ∷ bs) ++ crlf))

pub write_chunks : List Bytes → Bytes
write_chunks [] = []
write_chunks (c ∷ cs) = write_chunk c ++ write_chunks cs

-- b"0\r\n\r\n"
abbrev pub last_chunk : Bytes
last_chunk = 48 ∷ (crlf ++ crlf)

-- What a reader does with it. The value of a hexadecimal digit.
abbrev pub value : ℕ → Option ℕ
value c =
    if leb 48 c && ltb c 58
    then some (c - 48)
    else if leb 97 c && ltb c 103
    then some (c - 87)
    else none

-- The digits behind those that make `n`, and what follows them.
read_size : ℕ → Bytes → Option (ℕ × Bytes)
read_size n [] = none
read_size n (c ∷ t) = elim (value c) [ some d ↦ read_size (n * 16 + d) t | none ↦ some (n, c ∷ t) ]

-- At least one digit.
read_number : Bytes → Option (ℕ × Bytes)
read_number [] = none
read_number (c ∷ t) = elim (value c) [ some d ↦ read_size d t | none ↦ none ]

take_crlf : Bytes → Option Bytes
take_crlf (c ∷ d ∷ t) = if c == 13 && d == 10 then some t else none
take_crlf _ = none

put_before : Bytes → Option (Bytes × Bytes) → Option (Bytes × Bytes)
put_before chunk none = none
put_before chunk (some (body, rest)) = some (chunk ++ body, rest)

-- After the size: the end of the body, or the chunk and what follows it.
read_body : ℕ → Bytes → Option (Bytes × Bytes × Bool)
read_body zero t = elim (take_crlf t) [ none ↦ none | some rest ↦ some ([], rest, true) ]
read_body (suc n) t = elim (take_exactly (suc n) t) [
  | none ↦ none
  | some (chunk, u) ↦ elim (take_crlf u) [ none ↦ none | some rest ↦ some (chunk, rest, false) ]
]

read_chunk : Bytes → Option (Bytes × Bytes × Bool)
read_chunk t = elim (read_number t) [
  | none ↦ none
  | some (n, u) ↦ elim (take_crlf u) [ none ↦ none | some v ↦ read_body n v ]
]

-- The body, and what follows it, with fuel; `none` for a body that is not well formed.
decode_chunks : ℕ → Bytes → Option (Bytes × Bytes)
unfolding read_chunk
decode_chunks zero t = none
decode_chunks (suc f) t = elim (read_chunk t) [
  | none ↦ none
  | some (chunk, rest, true) ↦ some ([], rest)
  | some (chunk, rest, false) ↦ put_before chunk (decode_chunks f rest)
]

-- Each chunk takes up bytes, so the length is fuel enough.
pub decode : Bytes → Option (Bytes × Bytes)
unfolding decode_chunks
decode t = decode_chunks (suc (length t)) t
