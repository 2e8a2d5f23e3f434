-- ===== src/Proxy/Chunked/RoundTrip.antt =====
-- A body that is written in chunks is read back whole.
use Prim.Native.Nat.{◌/◌, ◌%◌}
use mathlib.Core.List.{append_assoc}
use native.Mathlib.Nat.{div-add-mod}
use claude_multi_agent.Base.{
  ◌∙◌, ℕ, zero, suc, ◌+◌, ◌*◌, ◌≤◌, ◌<◌, true, false, some, List, [], ◌∷◌, ◌++◌, length,
  length-append, ◌≡◌, refl, ap, arith, Bool-cases, inl, inr, ltb, ltb→lt,
}
use claude_multi_agent.Proxy.Words.{Bytes, crlf, digit, digits, hexadecimal, take_exactly}
use claude_multi_agent.Proxy.Chunked.{
  write_chunk, write_chunks, last_chunk, value, read_size, read_number, take_crlf, read_body,
  read_chunk, put_before, decode_chunks, decode,
}

abbrev pub flat : List Bytes → Bytes
flat [] = []
flat (c ∷ cs) = c ++ flat cs

value-digit : (d : ℕ) → d < 16 → value (digit d) ≡ some d
value-digit d h = ground arith

read_size-digit :
    (n d : ℕ) (t : Bytes) → d < 16 → read_size n (digit d ∷ t) ≡ read_size (n * 16 + d) t
unfolding read_size
read_size-digit n d t h = rw (value-digit d h, read_size) refl

read_number-digit : (d : ℕ) (t : Bytes) → d < 16 → read_number (digit d ∷ t) ≡ read_size d t
unfolding read_number
read_number-digit d t h = rw (value-digit d h, read_number) refl

read_number-digits : (f n : ℕ) (t : Bytes) → n ≤ f → read_number (digits 16 f n t) ≡ read_size n t
unfolding digits
read_number-digits zero n t h = ground (arith, read_number-digit (n % 16) t)
read_number-digits (suc f) n t h = elim (Bool-cases (ltb n 16)) [
  | inl small ↦ rw (small, digits) (read_number-digit n t (ltb→lt n 16 small))
  | inr large ↦
      rw (large, digits)
        (ground (
          arith,
          read_number-digits f (n / 16) (digit (n % 16) ∷ t),
          read_size-digit (n / 16) (n % 16) t,
          div-add-mod n 16,
        ))
]

digits-append : (b f n : ℕ) (t u : Bytes) → digits b f n t ++ u ≡ digits b f n (t ++ u)
unfolding digits
digits-append b zero n t u = refl
digits-append b (suc f) n t u = elim (Bool-cases (ltb n b)) [
  | inl small ↦ rw (small, digits) refl
  | inr large ↦ rw (large, digits) (digits-append b f (n / b) (digit (n % b) ∷ t) u)
]

take_exactly-append : (c rest : Bytes) → take_exactly (length c) (c ++ rest) ≡ some (c, rest)
unfolding take_exactly
take_exactly-append [] rest = refl
take_exactly-append (b ∷ c) rest = rw (take_exactly-append c rest) refl

read_number-hexadecimal :
    (n : ℕ) (u : Bytes) → read_number (hexadecimal n ++ (crlf ++ u)) ≡ some (n, crlf ++ u)
unfolding read_size
read_number-hexadecimal n u =
    rw (digits-append 16 n n [] (crlf ++ u)) (read_number-digits n n (crlf ++ u) (omega arith))

read_body-append :
    (b : ℕ) (bs rest : Bytes)
    → read_body (suc (length bs)) ((b ∷ bs) ++ (crlf ++ rest)) ≡ some (b ∷ bs, rest, false)
unfolding read_body take_crlf
read_body-append b bs rest = rw (take_exactly-append (b ∷ bs) (crlf ++ rest), read_body) refl

write_chunk-append :
    (b : ℕ) (bs rest : Bytes)
    → write_chunk (b ∷ bs) ++ rest
      ≡ hexadecimal (length (b ∷ bs)) ++ (crlf ++ ((b ∷ bs) ++ (crlf ++ rest)))
unfolding write_chunk
write_chunk-append b bs rest =
    append_assoc (hexadecimal (suc (length bs))) (crlf ++ ((b ∷ bs) ++ crlf)) rest
    ∙ ap (λ x. hexadecimal (suc (length bs)) ++ (crlf ++ x)) (append_assoc (b ∷ bs) crlf rest)

read_chunk-write_chunk :
    (b : ℕ) (bs rest : Bytes)
    → read_chunk (write_chunk (b ∷ bs) ++ rest) ≡ some (b ∷ bs, rest, false)
unfolding read_chunk take_crlf
read_chunk-write_chunk b bs rest = rw (write_chunk-append b bs rest) (
    rw (read_number-hexadecimal (suc (length bs)) ((b ∷ bs) ++ (crlf ++ rest)), read_chunk)
      (read_body-append b bs rest))

read_chunk-last_chunk : (rest : Bytes) → read_chunk (last_chunk ++ rest) ≡ some ([], rest, true)
unfolding read_chunk read_number read_size take_crlf read_body
read_chunk-last_chunk rest = refl

no_chunk : write_chunk [] ≡ []
unfolding write_chunk
no_chunk = refl

length-write_chunk : (b : ℕ) (bs : Bytes) → 1 ≤ length (write_chunk (b ∷ bs))
unfolding write_chunk
length-write_chunk b bs =
    omega (arith, length-append (hexadecimal (suc (length bs))) (crlf ++ ((b ∷ bs) ++ crlf)))

decode_chunks-write_chunks :
    (f : ℕ) (cs : List Bytes) (rest : Bytes)
    → length (write_chunks cs) < f
    → decode_chunks f (write_chunks cs ++ (last_chunk ++ rest)) ≡ some (flat cs, rest)
unfolding decode_chunks write_chunks put_before
decode_chunks-write_chunks zero cs rest h = absurd (omega arith)
decode_chunks-write_chunks (suc f) [] rest h = rw (read_chunk-last_chunk rest, decode_chunks) refl
decode_chunks-write_chunks (suc f) ([] ∷ cs) rest h =
    rw no_chunk (decode_chunks-write_chunks (suc f) cs rest (rw no_chunk at h))
decode_chunks-write_chunks (suc f) ((b ∷ bs) ∷ cs) rest h =
    let more = write_chunks cs ++ (last_chunk ++ rest) in
    rw (append_assoc (write_chunk (b ∷ bs)) (write_chunks cs) (last_chunk ++ rest)) (
      rw (read_chunk-write_chunk b bs more, decode_chunks)
        (rw
          (decode_chunks-write_chunks f cs rest (
            omega (
              arith,
              length-append (write_chunk (b ∷ bs)) (write_chunks cs),
              length-write_chunk b bs,
            )))
          refl))

-- Whatever chunks the upstream sends, empty ones included, a reader of the chunked body that the
-- proxy writes gets their bytes in their order, and then what follows the body.
pub decode_written :
    (cs : List Bytes) (rest : Bytes)
    → decode (write_chunks cs ++ (last_chunk ++ rest)) ≡ some (flat cs, rest)
unfolding decode
decode_written cs rest =
    decode_chunks-write_chunks (suc (length (write_chunks cs ++ (last_chunk ++ rest)))) cs rest
      (omega (arith, length-append (write_chunks cs) (last_chunk ++ rest)))
