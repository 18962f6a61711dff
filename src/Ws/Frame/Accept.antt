-- ===== src/Ws/Frame/Accept.antt =====
-- Which headers `rw_ws_parse_header` accepts: the RFC 6455 server headers, in their one minimal form.
use roosterwake.Prelude.{
  ℕ, ◌+◌, ◌*◌, ◌/◌, ◌%◌, ◌^◌, ◌≤◌, ◌<◌, ◌≡◌, ap, ◌∙◌, Bool, true, false, not, ◌⊎◌, inl, inr, [],
  ◌∷◌, ◌++◌, ltb, leb, ◌==◌, if◌then◌else◌, length, arith,
}
use roosterwake.Prelude.Bytes.{Bytes, slice}
use roosterwake.Ws.Frame.{
  Header, Parse, ok, too_large, max_inbound, known_opcode, is_control, big_endian, checked,
  parse_len, parse_header,
}

-- The length of an unmasked frame in its shortest form.
unfoldable pub minimal_len : ℕ → Bytes
minimal_len n =
    if leb n 125
    then n ∷ []
    else if leb n 0xFFFF
    then 126 ∷ n / 2 ^ 8 ∷ n % 256 ∷ []
    else 127
      ∷ n / 2 ^ 56
      ∷ n / 2 ^ 48 % 256
      ∷ n / 2 ^ 40 % 256
      ∷ n / 2 ^ 32 % 256
      ∷ n / 2 ^ 24 % 256
      ∷ n / 2 ^ 16 % 256
      ∷ n / 2 ^ 8 % 256
      ∷ n % 256
      ∷ []

unfoldable pub server_header : Bool → ℕ → ℕ → Bytes
server_header fin opcode n = (if fin then 0x80 + opcode else opcode) ∷ minimal_len n

-- What RFC 6455 allows a header to say: a defined opcode, a 63-bit length, and a control frame
-- that is whole and holds at most 125 bytes.
pub record IsLegal (fin : Bool) (opcode n : ℕ) : Type 0 where
  pub opcode_known : known_opcode opcode ≡ true
  pub length_63 : n < 2 ^ 63
  pub control : (is_control opcode ≡ false) ⊎ ((fin ≡ true) × (n ≤ 125))

-- The header as the parser reports it.
abbrev pub reported : Bool → ℕ → ℕ → Header
reported fin opcode n = record {
  fin = fin;
  opcode = opcode;
  payload_len = n;
  header_len = length (server_header fin opcode n);
}

abbrev pub verdict : Header → Parse
verdict h = if ltb max_inbound h.payload_len then too_large h else ok h

pub known_small : (op : ℕ) → known_opcode op ≡ true → op < 16
unfolding known_opcode
known_small op h = ground arith

big_endian_eight :
    (b0 b1 b2 b3 b4 b5 b6 b7 : ℕ)
    → b0 < 256
    → b1 < 256
    → b2 < 256
    → b3 < 256
    → b4 < 256
    → b5 < 256
    → b6 < 256
    → b7 < 256
    → big_endian 0 (b0 ∷ b1 ∷ b2 ∷ b3 ∷ b4 ∷ b5 ∷ b6 ∷ b7 ∷ [])
      ≡ b0 * 2 ^ 56
        + b1 * 2 ^ 48
        + b2 * 2 ^ 40
        + b3 * 2 ^ 32
        + b4 * 2 ^ 24
        + b5 * 2 ^ 16
        + b6 * 2 ^ 8
        + b7
unfolding big_endian
big_endian_eight b0 b1 b2 b3 b4 b5 b6 b7 h0 h1 h2 h3 h4 h5 h6 h7 = omega arith

checked_legal :
    (h : Header)
    → (is_control h.opcode ≡ false) ⊎ ((h.fin ≡ true) × (h.payload_len ≤ 125))
    → checked h ≡ verdict h
unfolding checked
checked_legal h c = ground arith

passed :
    (b0 b1 : ℕ) (rest : Bytes)
    → b0 / 2 ^ 4 % 2 ^ 3 ≡ 0
    → known_opcode (b0 % 2 ^ 4) ≡ true
    → b1 < 128
    → parse_header (b0 ∷ b1 ∷ rest)
      ≡ parse_len (b0 ∷ b1 ∷ rest) (not (b0 / 2 ^ 7 % 2 == 0)) (b0 % 2 ^ 4) (b1 % 2 ^ 7)
unfolding parse_header
passed b0 b1 rest r k h = ground arith

-- The first byte of a legal header passes its tests, and the rest is left to `parse_len`.
first_bytes :
    (fin : Bool) (op b1 : ℕ) (rest : Bytes)
    → known_opcode op ≡ true
    → b1 < 128
    → parse_header ((if fin then 0x80 + op else op) ∷ b1 ∷ rest)
      ≡ parse_len ((if fin then 0x80 + op else op) ∷ b1 ∷ rest) fin op b1
first_bytes true op b1 rest k h =
    let small = known_small op k in
    let flag : not ((0x80 + op) / 2 ^ 7 % 2 == 0) ≡ true = ground arith in
    let low : (0x80 + op) % 2 ^ 4 ≡ op = omega arith in
    let len7 : b1 % 2 ^ 7 ≡ b1 = omega arith in
    passed (0x80 + op) b1 rest (omega arith) (ap known_opcode low ∙ k) h ∙ cc
first_bytes false op b1 rest k h =
    let small = known_small op k in
    let flag : not (op / 2 ^ 7 % 2 == 0) ≡ false = ground arith in
    let low : op % 2 ^ 4 ≡ op = omega arith in
    let len7 : b1 % 2 ^ 7 ≡ b1 = omega arith in
    passed op b1 rest (omega arith) (ap known_opcode low ∙ k) h ∙ cc

read_short :
    (b0 n : ℕ) (fin : Bool) (op : ℕ) (rest : Bytes)
    → n ≤ 125
    → parse_len (b0 ∷ n ∷ rest) fin op n
      ≡ checked (record { fin = fin; opcode = op; payload_len = n; header_len = 2 })
unfolding parse_len
read_short b0 n fin op rest h = ground arith

read_two :
    (b0 b2 b3 : ℕ) (fin : Bool) (op n : ℕ) (rest : Bytes)
    → b2 * 2 ^ 8 + b3 ≡ n
    → 125 < n
    → parse_len (b0 ∷ 126 ∷ b2 ∷ b3 ∷ rest) fin op 126
      ≡ checked (record { fin = fin; opcode = op; payload_len = n; header_len = 4 })
unfolding parse_len
read_two b0 b2 b3 fin op n rest v h = ground arith

read_eight :
    (b0 b1 b2 b3 b4 b5 b6 b7 b8 : ℕ) (fin : Bool) (op n : ℕ) (rest : Bytes)
    → b1 < 128
    → big_endian 0 (b1 ∷ b2 ∷ b3 ∷ b4 ∷ b5 ∷ b6 ∷ b7 ∷ b8 ∷ []) ≡ n
    → 0xFFFF < n
    → parse_len (b0 ∷ 127 ∷ b1 ∷ b2 ∷ b3 ∷ b4 ∷ b5 ∷ b6 ∷ b7 ∷ b8 ∷ rest) fin op 127
      ≡ checked (record { fin = fin; opcode = op; payload_len = n; header_len = 10 })
unfolding parse_len slice
read_eight b0 b1 b2 b3 b4 b5 b6 b7 b8 fin op n rest high v h = ground arith

eight : ℕ → Bytes
eight n =
    n / 2 ^ 56
    ∷ n / 2 ^ 48 % 256
    ∷ n / 2 ^ 40 % 256
    ∷ n / 2 ^ 32 % 256
    ∷ n / 2 ^ 24 % 256
    ∷ n / 2 ^ 16 % 256
    ∷ n / 2 ^ 8 % 256
    ∷ n % 256
    ∷ []

eight-big_endian : (n : ℕ) → n < 2 ^ 63 → big_endian 0 (eight n) ≡ n
unfolding eight
eight-big_endian n h =
    big_endian_eight _ _ _ _ _ _ _ _ (omega arith) (omega arith) (omega arith) (omega arith)
      (omega arith) (omega arith) (omega arith) (omega arith)
    ∙ omega arith

minimal_cases :
    (n : ℕ)
    → ((n ≤ 125) × (minimal_len n ≡ n ∷ []))
      ⊎ (((125 < n) × (n ≤ 0xFFFF) × (minimal_len n ≡ 126 ∷ n / 2 ^ 8 ∷ n % 256 ∷ []))
          ⊎ ((0xFFFF < n) × (minimal_len n ≡ 127 ∷ eight n)))
unfolding minimal_len eight
minimal_cases n = ground arith

-- A legal header in the RFC's form is accepted for what it says, and refused as too large above 2048
-- bytes, whatever follows it in the buffer.
pub parse-server_header :
    (fin : Bool) (op n : ℕ) (rest : Bytes)
    → IsLegal fin op n
    → parse_header (server_header fin op n ++ rest) ≡ verdict (reported fin op n)
unfolding server_header eight
parse-server_header fin op n rest legal = elim (minimal_cases n) [
  | inl (h, e) ↦ rw e (
      first_bytes fin op n rest legal.opcode_known (omega arith)
      ∙ read_short _ n fin op rest h
      ∙ checked_legal _ legal.control)
  | inr (inl (h, h', e)) ↦ rw e (
      first_bytes fin op 126 _ legal.opcode_known (omega arith)
      ∙ read_two _ _ _ fin op n rest (omega arith) h
      ∙ checked_legal _ legal.control)
  | inr (inr (h, e)) ↦ rw e (
      first_bytes fin op 127 _ legal.opcode_known (omega arith)
      ∙ read_eight _ _ _ _ _ _ _ _ _ fin op n rest (omega (arith, legal.length_63))
          (eight-big_endian n legal.length_63) h
      ∙ checked_legal _ legal.control)
]
