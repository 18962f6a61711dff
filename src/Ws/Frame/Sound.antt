-- ===== src/Ws/Frame/Sound.antt =====
-- What `rw_ws_parse_header` accepts is a legal server header in the RFC's one form.
use roosterwake.Prelude.{
  ℕ, ◌+◌, ◌*◌, ◌/◌, ◌%◌, ◌^◌, ◌≤◌, ◌<◌, ◌≡◌, refl, sym, subst, Bool, true, false, not, ◌⊎◌, inl,
  inr, [], ◌∷◌, ◌++◌, ◌==◌, if◌then◌else◌, length, drop, All, arith,
}
use roosterwake.Prelude.Bytes.{Bytes, IsByte, byte_at}
use roosterwake.Ws.Frame.{Header, ok, known_opcode, is_control, checked, parse_len, parse_header}
use roosterwake.Ws.Frame.Accept.{minimal_len, server_header, IsLegal}

checked_ok :
    (g h : Header)
    → checked g ≡ ok h
    → (g ≡ h)
      × ((is_control g.opcode ≡ false) ⊎ ((g.fin ≡ true) × (g.payload_len ≤ 125)))
      × (g.payload_len ≤ 2048)
unfolding checked
checked_ok g h e = ground arith

screened :
    (b0 b1 : ℕ) (rest : Bytes) (h : Header)
    → parse_header (b0 ∷ b1 ∷ rest) ≡ ok h
    → (b0 / 2 ^ 4 % 2 ^ 3 ≡ 0)
      × (known_opcode (b0 % 2 ^ 4) ≡ true)
      × (b1 / 2 ^ 7 % 2 ≡ 0)
      × (parse_len (b0 ∷ b1 ∷ rest) (not (b0 / 2 ^ 7 % 2 == 0)) (b0 % 2 ^ 4) (b1 % 2 ^ 7) ≡ ok h)
unfolding parse_header
screened b0 b1 rest h e = ground arith

two_bytes : (buf : Bytes) (h : Header) → parse_header buf ≡ ok h → 2 ≤ length buf
unfolding parse_header
two_bytes buf h e = ground arith

-- An accepted length is in one of the two short forms.
len_ok :
    (b0 b1 : ℕ) (rest : Bytes) (fin : Bool) (op : ℕ) (h : Header)
    → b1 < 128
    → parse_len (b0 ∷ b1 ∷ rest) fin op b1 ≡ ok h
    → ((b1 ≤ 125)
        × (checked (record { fin = fin; opcode = op; payload_len = b1; header_len = 2 }) ≡ ok h))
      ⊎ ((b1 ≡ 126)
          × (2 ≤ length rest)
          × (125 < byte_at rest 0 * 2 ^ 8 + byte_at rest 1)
          × (checked (record {
            fin = fin;
            opcode = op;
            payload_len = byte_at rest 0 * 2 ^ 8 + byte_at rest 1;
            header_len = 4;
          })
              ≡ ok h))
unfolding parse_len checked
len_ok b0 b1 rest fin op h small e = ground arith

-- The buffer begins with the one RFC form of a legal header, whose payload fits the inbound limit.
pub record BeginsWith (buf : Bytes) (h : Header) : Type 0 where
  pub split :
      buf
      ≡ server_header h.fin h.opcode h.payload_len
        ++ drop (length (server_header h.fin h.opcode h.payload_len)) buf
  pub header_size : h.header_len ≡ length (server_header h.fin h.opcode h.payload_len)
  pub legal : IsLegal h.fin h.opcode h.payload_len
  pub fits : h.payload_len ≤ 2048

first_byte :
    (b0 : ℕ)
    → b0 < 256
    → b0 / 2 ^ 4 % 2 ^ 3 ≡ 0
    → b0 ≡ (if not (b0 / 2 ^ 7 % 2 == 0) then 0x80 + b0 % 2 ^ 4 else b0 % 2 ^ 4)
first_byte b0 h r = ground arith

minimal_one : (n : ℕ) → n ≤ 125 → minimal_len n ≡ n ∷ []
unfolding minimal_len
minimal_one n h = ground arith

minimal_two :
    (b2 b3 n : ℕ)
    → b2 < 256
    → b3 < 256
    → b2 * 2 ^ 8 + b3 ≡ n
    → 125 < n
    → minimal_len n ≡ 126 ∷ b2 ∷ b3 ∷ []
unfolding minimal_len
minimal_two b2 b3 n h2 h3 v h =
    let high : n / 2 ^ 8 ≡ b2 = omega arith in let low : n % 256 ≡ b3 = omega arith in ground arith

begins_short :
    (b0 b1 : ℕ) (rest : Bytes) (fin : Bool) (op : ℕ)
    → b0 ≡ (if fin then 0x80 + op else op)
    → known_opcode op ≡ true
    → (is_control op ≡ false) ⊎ ((fin ≡ true) × (b1 ≤ 125))
    → b1 ≤ 125
    → BeginsWith
        (b0 ∷ b1 ∷ rest)
        (record { fin = fin; opcode = op; payload_len = b1; header_len = 2 })
unfolding server_header
begins_short b0 b1 rest fin op e k c s = record {
  split = rw (minimal_one b1 s, sym e) refl;
  header_size = rw (minimal_one b1 s) refl;
  legal = record { opcode_known = k; length_63 = omega arith; control = c };
  fits = omega arith;
}

begins_two :
    (b0 b2 b3 n : ℕ) (rest : Bytes) (fin : Bool) (op : ℕ)
    → b0 ≡ (if fin then 0x80 + op else op)
    → known_opcode op ≡ true
    → (is_control op ≡ false) ⊎ ((fin ≡ true) × (n ≤ 125))
    → minimal_len n ≡ 126 ∷ b2 ∷ b3 ∷ []
    → n ≤ 2048
    → BeginsWith
        (b0 ∷ 126 ∷ b2 ∷ b3 ∷ rest)
        (record { fin = fin; opcode = op; payload_len = n; header_len = 4 })
unfolding server_header
begins_two b0 b2 b3 n rest fin op e k c m s = record {
  split = rw (m, sym e) refl;
  header_size = rw m refl;
  legal = record { opcode_known = k; length_63 = omega arith; control = c };
  fits = s;
}

begins_long :
    (b0 : ℕ) (rest : Bytes) (fin : Bool) (op : ℕ)
    → All IsByte rest
    → b0 ≡ (if fin then 0x80 + op else op)
    → known_opcode op ≡ true
    → (is_control op ≡ false) ⊎ ((fin ≡ true) × (byte_at rest 0 * 2 ^ 8 + byte_at rest 1 ≤ 125))
    → 2 ≤ length rest
    → 125 < byte_at rest 0 * 2 ^ 8 + byte_at rest 1
    → byte_at rest 0 * 2 ^ 8 + byte_at rest 1 ≤ 2048
    → BeginsWith (b0 ∷ 126 ∷ rest) (record {
      fin = fin;
      opcode = op;
      payload_len = byte_at rest 0 * 2 ^ 8 + byte_at rest 1;
      header_len = 4;
    })
begins_long b0 (b2 ∷ b3 ∷ rest) fin op (h2, (h3, _)) e k c long more fits =
    begins_two b0 b2 b3 _ rest fin op e k c (minimal_two b2 b3 _ h2 h3 refl more) fits
begins_long b0 (b2 ∷ []) fin op bytes e k c long more fits = absurd (omega arith)
begins_long b0 [] fin op bytes e k c long more fits = absurd (omega arith)

begins_cases :
    (b0 b1 : ℕ) (rest : Bytes) (fin : Bool) (op : ℕ) (h : Header)
    → All IsByte (b0 ∷ b1 ∷ rest)
    → b1 < 128
    → b0 ≡ (if fin then 0x80 + op else op)
    → known_opcode op ≡ true
    → parse_len (b0 ∷ b1 ∷ rest) fin op b1 ≡ ok h
    → BeginsWith (b0 ∷ b1 ∷ rest) h
begins_cases b0 b1 rest fin op h (_, (_, bytes)) s e k p = elim (len_ok b0 b1 rest fin op h s p) [
  | inl (l, c) ↦
      let (same, ctl, fits) = checked_ok _ h c in
      subst (BeginsWith (b0 ∷ b1 ∷ rest)) same (begins_short b0 b1 rest fin op e k ctl l)
  | inr (l, long, more, c) ↦
      let (same, ctl, fits) = checked_ok _ h c in
      subst (BeginsWith (b0 ∷ b1 ∷ rest)) same
        (rw l (begins_long b0 rest fin op bytes e k ctl long more fits))
]

-- Whatever `rw_ws_parse_header` accepts begins with a legal server header in the RFC's one form for the
-- finality, opcode and length that it reports, its reported size is that form's, and its payload is
-- at most 2048 bytes.
pub parse_header-BeginsWith :
    (buf : Bytes) (h : Header) → All IsByte buf → parse_header buf ≡ ok h → BeginsWith buf h
parse_header-BeginsWith [] h bytes e = absurd (omega (arith, two_bytes [] h e))
parse_header-BeginsWith (b0 ∷ []) h bytes e = absurd (omega (arith, two_bytes (b0 ∷ []) h e))
parse_header-BeginsWith (b0 ∷ b1 ∷ rest) h (h0, (h1, bytes)) e =
    let (rsv, k, masked, p) = screened b0 b1 rest h e in
    let len7 : b1 % 2 ^ 7 ≡ b1 = omega arith in
    begins_cases b0 b1 rest (not (b0 / 2 ^ 7 % 2 == 0)) (b0 % 2 ^ 4) h (h0, (h1, bytes))
      (omega arith) (first_byte b0 h0 rsv) k
      (subst (λ n. parse_len (b0 ∷ b1 ∷ rest) (not (b0 / 2 ^ 7 % 2 == 0)) (b0 % 2 ^ 4) n ≡ ok h)
        len7 p)
