-- ===== src/Ws/Frame/Build.antt =====
-- What the frame builders write.
use mathlib.Core.Path.{ap₂}
use roosterwake.Prelude.{
  ℕ, suc, take, ◌+◌, ◌-◌, ◌/◌, ◌%◌, ◌^◌, ◌≤◌, ◌<◌, ◌≡◌, refl, sym, ap, ◌∙◌, Bool, true, false, ◌⊎◌,
  inl, inr, Option, none, some, [], ◌∷◌, ◌++◌, ltb, if◌then◌else◌, length, length-append,
  length-take, drop-append, append_assoc, drop, arith, Bool-cases,
}
use roosterwake.Prelude.Bytes.{Bytes}
use roosterwake.Ws.Frame.{
  known_opcode, is_control, parse_header, needed, length_bytes, encode_header, apply_mask,
  build_frame, close_reason, build_close,
}
use roosterwake.Ws.Frame.Mask.{apply_mask_twice, length-apply_mask}
use roosterwake.Ws.Frame.Accept.{
  minimal_len, server_header, IsLegal, reported, verdict, parse-server_header, known_small,
}

unfoldable clear_bit : Bytes → Bytes
clear_bit [] = []
clear_bit (b ∷ bs) = (b - 0x80) ∷ bs

-- A frame with the mask bit of its second byte cleared.
unfoldable pub clear_mask_bit : Bytes → Bytes
unfolding clear_bit
clear_mask_bit [] = []
clear_mask_bit (b0 ∷ bs) = b0 ∷ clear_bit bs

clear_bit-append :
    (n : ℕ) (rest : Bytes) → clear_bit (length_bytes n ++ rest) ≡ clear_bit (length_bytes n) ++ rest
unfolding clear_bit length_bytes
clear_bit-append n rest = ground arith

clear_bit-length_bytes : (n : ℕ) → n < 2 ^ 63 → clear_bit (length_bytes n) ≡ minimal_len n
unfolding clear_bit length_bytes minimal_len
clear_bit-length_bytes n h = ground arith

length-length_bytes : (n : ℕ) → length (length_bytes n) + 5 ≡ needed n
unfolding length_bytes needed
length-length_bytes n = ground arith

module _ (m0 m1 m2 m3 : ℕ) where
  abbrev key : Bytes
  key = m0 ∷ m1 ∷ m2 ∷ m3 ∷ []

  -- The header, and the whole frame, where the buffer holds them.
  unfoldable head : Bool → ℕ → ℕ → Bytes
  head fin op n = ((if fin then 0x80 else 0x00) + op % 2 ^ 4) ∷ (length_bytes n ++ key)

  length-head : (fin : Bool) (op n : ℕ) → length (head fin op n) ≡ needed n
  unfolding head
  length-head fin op n = omega (arith, length-append (length_bytes n) key, length-length_bytes n)

  encode_header_cases :
      (out_len : ℕ) (fin : Bool) (op n : ℕ)
      → encode_header out_len fin op n (some key)
        ≡ (if ltb out_len (needed n) then none else some (head fin op n))
  unfolding encode_header head
  encode_header_cases out_len fin op n = refl

  -- A frame is built exactly where the buffer holds its header and payload, and it is the header
  -- and the masked payload.
  build_frame_cases :
      (out_len : ℕ) (fin : Bool) (op : ℕ) (payload : Bytes)
      → build_frame out_len fin op payload key ≡ (
          if ltb out_len (needed (length payload) + length payload)
          then none
          else some (head fin op (length payload) ++ apply_mask payload key 0))
  unfolding build_frame
  build_frame_cases out_len fin op payload =
      let size = length-head fin op (length payload) in
      rw (encode_header_cases out_len fin op (length payload))
        (elim (Bool-cases (ltb out_len (needed (length payload)))) [
          | inl small ↦ rw small (ground arith)
          | inr big ↦ rw (big, size) (ground arith)
        ])

  -- A peer that clears the mask bit reads the header that was meant, and a peer that unmasks what is
  -- behind the header with the last four bytes of the header reads the payload.
  pub record ReadsBack (fin : Bool) (op : ℕ) (payload frame : Bytes) : Type 0 where
    pub header_read :
        parse_header (clear_mask_bit frame) ≡ verdict (reported fin op (length payload))
    pub payload_read :
        apply_mask
          (drop (needed (length payload)) frame)
          (take 4 (drop (needed (length payload) - 4) frame))
          0
        ≡ payload
    pub size : length frame ≡ needed (length payload) + length payload

  drop-head :
      (fin : Bool) (op n : ℕ) (rest : Bytes) → drop (needed n) (head fin op n ++ rest) ≡ rest
  drop-head fin op n rest = rw (sym (length-head fin op n)) (drop-append (head fin op n) rest)

  -- The masking key stands in front of what the header precedes.
  key-head :
      (fin : Bool) (op n : ℕ) (rest : Bytes)
      → take 4 (drop (needed n - 4) (head fin op n ++ rest)) ≡ key
  unfolding head
  key-head fin op n rest =
      let size = length-length_bytes n in
      let front : needed n - 4 ≡ suc (length (length_bytes n)) = omega (arith, size) in
      rw (front, append_assoc (length_bytes n) key rest, drop-append (length_bytes n) (key ++ rest))
        refl

  clear_mask_bit-head :
      (fin : Bool) (op n : ℕ) (rest : Bytes)
      → op < 16
      → n < 2 ^ 63
      → clear_mask_bit (head fin op n ++ rest) ≡ server_header fin op n ++ (key ++ rest)
  unfolding head clear_mask_bit server_header
  clear_mask_bit-head fin op n rest h l = ap₂ ◌∷◌ (ground arith) (
      ap clear_bit (append_assoc (length_bytes n) key rest)
      ∙ clear_bit-append n (key ++ rest)
      ∙ ap (◌++ (key ++ rest)) (clear_bit-length_bytes n l))

  whole-ReadsBack :
      (fin : Bool) (op : ℕ) (payload : Bytes)
      → IsLegal fin op (length payload)
      → ReadsBack fin op payload (head fin op (length payload) ++ apply_mask payload key 0)
  whole-ReadsBack fin op payload legal = record {
    header_read =
        ap parse_header
          (clear_mask_bit-head fin op _ _ (known_small op legal.opcode_known) legal.length_63)
        ∙ parse-server_header fin op _ _ legal;
    payload_read =
        ap₂ (λ bs k. apply_mask bs k 0) (drop-head fin op (length payload) _)
          (key-head fin op (length payload) _)
        ∙ apply_mask_twice payload key 0;
    size = omega (
      arith,
      length-append (head fin op (length payload)) (apply_mask payload key 0),
      length-head fin op (length payload),
      length-apply_mask payload key 0,
    );
  }

  -- For a legal opcode and length, a frame is built exactly where the buffer holds header and
  -- payload, and then it reads back: with the mask bit cleared `rw_ws_parse_header` reports the
  -- finality, opcode and length, and unmasking the bytes behind the header with the last four bytes of the
  -- header gives the payload.
  pub build_frame-ReadsBack :
      (out_len : ℕ) (fin : Bool) (op : ℕ) (payload : Bytes)
      → IsLegal fin op (length payload)
      → ((out_len < needed (length payload) + length payload)
          × (build_frame out_len fin op payload key ≡ none))
        ⊎ ((frame : Bytes) × (build_frame out_len fin op payload key ≡ some frame)
            × ReadsBack fin op payload frame
            × (length frame ≤ out_len))
  build_frame-ReadsBack out_len fin op payload legal =
      let reads = whole-ReadsBack fin op payload legal in
      elim (Bool-cases (ltb out_len (needed (length payload) + length payload))) [
        | inl small ↦ inl (ground arith, build_frame_cases out_len fin op payload ∙ rw small refl)
        | inr big ↦ inr (
          _,
          build_frame_cases out_len fin op payload ∙ rw big refl,
          reads,
          rw reads.size (ground arith),
        )
      ]

  close_len : (reason : Option Bytes) → length (close_reason reason) ≤ 123
  unfolding close_reason
  close_len none = omega arith
  close_len (some reason) = omega (arith, length-take 123 reason)

  -- However long the reason is, a close frame is built in any buffer of 131 bytes, never takes more,
  -- and reads back as one whole close frame with the code and the first 123 bytes of the reason.
  pub build_close-ReadsBack :
      (out_len code : ℕ) (reason : Option Bytes)
      → 131 ≤ out_len
      → (frame : Bytes) × (build_close out_len code reason key ≡ some frame)
        × ReadsBack true 8 (code / 2 ^ 8 % 256 ∷ code % 256 ∷ close_reason reason) frame
        × (length frame ≤ 131)
  unfolding build_close needed known_opcode is_control
  build_close-ReadsBack out_len code reason h =
      let payload = code / 2 ^ 8 % 256 ∷ code % 256 ∷ close_reason reason in
      let short = close_len reason in
      let legal : IsLegal true 8 (length payload) = record {
        opcode_known = refl;
        length_63 = omega arith;
        control = inr (refl, omega arith);
      } in
      let reads = whole-ReadsBack true 8 payload legal in
      let six : needed (length payload) ≡ 6 = ground arith in
      let fits : ltb out_len (needed (length payload) + length payload) ≡ false = ground arith in
      (_, build_frame_cases out_len true 8 payload ∙ rw fits refl, reads, omega (arith, reads.size))
