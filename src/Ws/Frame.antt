-- ===== src/Ws/Frame.antt =====
-- The RFC 6455 frame codec, firmware/src/ws/ws_frame.c. Bits of a byte are written as quotients and
-- remainders: `b & 0x70` is not 0 where `b / 2 ^ 4 % 2 ^ 3` is not. `NULL` for a mask is `none`.
-- An encoder gives the bytes that it writes to the front of `out`, or `none` where it returns 0.
pub mod Mask
pub mod Accept
pub mod Sound
pub mod Build
use Prim.Native.Nat.{bit_xor}
use roosterwake.Prelude.{
  ℕ, zero, suc, ◌+◌, ◌-◌, ◌*◌, ◌/◌, ◌%◌, ◌^◌, Bool, true, false, not, ◌&&◌, ◌||◌, Option, none,
  some, [], ◌∷◌, ◌++◌, ltb, leb, ◌==◌, if◌then◌else◌, length, take,
}
use roosterwake.Prelude.Bytes.{Bytes, byte_at, slice}
use roosterwake.Prelude.Options.{◌>>=◌}

-- `rw_ws_header_t` of an accepted frame; its mask is all zero, since a masked frame is refused.
pub record Header : Type 0 where
  pub fin : Bool
  pub opcode : ℕ
  pub payload_len : ℕ
  pub header_len : ℕ

-- `rw_ws_parse_t`, with the header where it is filled in
pub data Parse : Type 0 where
  ok too_large : Header → Parse
  need_more error : Parse

-- RW_WS_MAX_INBOUND
abbrev pub max_inbound : ℕ
max_inbound = 2048

-- The opcodes that the switch accepts.
unfoldable pub known_opcode : ℕ → Bool
known_opcode op = op == 0 || op == 1 || op == 2 || op == 8 || op == 9 || op == 10

unfoldable pub is_control : ℕ → Bool
is_control op = not (op / 2 ^ 3 % 2 == 0)

-- `v = (v << 8) | b` over some bytes, in a `uint64_t`
unfoldable pub big_endian : ℕ → Bytes → ℕ
big_endian v [] = v
big_endian v (b ∷ bs) = big_endian ((v * 2 ^ 8 + b) % 2 ^ 64) bs

-- The checks once the length is known.
unfoldable pub checked : Header → Parse
checked h =
    if is_control h.opcode && ltb 125 h.payload_len
    then error
    else if is_control h.opcode && not h.fin
    then error
    else if ltb max_inbound h.payload_len
    then too_large h
    else ok h

-- The length that follows the first two bytes.
unfoldable pub parse_len : Bytes → Bool → ℕ → ℕ → Parse
parse_len buf fin opcode len7 =
    if ltb len7 126
    then checked (record { fin = fin; opcode = opcode; payload_len = len7; header_len = 2 })
    else if len7 == 126
    then (if ltb (length buf) 4
        then need_more
        else let v = byte_at buf 2 * 2 ^ 8 + byte_at buf 3 in
          if ltb v 126
          then error
          else checked (record { fin = fin; opcode = opcode; payload_len = v; header_len = 4 }))
    else if ltb (length buf) 10
    then need_more
    else if not (byte_at buf 2 / 2 ^ 7 % 2 == 0)
    then error
    else let v = big_endian 0 (slice buf 2 8) in
      if ltb v 0x10000
      then error
      else checked (record { fin = fin; opcode = opcode; payload_len = v; header_len = 10 })

-- `rw_ws_parse_header`
unfoldable pub parse_header : Bytes → Parse
parse_header buf =
    if ltb (length buf) 2
    then need_more
    else let b0 = byte_at buf 0 in
      let b1 = byte_at buf 1 in
      if not (b0 / 2 ^ 4 % 2 ^ 3 == 0)
      then error
      else if not (known_opcode (b0 % 2 ^ 4))
      then error
      else if not (b1 / 2 ^ 7 % 2 == 0)
      then error
      else parse_len buf (not (b0 / 2 ^ 7 % 2 == 0)) (b0 % 2 ^ 4) (b1 % 2 ^ 7)

-- `needed` of `rw_ws_encode_header`
unfoldable pub needed : ℕ → ℕ
needed payload_len =
    if ltb 0xFFFF payload_len then 2 + 4 + 8 else if ltb 125 payload_len then 2 + 4 + 2 else 2 + 4

-- The bytes of the length, from `out[1]` on, with the mask bit set.
unfoldable pub length_bytes : ℕ → Bytes
length_bytes n =
    if leb n 125
    then (0x80 + n) ∷ []
    else if leb n 0xFFFF
    then (0x80 + 126) ∷ n / 2 ^ 8 % 256 ∷ n % 256 ∷ []
    else (0x80 + 127)
      ∷ n / 2 ^ 56 % 256
      ∷ n / 2 ^ 48 % 256
      ∷ n / 2 ^ 40 % 256
      ∷ n / 2 ^ 32 % 256
      ∷ n / 2 ^ 24 % 256
      ∷ n / 2 ^ 16 % 256
      ∷ n / 2 ^ 8 % 256
      ∷ n % 256
      ∷ []

-- `rw_ws_encode_header`, into a buffer of `out_len` bytes
unfoldable pub encode_header : ℕ → Bool → ℕ → ℕ → Option Bytes → Option Bytes
encode_header out_len fin opcode payload_len none = none
encode_header out_len fin opcode payload_len (some mask) =
    if ltb out_len (needed payload_len)
    then none
    else some (
        ((if fin then 0x80 else 0x00) + opcode % 2 ^ 4) ∷ (length_bytes payload_len ++ take 4 mask))

-- `rw_ws_apply_mask`
unfoldable pub apply_mask : Bytes → Bytes → ℕ → Bytes
apply_mask [] mask offset = []
apply_mask (d ∷ rest) mask offset =
    bit_xor d (byte_at mask (offset % 4)) ∷ apply_mask rest mask (offset + 1)

-- `rw_ws_build_frame`
unfoldable pub build_frame : ℕ → Bool → ℕ → Bytes → Bytes → Option Bytes
build_frame out_len fin opcode payload mask = do
  hdr ← encode_header out_len fin opcode (length payload) (some mask)
  if ltb (out_len - length hdr) (length payload)
      then none
      else some (hdr ++ apply_mask payload mask 0)

-- The reason of a close frame, cut to the 123 bytes behind the code; NULL is `none`.
unfoldable pub close_reason : Option Bytes → Bytes
close_reason none = []
close_reason (some reason) = take (125 - 2) reason

-- `rw_ws_build_close`
unfoldable pub build_close : ℕ → ℕ → Option Bytes → Bytes → Option Bytes
build_close out_len code reason mask =
    build_frame out_len true 8 (code / 2 ^ 8 % 256 ∷ code % 256 ∷ close_reason reason) mask
