-- ===== src/Ota/Image.antt =====
-- The signed header of a firmware image, firmware/src/ota/image.c. SHA-256, the ECDSA check of Mbed TLS
-- and the public key of firmware/src/ota/signing_key.c are parameters.
pub mod Verified
use roosterwake.Prelude.{
  ℕ, zero, suc, ◌+◌, Bool, true, false, not, ◌&&◌, ◌||◌, Option, none, some, [], ◌∷◌, ltb, ◌==◌,
  if◌then◌else◌, length, drop, replicate,
}
use roosterwake.Prelude.Bytes.{Bytes, eq_bytes, slice, le16, le32}
use roosterwake.Prelude.Options.{◌>>=◌}

-- `rw_ota_status_t`
pub data OtaStatus : Type 0 where
  ota_ok err_short err_magic err_format err_flags err_length err_board err_version err_signature
        err_digest :
      OtaStatus

-- `rw_ota_header_t`, its strings without their NUL
pub record ImageHeader : Type 0 where
  pub format : ℕ
  pub flags : ℕ
  pub payload_len : ℕ
  pub version : Bytes
  pub board : Bytes
  pub payload_sha256 : Bytes

-- "RWFW"
abbrev pub ota_magic : Bytes
ota_magic = 0x52 ∷ 0x57 ∷ 0x46 ∷ 0x57 ∷ []

-- `rw_ota_board_tag`, for the RP2350 and the RP2040
abbrev pub board_tag : Bool → Bytes
board_tag true = 0x50 ∷ 0x32 ∷ 0x57 ∷ []
board_tag false = 0x50 ∷ 0x57 ∷ []

-- The bytes up to the first NUL, where they are all printable.
unfoldable pub printable_prefix : Bytes → Option Bytes
printable_prefix [] = some []
printable_prefix (c ∷ cs) =
    let rest = printable_prefix cs in
    if c == 0
    then some []
    else if ltb c 0x20 || ltb 0x7E c
    then none
    else (rest >>= λ text. some (c ∷ text))

unfoldable pub all_nul : Bytes → Bool
all_nul [] = true
all_nul (c ∷ cs) = c == 0 && all_nul cs

-- `field_str` of the `width` bytes `raw`
unfoldable pub field_str : Bytes → ℕ → ℕ → Option Bytes
field_str raw width out_len = if ltb out_len (width + 1) then none else do
  text ← printable_prefix raw
  if length text == 0
      then none
      else if not (all_nul (drop (length text) raw))
      then none
      else some text

-- What `rw_ota_header_open` returns, with `*out` where that is RW_OTA_OK.
pub data Opened : Type 0 where
  opened : ImageHeader → Opened
  refused : OtaStatus → Opened

module _ (sha256 : Bytes → Option Bytes) (ecdsa_verify : Bytes → Bytes → Bytes → Bytes → Bool)
    (public_key : Bytes) where
  -- `verify_signature`: the point, the digest, `r` and `s` go to the ECDSA check.
  unfoldable pub verify_signature : Bytes → OtaStatus
  verify_signature raw = elim (sha256 (slice raw 0 64)) [
    | none ↦ err_signature
    | some digest ↦
        if ecdsa_verify (0x04 ∷ public_key) digest (slice raw 64 32) (slice raw 96 32)
        then ota_ok
        else err_signature
  ]

  unfoldable pub signed : ImageHeader → OtaStatus → Opened
  signed h ota_ok = opened h
  signed h status = refused status

  -- The strings, the board and the signature, once the numbers are in order.
  unfoldable pub open_strings : Bool → Bytes → Opened
  open_strings rp2350 raw = elim (field_str (slice raw 12 16) 16 17) [
    | none ↦ refused err_version
    | some version ↦ elim (field_str (slice raw 28 4) 4 5) [
      | none ↦ refused err_board
      | some board ↦
          if not (eq_bytes board (board_tag rp2350))
          then refused err_board
          else signed
              (record {
                format = le16 raw 4;
                flags = le16 raw 6;
                payload_len = le32 raw 8;
                version = version;
                board = board;
                payload_sha256 = slice raw 32 32;
              })
              (verify_signature raw)
    ]
  ]

  -- `rw_ota_header_open`; a NULL `raw` is `none`.
  unfoldable pub header_open : Bool → Option Bytes → ℕ → Opened
  header_open rp2350 none max_payload = refused err_short
  header_open rp2350 (some raw) max_payload =
      if ltb (length raw) 128
      then refused err_short
      else if not (eq_bytes (slice raw 0 4) ota_magic)
      then refused err_magic
      else if not (le16 raw 4 == 1)
      then refused err_format
      else if not (le16 raw 6 == 0)
      then refused err_flags
      else if le32 raw 8 == 0 || ltb max_payload (le32 raw 8)
      then refused err_length
      else open_strings rp2350 raw
