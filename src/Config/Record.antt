-- ===== src/Config/Record.antt =====
-- The configuration record, firmware/src/config/config.c and config.h.
-- A `char` array is the string that it holds, up to its first NUL; `SsidLen` and the like are the
-- widths with the terminator. A record that is NULL in the source is the empty list here: both are
-- refused as too short. Where `encode` refuses, the source leaves a partly written buffer that no
-- caller reads, and the model gives `none`.
pub mod Image
pub mod RoundTrip
pub mod Select
pub mod Sound
use roosterwake.Prelude.{
  ℕ, zero, suc, ◌+◌, ◌-◌, ◌%◌, ◌^◌, Bool, true, false, not, ◌&&◌, ◌||◌, Option, none, some, [], ◌∷◌,
  ltb, ◌==◌, if◌then◌else◌, length, replicate,
}
use roosterwake.Prelude.Bytes.{Bytes, byte_at, blit, slice, eq_bytes, le16, le32, bytes16, bytes32}
use roosterwake.Prelude.Options.{◌>>=◌}
use roosterwake.Config.Crc.{crc32}

pub record Config : Type 0 where
  pub version : ℕ
  pub seq : ℕ
  pub ssid : Bytes
  pub psk : Bytes
  pub wifi_auth : ℕ
  pub relay_url : Bytes
  pub device_id : Bytes
  pub token : Bytes
  pub owner_email : Bytes
  pub flags : ℕ

-- RW_CFG_VERSION, RW_CFG_HEADER_LEN, RW_CFG_PAYLOAD_LEN, RW_CFG_RECORD_LEN
abbrev pub cfg_version : ℕ
cfg_version = 2

abbrev pub header_len : ℕ
header_len = 32

abbrev pub payload_len : ℕ
payload_len = 443

abbrev pub record_len : ℕ
record_len = 475

-- RW_WIFI_AUTH_AUTO; open, WPA2 and WPA3 are 0, 1 and 2
abbrev pub auth_auto : ℕ
auth_auto = 255

-- `rw_config_init`
abbrev pub init : Config
init = record {
  version = cfg_version;
  seq = 0;
  ssid = [];
  psk = [];
  wifi_auth = auth_auto;
  relay_url = [];
  device_id = [];
  token = [];
  owner_email = [];
  flags = 0;
}

-- `put_str`, at an offset of the whole record: the payload begins behind the header.
unfoldable pub put_str : Bytes → ℕ → ℕ → Bytes → Option Bytes
put_str out off width value =
    if ltb (width - 1) (length value) then none else some (blit out (header_len + off) value)

-- The loop of `get_str`, with the bytes that it may still take.
unfoldable pub str_at : Bytes → ℕ → ℕ → Bytes
str_at buf off zero = []
str_at buf off (suc n) =
    let rest = str_at buf (suc off) n in if byte_at buf off == 0 then [] else byte_at buf off ∷ rest

-- `get_str`
unfoldable pub get_str : Bytes → ℕ → ℕ → Bytes
unfolding str_at
get_str rec off width = str_at rec (header_len + off) (width - 1)

-- The six string fields, in the order in which `rw_config_encode` writes them.
unfoldable pub put_strings : Config → Bytes → Option Bytes
put_strings cfg out = do
  out ← put_str out 0 33 cfg.ssid
  out ← put_str out 33 65 cfg.psk
  out ← put_str out 99 129 cfg.relay_url
  out ← put_str out 228 17 cfg.device_id
  out ← put_str out 245 65 cfg.token
  put_str out 310 129 cfg.owner_email

-- The header, once the payload is complete. `bytes 20..31` stay zero.
unfoldable pub put_header : Config → Bytes → Bytes
put_header cfg out =
    let out = blit out 0 (0x52 ∷ 0x57 ∷ 0x43 ∷ 0x46 ∷ []) in
    let out = blit out 4 (bytes16 cfg_version) in
    let out = blit out 6 (bytes16 0) in
    let out = blit out 8 (bytes32 cfg.seq) in
    let out = blit out 12 (bytes32 payload_len) in
    blit out 16 (bytes32 (crc32 (slice out header_len payload_len)))

-- `rw_config_encode`: the buffer that `out` becomes, or `none` where it returns 0.
unfoldable pub encode : Config → Bytes → Option Bytes
encode cfg out = if ltb (length out) record_len then none else do
  out ← put_strings cfg (blit out 0 (replicate record_len 0))
  let out = blit out (header_len + 98) (cfg.wifi_auth ∷ [])
  let out = blit out (header_len + 439) (bytes32 cfg.flags)
  some (put_header cfg out)

-- Anything outside the defined set means auto-detect.
unfoldable pub known_auth : ℕ → ℕ
known_auth auth = if auth == 0 || auth == 1 || auth == 2 then auth else auth_auto

-- The fields of a record that passed the checks.
unfoldable pub fields : Bytes → Config
fields rec = record {
  version = le16 rec 4;
  seq = le32 rec 8;
  ssid = get_str rec 0 33;
  psk = get_str rec 33 65;
  wifi_auth = known_auth (byte_at rec (header_len + 98));
  relay_url = get_str rec 99 129;
  device_id = get_str rec 228 17;
  token = get_str rec 245 65;
  owner_email = get_str rec 310 129;
  flags = le32 rec (header_len + 439);
}

-- `rw_config_decode`
unfoldable pub decode : Bytes → Option Config
decode rec =
    if ltb (length rec) header_len
    then none
    else if not (eq_bytes (slice rec 0 4) (0x52 ∷ 0x57 ∷ 0x43 ∷ 0x46 ∷ []))
    then none
    else if not (le16 rec 4 == cfg_version)
    then none
    else if not (le32 rec 12 == payload_len)
    then none
    else if ltb (length rec) (header_len + payload_len)
    then none
    else if not (crc32 (slice rec header_len payload_len) == le32 rec 16)
    then none
    else some (fields rec)

-- `rw_seq_newer`: `(int32_t)(a - b) > 0`
unfoldable pub seq_newer : ℕ → ℕ → Bool
seq_newer a b = let diff = (a + 2 ^ 32 - b) % 2 ^ 32 in ltb 0 diff && ltb diff (2 ^ 31)

-- Which slot `rw_config_select` takes: its return values 0, 1 and 2.
pub data Winner : Type 0 where
  neither slot_a slot_b : Winner

-- The choice between two decoded candidates.
unfoldable pub choose : Option Config → Option Config → Winner × Config
choose (some ca) (some cb) = if seq_newer cb.seq ca.seq then (slot_b, cb) else (slot_a, ca)
choose (some ca) none = (slot_a, ca)
choose none (some cb) = (slot_b, cb)
choose none none = (neither, init)

-- `rw_config_select`
unfoldable pub select : Bytes → Bytes → Winner × Config
select a b = choose (decode a) (decode b)
