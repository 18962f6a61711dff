-- ===== src/Config/Record/Sound.antt =====
-- Whatever `decode` accepts, from whatever bytes, is a configuration that `encode` can write.
use roosterwake.Prelude.{ℕ, zero, suc, ◌-◌, ◌≤◌, ◌≡◌, some, subst, ◌+◌, length, arith}
use roosterwake.Prelude.Bytes.{Bytes, byte_at, le16, le32-lt}
use roosterwake.Config.Record.{
  Config, decode, encode, fields, str_at, get_str, known_auth, header_len, record_len,
}
use roosterwake.Config.Record.Image.{NoNul, Fits, image, encode-image}
use roosterwake.Config.Record.RoundTrip.{IsConfig}

str_at_shape :
    (buf : Bytes) (off n : ℕ) → NoNul (str_at buf off n) × (length (str_at buf off n) ≤ n)
unfolding str_at
str_at_shape buf off zero = (tt, omega arith)
str_at_shape buf off (suc n) = ground (arith, str_at_shape buf (suc off) n)

get_str_shape :
    (rec : Bytes) (off width : ℕ)
    → NoNul (get_str rec off width) × (length (get_str rec off width) ≤ width - 1)
get_str_shape rec off width = unfold get_str in str_at_shape rec (header_len + off) (width - 1)

known_auth_twice : (auth : ℕ) → known_auth (known_auth auth) ≡ known_auth auth
unfolding known_auth
known_auth_twice auth = ground arith

fields-IsConfig : (rec : Bytes) → le16 rec 4 ≡ 2 → IsConfig (fields rec)
unfolding fields
fields-IsConfig rec v = record {
  version = v;
  seq = le32-lt rec 8;
  flags = le32-lt rec 471;
  auth = known_auth_twice (byte_at rec 130);
  ssid = (get_str_shape rec 0 33).0;
  psk = (get_str_shape rec 33 65).0;
  relay_url = (get_str_shape rec 99 129).0;
  device_id = (get_str_shape rec 228 17).0;
  token = (get_str_shape rec 245 65).0;
  owner_email = (get_str_shape rec 310 129).0;
}

fields-Fits : (rec : Bytes) → Fits (fields rec)
unfolding fields
fields-Fits rec = record {
  ssid = (get_str_shape rec 0 33).1;
  psk = (get_str_shape rec 33 65).1;
  relay_url = (get_str_shape rec 99 129).1;
  device_id = (get_str_shape rec 228 17).1;
  token = (get_str_shape rec 245 65).1;
  owner_email = (get_str_shape rec 310 129).1;
}

decode-fields :
    (rec : Bytes) {cfg : Config} → decode rec ≡ some cfg → (le16 rec 4 ≡ 2) × (fields rec ≡ cfg)
unfolding decode
decode-fields rec e = ground arith

-- A decoded configuration is well formed: its strings have no NUL, its words are 32 bits wide and
-- its authentication mode is a known one.
pub decode-IsConfig : (rec : Bytes) {cfg : Config} → decode rec ≡ some cfg → IsConfig cfg
decode-IsConfig rec e =
    let (v, same) = decode-fields rec e in subst IsConfig same (fields-IsConfig rec v)

-- It fits the record: `encode` into any buffer of a record's length succeeds on it.
pub encode-decode :
    (rec out : Bytes) {cfg : Config}
    → decode rec ≡ some cfg
    → record_len ≤ length out
    → encode cfg out ≡ some (image cfg out)
encode-decode rec out {cfg} e h =
    encode-image cfg out h (subst Fits (decode-fields rec e).1 (fields-Fits rec))
