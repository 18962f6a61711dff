-- ===== src/Tests/Records.antt =====
-- The configuration record, its CRC and MAC addresses.
use mathlib.Core.Logic.{◌≢◌, ◌↔◌}
use roosterwake.Prelude.{
  ◌≡◌, refl, some, none, [], ◌∷◌, ◌++◌, ◌≤◌, replicate, length, true, false, arith,
}
use roosterwake.Prelude.Bytes.{Bytes}
use roosterwake.Config.Crc.{crc32}
use roosterwake.Config.Crc.OneByte.{crc32_one_byte}
use roosterwake.Config.Record.{encode, decode, seq_newer, record_len}
use roosterwake.Config.Record.Image.{image, encode-image, Fits}
use roosterwake.Config.Record.RoundTrip.{IsConfig, decode-encode_config, decode_encoded, encode_iff}
use roosterwake.Config.Record.Select.{seq_newer-next_seq}
use roosterwake.Config.Record.Sound.{decode-IsConfig}
use roosterwake.Config.Mac.{
  mac_parse, mac_format, read_nibbles, push_nibble, hex_nibble, is_separator, octets,
}
use roosterwake.Config.Mac.Parse.{mac_parse-mac_format}
use roosterwake.Tests.Samples.{codes, home, home-IsConfig}

crc_check : crc32 (codes "123456789") ≡ 0xCBF4_3926
unfolding crc32
crc_check = refl

abbrev buffer : Bytes
buffer = replicate 475 0xAA

home-Fits : Fits home
home-Fits = omega arith

decode-encode_config_example : (r : Bytes) × (encode home buffer ≡ some r) × (decode r ≡ some home)
decode-encode_config_example =
    decode-encode_config home buffer home-IsConfig home-Fits (omega arith)

home_refused : encode home (replicate 474 0) ≡ none
unfolding encode
home_refused = refl

crc32_one_byte_example :
    crc32 (codes "wake me" ++ (b'!' ∷ codes " now"))
    ≢ crc32 (codes "wake me" ++ (b'?' ∷ codes " now"))
crc32_one_byte_example =
    crc32_one_byte (codes "wake me") (codes " now") b'!' b'?' (omega arith) (omega arith)
      (omega arith) (omega arith)

mac_text :
    mac_parse (codes "aa-BB:cc.dd ee0f") ≡ some (0xAA ∷ 0xBB ∷ 0xCC ∷ 0xDD ∷ 0xEE ∷ 0x0F ∷ [])
unfolding mac_parse read_nibbles push_nibble hex_nibble is_separator octets
mac_text = refl

mac_too_long : mac_parse (codes "aabbccddeeff0") ≡ none
unfolding mac_parse read_nibbles push_nibble hex_nibble is_separator octets
mac_too_long = refl

seq_newer-next_seq_example : (seq_newer 0 0xFFFF_FFFF ≡ true) × (seq_newer 0xFFFF_FFFF 0 ≡ false)
seq_newer-next_seq_example = seq_newer-next_seq 0xFFFF_FFFF (omega arith)

home_read : decode (image home buffer) ≡ some home
home_read =
    decode_encoded home buffer home-IsConfig (encode-image home buffer (omega arith) home-Fits)

decode-IsConfig_example : IsConfig home
decode-IsConfig_example = decode-IsConfig (image home buffer) home_read

encode_iff_example :
    ((r : Bytes) × (encode home buffer ≡ some r)) ↔ (Fits home × (record_len ≤ length buffer))
encode_iff_example = encode_iff home buffer

abbrev mac : Bytes
mac = 0xAA ∷ 0xBB ∷ 0xCC ∷ 0xDD ∷ 0xEE ∷ 0x0F ∷ []

mac_parse-mac_format_example : mac_parse (mac_format mac) ≡ some mac
mac_parse-mac_format_example = mac_parse-mac_format mac (omega arith) refl
