-- ===== src/Config/Mac.antt =====
-- MAC addresses at the input boundary, the end of firmware/src/config/config.c.
pub mod Parse
use roosterwake.Prelude.{
  ℕ, zero, suc, ◌+◌, ◌-◌, ◌*◌, ◌/◌, ◌%◌, ◌^◌, Bool, true, false, not, ◌&&◌, ◌||◌, Option, none,
  some, List, [], ◌∷◌, ◌++◌, ltb, leb, ◌==◌, if◌then◌else◌, length,
}
use roosterwake.Prelude.Bytes.{Bytes, byte_at}
use roosterwake.Prelude.Options.{◌>>=◌}

-- `hex_nibble`, with `none` for -1
unfoldable pub hex_nibble : ℕ → Option ℕ
hex_nibble c =
    if leb b'0' c && leb c b'9'
    then some (c - b'0')
    else if leb b'a' c && leb c b'f'
    then some (c - b'a' + 10)
    else if leb b'A' c && leb c b'F'
    then some (c - b'A' + 10)
    else none

unfoldable pub is_separator : ℕ → Bool
is_separator c = c == b':' || c == b'-' || c == b'.' || c == b' '

-- The digits' value goes behind the nibbles read so far, of which there may be 12.
unfoldable pub push_nibble : Bytes → Option ℕ → Option Bytes
push_nibble nibbles none = none
push_nibble nibbles (some v) = if leb 12 (length nibbles) then none else some (nibbles ++ (v ∷ []))

-- The loop over the text.
unfoldable pub read_nibbles : Bytes → Bytes → Option Bytes
read_nibbles nibbles [] = some nibbles
read_nibbles nibbles (c ∷ text) =
    let pushed = push_nibble nibbles (hex_nibble c) in
    let skipped = read_nibbles nibbles text in
    if is_separator c then skipped else (pushed >>= λ more. read_nibbles more text)

-- The octets of an even number of nibbles, `(hi << 4) | lo` each.
unfoldable pub octets : Bytes → Bytes
octets (hi ∷ lo ∷ rest) = (hi * 2 ^ 4 + lo) % 256 ∷ octets rest
octets _ = []

-- `rw_mac_parse`
unfoldable pub mac_parse : Bytes → Option Bytes
mac_parse text = do
  nibbles ← read_nibbles [] text
  if not (length nibbles == 12) then none else some (octets nibbles)

-- `hex[v]` of `rw_mac_format`
unfoldable pub hex_digit : ℕ → ℕ
hex_digit v = if ltb v 10 then b'0' + v else b'A' + (v - 10)

-- `rw_mac_format`, without the NUL
unfoldable pub mac_format : Bytes → Bytes
unfolding hex_digit
mac_format [] = []
mac_format (o ∷ []) = hex_digit (o / 2 ^ 4) ∷ hex_digit (o % 2 ^ 4) ∷ []
mac_format (o ∷ p ∷ rest) =
    hex_digit (o / 2 ^ 4) ∷ hex_digit (o % 2 ^ 4) ∷ b':' ∷ mac_format (p ∷ rest)

unfoldable pub all_equal : ℕ → Bytes → Bool
all_equal v [] = true
all_equal v (o ∷ rest) = o == v && all_equal v rest

-- `rw_mac_wakeable`
unfoldable pub mac_wakeable : Bytes → Bool
unfolding all_equal
mac_wakeable mac =
    if byte_at mac 0 % 2 == 1 then false else not (all_equal 0x00 mac) && not (all_equal 0xFF mac)
