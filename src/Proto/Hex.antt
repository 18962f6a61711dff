-- ===== src/Proto/Hex.antt =====
-- Hexadecimal text, `rw_hex_encode` and `rw_hex_decode` of firmware/src/proto/auth.c.
use roosterwake.Prelude.{
  ℕ, zero, suc, ◌+◌, ◌-◌, ◌*◌, ◌/◌, ◌%◌, ◌^◌, ◌<◌, ◌≡◌, ◌≢◌, refl, not, ◌&&◌, Option, none, some,
  [], ◌∷◌, ltb, leb, ◌==◌, if◌then◌else◌, length, All, arith,
}
use roosterwake.Prelude.Bytes.{Bytes, IsByte}
use roosterwake.Prelude.Options.{◌>>=◌, >>=-eq-some}

-- `hex[v]`
unfoldable pub hex_char : ℕ → ℕ
hex_char v = if ltb v 10 then b'0' + v else b'a' + (v - 10)

-- `rw_hex_encode`, without the NUL
unfoldable pub hex_encode : Bytes → Bytes
hex_encode [] = []
hex_encode (b ∷ bs) = hex_char (b / 2 ^ 4) ∷ hex_char (b % 2 ^ 4) ∷ hex_encode bs

-- The value of one lower-case digit, with `none` for -1
unfoldable pub nibble : ℕ → Option ℕ
nibble c =
    if leb b'0' c && leb c b'9'
    then some (c - b'0')
    else if leb b'a' c && leb c b'f'
    then some (c - b'a' + 10)
    else none

-- The loop of `rw_hex_decode`
unfoldable pub hex_pairs : Bytes → Option Bytes
hex_pairs (a ∷ b ∷ rest) = do
  hi ← nibble a
  lo ← nibble b
  bytes ← hex_pairs rest
  some ((hi * 2 ^ 4 + lo) ∷ bytes)
hex_pairs _ = some []

-- `rw_hex_decode`; a NULL `hex` is `none`.
unfoldable pub hex_decode : Option Bytes → ℕ → Option Bytes
hex_decode none out_len = none
hex_decode (some hex) out_len = if not (length hex == out_len * 2) then none else hex_pairs hex

pub length-hex_encode : (bs : Bytes) → length (hex_encode bs) ≡ length bs * 2
unfolding hex_encode
length-hex_encode [] = omega arith
length-hex_encode (b ∷ bs) = omega (arith, length-hex_encode bs)

nibble-hex_char : (v : ℕ) → v < 16 → nibble (hex_char v) ≡ some v
unfolding nibble hex_char
nibble-hex_char v h = ground arith

hex_pairs-hex_encode : (bs : Bytes) → All IsByte bs → hex_pairs (hex_encode bs) ≡ some bs
unfolding hex_pairs hex_encode
hex_pairs-hex_encode [] h = refl
hex_pairs-hex_encode (b ∷ bs) (h, hs) =
    let whole : b / 2 ^ 4 * 2 ^ 4 + b % 2 ^ 4 ≡ b = omega arith in
    rw
      (
        nibble-hex_char (b / 2 ^ 4) (omega arith),
        nibble-hex_char (b % 2 ^ 4) (omega arith),
        hex_pairs-hex_encode bs hs,
        whole,
      )
      refl

-- Bytes that are written as hexadecimal text are read back.
pub hex_decode-hex_encode :
    (bs : Bytes) → All IsByte bs → hex_decode (some (hex_encode bs)) (length bs) ≡ some bs
unfolding hex_decode
hex_decode-hex_encode bs h =
    let size = length-hex_encode bs in let pairs = hex_pairs-hex_encode bs h in ground arith

hex_char-nibble : (c v : ℕ) → nibble c ≡ some v → (hex_char v ≡ c) × (v < 16)
unfolding nibble hex_char
hex_char-nibble c v e = ground arith

pair_step :
    (a b : ℕ) (rest bs : Bytes)
    → hex_pairs (a ∷ b ∷ rest) ≡ some bs
    → (hi : ℕ) × (lo : ℕ) × (more : Bytes) × (nibble a ≡ some hi)
      × (nibble b ≡ some lo)
      × (hex_pairs rest ≡ some more)
      × (bs ≡ (hi * 2 ^ 4 + lo) ∷ more)
unfolding hex_pairs
pair_step a b rest bs e =
    let (hi, p, e1) = >>=-eq-some (nibble a) _ e in
    let (lo, q, e2) = >>=-eq-some (nibble b) _ e1 in
    let (more, r, e3) = >>=-eq-some (hex_pairs rest) _ e2 in (hi, lo, more, p, q, r, cc)

no_bytes : (b : ℕ) (bs : Bytes) → hex_pairs [] ≢ some (b ∷ bs)
unfolding hex_pairs
no_bytes b bs e = ground arith

hex_encode-hex_pairs :
    (hex bs : Bytes) (n : ℕ)
    → length hex ≡ n * 2
    → hex_pairs hex ≡ some bs
    → (hex_encode bs ≡ hex) × (length bs ≡ n) × All IsByte bs
unfolding hex_encode
hex_encode-hex_pairs [] [] n l e = (refl, omega arith, tt)
hex_encode-hex_pairs [] (b ∷ bs) n l e = absurd (no_bytes b bs e)
hex_encode-hex_pairs (a ∷ []) bs n l e = absurd (omega arith)
hex_encode-hex_pairs (a ∷ b ∷ rest) bs zero l e = absurd (omega arith)
hex_encode-hex_pairs (a ∷ b ∷ rest) bs (suc n) l e =
    let (hi, lo, more, p, q, r, same) = pair_step a b rest bs e in
    let (digit_a, small_a) = hex_char-nibble a hi p in
    let (digit_b, small_b) = hex_char-nibble b lo q in
    let (text, size, bytes) = hex_encode-hex_pairs rest more n (omega arith) r in
    let high : (hi * 2 ^ 4 + lo) / 2 ^ 4 ≡ hi = omega arith in
    let low : (hi * 2 ^ 4 + lo) % 2 ^ 4 ≡ lo = omega arith in
    rw (same, high, low, digit_a, digit_b, text) (refl, omega arith, (omega arith, bytes))

decode_cases :
    (hex bs : Bytes) (n : ℕ)
    → hex_decode (some hex) n ≡ some bs
    → (length hex ≡ n * 2) × (hex_pairs hex ≡ some bs)
unfolding hex_decode
decode_cases hex bs n e = ground arith

-- Text that is accepted for `n` bytes is the one hexadecimal text of what it decodes to, which is `n` bytes.
pub hex_encode-hex_decode :
    (hex bs : Bytes) (n : ℕ)
    → hex_decode (some hex) n ≡ some bs
    → (hex_encode bs ≡ hex) × (length bs ≡ n) × All IsByte bs
hex_encode-hex_decode hex bs n e =
    let (size, pairs) = decode_cases hex bs n e in hex_encode-hex_pairs hex bs n size pairs
