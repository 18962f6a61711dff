-- ===== src/Config/Crc.antt =====
-- CRC-32/ISO-HDLC, `rw_crc32` of firmware/src/config/config.c. The same loop is `crc32` of
-- firmware/src/diag/stuck.c.
pub mod OneByte
use Prim.Native.Nat.{bit_and, bit_xor}
use roosterwake.Prelude.{
  ℕ, zero, suc, ◌-◌, ◌/◌, ◌%◌, ◌^◌, ◌<◌, ◌≡◌, refl, ◌⊎◌, inl, inr, List, [], ◌∷◌, arith,
}
use roosterwake.Prelude.Bits.{bit_xor-lt}
use roosterwake.Prelude.Bytes.{Bytes}

-- `(crc >> 1) ^ (0xEDB88320u & (uint32_t)(-(int32_t)(crc & 1u)))`
unfoldable pub crc_bit : ℕ → ℕ
crc_bit crc = bit_xor (crc / 2) (bit_and 0xEDB8_8320 ((2 ^ 32 - crc % 2) % 2 ^ 32))

-- The inner loop, with the rounds that are left.
unfoldable pub crc_bits : ℕ → ℕ → ℕ
crc_bits zero crc = crc
crc_bits (suc n) crc = crc_bits n (crc_bit crc)

-- `crc ^= p[i]` is stored in a `uint32_t`.
unfoldable pub crc_loop : ℕ → Bytes → ℕ
crc_loop crc [] = crc
crc_loop crc (p ∷ ps) = crc_loop (crc_bits 8 (bit_xor crc p % 2 ^ 32)) ps

unfoldable pub crc32 : Bytes → ℕ
unfolding crc_loop crc_bits crc_bit
crc32 bytes = bit_xor (crc_loop 0xFFFF_FFFF bytes) 0xFFFF_FFFF

-- The masked polynomial is all of it or nothing.
pub crc_bit_cases :
    (crc : ℕ)
    → ((crc % 2 ≡ 0) × (crc_bit crc ≡ bit_xor (crc / 2) 0))
      ⊎ ((crc % 2 ≡ 1) × (crc_bit crc ≡ bit_xor (crc / 2) 0xEDB8_8320))
unfolding crc_bit
crc_bit_cases crc = split (crc % 2) (omega arith)
  where
    split :
        (b : ℕ)
        → b < 2
        → ((b ≡ 0)
            × (bit_xor (crc / 2) (bit_and 0xEDB8_8320 ((2 ^ 32 - b) % 2 ^ 32))
                ≡ bit_xor (crc / 2) 0))
          ⊎ ((b ≡ 1)
              × (bit_xor (crc / 2) (bit_and 0xEDB8_8320 ((2 ^ 32 - b) % 2 ^ 32))
                  ≡ bit_xor (crc / 2) 0xEDB8_8320))
    split zero h = inl (refl, refl)
    split (suc zero) h = inr (refl, refl)
    split (suc (suc b)) h = absurd (omega arith)

pub crc_bit-lt : (crc : ℕ) → crc < 2 ^ 32 → crc_bit crc < 2 ^ 32
crc_bit-lt crc h = elim (crc_bit_cases crc) [
  | inl (_, e) ↦ rw e (bit_xor-lt 32 (crc / 2) 0 (omega arith) (omega arith))
  | inr (_, e) ↦ rw e (bit_xor-lt 32 (crc / 2) 0xEDB8_8320 (omega arith) (omega arith))
]

pub crc_bits-lt : (n crc : ℕ) → crc < 2 ^ 32 → crc_bits n crc < 2 ^ 32
unfolding crc_bits
crc_bits-lt zero crc h = h
crc_bits-lt (suc n) crc h = crc_bits-lt n (crc_bit crc) (crc_bit-lt crc h)

pub crc_loop-lt : (crc : ℕ) (bytes : Bytes) → crc < 2 ^ 32 → crc_loop crc bytes < 2 ^ 32
unfolding crc_loop
crc_loop-lt crc [] h = h
crc_loop-lt crc (p ∷ ps) h =
    crc_loop-lt (crc_bits 8 (bit_xor crc p % 2 ^ 32)) ps
      (crc_bits-lt 8 (bit_xor crc p % 2 ^ 32) (omega arith))

pub crc32-lt : (bytes : Bytes) → crc32 bytes < 2 ^ 32
crc32-lt bytes =
    unfold crc32 in
    bit_xor-lt 32 (crc_loop 0xFFFF_FFFF bytes) 0xFFFF_FFFF
      (crc_loop-lt 0xFFFF_FFFF bytes (omega arith)) (omega arith)
