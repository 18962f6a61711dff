-- ===== src/Config/Crc/OneByte.antt =====
-- The CRC of two byte strings that differ in one byte differs.
use Prim.Native.Nat.{bit_xor}
use native.Mathlib.Decide.{dec_lt}
use roosterwake.Prelude.{
  ℕ, zero, suc, ◌/◌, ◌%◌, ◌^◌, ◌<◌, ◌≤◌, ◌≡◌, ◌≢◌, sym, ◌∙◌, ap, ◌⊎◌, inl, inr, [], ◌∷◌, ◌++◌, All,
  arith,
}
use roosterwake.Prelude.Bits.{bit_xor-lt, bit_xor_twice, bit_xor_comm}
use roosterwake.Prelude.Bytes.{Bytes, IsByte}
use roosterwake.Config.Crc.{
  crc_bit, crc_bits, crc_loop, crc32, crc_bit_cases, crc_bit-lt, crc_bits-lt,
}

bit_xor_cancel : (a b k : ℕ) → bit_xor a k ≡ bit_xor b k → a ≡ b
bit_xor_cancel a b k e = sym (bit_xor_twice a k) ∙ ap (λ x. bit_xor x k) e ∙ bit_xor_twice b k

-- The polynomial's top bit is set, and a word shifted right has none.
top_bit_set : (a : ℕ) → a < 2 ^ 31 → 2 ^ 31 ≤ bit_xor a 0xEDB8_8320
top_bit_set a h = elim (dec_lt (bit_xor a 0xEDB8_8320) (2 ^ 31)) [
  | yes low ↦ absurd (
      omega (
        arith,
        bit_xor-lt 31 (bit_xor 0xEDB8_8320 a) a (rw bit_xor_comm low) h,
        bit_xor_twice 0xEDB8_8320 a,
      ))
  | no high ↦ omega arith
]

-- A round of the CRC loses nothing: the top bit of the result tells what the low bit was.
crc_bit-injective : (a b : ℕ) → a < 2 ^ 32 → b < 2 ^ 32 → crc_bit a ≡ crc_bit b → a ≡ b
crc_bit-injective a b ha hb e = both (crc_bit_cases a) (crc_bit_cases b)
  where
    halves : (k : ℕ) → bit_xor (a / 2) k ≡ bit_xor (b / 2) k → a / 2 ≡ b / 2
    halves k = bit_xor_cancel (a / 2) (b / 2) k

    clear : (c : ℕ) → c < 2 ^ 32 → bit_xor (c / 2) 0 < 2 ^ 31
    clear c h = bit_xor-lt 31 (c / 2) 0 (omega arith) (omega arith)

    Cases : ℕ → Type 0
    Cases c =
        ((c % 2 ≡ 0) × (crc_bit c ≡ bit_xor (c / 2) 0))
        ⊎ ((c % 2 ≡ 1) × (crc_bit c ≡ bit_xor (c / 2) 0xEDB8_8320))

    both : Cases a → Cases b → a ≡ b
    both (inl (p, x)) (inl (q, y)) = omega (arith, halves 0 (sym x ∙ e ∙ y))
    both (inl (p, x)) (inr (q, y)) =
        absurd (omega (arith, x, y, e, clear a ha, top_bit_set (b / 2) (omega arith)))
    both (inr (p, x)) (inl (q, y)) =
        absurd (omega (arith, x, y, e, clear b hb, top_bit_set (a / 2) (omega arith)))
    both (inr (p, x)) (inr (q, y)) = omega (arith, halves 0xEDB8_8320 (sym x ∙ e ∙ y))

crc_bits-injective : (n a b : ℕ) → a < 2 ^ 32 → b < 2 ^ 32 → crc_bits n a ≡ crc_bits n b → a ≡ b
unfolding crc_bits
crc_bits-injective zero a b ha hb e = e
crc_bits-injective (suc n) a b ha hb e =
    crc_bit-injective a b ha hb
      (crc_bits-injective n (crc_bit a) (crc_bit b) (crc_bit-lt a ha) (crc_bit-lt b hb) e)

-- Mixing a byte into a word stays within the word.
mix-lt : (a p : ℕ) → a < 2 ^ 32 → p < 256 → bit_xor a p < 2 ^ 32
mix-lt a p ha hp = bit_xor-lt 32 a p ha (omega arith)

mix : (a p : ℕ) → a < 2 ^ 32 → p < 256 → bit_xor a p % 2 ^ 32 ≡ bit_xor a p
mix a p ha hp = omega (arith, mix-lt a p ha hp)

crc_loop-injective :
    (bytes : Bytes) (a b : ℕ)
    → a < 2 ^ 32
    → b < 2 ^ 32
    → All IsByte bytes
    → crc_loop a bytes ≡ crc_loop b bytes
    → a ≡ b
unfolding crc_loop
crc_loop-injective [] a b ha hb w e = e
crc_loop-injective (p ∷ ps) a b ha hb (hp, w) e = bit_xor_cancel a b p (
    sym (mix a p ha hp)
    ∙ crc_bits-injective 8 _ _ (omega arith) (omega arith) (
        crc_loop-injective ps _ _ (crc_bits-lt 8 _ (omega arith)) (crc_bits-lt 8 _ (omega arith)) w
          e)
    ∙ mix b p hb hp)

-- Two strings from a common state, with one byte changed.
crc_loop_one_byte :
    (front back : Bytes) (x y c : ℕ)
    → c < 2 ^ 32
    → x < 256
    → y < 256
    → All IsByte back
    → crc_loop c (front ++ (x ∷ back)) ≡ crc_loop c (front ++ (y ∷ back))
    → x ≡ y
unfolding crc_loop
crc_loop_one_byte [] back x y c hc hx hy w e = bit_xor_cancel x y c (
    bit_xor_comm x c
    ∙ sym (mix c x hc hx)
    ∙ crc_bits-injective 8 _ _ (omega arith) (omega arith) (
        crc_loop-injective back _ _ (crc_bits-lt 8 _ (omega arith)) (crc_bits-lt 8 _ (omega arith))
          w e)
    ∙ mix c y hc hy
    ∙ bit_xor_comm c y)
crc_loop_one_byte (p ∷ front) back x y c hc hx hy w e =
    crc_loop_one_byte front back x y _ (crc_bits-lt 8 _ (omega arith)) hx hy w e

-- Changing one byte of a byte string, whatever stands before and behind it, changes its CRC-32.
pub crc32_one_byte :
    (front back : Bytes) (x y : ℕ)
    → x < 256
    → y < 256
    → All IsByte back
    → x ≢ y
    → crc32 (front ++ (x ∷ back)) ≢ crc32 (front ++ (y ∷ back))
crc32_one_byte front back x y hx hy w ne e = ne (
    crc_loop_one_byte front back x y 0xFFFF_FFFF (omega arith) hx hy w
      (bit_xor_cancel _ _ 0xFFFF_FFFF (unfold crc32 in e)))
