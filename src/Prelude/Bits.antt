-- ===== src/Prelude/Bits.antt =====
-- Laws of `bit_xor` and of masks at variables, from the recursion on digits that the native
-- operations stand for.
use Prim.Native.Nat.{
  ℕ, zero, suc, ◌+◌, ◌-◌, ◌*◌, ◌/◌, ◌%◌, ◌^◌, ◌≤◌, ◌<◌, differ, bit_xor, digits, bitwise,
  bit_xor-bitwise, bit_or, bit_or-bitwise, max,
}
use mathlib.Core.Path.{◌≡◌, refl, ap, sym, ◌∙◌}
use mathlib.Core.WellFounded.{induction}
use mathlib.Core.WellFounded.{Acc, WellFounded}
use native.Mathlib.Nat.{pow-suc}
use native.Mathlib.Omega.{arith}

-- Every number is reached from below.
lt-Acc : (bound n : ℕ) → n < bound → Acc ◌<◌ n
lt-Acc zero n h = absurd (omega arith)
lt-Acc (suc bound) n h = Acc.intro n λ m below. lt-Acc bound m (omega arith)

pub lt_wf : WellFounded ◌<◌
lt_wf = record { apply = λ n. lt-Acc (n + 1) n (omega arith) }

-- Digit by digit with a round count, as the native operation is defined. A count that covers the
-- first word is enough: one round more changes nothing.
module _ (empty : ℕ → ℕ) (digit : ℕ → ℕ → ℕ) where
  abbrev rounds : ℕ → ℕ → ℕ → ℕ
  rounds n x y = digits empty digit n x y

  one_more : (n x y : ℕ) → x ≤ n → rounds (suc n) x y ≡ rounds n x y
  one_more zero zero y h = refl
  one_more (suc n) zero y h = refl
  one_more zero (suc x) y h = absurd (omega arith)
  one_more (suc n) (suc x) y h =
      ap (λ t. t * 2 + digit (suc x % 2) (y % 2)) (one_more n (suc x / 2) (y / 2) (omega arith))

  -- `n` and `k` rounds on top of it.
  abbrev on_top : ℕ → ℕ → ℕ
  on_top zero n = n
  on_top (suc k) n = suc (on_top k n)

  on_top_sum : (k n : ℕ) → on_top k n ≡ k + n
  on_top_sum zero n = omega arith
  on_top_sum (suc k) n = omega (arith, on_top_sum k n)

  many_more : (k n x y : ℕ) → x ≤ n → rounds (on_top k n) x y ≡ rounds n x y
  many_more zero n x y h = refl
  many_more (suc k) n x y h =
      one_more (on_top k n) x y (omega (arith, on_top_sum k n)) ∙ many_more k n x y h

  lowest_digit :
      (x y : ℕ)
      → bitwise empty digit (suc x) y
        ≡ bitwise empty digit (suc x / 2) (y / 2) * 2 + digit (suc x % 2) (y % 2)
  lowest_digit x y =
      let half : ℕ = suc x / 2 in
      let level : on_top (x - half) half ≡ x = on_top_sum (x - half) half ∙ omega arith in
      ap (λ t. t * 2 + digit (suc x % 2) (y % 2))
        (sym (ap (λ n. rounds n half (y / 2)) level)
          ∙ many_more (x - half) half half (y / 2) (omega arith))

pub zero-bit_xor : (b : ℕ) → bit_xor 0 b ≡ b
zero-bit_xor b = simp bit_xor-bitwise

pub bit_xor_step : (a b : ℕ) → bit_xor a b ≡ bit_xor (a / 2) (b / 2) * 2 + differ (a % 2) (b % 2)
bit_xor_step zero b = omega (arith, zero-bit_xor b, zero-bit_xor (b / 2))
bit_xor_step (suc a) b = simp bit_xor-bitwise (lowest_digit (λ y. y) differ a b)

-- On binary digits `differ` is the sum without its carry.
differ_digits : (x y : ℕ) → differ x y ≡ (x - y) + (y - x)
differ_digits zero y = omega arith
differ_digits (suc x) zero = omega arith
differ_digits (suc x) (suc y) = omega (arith, differ_digits x y)

pub bit_xor-div : (a b : ℕ) → bit_xor a b / 2 ≡ bit_xor (a / 2) (b / 2)
bit_xor-div a b = omega (arith, bit_xor_step a b, differ_digits (a % 2) (b % 2))

pub bit_xor-mod : (a b : ℕ) → bit_xor a b % 2 ≡ differ (a % 2) (b % 2)
bit_xor-mod a b = omega (arith, bit_xor_step a b, differ_digits (a % 2) (b % 2))

pub bit_xor_self : (a : ℕ) → bit_xor a a ≡ 0
bit_xor_self a = induction lt_wf {C = λ n. bit_xor n n ≡ 0} a step
  where
    step : (n : ℕ) → ((m : ℕ) → m < n → bit_xor m m ≡ 0) → bit_xor n n ≡ 0
    step zero ih = refl
    step (suc n) ih = omega (
      arith,
      bit_xor_step (suc n) (suc n),
      differ_digits (suc n % 2) (suc n % 2),
      ih (suc n / 2) (omega arith),
    )

-- One digit of `x ^ k ^ k`.
bit_xor_twice_step :
    (a b : ℕ) → bit_xor (bit_xor (a / 2) (b / 2)) (b / 2) ≡ a / 2 → bit_xor (bit_xor a b) b ≡ a
bit_xor_twice_step a b h = omega (
  arith,
  bit_xor_step (bit_xor a b) b,
  rw (← bit_xor-div a b) at h,
  bit_xor-mod a b,
  differ_digits (a % 2) (b % 2),
  differ_digits (bit_xor a b % 2) (b % 2),
)

-- `x ^ k ^ k` is `x`, for words of every width.
pub bit_xor_twice : (a b : ℕ) → bit_xor (bit_xor a b) b ≡ a
bit_xor_twice a b = induction lt_wf {C = λ n. (b : ℕ) → bit_xor (bit_xor n b) b ≡ n} a step b
  where
    step :
        (n : ℕ)
        → ((m : ℕ) → m < n → (b : ℕ) → bit_xor (bit_xor m b) b ≡ m)
        → (b : ℕ) → bit_xor (bit_xor n b) b ≡ n
    step zero ih b = rw zero-bit_xor (bit_xor_self b)
    step (suc n) ih b = bit_xor_twice_step (suc n) b (ih (suc n / 2) (omega arith) (b / 2))

pub bit_xor-zero : (a : ℕ) → bit_xor a 0 ≡ a
bit_xor-zero a = induction lt_wf {C = λ n. bit_xor n 0 ≡ n} a step
  where
    step : (n : ℕ) → ((m : ℕ) → m < n → bit_xor m 0 ≡ m) → bit_xor n 0 ≡ n
    step zero ih = refl
    step (suc n) ih =
        omega
          (arith, bit_xor_step (suc n) 0, differ_digits (suc n % 2) 0, ih (suc n / 2) (omega arith))

pub bit_xor_comm : (a b : ℕ) → bit_xor a b ≡ bit_xor b a
bit_xor_comm a b = induction lt_wf {C = λ n. (b : ℕ) → bit_xor n b ≡ bit_xor b n} a step b
  where
    step :
        (n : ℕ)
        → ((m : ℕ) → m < n → (b : ℕ) → bit_xor m b ≡ bit_xor b m)
        → (b : ℕ) → bit_xor n b ≡ bit_xor b n
    step zero ih b = omega (arith, zero-bit_xor b, bit_xor-zero b)
    step (suc n) ih b = omega (
      arith,
      bit_xor_step (suc n) b,
      bit_xor_step b (suc n),
      differ_digits (suc n % 2) (b % 2),
      differ_digits (b % 2) (suc n % 2),
      ih (suc n / 2) (omega arith) (b / 2),
    )

pub bit_xor-lt : (k a b : ℕ) → a < 2 ^ k → b < 2 ^ k → bit_xor a b < 2 ^ k
bit_xor-lt zero a b ha hb = ground (arith, zero-bit_xor b)
bit_xor-lt (suc k) a b ha hb = omega (
  arith,
  pow-suc 2 k,
  bit_xor_step a b,
  differ_digits (a % 2) (b % 2),
  bit_xor-lt k (a / 2) (b / 2) (omega (arith, pow-suc 2 k)) (omega (arith, pow-suc 2 k)),
)

zero-bit_or : (b : ℕ) → bit_or 0 b ≡ b
zero-bit_or b = simp bit_or-bitwise

pub bit_or_step : (a b : ℕ) → bit_or a b ≡ bit_or (a / 2) (b / 2) * 2 + max (a % 2) (b % 2)
bit_or_step zero b = omega (arith, zero-bit_or b, zero-bit_or (b / 2))
bit_or_step (suc a) b = simp bit_or-bitwise (lowest_digit (λ y. y) max a b)

-- A union of digits is empty only where both words are.
pub bit_or_eq_zero : (a b : ℕ) → bit_or a b ≡ 0 → (a ≡ 0) × (b ≡ 0)
bit_or_eq_zero a b =
    induction lt_wf {C = λ n. (b : ℕ) → bit_or n b ≡ 0 → (n ≡ 0) × (b ≡ 0)} a step b
  where
    step :
        (n : ℕ)
        → ((m : ℕ) → m < n → (b : ℕ) → bit_or m b ≡ 0 → (m ≡ 0) × (b ≡ 0))
        → (b : ℕ) → bit_or n b ≡ 0
        → (n ≡ 0) × (b ≡ 0)
    step zero ih b h = (refl, sym (zero-bit_or b) ∙ h)
    step (suc n) ih b h =
        let parts = bit_or_step (suc n) b in
        let (low, high) = ih (suc n / 2) (omega arith) (b / 2) (omega arith) in absurd (omega arith)

pub bit_xor_eq_zero : (a b : ℕ) → bit_xor a b ≡ 0 → a ≡ b
bit_xor_eq_zero a b h = sym (bit_xor_twice a b) ∙ ap (λ n. bit_xor n b) h ∙ zero-bit_xor b
