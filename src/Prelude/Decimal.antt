-- ===== src/Prelude/Decimal.antt =====
-- Decimal text, as `printf` writes it, and the integers.
use Prim.Native.Nat.{ℕ, zero, suc, ◌+◌, ◌/◌, ◌%◌}
use mathlib.Core.List.{List, [], ◌∷◌}
use roosterwake.Prelude.Tests.{ltb, if◌then◌else◌}

-- `long`, by the library's names
pub data ℤ : Type 0 where
  pos negsuc : ℕ → ℤ

-- The digits of a number in front of some text; a round for each digit.
unfoldable pub digits_before : ℕ → ℕ → List ℕ → List ℕ
digits_before zero n text = text
digits_before (suc fuel) n text =
    let more = digits_before fuel (n / 10) ((b'0' + n % 10) ∷ text) in
    if ltb n 10 then (b'0' + n) ∷ text else more

-- "%lu": a number has at most as many digits as it counts, and one.
unfoldable pub decimal : ℕ → List ℕ
decimal n = digits_before (n + 1) n []

-- "%ld"
unfoldable pub signed_decimal : ℤ → List ℕ
signed_decimal (pos n) = decimal n
signed_decimal (negsuc n) = b'-' ∷ decimal (n + 1)
