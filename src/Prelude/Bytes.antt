-- ===== src/Prelude/Bytes.antt =====
-- Byte buffers: what `memcpy`, `memset`, `memcmp` and the little- and big-endian accessors do.
use Prim.Native.Nat.{ℕ, zero, suc, ◌+◌, ◌-◌, ◌*◌, ◌/◌, ◌%◌, ◌^◌, ◌<◌}
use mathlib.Core.Path.{◌≡◌, refl, ap, ap₂, ◌∙◌, sym}
use mathlib.Core.Bool.{Bool, true, false, ◌&&◌}
use mathlib.Core.Logic.{◌↔◌}
use mathlib.Core.List.{List, [], ◌∷◌}
use native.Mathlib.Nat.{add-zero}
use native.Mathlib.Omega.{arith}
use roosterwake.Prelude.Tests.{ltb, leb, ◌==◌, if◌then◌else◌}
use roosterwake.Prelude.Lists.{length, get_or}

abbrev pub Bytes : Type 0
Bytes = List ℕ

abbrev pub IsByte : ℕ → Type 0
IsByte b = b < 256

-- Reading past the end gives 0. The code never does: each reader tests the length first.
abbrev pub byte_at : Bytes → ℕ → ℕ
byte_at buf i = get_or buf i 0

-- `memcpy(buf + off, src, length src)`. What would fall behind the buffer is not written.
unfoldable pub blit : Bytes → ℕ → Bytes → Bytes
blit [] off src = []
blit (b ∷ bs) (suc off) src = b ∷ blit bs off src
blit (b ∷ bs) zero [] = b ∷ bs
blit (b ∷ bs) zero (x ∷ xs) = x ∷ blit bs zero xs

-- The `n` bytes from `off` on.
unfoldable pub slice : Bytes → ℕ → ℕ → Bytes
slice buf off zero = []
slice buf off (suc n) = byte_at buf off ∷ slice buf (suc off) n

-- `memcmp(a, b, n) == 0` on two regions of one length, and `strcmp(a, b) == 0`.
unfoldable pub eq_bytes : Bytes → Bytes → Bool
eq_bytes [] [] = true
eq_bytes (x ∷ xs) (y ∷ ys) = x == y && eq_bytes xs ys
eq_bytes _ _ = false

pub eq_bytes_iff : (a b : Bytes) → (eq_bytes a b ≡ true) ↔ (a ≡ b)
unfolding eq_bytes
eq_bytes_iff (x ∷ a) (y ∷ b) = ground (arith, eq_bytes_iff a b)
eq_bytes_iff _ _ = ground arith

pub eq_bytes_refl : (a : Bytes) → eq_bytes a a ≡ true
eq_bytes_refl a = (eq_bytes_iff a a).1 refl

pub length-blit : (buf : Bytes) (off : ℕ) (src : Bytes) → length (blit buf off src) ≡ length buf
unfolding blit
length-blit [] off src = refl
length-blit (b ∷ bs) (suc off) src = ap suc (length-blit bs off src)
length-blit (b ∷ bs) zero [] = refl
length-blit (b ∷ bs) zero (x ∷ xs) = ap suc (length-blit bs zero xs)

pub byte_at-blit :
    (buf : Bytes) (off : ℕ) (src : Bytes) (i : ℕ)
    → i < length buf
    → byte_at (blit buf off src) i
      ≡ (if leb off i && ltb i (off + length src) then byte_at src (i - off) else byte_at buf i)
unfolding blit
byte_at-blit [] off src i h = absurd (omega arith)
byte_at-blit (b ∷ bs) (suc off) src zero h = ground arith
byte_at-blit (b ∷ bs) (suc off) src (suc i) h = ground (arith, byte_at-blit bs off src i)
byte_at-blit (b ∷ bs) zero [] i h = ground arith
byte_at-blit (b ∷ bs) zero (x ∷ xs) zero h = ground arith
byte_at-blit (b ∷ bs) zero (x ∷ xs) (suc i) h = ground (arith, byte_at-blit bs zero xs i)

pub length-slice : (buf : Bytes) (off n : ℕ) → length (slice buf off n) ≡ n
unfolding slice
length-slice buf off zero = refl
length-slice buf off (suc n) = ap suc (length-slice buf (suc off) n)

pub byte_at-slice :
    (buf : Bytes) (off n i : ℕ) → i < n → byte_at (slice buf off n) i ≡ byte_at buf (off + i)
unfolding slice
byte_at-slice buf off zero i h = absurd (omega arith)
byte_at-slice buf off (suc n) zero h = ap (byte_at buf) (omega arith)
byte_at-slice buf off (suc n) (suc i) h =
    byte_at-slice buf (suc off) n i (omega arith) ∙ ap (byte_at buf) (omega arith)

-- Regions that agree byte for byte are equal.
pub slice_congr :
    (a b : Bytes) (p q n : ℕ)
    → ((i : ℕ) → i < n → byte_at a (p + i) ≡ byte_at b (q + i))
    → slice a p n ≡ slice b q n
unfolding slice
slice_congr a b p q zero h = refl
slice_congr a b p q (suc n) h =
    ap₂ ◌∷◌ (ap (byte_at a) (omega arith) ∙ h 0 (omega arith) ∙ ap (byte_at b) (omega arith)) (
      slice_congr a b (suc p) (suc q) n (λ i l.
        ap (byte_at a) (omega arith) ∙ h (suc i) (omega arith) ∙ ap (byte_at b) (omega arith)))

-- A region that holds `src` reads back as `src`.
pub slice_of :
    (buf src : Bytes) (off : ℕ)
    → ((i : ℕ) → i < length src → byte_at buf (off + i) ≡ byte_at src i)
    → slice buf off (length src) ≡ src
unfolding slice
slice_of buf [] off h = refl
slice_of buf (x ∷ xs) off h =
    ap₂ ◌∷◌ (ap (byte_at buf) (omega arith) ∙ h 0 (omega arith))
      (slice_of buf xs (suc off) (λ i l. ap (byte_at buf) (omega arith) ∙ h (suc i) (omega arith)))

-- The accessors. `|` of bytes shifted to disjoint places is their sum, in a word of that width.
unfoldable pub le16 : Bytes → ℕ → ℕ
le16 p i = (byte_at p i + byte_at p (i + 1) * 2 ^ 8) % 2 ^ 16

unfoldable pub le32 : Bytes → ℕ → ℕ
le32 p i =
    (byte_at p i
      + byte_at p (i + 1) * 2 ^ 8
      + byte_at p (i + 2) * 2 ^ 16
      + byte_at p (i + 3) * 2 ^ 24)
    % 2 ^ 32

pub le32-lt : (p : Bytes) (i : ℕ) → le32 p i < 2 ^ 32
unfolding le32
le32-lt p i = omega arith

-- The bytes that `wr16` and `wr32` store.
unfoldable pub bytes16 : ℕ → Bytes
bytes16 v = v % 256 ∷ v / 2 ^ 8 % 256 ∷ []

unfoldable pub bytes32 : ℕ → Bytes
bytes32 v = v % 256 ∷ v / 2 ^ 8 % 256 ∷ v / 2 ^ 16 % 256 ∷ v / 2 ^ 24 % 256 ∷ []

pub length-bytes16 : (v : ℕ) → length (bytes16 v) ≡ 2
unfolding bytes16
length-bytes16 v = refl

pub length-bytes32 : (v : ℕ) → length (bytes32 v) ≡ 4
unfolding bytes32
length-bytes32 v = refl

-- What is stored as four bytes is read back.
pub le32-bytes32 :
    (buf : Bytes) (off v : ℕ)
    → v < 2 ^ 32
    → ((i : ℕ) → i < 4 → byte_at buf (off + i) ≡ byte_at (bytes32 v) i)
    → le32 buf off ≡ v
unfolding le32 bytes32
le32-bytes32 buf off v h at = omega (
  arith,
  sym (ap (byte_at buf) (add-zero off)) ∙ at 0 (omega arith),
  at 1 (omega arith),
  at 2 (omega arith),
  at 3 (omega arith),
)

pub le16-bytes16 :
    (buf : Bytes) (off v : ℕ)
    → v < 2 ^ 16
    → ((i : ℕ) → i < 2 → byte_at buf (off + i) ≡ byte_at (bytes16 v) i)
    → le16 buf off ≡ v
unfolding le16 bytes16
le16-bytes16 buf off v h at =
    omega (arith, sym (ap (byte_at buf) (add-zero off)) ∙ at 0 (omega arith), at 1 (omega arith))
