-- ===== src/Prelude/Writes.antt =====
-- A buffer that is filled by several `memcpy`s, and what it holds at each place in the end.
use roosterwake.Prelude.Tests.{ltb, leb, if◌then◌else◌}
use roosterwake.Prelude.Lists.{length, replicate, length-replicate, get_or-replicate}
use roosterwake.Prelude.Bytes.{Bytes, byte_at, blit, byte_at-blit, length-blit}
use Prim.Native.Nat.{ℕ, zero, suc, ◌+◌, ◌-◌, ◌≤◌, ◌<◌}
use mathlib.Core.Path.{◌≡◌, refl, ◌∙◌, ap}
use mathlib.Core.Bool.{◌&&◌}
use mathlib.Core.Logic.{◌⊎◌}
use mathlib.Core.List.{List, [], ◌∷◌}
use native.Mathlib.Omega.{arith}

-- Writes in order, each an offset and the bytes that go there.
abbrev pub Writes : Type 0
Writes = List (ℕ × Bytes)

unfoldable pub writes : Writes → Bytes → Bytes
writes [] buf = buf
writes ((off, src) ∷ ws) buf = writes ws (blit buf off src)

-- The byte that place `i` holds in the end, if it held `d`.
unfoldable pub over : Writes → ℕ → ℕ → ℕ
over [] i d = d
over ((off, src) ∷ ws) i d =
    over ws i (if leb off i && ltb i (off + length src) then byte_at src (i - off) else d)

pub length-writes : (ws : Writes) (buf : Bytes) → length (writes ws buf) ≡ length buf
unfolding writes
length-writes [] buf = refl
length-writes ((off, src) ∷ ws) buf = length-writes ws (blit buf off src) ∙ length-blit buf off src

pub byte_at-writes :
    (ws : Writes) (buf : Bytes) (i : ℕ)
    → i < length buf
    → byte_at (writes ws buf) i ≡ over ws i (byte_at buf i)
unfolding writes over
byte_at-writes [] buf i h = refl
byte_at-writes ((off, src) ∷ ws) buf i h =
    byte_at-writes ws (blit buf off src) i (omega (arith, length-blit buf off src))
    ∙ ap (over ws i) (byte_at-blit buf off src i h)

-- Place `i` lies outside a write, and outside all of them.
abbrev pub Outside : ℕ × Bytes → ℕ → Type 0
Outside (off, src) i = (i < off) ⊎ (off + length src ≤ i)

abbrev pub Misses : Writes → ℕ → Type 0
Misses [] i = Unit {0}
Misses ((off, src) ∷ ws) i = Outside (off, src) i × Misses ws i

-- Write number `k` begins at or before place `i`, and no other write touches that place.
abbrev pub Only : ℕ → Writes → ℕ → Type 0
Only k [] i = ⊥
Only zero ((off, src) ∷ ws) i = (off ≤ i) × Misses ws i
Only (suc k) ((off, src) ∷ ws) i = Outside (off, src) i × Only k ws i

-- The byte that write number `k` brings to place `i`, or 0.
abbrev pub brought : ℕ → Writes → ℕ → ℕ
brought k [] i = 0
brought zero ((off, src) ∷ ws) i = byte_at src (i - off)
brought (suc k) (w ∷ ws) i = brought k ws i

over_skip :
    (off : ℕ) (src : Bytes) (ws : Writes) (i d : ℕ)
    → Outside (off, src) i
    → over ((off, src) ∷ ws) i d ≡ over ws i d
unfolding over
over_skip off src ws i d m = ap (over ws i) (ground arith)

pub over_miss : (ws : Writes) (i d : ℕ) → Misses ws i → over ws i d ≡ d
over_miss [] i d m = unfold over in refl
over_miss ((off, src) ∷ ws) i d (m, ms) = over_skip off src ws i d m ∙ over_miss ws i d ms

byte_at_past : (src : Bytes) (i : ℕ) → length src ≤ i → byte_at src i ≡ 0
byte_at_past [] i h = refl
byte_at_past (x ∷ xs) zero h = absurd (omega arith)
byte_at_past (x ∷ xs) (suc i) h = byte_at_past xs i (omega arith)

-- Over zeros, a place that one write alone may touch holds what that write brought.
pub over-Only : (k : ℕ) (ws : Writes) (i : ℕ) → Only k ws i → over ws i 0 ≡ brought k ws i
over-Only k [] i m = absurd m
over-Only zero ((off, src) ∷ ws) i (lo, ms) =
    over_miss_first ∙ over_miss ws i (byte_at src (i - off)) ms
  where
    over_miss_first : over ((off, src) ∷ ws) i 0 ≡ over ws i (byte_at src (i - off))
    over_miss_first = unfold over in ap (over ws i) (ground (arith, byte_at_past src (i - off)))
over-Only (suc k) ((off, src) ∷ ws) i (m, ms) = over_skip off src ws i 0 m ∙ over-Only k ws i ms

-- A first write that clears the buffer.
pub over_clear :
    (n : ℕ) (ws : Writes) (i d : ℕ) → i < n → over ((0, replicate n 0) ∷ ws) i d ≡ over ws i 0
unfolding over
over_clear n ws i d h =
    ap (over ws i)
      (ground (arith, length-replicate {A = ℕ} n 0, get_or-replicate {A = ℕ} n (i - 0) 0))
