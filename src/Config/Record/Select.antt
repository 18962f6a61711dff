-- ===== src/Config/Record/Select.antt =====
-- Slot selection: the wrap-safe order of sequence numbers, and which record wins.
use roosterwake.Prelude.{ℕ, ◌+◌, ◌%◌, ◌^◌, ◌<◌, ◌≡◌, ◌↔◌, ◌-◌, true, false, some, arith}
use roosterwake.Prelude.Bytes.{Bytes, le32-lt}
use roosterwake.Config.Record.{Config, fields, decode, seq_newer}

-- The next sequence number, across the wrap of the counter.
abbrev pub next_seq : ℕ → ℕ
next_seq s = (s + 1) % 2 ^ 32

-- One number is newer than another exactly when it is ahead of it, on the circle of 32-bit numbers,
-- by at least one step and fewer than 2 ^ 31.
pub seq_newer_iff :
    (a b : ℕ)
    → a < 2 ^ 32
    → b < 2 ^ 32
    → (seq_newer a b ≡ true) ↔ ((k : ℕ) × (0 < k) × (k < 2 ^ 31) × (a ≡ (b + k) % 2 ^ 32))
unfolding seq_newer
seq_newer_iff a b ha hb = (
  λ e. ((a + 2 ^ 32 - b) % 2 ^ 32, ground arith, ground arith, omega arith),
  λ (k, pos, small, ahead). ground arith,
)

-- The successor of a sequence number is newer than it, also where the counter wraps.
pub seq_newer-next_seq :
    (s : ℕ) → s < 2 ^ 32 → (seq_newer (next_seq s) s ≡ true) × (seq_newer s (next_seq s) ≡ false)
unfolding seq_newer
seq_newer-next_seq s h = (ground arith, ground arith)

-- What `decode` accepts carries a 32-bit sequence number.
pub decode_seq : (rec : Bytes) {cfg : Config} → decode rec ≡ some cfg → cfg.seq < 2 ^ 32
unfolding decode fields
decode_seq rec e = ground (arith, le32-lt rec 8)
