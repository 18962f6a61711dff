-- ===== src/Ota/Running/Prefix.antt =====
-- A state record is read from its first 40 bytes.
use roosterwake.Prelude.{
  ℕ, zero, suc, ◌+◌, ◌≤◌, ◌<◌, ◌≡◌, refl, false, not, ◌||◌, Option, none, some, [], ◌∷◌, ltb, ◌==◌,
  if◌then◌else◌, length, arith,
}
use mathlib.Core.Path.{ap₂}
use roosterwake.Prelude.Bytes.{Bytes, byte_at, slice, slice_congr, le16, le32}
use roosterwake.Ota.State.{State, read_version, read_fields, decode}

version_of : ℕ → Option Bytes → Option Bytes
version_of c rest =
    if c == 0
    then some []
    else if ltb c 0x20 || ltb 0x7E c
    then none
    else elim rest [ none ↦ none | some v ↦ some (c ∷ v) ]

fields_of : Option Bytes → ℕ → ℕ → ℕ → ℕ → ℕ → Option State
fields_of version seq active fallback trial confirmed = elim version [
  | none ↦ none
  | some v ↦ some (record {
    seq = seq;
    active = active;
    fallback = fallback;
    trial = trial;
    confirmed = not (confirmed == 0);
    version = v;
  })
]

fields_read :
    (raw : Bytes)
    → read_fields raw
      ≡ fields_of
          (read_version raw 16 16)
          (le32 raw 12)
          (byte_at raw 6)
          (byte_at raw 7)
          (byte_at raw 8)
          (byte_at raw 9)
unfolding read_fields fields_of
fields_read raw = refl

module _ (a b : Bytes) (same : (i : ℕ) → i < 40 → byte_at a i ≡ byte_at b i) where
  version_same : (off n : ℕ) → off + n ≤ 40 → read_version a off n ≡ read_version b off n
  unfolding read_version version_of
  version_same off zero h = refl
  version_same off (suc n) h =
      ap₂ version_of (same off (omega arith)) (version_same (suc off) n (omega arith))

  slice_same : (off n : ℕ) → off + n ≤ 40 → slice a off n ≡ slice b off n
  slice_same off n h = slice_congr a b off off n (λ i l. same (off + i) (omega arith))

  le16_same : (off : ℕ) → off + 2 ≤ 40 → le16 a off ≡ le16 b off
  unfolding le16
  le16_same off h = rw (same off (omega arith), same (off + 1) (omega arith)) refl

  le32_same : (off : ℕ) → off + 4 ≤ 40 → le32 a off ≡ le32 b off
  unfolding le32
  le32_same off h =
      rw
        (
          same off (omega arith),
          same (off + 1) (omega arith),
          same (off + 2) (omega arith),
          same (off + 3) (omega arith),
        )
        refl

  fields_same : read_fields a ≡ read_fields b
  fields_same =
      rw
        (
          fields_read a,
          fields_read b,
          version_same 16 16 (omega arith),
          le32_same 12 (omega arith),
          same 6 (omega arith),
          same 7 (omega arith),
          same 8 (omega arith),
          same 9 (omega arith),
        )
        refl

  pub decode_same : 40 ≤ length a → 40 ≤ length b → decode a ≡ decode b
  unfolding decode
  decode_same long_a long_b =
      let fits_a : ltb (length a) 40 ≡ false = ground arith in
      let fits_b : ltb (length b) 40 ≡ false = ground arith in
      rw
        (
          fits_a,
          fits_b,
          slice_same 0 4 (omega arith),
          le16_same 4 (omega arith),
          le32_same 36 (omega arith),
          slice_same 0 36 (omega arith),
          same 6 (omega arith),
          same 7 (omega arith),
          fields_same,
        )
        refl
