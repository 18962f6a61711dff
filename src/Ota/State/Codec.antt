-- ===== src/Ota/State/Codec.antt =====
-- `decode` after `encode`, and what `decode` and `pick` accept.
use roosterwake.Prelude.{
  ℕ, zero, suc, ◌+◌, ◌^◌, ◌≤◌, ◌<◌, ◌≡◌, refl, sym, ◌∙◌, ap, Bool, true, false, not, some, [], ◌∷◌,
  tail, ltb, ◌==◌, ==_iff, if◌then◌else◌, length, take, take_all, replicate, All, arith,
}
use roosterwake.Prelude.Bytes.{
  Bytes, byte_at, blit, slice, eq_bytes, eq_bytes_iff, le16, le32, bytes16, bytes32, byte_at-blit,
  length-blit, slice_congr, slice_of, le32-bytes32, le16-bytes16,
}
use roosterwake.Prelude.Writes.{
  Writes, writes, length-writes, byte_at-writes, Only, brought, over-Only, over_clear,
}
use roosterwake.Config.Crc.{crc32, crc32-lt}
use roosterwake.Ota.State.{
  State, state_len, last_slot, version_width, magic, encode, decode, read_version, read_fields,
}

abbrev pub IsPrintable : ℕ → Type 0
IsPrintable c = (0x20 ≤ c) × (c ≤ 0x7E)

-- A state that the rest of the program may hold.
pub record IsState (s : State) : Type 0 where
  pub seq : s.seq < 2 ^ 32
  pub active : s.active ≤ last_slot
  pub fallback : s.fallback ≤ last_slot
  pub trial : s.trial < 256
  pub version_fits : length s.version ≤ version_width
  pub version_text : All IsPrintable s.version

read_version_holds :
    (raw value : Bytes) (off n : ℕ)
    → length value ≤ n
    → All IsPrintable value
    → ((i : ℕ) → i ≤ length value → i < n → byte_at raw (off + i) ≡ byte_at value i)
    → read_version raw off n ≡ some value
unfolding read_version
read_version_holds raw [] off zero h w at = refl
read_version_holds raw [] off (suc n) h w at =
    let nul : byte_at raw off ≡ 0 =
      ap (byte_at raw) (omega arith) ∙ at 0 (omega arith) (omega arith) in
    ground arith
read_version_holds raw (c ∷ cs) off zero h w at = absurd (omega arith)
read_version_holds raw (c ∷ cs) off (suc n) h (hc, w) at =
    let first : byte_at raw off ≡ c =
      ap (byte_at raw) (omega arith) ∙ at 0 (omega arith) (omega arith) in
    let rest : read_version raw (suc off) n ≡ some cs =
      read_version_holds raw cs (suc off) n (omega arith) w
        (λ i l m. ap (byte_at raw) (omega arith) ∙ at (suc i) (omega arith) (omega arith)) in
    ground arith

abbrev flag : Bool → ℕ
flag b = if b then 1 else 0

-- The writes of `encode` before the seal.
abbrev body : State → Writes
body s =
    (0, replicate 40 0)
    ∷ (0, magic)
    ∷ (4, bytes16 1)
    ∷ (6, s.active ∷ [])
    ∷ (7, s.fallback ∷ [])
    ∷ (8, s.trial ∷ [])
    ∷ (9, flag s.confirmed ∷ [])
    ∷ (12, bytes32 s.seq)
    ∷ (16, take 16 s.version)
    ∷ []

abbrev image : State → Bytes → Bytes
image s out =
    let unsealed = writes (body s) out in blit unsealed 36 (bytes32 (crc32 (slice unsealed 0 36)))

encode-image :
    (s : State) (out : Bytes)
    → state_len ≤ length out
    → s.active ≤ last_slot
    → s.fallback ≤ last_slot
    → encode s out ≡ some (image s out)
unfolding encode writes
encode-image s out h ha hf =
    let long : ltb (length out) 40 ≡ false = ground arith in
    let slot_a : ltb 1 s.active ≡ false = ground arith in
    let slot_f : ltb 1 s.fallback ≡ false = ground arith in rw (long, slot_a, slot_f)

-- A record that passes every check is read field by field.
decode_accepts :
    (raw : Bytes)
    → state_len ≤ length raw
    → slice raw 0 4 ≡ magic
    → le16 raw 4 ≡ 1
    → le32 raw 36 ≡ crc32 (slice raw 0 36)
    → byte_at raw 6 ≤ last_slot
    → byte_at raw 7 ≤ last_slot
    → decode raw ≡ read_fields raw
unfolding decode
decode_accepts raw h m version crc ha hf =
    ground (arith, (==_iff (le32 raw 36) (crc32 (slice raw 0 36))).1 crc, magic_read)
  where
    magic_read : eq_bytes (slice raw 0 4) magic ≡ true
    magic_read = (eq_bytes_iff _ _).1 m

module _ (s : State) (out : Bytes) (long : state_len ≤ length out) (v : IsState s) where
  abbrev unsealed : Bytes
  unsealed = writes (body s) out

  abbrev seal : ℕ
  seal = crc32 (slice unsealed 0 36)

  full : take 16 s.version ≡ s.version
  full = take_all 16 s.version v.version_fits

  byte_at-sealed : (i : ℕ) → i < 36 → byte_at (image s out) i ≡ byte_at unsealed i
  unfolding bytes32
  byte_at-sealed i h =
      ground (arith, byte_at-blit unsealed 36 (bytes32 seal) i, length-writes (body s) out)

  -- Place `i` before the seal, if write number `k` alone may touch it.
  byte_at-field :
      (k i : ℕ)
      → i < 36
      → Only k (tail (body s)) i
      → byte_at (image s out) i ≡ brought k (tail (body s)) i
  byte_at-field k i h only =
      byte_at-sealed i h
      ∙ byte_at-writes (body s) out i (omega arith)
      ∙ over_clear 40 (tail (body s)) i _ (omega arith)
      ∙ over-Only k (tail (body s)) i only

  crc-image : le32 (image s out) 36 ≡ crc32 (slice (image s out) 0 36)
  crc-image =
      le32-bytes32 (image s out) 36 seal (crc32-lt (slice unsealed 0 36)) (λ i h.
        unfold bytes32 in
        ground
          (arith, byte_at-blit unsealed 36 (bytes32 seal) (36 + i), length-writes (body s) out))
      ∙ ap crc32 (
          sym (
            slice_congr (image s out) unsealed 0 0 36
              (λ i h. byte_at-sealed (0 + i) (omega arith))))

  magic-image : slice (image s out) 0 4 ≡ magic
  magic-image = slice_of (image s out) magic 0 (λ i h.
      byte_at-field 0 (0 + i) (omega arith) (unfold bytes16 bytes32 in omega arith)
      ∙ ap (byte_at magic) (omega arith))

  version-image : le16 (image s out) 4 ≡ 1
  version-image = le16-bytes16 (image s out) 4 1 (omega arith) (λ i h.
      byte_at-field 1 (4 + i) (omega arith) (unfold bytes16 bytes32 in omega arith)
      ∙ ap (byte_at (bytes16 1)) (omega arith))

  seq-image : le32 (image s out) 12 ≡ s.seq
  seq-image = le32-bytes32 (image s out) 12 s.seq v.seq (λ i h.
      byte_at-field 6 (12 + i) (omega arith) (unfold bytes16 bytes32 in omega arith)
      ∙ ap (byte_at (bytes32 s.seq)) (omega arith))

  active-image : byte_at (image s out) 6 ≡ s.active
  active-image = byte_at-field 2 6 (omega arith) (unfold bytes16 bytes32 in omega arith)

  fallback-image : byte_at (image s out) 7 ≡ s.fallback
  fallback-image = byte_at-field 3 7 (omega arith) (unfold bytes16 bytes32 in omega arith)

  trial-image : byte_at (image s out) 8 ≡ s.trial
  trial-image = byte_at-field 4 8 (omega arith) (unfold bytes16 bytes32 in omega arith)

  confirmed-image : not (byte_at (image s out) 9 == 0) ≡ s.confirmed
  confirmed-image =
      ap (λ c. not (c == 0))
        (byte_at-field 5 9 (omega arith) (unfold bytes16 bytes32 in omega arith))
      ∙ flag_read s.confirmed
    where
      flag_read : (b : Bool) → not (flag b == 0) ≡ b
      flag_read true = refl
      flag_read false = refl

  text-image : read_version (image s out) 16 16 ≡ some s.version
  text-image =
      read_version_holds (image s out) s.version 16 16 v.version_fits v.version_text (λ i l m.
        byte_at-field 7 (16 + i) (omega arith) (unfold bytes16 bytes32 in omega arith)
        ∙ ap (byte_at (take 16 s.version)) (omega arith)
        ∙ ap (λ t. byte_at t i) full)

  decode-image : decode (image s out) ≡ some s
  unfolding read_fields
  decode-image =
      decode_accepts (image s out) length_image magic-image version-image crc-image
        (omega (arith, active-image, v.active)) (omega (arith, fallback-image, v.fallback))
      ∙ rw (text-image, read_fields) (ap some same)
    where
      length_image : state_len ≤ length (image s out)
      length_image =
          omega (arith, length-blit unsealed 36 (bytes32 seal), length-writes (body s) out)

      same :
          record {
            seq = le32 (image s out) 12;
            active = byte_at (image s out) 6;
            fallback = byte_at (image s out) 7;
            trial = byte_at (image s out) 8;
            confirmed = not (byte_at (image s out) 9 == 0);
            version = s.version;
          }
          ≡ s
      same = λ i. record {
        seq = seq-image i;
        active = active-image i;
        fallback = fallback-image i;
        trial = trial-image i;
        confirmed = confirmed-image i;
        version = s.version;
      }

-- Every state of valid slots and printable version is written by `encode` and read back by `decode`.
pub decode-encode_state :
    (s : State) (out : Bytes)
    → IsState s
    → state_len ≤ length out
    → (r : Bytes) × (encode s out ≡ some r) × (decode r ≡ some s)
decode-encode_state s out v long =
    (image s out, encode-image s out long v.active v.fallback, decode-image s out long v)
