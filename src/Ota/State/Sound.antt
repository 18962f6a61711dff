-- ===== src/Ota/State/Sound.antt =====
-- What `decode` and `pick` accept, from whatever bytes the flash holds.
use roosterwake.Prelude.{
  ℕ, zero, suc, ◌^◌, ◌≤◌, ◌<◌, ◌≡◌, refl, ◌||◌, Option, none, some, [], ◌∷◌, ltb, ◌==◌,
  if◌then◌else◌, length, All, arith,
}
use roosterwake.Prelude.Bytes.{Bytes, byte_at, le32, le32-lt}
use roosterwake.Ota.State.{
  State, last_slot, version_width, next, decode, read_version, read_fields, pick_of, pick,
}
use roosterwake.Ota.State.Codec.{IsPrintable}

-- One round of the loop over the version.
version_step :
    (c n : ℕ) (rest : Option Bytes)
    → ((v : Bytes) → rest ≡ some v → (length v ≤ n) × All IsPrintable v)
    → {t : Bytes}
    → (if c == 0
        then some []
        else if ltb c 0x20 || ltb 0x7E c
        then none
        else elim rest [ none ↦ none | some v ↦ some (c ∷ v) ])
      ≡ some t
    → (length t ≤ suc n) × All IsPrintable t
version_step c n none ih e = ground arith
version_step c n (some v) ih e = ground (arith, ih v refl)

read_version_shape :
    (raw : Bytes) (off n : ℕ) {t : Bytes}
    → read_version raw off n ≡ some t
    → (length t ≤ n) × All IsPrintable t
unfolding read_version
read_version_shape raw off zero e = ground arith
read_version_shape raw off (suc n) e =
    version_step (byte_at raw off) n (read_version raw (suc off) n)
      (λ v r. read_version_shape raw (suc off) n r) e

pub record IsAccepted (s : State) : Type 0 where
  pub active : s.active ≤ last_slot
  pub fallback : s.fallback ≤ last_slot
  pub seq : s.seq < 2 ^ 32
  pub version_fits : length s.version ≤ version_width
  pub version_text : All IsPrintable s.version

read_fields_shape :
    (raw : Bytes) (t : Option Bytes) {s : State}
    → read_version raw 16 16 ≡ t
    → read_fields raw ≡ some s
    → (s.active ≡ byte_at raw 6)
      × (s.fallback ≡ byte_at raw 7)
      × (s.seq ≡ le32 raw 12)
      × (t ≡ some s.version)
unfolding read_fields
read_fields_shape raw none e f = cc (rw (e, read_fields) at f)
read_fields_shape raw (some v) e f = ground (arith, rw (e, read_fields) at f)

decode_passed :
    (raw : Bytes) {s : State}
    → decode raw ≡ some s
    → (byte_at raw 6 ≤ last_slot) × (byte_at raw 7 ≤ last_slot) × (read_fields raw ≡ some s)
unfolding decode
decode_passed raw e = ground arith

-- Whatever record `decode` accepts names two existing slots and carries a version of at most 16
-- printable characters.
pub decode-IsAccepted : (raw : Bytes) {s : State} → decode raw ≡ some s → IsAccepted s
decode-IsAccepted raw e =
    let (active, fallback, read) = decode_passed raw e in
    let (a, f, q, t) = read_fields_shape raw (read_version raw 16 16) refl read in
    let (fits, text) = read_version_shape raw 16 16 t in
    record {
      active = omega (arith, a);
      fallback = omega (arith, f);
      seq = omega (arith, q, le32-lt raw 12);
      version_fits = fits;
      version_text = text;
    }

newer_wins :
    (old new : State)
    → old.seq < 2 ^ 32
    → new.seq ≡ next old.seq
    → (pick_of (some old) (some new) ≡ some new) × (pick_of (some new) (some old) ≡ some new)
unfolding pick_of
newer_wins old new h e = (ground arith, ground arith)

-- Of two readable copies the one written next after the other is picked, in whichever sector it
-- stands and across the wrap of the counter.
pub pick_newer :
    (raw_old raw_new : Bytes) {old new : State}
    → decode raw_old ≡ some old
    → decode raw_new ≡ some new
    → new.seq ≡ next old.seq
    → (pick raw_old raw_new ≡ some new) × (pick raw_new raw_old ≡ some new)
unfolding pick
pick_newer raw_old raw_new {old} {new} ho hn e =
    let v = decode-IsAccepted raw_old ho in rw (ho, hn) (newer_wins old new v.seq e)

-- A copy that does not parse is passed over, in either sector.
pub pick_single :
    (raw_bad raw : Bytes)
    → decode raw_bad ≡ none
    → (pick raw_bad raw ≡ decode raw) × (pick raw raw_bad ≡ decode raw)
unfolding pick
pick_single raw_bad raw h = rw h (left (decode raw), right (decode raw))
  where
    left : (o : Option State) → pick_of none o ≡ o
    left o = unfold pick_of in refl

    right : (o : Option State) → pick_of o none ≡ o
    right none = unfold pick_of in refl
    right (some s) = unfold pick_of in refl
