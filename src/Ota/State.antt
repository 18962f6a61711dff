-- ===== src/Ota/State.antt =====
-- The OTA state record, firmware/src/ota/state.c and state.h. A version is the string that its
-- `char` array holds. A NULL record is the empty list, and a NULL version is `none`.
pub mod Codec
pub mod Sound
pub mod Trial
use roosterwake.Prelude.{
  ℕ, zero, suc, ◌+◌, ◌-◌, ◌%◌, ◌^◌, Bool, true, false, not, ◌&&◌, ◌||◌, Option, none, some, [], ◌∷◌,
  ltb, leb, ◌==◌, if◌then◌else◌, length, take, replicate,
}
use roosterwake.Prelude.Bytes.{Bytes, byte_at, blit, slice, eq_bytes, le16, le32, bytes16, bytes32}
use roosterwake.Config.Crc.{crc32}

pub record State : Type 0 where
  pub seq : ℕ
  pub active : ℕ
  pub fallback : ℕ
  pub trial : ℕ
  pub confirmed : Bool
  pub version : Bytes

-- RW_OTA_STATE_LEN, RW_OTA_SLOT_B, RW_OTA_TRIAL_BOOTS, VERSTR_WIDTH
abbrev pub state_len : ℕ
state_len = 40

abbrev pub last_slot : ℕ
last_slot = 1

abbrev pub trial_boots : ℕ
trial_boots = 3

abbrev pub version_width : ℕ
version_width = 16

abbrev pub magic : Bytes
magic = 0x52 ∷ 0x57 ∷ 0x53 ∷ 0x54 ∷ []

-- `copy_version`: at most VERSTR_WIDTH characters.
abbrev pub copy_version : Bytes → Bytes
copy_version src = take version_width src

abbrev pub given_version : Option Bytes → Bytes
given_version none = []
given_version (some v) = copy_version v

-- `rw_ota_other_slot`
unfoldable pub other_slot : ℕ → ℕ
other_slot slot = if slot == 0 then 1 else 0

-- `rw_ota_state_default`
unfoldable pub default : Option Bytes → State
default version = record {
  seq = 1;
  active = 0;
  fallback = 0;
  trial = 0;
  confirmed = true;
  version = given_version version;
}

-- `rw_ota_state_encode`: the buffer that `out` becomes, or `none` where it returns 0.
unfoldable pub encode : State → Bytes → Option Bytes
encode s out =
    if ltb (length out) state_len
    then none
    else if ltb last_slot s.active || ltb last_slot s.fallback
    then none
    else let out = blit out 0 (replicate state_len 0) in
      let out = blit out 0 magic in
      let out = blit out 4 (bytes16 1) in
      let out = blit out 6 (s.active ∷ []) in
      let out = blit out 7 (s.fallback ∷ []) in
      let out = blit out 8 (s.trial ∷ []) in
      let out = blit out 9 ((if s.confirmed then 1 else 0) ∷ []) in
      let out = blit out 12 (bytes32 s.seq) in
      let out = blit out 16 (take version_width s.version) in
      some (blit out 36 (bytes32 (crc32 (slice out 0 36))))

-- The loop of `rw_ota_state_decode` over the version, with the places that are left.
unfoldable pub read_version : Bytes → ℕ → ℕ → Option Bytes
read_version raw off zero = some []
read_version raw off (suc n) =
    let rest = read_version raw (suc off) n in
    let c = byte_at raw off in
    if c == 0
    then some []
    else if ltb c 0x20 || ltb 0x7E c
    then none
    else elim rest [ none ↦ none | some v ↦ some (c ∷ v) ]

-- The fields behind the checks.
unfoldable pub read_fields : Bytes → Option State
read_fields raw = elim (read_version raw 16 version_width) [
  | none ↦ none
  | some v ↦ some (record {
    seq = le32 raw 12;
    active = byte_at raw 6;
    fallback = byte_at raw 7;
    trial = byte_at raw 8;
    confirmed = not (byte_at raw 9 == 0);
    version = v;
  })
]

-- `rw_ota_state_decode`
unfoldable pub decode : Bytes → Option State
decode raw =
    if ltb (length raw) state_len
    then none
    else if not (eq_bytes (slice raw 0 4) magic)
    then none
    else if not (le16 raw 4 == 1)
    then none
    else if not (le32 raw 36 == crc32 (slice raw 0 36))
    then none
    else if ltb last_slot (byte_at raw 6) || ltb last_slot (byte_at raw 7)
    then none
    else read_fields raw

unfoldable pub pick_of : Option State → Option State → Option State
pick_of (some sa) (some sb) =
    if ltb ((sa.seq + 2 ^ 32 - sb.seq) % 2 ^ 32) (2 ^ 31) then some sa else some sb
pick_of (some sa) none = some sa
pick_of none sb = sb

-- `rw_ota_state_pick`, with `none` where it returns false
unfoldable pub pick : Bytes → Bytes → Option State
pick raw_a raw_b = pick_of (decode raw_a) (decode raw_b)

-- `rw_ota_boot_t`
pub data Boot : Type 0 where
  boot_active boot_reverted : Boot

-- `s->seq++` on a `uint32_t`
abbrev pub next : ℕ → ℕ
next seq = (seq + 1) % 2 ^ 32

-- `rw_ota_state_on_boot`: the state, whether it is to be written back, and what to do.
unfoldable pub on_boot : State → State × Bool × Boot
on_boot s =
    if s.confirmed
    then (s, false, boot_active)
    else if ltb 0 s.trial
    then (record s { trial = s.trial - 1; seq = next s.seq }, true, boot_active)
    else (
      record s { active = s.fallback; confirmed = true; trial = 0; version = []; seq = next s.seq },
      true,
      boot_reverted,
    )

-- `rw_ota_state_stage`
unfoldable pub stage : State → ℕ → Option Bytes → State
stage s slot version =
    if ltb last_slot slot then s else if slot == s.active && s.confirmed then s else record s {
      fallback = if not (slot == s.active) then s.active else s.fallback;
      active = slot;
      trial = trial_boots;
      confirmed = false;
      version = given_version version;
      seq = next s.seq;
    }

-- `rw_ota_state_confirm`
unfoldable pub confirm : State → State
confirm s =
    if s.confirmed
    then s
    else record s { confirmed = true; trial = 0; fallback = s.active; seq = next s.seq }

-- `rw_ota_state_on_trial`
unfoldable pub on_trial : State → Bool
on_trial s = not s.confirmed
