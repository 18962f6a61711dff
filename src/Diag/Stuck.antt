-- ===== src/Diag/Stuck.antt =====
-- The stuck detector, firmware/src/diag/stuck.c. Times are milliseconds in a `uint32_t`.
pub mod History
pub mod Sealed
use roosterwake.Prelude.{
  ℕ, ◌+◌, ◌-◌, ◌/◌, ◌%◌, ◌^◌, Bool, true, false, not, ◌&&◌, leb, ◌==◌, if◌then◌else◌, ◌++◌, ◌∷◌,
}
use roosterwake.Prelude.Bytes.{Bytes, bytes16, bytes32}
use roosterwake.Config.Crc.{crc32}

-- RW_STUCK_ARM_MS and RW_STUCK_TRIGGER_MS
abbrev pub arm_ms : ℕ
arm_ms = 60000

abbrev pub trigger_ms : ℕ
trigger_ms = 900000

-- `rw_stuck_t`
pub record Stuck : Type 0 where
  pub armed : Bool
  pub linked : Bool
  pub linked_since_ms : ℕ
  pub unlinked_since_ms : ℕ

-- `rw_stuck_init`
abbrev pub init : Stuck
init = record { armed = false; linked = false; linked_since_ms = 0; unlinked_since_ms = 0 }

unfoldable pub elapsed : ℕ → ℕ → ℕ
elapsed now since = (now + 2 ^ 32 - since) % 2 ^ 32

-- The step with the link up.
unfoldable pub link_up : Stuck → ℕ → Stuck
link_up s now_ms =
    let since = if s.linked then s.linked_since_ms else now_ms in
    record {
      armed = if not s.armed && leb arm_ms (elapsed now_ms since) then true else s.armed;
      linked = true;
      linked_since_ms = since;
      unlinked_since_ms = 0;
    }

-- The step with the network up and no link.
unfoldable pub link_down : Stuck → ℕ → Stuck
link_down s now_ms = record {
  armed = s.armed;
  linked = false;
  linked_since_ms = if s.linked then 0 else s.linked_since_ms;
  unlinked_since_ms =
      if s.unlinked_since_ms == 0 then (if now_ms == 0 then 1 else now_ms) else s.unlinked_since_ms;
}

-- `rw_stuck_step`: the state after it, and whether the caller restarts the device.
unfoldable pub step : Stuck → Bool → Bool → ℕ → Stuck × Bool
step s net_ready relay_ready now_ms =
    if not net_ready
    then (
      record { armed = s.armed; linked = false; linked_since_ms = 0; unlinked_since_ms = 0 },
      false,
    )
    else if relay_ready
    then (link_up s now_ms, false)
    else if not s.armed
    then (link_down s now_ms, false)
    else (
      link_down s now_ms,
      leb trigger_ms (elapsed now_ms (link_down s now_ms).unlinked_since_ms),
    )

-- `rw_stuck_unlinked_s`
unfoldable pub unlinked_s : Stuck → ℕ → ℕ
unlinked_s s now_ms =
    if s.unlinked_since_ms == 0 then 0 else elapsed now_ms s.unlinked_since_ms / 1000

-- `rw_stuck_record_t`, with `last_error` as its 24 bytes
pub record Entry : Type 0 where
  pub magic : ℕ
  pub version : ℕ
  pub relay_state : ℕ
  pub reserved : ℕ
  pub uptime_s : ℕ
  pub unlinked_for_s : ℕ
  pub heap_free : ℕ
  pub mem_err : ℕ
  pub last_error : Bytes
  pub crc : ℕ

-- The `covered_len()` bytes of a record in memory: everything before `crc`, little-endian.
unfoldable pub covered : Entry → Bytes
covered rec =
    bytes32 rec.magic
    ++ (rec.version
        ∷ rec.relay_state
        ∷ (bytes16 rec.reserved
            ++ bytes32 rec.uptime_s
            ++ bytes32 rec.unlinked_for_s
            ++ bytes32 rec.heap_free
            ++ bytes32 rec.mem_err
            ++ rec.last_error))

-- RW_STUCK_MAGIC
abbrev pub stuck_magic : ℕ
stuck_magic = 0x53544B31

-- `rw_stuck_record_seal`
unfoldable pub seal : Entry → Entry
seal rec =
    let marked = record rec { magic = stuck_magic; version = 1; reserved = 0 } in
    record marked { crc = crc32 (covered marked) }

-- `rw_stuck_record_valid`
unfoldable pub valid : Entry → Bool
valid rec =
    if not (rec.magic == stuck_magic && rec.version == 1)
    then false
    else rec.crc == crc32 (covered rec)
