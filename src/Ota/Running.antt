-- ===== src/Ota/Running.antt =====
-- The application's half of the update machinery, firmware/src/ota/ota.c and firmware/src/ota/ota_flash.c.
-- The slot that the code runs from and the SDK's flash calls on the two state sectors are parameters;
-- `read` gives the first RW_OTA_STATE_LEN bytes of a sector.
pub mod Prefix
pub mod Staged
use roosterwake.Prelude.{
  ℕ, Bool, true, false, not, ◌&&◌, ◌||◌, Option, none, some, [], ltb, ◌==◌, if◌then◌else◌,
  replicate,
}
use roosterwake.Prelude.Bytes.{Bytes, eq_bytes, slice}
use roosterwake.Ota.State.{
  State, last_slot, other_slot, default, encode, pick, stage, confirm, on_trial,
}

-- `s_state` and `s_loaded`
pub record App : Type 0 where
  pub state : State
  pub loaded : Bool

-- `rw_ota_spare_slot`
unfoldable pub spare_slot : ℕ → ℕ
spare_slot running = other_slot running

-- `rw_ota_on_trial`
unfoldable pub app_on_trial : App → Bool
app_on_trial a = a.loaded && on_trial a.state

-- `rw_ota_trials_left`
unfoldable pub trials_left : App → ℕ
trials_left a = if a.loaded then a.state.trial else 0

module _ {Flash : Type 0} (erase : Flash → ℕ → Flash) (program : Flash → ℕ → Bytes → Flash)
    (read : Flash → ℕ → Bytes) where
  -- `rw_ota_flash_load`
  unfoldable pub flash_load : Flash → Option State
  flash_load f = pick (read f 0) (read f 1)

  -- A round of the loop of `rw_ota_flash_save`: whether the sector reads back.
  unfoldable pub save_sector : Flash → ℕ → Bytes → Bool × Flash
  save_sector f i page =
      let f1 = program (erase f i) i page in (eq_bytes (read f1 i) (slice page 0 40), f1)

  -- The loop of `rw_ota_flash_save`
  unfoldable pub save_sectors : Flash → Bytes → Bool × Flash
  save_sectors f page =
      let (first, f1) = save_sector f 0 page in if first then save_sector f1 1 page else (false, f1)

  -- `rw_ota_flash_save`
  unfoldable pub flash_save : Flash → State → Bool × Flash
  flash_save f s = elim (encode s (replicate 256 0)) [
    | none ↦ (false, f)
    | some page ↦ save_sectors f page
  ]

  module _ (running : ℕ) where
    -- `rw_ota_init`, with RW_FW_VERSION
    unfoldable pub ota_init : Flash → Bytes → App
    ota_init f fw_version = elim (flash_load f) [
      | some s ↦ record { state = s; loaded = true }
      | none ↦ record {
        state = record (default (some fw_version)) { active = running; fallback = running };
        loaded = true;
      }
    ]

    -- `rw_ota_confirm_running_image`
    unfoldable pub confirm_running : App → Flash → App × Flash
    confirm_running a f =
        let next = record (confirm a.state) { active = running; fallback = running } in
        let (saved, f1) = flash_save f next in
        if not a.loaded || a.state.confirmed
        then (a, f)
        else if not saved
        then (a, f1)
        else (record a { state = next }, f1)

    -- `rw_ota_stage_slot`
    unfoldable pub stage_slot : App → Flash → ℕ → Option Bytes → Bool × App × Flash
    stage_slot a f slot version =
        let next = stage (record a.state { active = running; confirmed = true }) slot version in
        let (saved, f1) = flash_save f next in
        if not a.loaded || ltb last_slot slot
        then (false, a, f)
        else if slot == running
        then (false, a, f)
        else if not saved
        then (false, a, f1)
        else (true, record a { state = next }, f1)
