-- ===== src/Config/Flash.antt =====
-- Dual-slot storage of the record, firmware/src/config/config_flash.c.
-- The two sectors are the state. `flash_safe_execute` and the flash itself belong to the SDK: they
-- are the parameter `hw`, which may behave differently at each call (its first argument counts the
-- calls), and of which the one law used is that a job touches its own sector alone.
-- Log output and the cache invalidation have no effect on the result and are left out.
pub mod Attempt
pub mod Save
pub mod Reset
use roosterwake.Prelude.{
  ℕ, suc, ◌+◌, ◌%◌, ◌^◌, ◌≡◌, Bool, true, false, not, Option, none, some, [], ◌∷◌, if◌then◌else◌,
  replicate,
}
use roosterwake.Prelude.Bytes.{Bytes, eq_bytes}
use roosterwake.Config.Record.{Config, init, encode, Winner, neither, slot_a, slot_b, select}

-- The addresses `RW_CFG_SLOT_A_OFFSET` and `RW_CFG_SLOT_B_OFFSET`.
pub data Slot : Type 0 where
  a b : Slot

pub record Flash : Type 0 where
  pub sector_a : Bytes
  pub sector_b : Bytes

-- `slot_ptr`
abbrev pub sector : Slot → Flash → Bytes
sector a fl = fl.sector_a
sector b fl = fl.sector_b

abbrev pub other : Slot → Slot
other a = b
other b = a

-- What `flash_safe_execute` returns: PICO_OK, PICO_ERROR_TIMEOUT, or any other code.
pub data Rc : Type 0 where
  pico_ok timeout refused : Rc

-- `do_erase_and_program` with a sector image, or `do_erase_only`.
pub data Job : Type 0 where
  program : Bytes → Job
  erase : Job

pub record Hardware : Type 0 where
  pub execute : ℕ → Slot → Job → Flash → Rc × Flash
  pub other_kept :
      (n : ℕ) (s : Slot) (j : Job) (fl : Flash)
      → sector (other s) (execute n s j fl).1 ≡ sector (other s) fl

-- `rw_flash_status_t`
pub data Status : Type 0 where
  ok err_locked err_verify err_encode : Status

-- RW_CFG_SECTOR_SIZE
abbrev pub sector_size : ℕ
sector_size = 4096

-- The number of hardware calls made so far, and the flash.
abbrev pub World : Type 0
World = ℕ × Flash

-- `rw_config_flash_load`: the selected configuration, or `none` where it returns false.
unfoldable pub load : Flash → Winner × Config
load fl = select fl.sector_a fl.sector_b

-- How a failed call is reported: after a timeout the job may have run.
unfoldable pub failure : Rc → Status
failure timeout = err_verify
failure _ = err_locked

-- The slot that is not live.
unfoldable pub target : Winner → Slot
target slot_a = b
target slot_b = a
target neither = a

unfoldable pub new_seq : Winner → ℕ → ℕ
new_seq neither current = 1
new_seq _ current = (current + 1) % 2 ^ 32

-- `cfg->seq` is the new number after a success, and what it was after a failure.
unfoldable pub finish : Config → ℕ → Status × World → Status × Config × World
finish cfg seq (ok, w) = (ok, record cfg { seq = seq }, w)
finish cfg seq (st, w) = (st, cfg, w)

-- The check behind the loop: no slot is readable.
unfoldable pub confirm_erased : World → Status × World
confirm_erased (n, fl) = elim (load fl).0 [ neither ↦ (ok, (n, fl)) | _ ↦ (err_verify, (n, fl)) ]

-- The configuration that a factory reset keeps: the identity and nothing else.
unfoldable pub identity_of : Config → Config
identity_of current = record init { device_id = current.device_id; token = current.token }

-- Where no slot is readable or there is no token, erasing is all; else the identity is written.
unfoldable pub wipe_or_keep : Winner → Bytes → Status × World → Status × World → Status × World
wipe_or_keep neither token wipe kept = wipe
wipe_or_keep winner [] wipe kept = wipe
wipe_or_keep winner (c ∷ token) wipe kept = kept

module _ (hw : Hardware) where
  -- `write_and_verify`
  unfoldable pub write_and_verify : Slot → Bytes → World → Status × World
  write_and_verify s image (n, fl) =
      let (rc, fl') = hw.execute n s (program image) fl in
      let w : World = (suc n, fl') in
      elim rc [
        | pico_ok ↦ if not (eq_bytes (sector s fl') image) then (err_verify, w) else (ok, w)
        | timeout ↦ (failure timeout, w)
        | refused ↦ (failure refused, w)
      ]

  -- The second attempt, made after a verify failure only.
  unfoldable pub retry : Slot → Bytes → Status × World → Status × World
  retry s image (err_verify, w) = write_and_verify s image w
  retry s image (st, w) = (st, w)

  -- `rw_config_flash_save`
  unfoldable pub save : Config → World → Status × Config × World
  save cfg (n, fl) =
      let (winner, current) = load fl in
      let seq = new_seq winner current.seq in
      let s = target winner in
      elim (encode (record cfg { seq = seq }) (replicate sector_size 0)) [
        | none ↦ (err_encode, cfg, (n, fl))
        | some image ↦ finish cfg seq (retry s image (write_and_verify s image (n, fl)))
      ]

  -- One round of the loop in `rw_config_flash_erase_all`; `rest` are the rounds behind it.
  unfoldable pub erase_then : Slot → (World → Status × World) → World → Status × World
  erase_then s rest (n, fl) =
      let (rc, fl') = hw.execute n s erase fl in
      elim rc [
        | pico_ok ↦ rest (suc n, fl')
        | timeout ↦ (failure timeout, (suc n, fl'))
        | refused ↦ (failure refused, (suc n, fl'))
      ]

  -- `rw_config_flash_erase_all`: slot B first.
  unfoldable pub erase_all : World → Status × World
  erase_all w = erase_then b (erase_then a confirm_erased) w

  -- The write that follows a successful erase.
  unfoldable pub write_identity : Config → Status × World → Status × World
  write_identity current (ok, w) = let (st, _, w') = save (identity_of current) w in (st, w')
  write_identity current (st, w) = (st, w)

  -- `rw_config_flash_factory_reset`
  unfoldable pub factory_reset : World → Status × World
  factory_reset (n, fl) =
      let (winner, current) = load fl in
      let wipe = erase_all (n, fl) in
      wipe_or_keep winner current.token wipe (write_identity current wipe)
