-- ===== src/Tests/Slots.antt =====
-- Staging an update into the spare slot.
use roosterwake.Prelude.{ℕ, zero, suc, ◌≡◌, refl, Bool, true, none, some, [], ◌∷◌, arith}
use roosterwake.Prelude.Bytes.{Bytes, blit, slice, eq_bytes, bytes16, bytes32, le16, le32}
use roosterwake.Config.Crc.{crc32}
use roosterwake.Ota.State.{encode, decode, pick, pick_of, read_version, read_fields, stage}
use roosterwake.Ota.Running.{App, flash_load, flash_save, save_sector, save_sectors, stage_slot}
use roosterwake.Ota.Running.Staged.{IsSectors, IsStaged, stage_slot-IsStaged}
use roosterwake.Tests.Samples.{codes, running}

-- Two sectors; an erased one is left empty.
abbrev Sectors : Type 0
Sectors = Bytes × Bytes

abbrev written : Sectors → ℕ → Bytes → Sectors
written f zero page = (page, f.1)
written f (suc i) page = (f.0, page)

abbrev erased : Sectors → ℕ → Sectors
erased f i = written f i []

abbrev front : Sectors → ℕ → Bytes
front f zero = slice f.0 0 40
front f (suc i) = slice f.1 0 40

sectors_law : IsSectors erased written front
sectors_law = record { first_kept = λ f page. refl; second_kept = λ f page. refl }

abbrev app : App
app = record { state = running; loaded = true }

abbrev result : Bool × App × Sectors
result = stage_slot erased written front 0 app ([], []) 1 (some (codes "1.5.0"))

staging_succeeds : result.0 ≡ true
unfolding stage_slot flash_save save_sectors save_sector encode stage slice eq_bytes blit bytes16
    bytes32 crc32
staging_succeeds = refl

stage_slot-IsStaged_example : IsStaged erased written front 0 1 result.1.state result.2
stage_slot-IsStaged_example =
    stage_slot-IsStaged erased written front 0 app ([], []) 1 (some (codes "1.5.0")) sectors_law
      (omega arith) (omega arith) (omega arith) staging_succeeds

-- A version that is no ASCII text is staged with success, and then no record loads.
abbrev accented : Bool × App × Sectors
accented = stage_slot erased written front 0 app ([], []) 1 (some (0xC3 ∷ 0xA9 ∷ []))

accented_lost : (accented.0 ≡ true) × (flash_load erased written front accented.2 ≡ none)
unfolding stage_slot flash_save save_sectors save_sector encode stage slice eq_bytes blit bytes16
    bytes32 crc32 flash_load pick pick_of decode read_version le16 le32 read_fields
accented_lost = (refl, refl)
