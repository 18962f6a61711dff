-- ===== src/Diag/Stuck/Sealed.antt =====
-- The record that survives a restart.
use roosterwake.Prelude.{ℕ, ◌<◌, ◌≡◌, ◌≢◌, refl, sym, ap, ◌∙◌, true, false, ◌∷◌, ◌++◌, All, arith}
use roosterwake.Prelude.Bytes.{Bytes, IsByte}
use roosterwake.Config.Crc.{crc32}
use roosterwake.Config.Crc.OneByte.{crc32_one_byte}
use roosterwake.Diag.Stuck.{Entry, covered, seal, valid, stuck_magic}

-- A sealed record is valid, and it is the caller's record but for the magic, the version, the
-- reserved field and the checksum.
pub valid-seal :
    (rec : Entry)
    → (valid (seal rec) ≡ true)
      × (seal rec
          ≡ record rec { magic = stuck_magic; version = 1; reserved = 0; crc = (seal rec).crc })
unfolding seal valid covered
valid-seal rec = (ground arith, refl)

seal_crc : (rec : Entry) → (seal rec).crc ≡ crc32 (covered (seal rec))
unfolding seal covered
seal_crc rec = refl

valid_crc : (rec : Entry) → rec.crc ≢ crc32 (covered rec) → valid rec ≡ false
unfolding valid
valid_crc rec h = ground arith

-- A sealed record with one byte of what the checksum covers changed is not valid.
pub valid_one_byte :
    (rec found : Entry) (front back : Bytes) (x y : ℕ)
    → covered (seal rec) ≡ front ++ (x ∷ back)
    → covered found ≡ front ++ (y ∷ back)
    → found.crc ≡ (seal rec).crc
    → x < 256
    → y < 256
    → All IsByte back
    → x ≢ y
    → valid found ≡ false
valid_one_byte rec found front back x y e f c hx hy w ne = valid_crc found (λ same.
    crc32_one_byte front back x y hx hy w ne
      (sym (ap crc32 e) ∙ sym (seal_crc rec) ∙ sym c ∙ same ∙ ap crc32 f))
