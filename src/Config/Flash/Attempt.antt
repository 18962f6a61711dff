-- ===== src/Config/Flash/Attempt.antt =====
-- One write with its retry, and the two ways that `save` can go.
use roosterwake.Prelude.{ℕ, ◌≡◌, refl, ◌∙◌, Option, none, some, ◌⊎◌, inl, inr, replicate, arith}
use roosterwake.Prelude.Bytes.{Bytes, eq_bytes_iff}
use roosterwake.Config.Record.{Config, encode, Winner, slot_a, slot_b}
use roosterwake.Config.Flash.{
  Slot, a, b, Flash, sector, other, program, Hardware, Status, ok, err_locked, err_verify,
  err_encode, sector_size, World, load, failure, write_and_verify, target, new_seq, finish, retry,
  save,
}

-- The slot that `rw_config_select` names by its winner.
abbrev pub win : Slot → Winner
win a = slot_a
win b = slot_b

-- The number that the record is written under, and the configuration that is then stored.
abbrev pub seq_after : Flash → ℕ
seq_after fl = new_seq (load fl).0 (load fl).1.seq

abbrev pub saved : Config → Flash → Config
saved cfg fl = record cfg { seq = seq_after fl }

module _ (hw : Hardware) where
  write_and_verify-other :
      (s : Slot) (image : Bytes) (w : World)
      → sector (other s) (write_and_verify hw s image w).1.1 ≡ sector (other s) w.1
  unfolding write_and_verify
  write_and_verify-other s image (n, fl) = ground (arith, hw.other_kept n s (program image) fl)

  write_and_verify_ok :
      (s : Slot) (image : Bytes) (w : World)
      → (write_and_verify hw s image w).0 ≡ ok
      → sector s (write_and_verify hw s image w).1.1 ≡ image
  unfolding write_and_verify failure
  write_and_verify_ok s image (n, fl) e =
      ground (arith, eq_bytes_iff (sector s (hw.execute n s (program image) fl).1) image)

  retry-other :
      (s : Slot) (image : Bytes) (r : Status × World) (fl : Flash)
      → sector (other s) r.1.1 ≡ sector (other s) fl
      → sector (other s) (retry hw s image r).1.1 ≡ sector (other s) fl
  unfolding retry
  retry-other s image (err_verify, w) fl h = write_and_verify-other s image w ∙ h
  retry-other s image (ok, w) fl h = h
  retry-other s image (err_locked, w) fl h = h
  retry-other s image (err_encode, w) fl h = h

  retry_ok :
      (s : Slot) (image : Bytes) (r : Status × World)
      → (r.0 ≡ ok → sector s r.1.1 ≡ image)
      → (retry hw s image r).0 ≡ ok
      → sector s (retry hw s image r).1.1 ≡ image
  unfolding retry
  retry_ok s image (err_verify, w) h e = write_and_verify_ok s image w e
  retry_ok s image (ok, w) h e = h e
  retry_ok s image (err_locked, w) h e = cc
  retry_ok s image (err_encode, w) h e = cc

  -- Both attempts of a write.
  abbrev pub attempt : Slot → Bytes → World → Status × World
  attempt s image w = retry hw s image (write_and_verify hw s image w)

  pub attempt-other :
      (s : Slot) (image : Bytes) (w : World)
      → sector (other s) (attempt s image w).1.1 ≡ sector (other s) w.1
  attempt-other s image w =
      retry-other s image (write_and_verify hw s image w) w.1 (write_and_verify-other s image w)

  pub attempt_ok :
      (s : Slot) (image : Bytes) (w : World)
      → (attempt s image w).0 ≡ ok
      → sector s (attempt s image w).1.1 ≡ image
  attempt_ok s image w =
      retry_ok s image (write_and_verify hw s image w) (write_and_verify_ok s image w)

  pub finish_parts :
      (cfg : Config) (seq : ℕ) (r : Status × World)
      → ((finish cfg seq r).0 ≡ r.0)
        × ((finish cfg seq r).2 ≡ r.1)
        × (r.0 ≡ ok → (finish cfg seq r).1 ≡ record cfg { seq = seq })
        × (((finish cfg seq r).0 ≡ ok) ⊎ ((finish cfg seq r).1 ≡ cfg))
  unfolding finish
  finish_parts cfg seq (ok, w) = (refl, refl, λ e. refl, inl refl)
  finish_parts cfg seq (err_locked, w) = (refl, refl, λ e. cc, inr refl)
  finish_parts cfg seq (err_verify, w) = (refl, refl, λ e. cc, inr refl)
  finish_parts cfg seq (err_encode, w) = (refl, refl, λ e. cc, inr refl)

  -- The image that `save` asks for, and the two ways that it can go.
  abbrev pub image_of : Config → Flash → Option Bytes
  image_of cfg fl = encode (saved cfg fl) (replicate sector_size 0)

  pub save_encoded :
      (cfg : Config) (n : ℕ) (fl : Flash) (image : Bytes)
      → image_of cfg fl ≡ some image
      → save hw cfg (n, fl) ≡ finish cfg (seq_after fl) (attempt (target (load fl).0) image (n, fl))
  unfolding save
  save_encoded cfg n fl image e = rw (e, save)

  pub save_refused :
      (cfg : Config) (n : ℕ) (fl : Flash)
      → image_of cfg fl ≡ none
      → save hw cfg (n, fl) ≡ (err_encode, cfg, (n, fl))
  unfolding save
  save_refused cfg n fl e = rw (e, save)
