-- ===== src/Config/Flash/Save.antt =====
-- What `save` does to the two sectors, and what is loaded after it.
use roosterwake.Prelude.{
  ℕ, ◌^◌, ◌<◌, ◌≡◌, refl, sym, subst, ◌∙◌, ap, Option, none, some, ◌⊎◌, inr, replicate, arith,
}
use roosterwake.Prelude.Bytes.{Bytes}
use roosterwake.Config.Record.{Config, decode, Winner, neither, slot_a, slot_b, choose, select}
use roosterwake.Config.Record.RoundTrip.{IsConfig, decode_encoded}
use roosterwake.Config.Record.Select.{seq_newer-next_seq, decode_seq}
use roosterwake.Config.Flash.{
  Slot, a, b, Flash, sector, other, Hardware, Status, ok, sector_size, World, load, target, new_seq,
  save,
}
use roosterwake.Config.Flash.Attempt.{
  win, seq_after, saved, attempt, attempt-other, attempt_ok, finish_parts, image_of, save_encoded,
  save_refused,
}

-- A record in slot A under the next number wins over what slot B holds, where A was the target.
new_on_a :
    (da db : Option Config) (cfg : Config)
    → ((c : Config) → db ≡ some c → c.seq < 2 ^ 32)
    → target (choose da db).0 ≡ a
    → cfg.seq ≡ new_seq (choose da db).0 (choose da db).1.seq
    → choose (some cfg) db ≡ (slot_a, cfg)
unfolding choose target new_seq
new_on_a da none cfg wide t e = refl
new_on_a none (some cb) cfg wide t e = ground (arith, seq_newer-next_seq cb.seq (wide cb refl))
new_on_a (some ca) (some cb) cfg wide t e = ground (arith, seq_newer-next_seq cb.seq (wide cb refl))

-- The same with the slots exchanged.
new_on_b :
    (da db : Option Config) (cfg : Config)
    → ((c : Config) → da ≡ some c → c.seq < 2 ^ 32)
    → target (choose da db).0 ≡ b
    → cfg.seq ≡ new_seq (choose da db).0 (choose da db).1.seq
    → choose da (some cfg) ≡ (slot_b, cfg)
unfolding choose target new_seq
new_on_b none db cfg wide t e = refl
new_on_b (some ca) none cfg wide t e = ground (arith, seq_newer-next_seq ca.seq (wide ca refl))
new_on_b (some ca) (some cb) cfg wide t e = ground (arith, seq_newer-next_seq ca.seq (wide ca refl))

-- The new record is chosen over the one it supersedes.
choose_saved :
    (s : Slot) (fl fl' : Flash) (cfg : Config)
    → target (load fl).0 ≡ s
    → cfg.seq ≡ seq_after fl
    → decode (sector s fl') ≡ some cfg
    → sector (other s) fl' ≡ sector (other s) fl
    → load fl' ≡ (win s, cfg)
unfolding load select
choose_saved a fl fl' cfg t e new kept =
    rw (new, kept)
      (new_on_a (decode fl.sector_a) (decode fl.sector_b) cfg (λ c. decode_seq fl.sector_b) t e)
choose_saved b fl fl' cfg t e new kept =
    rw (new, kept)
      (new_on_b (decode fl.sector_a) (decode fl.sector_b) cfg (λ c. decode_seq fl.sector_a) t e)

IsConfig-seq :
    (cfg : Config) (n : ℕ) → n < 2 ^ 32 → IsConfig cfg → IsConfig (record cfg { seq = n })
IsConfig-seq cfg n h c = record {
  version = c.version;
  seq = h;
  flags = c.flags;
  auth = c.auth;
  ssid = c.ssid;
  psk = c.psk;
  relay_url = c.relay_url;
  device_id = c.device_id;
  token = c.token;
  owner_email = c.owner_email;
}

seq_after-lt : (fl : Flash) → seq_after fl < 2 ^ 32
unfolding new_seq
seq_after-lt fl = by_winner (load fl).0 (load fl).1.seq
  where
    by_winner : (w : Winner) (n : ℕ) → new_seq w n < 2 ^ 32
    by_winner neither n = omega arith
    by_winner slot_a n = omega arith
    by_winner slot_b n = omega arith

-- The slot that a boot from this flash would read is slot `s`.
abbrev pub IsLive : Slot → Flash → Type 0
IsLive s fl = (load fl).0 ≡ win s

IsLive-target : (s : Slot) (fl : Flash) → IsLive s fl → other (target (load fl).0) ≡ s
unfolding target
IsLive-target a fl h = rw h
IsLive-target b fl h = rw h

module _ (hw : Hardware) where
  save_outcome :
      (cfg : Config) (n : ℕ) (fl : Flash)
      → (sector (other (target (load fl).0)) (save hw cfg (n, fl)).2.1
          ≡ sector (other (target (load fl).0)) fl)
        × (((save hw cfg (n, fl)).0 ≡ ok) ⊎ ((save hw cfg (n, fl)).1 ≡ cfg))
  save_outcome cfg n fl = by_image (image_of hw cfg fl) refl
    where
      Outcome : Status × Config × World → Type 0
      Outcome r =
          (sector (other (target (load fl).0)) r.2.1 ≡ sector (other (target (load fl).0)) fl)
          × ((r.0 ≡ ok) ⊎ (r.1 ≡ cfg))

      by_image : (o : Option Bytes) → image_of hw cfg fl ≡ o → Outcome (save hw cfg (n, fl))
      by_image none e = subst Outcome (sym (save_refused hw cfg n fl e)) (refl, inr refl)
      by_image (some image) e =
          let r = attempt hw (target (load fl).0) image (n, fl) in
          let (st, w, _, failed) = finish_parts hw cfg (seq_after fl) r in
          subst Outcome (sym (save_encoded hw cfg n fl image e)) (
            ap (λ (v : World). sector (other (target (load fl).0)) v.1) w
                ∙ attempt-other hw (target (load fl).0) image (n, fl),
            failed,
          )

  -- Whatever the hardware does, saving leaves the live slot as it was: a power loss at any call
  -- finds the old record there. Where saving fails the caller's configuration is unchanged.
  pub save_keeps_live :
      (cfg : Config) (n : ℕ) (fl : Flash) (s : Slot)
      → IsLive s fl
      → (sector s (save hw cfg (n, fl)).2.1 ≡ sector s fl)
        × (((save hw cfg (n, fl)).0 ≡ ok) ⊎ ((save hw cfg (n, fl)).1 ≡ cfg))
  save_keeps_live cfg n fl s live =
      let (kept, failed) = save_outcome cfg n fl in
      (
        subst (λ t. sector t (save hw cfg (n, fl)).2.1 ≡ sector t fl) (IsLive-target s fl live)
            kept,
        failed,
      )

  -- After a save that reports success the saved configuration is what loads, from the slot that
  -- was not live, under the next sequence number. The configuration is of version 2 with a known authentication
  -- mode, its strings hold no NUL and its numbers fit their words.
  pub load-save :
      (cfg : Config) (n : ℕ) (fl : Flash)
      → IsConfig cfg
      → (save hw cfg (n, fl)).0 ≡ ok
      → (load (save hw cfg (n, fl)).2.1 ≡ (win (target (load fl).0), saved cfg fl))
        × ((save hw cfg (n, fl)).1 ≡ saved cfg fl)
  load-save cfg n fl c = by_image (image_of hw cfg fl) refl
    where
      Loads : Status × Config × World → Type 0
      Loads r =
          r.0 ≡ ok → (load r.2.1 ≡ (win (target (load fl).0), saved cfg fl)) × (r.1 ≡ saved cfg fl)

      by_image : (o : Option Bytes) → image_of hw cfg fl ≡ o → Loads (save hw cfg (n, fl))
      by_image none e = subst Loads (sym (save_refused hw cfg n fl e)) (λ bad. cc)
      by_image (some image) e = subst Loads (sym (save_encoded hw cfg n fl image e)) λ good.
          let s = target (load fl).0 in
          let r = attempt hw s image (n, fl) in
          let (st, w, stored, _) = finish_parts hw cfg (seq_after fl) r in
          let done : r.0 ≡ ok = sym st ∙ good in
          let read : decode (sector s r.1.1) ≡ some (saved cfg fl) =
            ap decode (attempt_ok hw s image (n, fl) done)
            ∙ decode_encoded (saved cfg fl) (replicate sector_size 0)
                (IsConfig-seq cfg (seq_after fl) (seq_after-lt fl) c) e in
          (
            ap (λ (v : World). load v.1) w
                ∙ choose_saved s fl r.1.1 (saved cfg fl) refl refl read
                    (attempt-other hw s image (n, fl)),
            stored done,
          )
