-- ===== src/Config/Flash/Reset.antt =====
-- A factory reset keeps the identity and nothing else.
use roosterwake.Prelude.{
  ℕ, ◌≡◌, refl, ◌∙◌, Option, none, some, inl, inr, [], ◌∷◌, arith, Bool-cases,
}
use roosterwake.Prelude.Bytes.{Bytes}
use roosterwake.Config.Record.{
  Config, init, decode, seq_newer, known_auth, Winner, neither, slot_a, slot_b, choose, select,
}
use roosterwake.Config.Record.RoundTrip.{IsConfig}
use roosterwake.Config.Record.Sound.{decode-IsConfig}
use roosterwake.Config.Flash.{
  Slot, a, b, Flash, Rc, Hardware, Status, ok, err_locked, err_verify, err_encode, World, load,
  failure, target, new_seq, erase_then, confirm_erased, erase_all, identity_of, wipe_or_keep,
  write_identity, factory_reset, pico_ok, timeout, refused, erase,
}
use roosterwake.Config.Flash.Save.{load-save}

-- What loads after a successful reset of a device that loaded `found`: the identity alone, as the
-- first record of slot A, where there was one, and else nothing.
unfoldable pub reset_to : Winner → Bytes → Config → Winner × Config
reset_to neither token found = (neither, init)
reset_to winner [] found = (neither, init)
reset_to winner (c ∷ token) found = (slot_a, record (identity_of found) { seq = 1 })

unfoldable pub after_reset : Winner × Config → Winner × Config
unfolding reset_to identity_of
after_reset (winner, found) = reset_to winner found.token found

-- What is kept of a selected configuration.
identity-IsConfig : (cfg : Config) → IsConfig cfg → IsConfig (identity_of cfg)
unfolding identity_of
identity-IsConfig cfg c = record {
  version = refl;
  seq = omega arith;
  flags = omega arith;
  auth = unfold known_auth in refl;
  ssid = tt;
  psk = tt;
  relay_url = tt;
  device_id = c.device_id;
  token = c.token;
  owner_email = tt;
}

choose-IsConfig :
    (da db : Option Config)
    → ((c : Config) → da ≡ some c → IsConfig c)
    → ((c : Config) → db ≡ some c → IsConfig c)
    → IsConfig (choose da db).1
unfolding choose
choose-IsConfig none none ha hb = record {
  version = refl;
  seq = omega arith;
  flags = omega arith;
  auth = unfold known_auth in refl;
  ssid = tt;
  psk = tt;
  relay_url = tt;
  device_id = tt;
  token = tt;
  owner_email = tt;
}
choose-IsConfig none (some cb) ha hb = hb cb refl
choose-IsConfig (some ca) none ha hb = ha ca refl
choose-IsConfig (some ca) (some cb) ha hb = elim (Bool-cases (seq_newer cb.seq ca.seq)) [
  | inl newer ↦ rw newer (hb cb refl)
  | inr older ↦ rw older (ha ca refl)
]

load-IsConfig : (fl : Flash) → IsConfig (load fl).1
unfolding load select
load-IsConfig fl =
    choose-IsConfig (decode fl.sector_a) (decode fl.sector_b) (λ c. decode-IsConfig fl.sector_a)
      (λ c. decode-IsConfig fl.sector_b)

choose_neither :
    (da db : Option Config) → (choose da db).0 ≡ neither → choose da db ≡ (neither, init)
unfolding choose
choose_neither none none h = refl
choose_neither none (some cb) h = cc
choose_neither (some ca) none h = cc
choose_neither (some ca) (some cb) h = elim (Bool-cases (seq_newer cb.seq ca.seq)) [
  | inl newer ↦ cc (rw newer at h)
  | inr older ↦ cc (rw older at h)
]

-- Where nothing is readable the unprovisioned configuration is loaded.
load_neither : (fl : Flash) → (load fl).0 ≡ neither → load fl ≡ (neither, init)
unfolding load select
load_neither fl e = choose_neither (decode fl.sector_a) (decode fl.sector_b) e

confirm_erased_ok :
    (w : World) → (confirm_erased w).0 ≡ ok → load (confirm_erased w).1.1 ≡ (neither, init)
unfolding confirm_erased load
confirm_erased_ok (n, fl) e = by_winner (load fl).0 refl
  where
    Confirmed : Status × World → Type 0
    Confirmed r = r.0 ≡ ok → load r.1.1 ≡ (neither, init)

    by_winner : (v : Winner) → (load fl).0 ≡ v → load (confirm_erased (n, fl)).1.1 ≡ (neither, init)
    by_winner neither h = rw (h, confirm_erased) (load_neither fl h)
    by_winner slot_a h = cc (rw (h, confirm_erased) at e)
    by_winner slot_b h = cc (rw (h, confirm_erased) at e)

module _ (hw : Hardware) where
  erase_then_ok :
      (P : Status × World → Type 0) (s : Slot) (rest : World → Status × World) (w : World)
      → ((v : World) → (rest v).0 ≡ ok → P (rest v))
      → (erase_then hw s rest w).0 ≡ ok
      → P (erase_then hw s rest w)
  unfolding erase_then failure
  erase_then_ok P s rest (n, fl) h e = by_rc (hw.execute n s erase fl).0 refl
    where
      by_rc : (rc : Rc) → (hw.execute n s erase fl).0 ≡ rc → P (erase_then hw s rest (n, fl))
      by_rc pico_ok q = rw (q, erase_then) (h _ (rw (q, erase_then) at e))
      by_rc timeout q = cc (rw (q, erase_then) at e)
      by_rc refused q = cc (rw (q, erase_then) at e)

  -- A successful erase leaves no readable slot.
  pub erase_all_ok :
      (w : World) → (erase_all hw w).0 ≡ ok → load (erase_all hw w).1.1 ≡ (neither, init)
  unfolding erase_all
  erase_all_ok w =
      erase_then_ok (λ r. load r.1.1 ≡ (neither, init)) b (erase_then hw a confirm_erased) w
        (λ v.
          erase_then_ok (λ r. load r.1.1 ≡ (neither, init)) a confirm_erased v confirm_erased_ok)

  write_identity_ok :
      (current : Config) (r : Status × World)
      → IsConfig current
      → (r.0 ≡ ok → load r.1.1 ≡ (neither, init))
      → (write_identity hw current r).0 ≡ ok
      → load (write_identity hw current r).1.1 ≡ (slot_a, record (identity_of current) { seq = 1 })
  unfolding write_identity
  write_identity_ok current (ok, (n, fl)) c empty e =
      (load-save hw (identity_of current) n fl (identity-IsConfig current c) e).0
      ∙ rw (empty refl) (unfold target new_seq in refl)
  write_identity_ok current (err_locked, w) c empty e = cc
  write_identity_ok current (err_verify, w) c empty e = cc
  write_identity_ok current (err_encode, w) c empty e = cc

  kept_or_wiped :
      (winner : Winner) (token : Bytes) (found : Config) (wipe : Status × World)
      → IsConfig found
      → (wipe.0 ≡ ok → load wipe.1.1 ≡ (neither, init))
      → (wipe_or_keep winner token wipe (write_identity hw found wipe)).0 ≡ ok
      → load (wipe_or_keep winner token wipe (write_identity hw found wipe)).1.1
        ≡ reset_to winner token found
  unfolding wipe_or_keep reset_to
  kept_or_wiped neither token found wipe c empty e = empty e
  kept_or_wiped slot_a [] found wipe c empty e = empty e
  kept_or_wiped slot_b [] found wipe c empty e = empty e
  kept_or_wiped slot_a (x ∷ token) found wipe c empty e = write_identity_ok found wipe c empty e
  kept_or_wiped slot_b (x ∷ token) found wipe c empty e = write_identity_ok found wipe c empty e

  -- After a factory reset that reports success, a device that had an identity loads exactly its
  -- device id and its token, with every other setting unprovisioned, as record 1 of slot A; one
  -- without loads nothing.
  pub load-factory_reset :
      (n : ℕ) (fl : Flash)
      → (factory_reset hw (n, fl)).0 ≡ ok
      → load (factory_reset hw (n, fl)).1.1 ≡ after_reset (load fl)
  unfolding factory_reset after_reset
  load-factory_reset n fl e =
      kept_or_wiped (load fl).0 (load fl).1.token (load fl).1 (erase_all hw (n, fl))
        (load-IsConfig fl) (erase_all_ok (n, fl)) e
