-- ===== src/Ota/Running/Staged.antt =====
-- What staging an update leaves in flash, and where the loader then goes.
use roosterwake.Prelude.{
  ℕ, ◌+◌, ◌≤◌, ◌<◌, ◌^◌, All, ltb, ◌==◌, none, length-take, ◌≡◌, ◌≢◌, refl, sym, ap, ◌∙◌, inl, inr,
  Bool, true, false, Option, some, length, replicate, arith, Bool-cases,
}
use roosterwake.Prelude.Bytes.{
  Bytes, byte_at, slice, length-slice, byte_at-slice, eq_bytes, eq_bytes_iff,
}
use roosterwake.Ota.State.{
  State, last_slot, version_width, given_version, encode, decode, pick, pick_of, stage, on_boot,
  boot_reverted,
}
use roosterwake.Ota.State.Codec.{IsPrintable, IsState, decode-encode_state}
use roosterwake.Ota.State.Trial.{boots, stage_reverts}
use roosterwake.Ota.Running.{App, flash_load, save_sector, save_sectors, flash_save, stage_slot}
use roosterwake.Ota.Running.Prefix.{decode_same}

long_enough : (r : Bytes) {s : State} → decode r ≡ some s → 40 ≤ length r
unfolding decode
long_enough r e = ground arith

front_decodes : (r : Bytes) (s : State) → decode r ≡ some s → decode (slice r 0 40) ≡ some s
front_decodes r s e =
    decode_same (slice r 0 40) r (λ i l. byte_at-slice r 0 40 i l ∙ ap (byte_at r) (zero_add i))
      (omega (arith, length-slice r 0 40)) (long_enough r e)
    ∙ e
  where
    zero_add : (i : ℕ) → 0 + i ≡ i
    zero_add i = omega arith

pick_both : (a b : Bytes) (s : State) → decode a ≡ some s → decode b ≡ some s → pick a b ≡ some s
unfolding pick pick_of
pick_both a b s ea eb = rw (ea, eb) (ground arith)

module _ {Flash : Type 0} (erase : Flash → ℕ → Flash) (program : Flash → ℕ → Bytes → Flash)
    (read : Flash → ℕ → Bytes) where
  -- What the SDK documents: erasing and programming one sector leaves the other.
  pub record IsSectors : Type 0 where
    pub first_kept : (f : Flash) (page : Bytes) → read (program (erase f 1) 1 page) 0 ≡ read f 0
    pub second_kept : (f : Flash) (page : Bytes) → read (program (erase f 0) 0 page) 1 ≡ read f 1

  abbrev sectors : Flash → Bytes → Bool × Flash
  sectors = save_sectors erase program read

  abbrev saved : Flash → State → Bool × Flash
  saved = flash_save erase program read

  sectors_ok :
      (f : Flash) (page : Bytes)
      → IsSectors
      → (sectors f page).0 ≡ true
      → (read (sectors f page).1 0 ≡ slice page 0 40)
        × (read (sectors f page).1 1 ≡ slice page 0 40)
  unfolding save_sectors save_sector
  sectors_ok f page law e =
      elim (Bool-cases (eq_bytes (read (program (erase f 0) 0 page) 0) (slice page 0 40))) [
        | inl ok ↦
            let f1 = program (erase f 0) 0 page in
            let same : sectors f page ≡ save_sector erase program read f1 1 page = rw ok refl in
            (
              ap (λ r. read r.1 0) same ∙ law.first_kept f1 page ∙ (eq_bytes_iff _ _).0 ok,
              ap (λ r. read r.1 1) same ∙ (eq_bytes_iff _ _).0 (ap (λ r. r.0) (sym same) ∙ e),
            )
        | inr bad ↦
            let same : sectors f page ≡ (false, program (erase f 0) 0 page) = rw bad refl in
            absurd (true_false (sym e ∙ ap (λ r. r.0) same))
      ]
    where
      true_false : true ≢ false
      true_false h = ground arith

  saved_page :
      (f : Flash) (s : State) (r : Bytes)
      → encode s (replicate 256 0) ≡ some r
      → saved f s ≡ sectors f r
  unfolding flash_save
  saved_page f s r enc = rw (enc, flash_save) refl

  save_ok :
      (f : Flash) (s : State)
      → IsSectors
      → IsState s
      → (saved f s).0 ≡ true
      → flash_load erase program read (saved f s).1 ≡ some s
  unfolding flash_load
  save_ok f s law v e =
      let (r, enc, dec) = decode-encode_state s (replicate 256 0) v (omega arith) in
      let front = front_decodes r s dec in
      let page = saved_page f s r enc in
      let (first, second) = sectors_ok f r law (ap (λ x. x.0) (sym page) ∙ e) in
      rw page (pick_both _ _ s (ap decode first ∙ front) (ap decode second ∙ front))

  abbrev staging : ℕ → App → Flash → ℕ → Option Bytes → Bool × App × Flash
  staging = stage_slot erase program read

  abbrev staged_state : ℕ → App → ℕ → Option Bytes → State
  staged_state running a slot version =
      stage (record a.state { active = running; confirmed = true }) slot version

  stage_ok :
      (running : ℕ) (a : App) (f : Flash) (slot : ℕ) (version : Option Bytes)
      → (staging running a f slot version).0 ≡ true
      → (slot ≤ last_slot)
        × (slot ≢ running)
        × ((saved f (staged_state running a slot version)).0 ≡ true)
        × ((staging running a f slot version).1.state ≡ staged_state running a slot version)
        × ((staging running a f slot version).2 ≡ (saved f (staged_state running a slot version)).1)
  unfolding stage_slot
  stage_ok running a f slot version e = ground arith

  -- What a staging that reports success leaves, in flash and for the boots to come.
  pub record IsStaged (running slot : ℕ) (s : State) (f : Flash) : Type 0 where
    pub other : slot ≢ running
    pub in_flash : flash_load erase program read f ≡ some s
    pub entered : (n : ℕ) → n < 3 → (on_boot (boots n s)).0.active ≡ slot
    pub reverts : (on_boot (boots 3 s)).2 ≡ boot_reverted
    pub back : (on_boot (boots 3 s)).0.active ≡ running

  staged-IsState :
      (s : State) (slot : ℕ) (version : Option Bytes)
      → slot ≤ last_slot
      → slot ≢ s.active
      → s.active ≤ last_slot
      → s.seq < 2 ^ 32
      → All IsPrintable (given_version version)
      → IsState (stage s slot version)
  unfolding stage
  staged-IsState s slot version exists other active seq text = record {
    seq = ground arith;
    active = ground arith;
    fallback = ground arith;
    trial = ground arith;
    version_fits = rw (there, elsewhere) (fits version);
    version_text = rw (there, elsewhere) text;
  }
    where
      there : ltb last_slot slot ≡ false
      there = ground arith

      elsewhere : (slot == s.active) ≡ false
      elsewhere = ground arith

      fits : (v : Option Bytes) → length (given_version v) ≤ version_width
      fits none = omega arith
      fits (some v) = omega (arith, length-take version_width v)

  -- Where the running slot is one of the two, the sequence number is a 32-bit word and the first sixteen bytes
  -- of the version are printable ASCII, if `rw_ota_stage_slot` reports success then the slot is not the running
  -- one, flash loads the staged record that the application holds, each of the three boots from that record enters
  -- the slot, and if the image never confirms itself the fourth boot is back in the slot that was running.
  -- Erasing and programming one sector is taken to leave the other.
  pub stage_slot-IsStaged :
      (running : ℕ) (a : App) (f : Flash) (slot : ℕ) (version : Option Bytes)
      → IsSectors
      → running ≤ last_slot
      → a.state.seq < 2 ^ 32
      → All IsPrintable (given_version version)
      → (staging running a f slot version).0 ≡ true
      → IsStaged running slot
          (staging running a f slot version).1.state
          (staging running a f slot version).2
  stage_slot-IsStaged running a f slot version law known seq text e =
      let (exists, other, took, state, flash) = stage_ok running a f slot version e in
      let here : State = record a.state { active = running; confirmed = true } in
      let (entered, reverts, kept, back, done) = stage_reverts here slot version exists other in
      let v = staged-IsState here slot version exists other known seq text in
      rw (state, flash)
        (record {
          other = other;
          in_flash = save_ok f (staged_state running a slot version) law v took;
          entered = λ n h. (entered n h).0;
          reverts = reverts;
          back = back;
        })
