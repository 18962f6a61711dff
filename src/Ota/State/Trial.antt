-- ===== src/Ota/State/Trial.antt =====
-- The trial of a new image: how long it lasts, how it ends, and what never goes wrong on the way.
use roosterwake.Prelude.{
  ℕ, zero, suc, ◌≤◌, ◌<◌, ◌≡◌, ◌≢◌, refl, ◌∙◌, ap, true, false, Option, ◌⊎◌, inl, arith,
}
use roosterwake.Prelude.Bytes.{Bytes}
use roosterwake.Ota.State.{
  State, default, on_boot, stage, confirm, boot_active, boot_reverted, trial_boots, last_slot,
}

-- Boots in a row with no confirmation between them.
unfoldable pub boots : ℕ → State → State
boots zero s = s
boots (suc n) s = boots n (on_boot s).0

one_boot :
    (n : ℕ) (s : State)
    → s.confirmed ≡ false
    → s.trial ≡ suc n
    → ((on_boot s).0.confirmed ≡ false)
      × ((on_boot s).0.trial ≡ n)
      × ((on_boot s).0.active ≡ s.active)
      × ((on_boot s).0.fallback ≡ s.fallback)
unfolding on_boot
one_boot n s c t = ground arith

-- An unconfirmed image is entered as often as its trial count says, and the boot after that goes
-- back to the fallback slot, confirmed.
pub boots_revert :
    (n : ℕ) (s : State)
    → s.confirmed ≡ false
    → s.trial ≡ n
    → ((boots n s).active ≡ s.active)
      × ((on_boot (boots n s)).2 ≡ boot_reverted)
      × ((on_boot (boots n s)).1 ≡ true)
      × ((on_boot (boots n s)).0.active ≡ s.fallback)
      × ((on_boot (boots n s)).0.confirmed ≡ true)
unfolding boots
boots_revert zero s c t = unfold on_boot in ground arith
boots_revert (suc n) s c t =
    let (c', t', active, fallback) = one_boot n s c t in
    let (stays, reverted, kept, back, done) = boots_revert n (on_boot s).0 c' t' in
    (stays ∙ active, reverted, kept, back ∙ fallback, done)

-- Every boot of the trial enters the image and counts it.
boots_enter :
    (m n : ℕ) (s : State)
    → s.confirmed ≡ false
    → s.trial ≡ m
    → n < m
    → (on_boot (boots n s)).0.active ≡ s.active
      × ((on_boot (boots n s)).1 ≡ true)
      × ((on_boot (boots n s)).2 ≡ boot_active)
unfolding boots
boots_enter zero n s c t h = absurd (omega (arith, h))
boots_enter (suc m) zero s c t h = unfold on_boot in ground arith
boots_enter (suc m) (suc n) s c t h =
    let (c', t', active, fallback) = one_boot m s c t in
    let (stays, kept, entered) = boots_enter m n (on_boot s).0 c' t' (omega (arith, h)) in
    (stays ∙ active, kept, entered)

staged :
    (s : State) (slot : ℕ) (version : Option Bytes)
    → slot ≤ last_slot
    → slot ≢ s.active
    → ((stage s slot version).confirmed ≡ false)
      × ((stage s slot version).trial ≡ 3)
      × ((stage s slot version).active ≡ slot)
      × ((stage s slot version).fallback ≡ s.active)
unfolding stage
staged s slot version h ne = ground arith

-- A staged image that is never confirmed is entered by the three boots that follow, each of which asks for the record to be
-- written; the fourth boot is back in the slot that was active before, confirmed, and asks for the record to be
-- written too. The slot exists and is not the active one.
pub stage_reverts :
    (s : State) (slot : ℕ) (version : Option Bytes)
    → slot ≤ last_slot
    → slot ≢ s.active
    → ((n : ℕ)
        → n < 3
        → ((on_boot (boots n (stage s slot version))).0.active ≡ slot)
          × ((on_boot (boots n (stage s slot version))).1 ≡ true)
          × ((on_boot (boots n (stage s slot version))).2 ≡ boot_active))
      × ((on_boot (boots 3 (stage s slot version))).2 ≡ boot_reverted)
      × ((on_boot (boots 3 (stage s slot version))).1 ≡ true)
      × ((on_boot (boots 3 (stage s slot version))).0.active ≡ s.active)
      × ((on_boot (boots 3 (stage s slot version))).0.confirmed ≡ true)
stage_reverts s slot version h ne =
    let (c, t, active, fallback) = staged s slot version h ne in
    let (stays, reverted, kept, back, done) = boots_revert 3 (stage s slot version) c t in
    (λ n h. enters n h c t active, reverted, kept, back ∙ fallback, done)
  where
    enters :
        (n : ℕ)
        → n < 3
        → (stage s slot version).confirmed ≡ false
        → (stage s slot version).trial ≡ 3
        → (stage s slot version).active ≡ slot
        → ((on_boot (boots n (stage s slot version))).0.active ≡ slot)
          × ((on_boot (boots n (stage s slot version))).1 ≡ true)
          × ((on_boot (boots n (stage s slot version))).2 ≡ boot_active)
    enters n h c t active =
        let (same, kept, entered) = boots_enter 3 n (stage s slot version) c t h in
        (same ∙ active, kept, entered)

confirmed_boot : (s : State) → s.confirmed ≡ true → on_boot s ≡ (s, false, boot_active)
unfolding on_boot
confirmed_boot s c = rw c

confirmed_boots : (n : ℕ) (s : State) → s.confirmed ≡ true → boots n s ≡ s
unfolding boots
confirmed_boots zero s c = refl
confirmed_boots (suc n) s c = ap (λ r. boots n r.0) (confirmed_boot s c) ∙ confirmed_boots n s c

confirm_sets : (s : State) → ((confirm s).confirmed ≡ true) × ((confirm s).active ≡ s.active)
unfolding confirm
confirm_sets s = ground arith

-- Once an image is confirmed every later boot enters it and writes nothing.
pub confirm_stays :
    (n : ℕ) (s : State)
    → (on_boot (boots n (confirm s)) ≡ (confirm s, false, boot_active))
      × ((confirm s).active ≡ s.active)
confirm_stays n s =
    let (c, active) = confirm_sets s in
    (ap on_boot (confirmed_boots n (confirm s) c) ∙ confirmed_boot (confirm s) c, active)

-- What the loader and the application do to the record, in any order.
pub data Step (s : State) : State → Type 0 where
  boot : Step s (on_boot s).0
  stage_slot : (slot : ℕ) (version : Option Bytes) → Step s (stage s slot version)
  prove : Step s (confirm s)

pub data Reach (s : State) : State → Type 0 where
  here : Reach s s
  more : {t u : State} → Reach s t → Step t u → Reach s u

-- Both slots exist, the trial is not longer than it may be, and an unproven image has another
-- slot to fall back to.
pub record IsValid (s : State) : Type 0 where
  pub active : s.active ≤ last_slot
  pub fallback : s.fallback ≤ last_slot
  pub trial : s.trial ≤ trial_boots
  pub retreat : (s.confirmed ≡ true) ⊎ (s.fallback ≢ s.active)

on_boot-IsValid : (s : State) → IsValid s → IsValid (on_boot s).0
unfolding on_boot
on_boot-IsValid s v = ground arith

stage-IsValid :
    (s : State) (slot : ℕ) (version : Option Bytes) → IsValid s → IsValid (stage s slot version)
unfolding stage
stage-IsValid s slot version v = ground arith

confirm-IsValid : (s : State) → IsValid s → IsValid (confirm s)
unfolding confirm
confirm-IsValid s v = ground arith

Step-IsValid : {s t : State} → Step s t → IsValid s → IsValid t
Step-IsValid {s = s} boot v = on_boot-IsValid s v
Step-IsValid {s = s} (stage_slot slot version) v = stage-IsValid s slot version v
Step-IsValid {s = s} prove v = confirm-IsValid s v

-- From a factory record, whatever boots, stagings and confirmations follow and in whatever order,
-- the active and the fallback slot exist and an unproven image always has another slot behind it.
pub Reach-IsValid : (version : Option Bytes) {s : State} → Reach (default version) s → IsValid s
Reach-IsValid version here =
    unfold default in
    record { active = omega arith; fallback = omega arith; trial = omega arith; retreat = inl refl }
Reach-IsValid version (more r st) = Step-IsValid st (Reach-IsValid version r)
