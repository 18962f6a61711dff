-- ===== src/Led/Shown.antt =====
-- The pin always shows the step that the pattern is at.
use roosterwake.Prelude.{
  ℕ, ◌+◌, ◌<◌, ◌≡◌, refl, sym, ap, ◌∙◌, ◌⊎◌, inl, inr, Bool, true, false, some, List, length, arith,
  Bool-cases,
}
use roosterwake.Led.{
  LedStep, Pattern, setup_ap, joining, online, connected, led_error, steps_of, wake_steps, Led,
  led_reset, write_led, step_at, begin, led_init, led_set, led_wake_sent, go_to, led_task,
}

-- What the radio's LED and the module agree on once it is available.
pub record Shows (l : Led) (steps : List LedStep) : Type 0 where
  pub written : l.initialised ≡ true
  pub known : l.last_written ≡ l.level
  pub shown : l.level ≡ (step_at steps l.step).on
  pub inside : l.step < length steps

-- Either the radio is not there yet and nothing was written, or a pattern runs and is shown.
pub data IsShown (l : Led) : Type 0 where
  unavailable : l.available ≡ false → IsShown l
  running :
      (steps : List LedStep)
      → l.available ≡ true
      → l.active ≡ some steps
      → Shows l steps
      → IsShown l

write_led_shows :
    (l : Led) (on : Bool)
    → l.available ≡ true
    → (l.initialised ≡ false) ⊎ (l.last_written ≡ l.level)
    → ((write_led l on).level ≡ on)
      × ((write_led l on).last_written ≡ on)
      × ((write_led l on).initialised ≡ true)
      × ((write_led l on).available ≡ true)
      × ((write_led l on).active ≡ l.active)
      × ((write_led l on).step ≡ l.step)
unfolding write_led
write_led_shows l on a k = ground arith

-- Starting a pattern, and going to one of its steps.
begin_shown :
    (l : Led) (now : ℕ) (steps : List LedStep) (transient : Bool)
    → (l.available ≡ false) ⊎ ((l.initialised ≡ false) ⊎ (l.last_written ≡ l.level))
    → 0 < length steps
    → IsShown (begin l now steps transient)
unfolding begin
begin_shown l now steps transient k some_step = elim (Bool-cases l.available) [
  | inr no_radio ↦ unavailable (stays_dark _ _ no_radio)
  | inl radio ↦
      let l1 = record l {
        active = some steps;
        transient = transient;
        step = 0;
        next_change = now + (step_at steps 0).ms;
      } in
      let (level, last, fine, a, act, st) =
        write_led_shows l1 (step_at steps 0).on radio (synced l k radio) in
      running steps a act (record {
        written = fine;
        known = last ∙ sym level;
        shown = level ∙ ap (λ i. (step_at steps i).on) (sym st);
        inside = rw st some_step;
      })
]
  where
    stays_dark : (l : Led) (on : Bool) → l.available ≡ false → (write_led l on).available ≡ false
    stays_dark l on h = unfold write_led in ground arith

    synced :
        (l : Led)
        → (l.available ≡ false) ⊎ ((l.initialised ≡ false) ⊎ (l.last_written ≡ l.level))
        → l.available ≡ true
        → (l.initialised ≡ false) ⊎ (l.last_written ≡ l.level)
    synced l k a = ground arith

go_to_shown :
    (l : Led) (now : ℕ) (steps : List LedStep) (i : ℕ)
    → l.available ≡ true
    → l.active ≡ some steps
    → l.last_written ≡ l.level
    → i < length steps
    → IsShown (go_to l now steps i)
unfolding go_to
go_to_shown l now steps i radio act k h =
    let l1 = record l { step = i; next_change = now + (step_at steps i).ms } in
    let (level, last, fine, a, act1, st) = write_led_shows l1 (step_at steps i).on radio (inr k) in
    running steps a (act1 ∙ act) (record {
      written = fine;
      known = last ∙ sym level;
      shown = level ∙ ap (λ j. (step_at steps j).on) (sym st);
      inside = rw st h;
    })

steps_of_some : (p : Pattern) → 0 < length (steps_of p)
unfolding steps_of
steps_of_some setup_ap = omega arith
steps_of_some joining = omega arith
steps_of_some online = omega arith
steps_of_some connected = omega arith
steps_of_some led_error = omega arith

-- The agreement that any shown state has.
agreed :
    (l : Led)
    → IsShown l
    → (l.available ≡ false) ⊎ ((l.initialised ≡ false) ⊎ (l.last_written ≡ l.level))
agreed l (unavailable h) = inl h
agreed l (running steps a act s) = inr (inr s.known)

-- What main.c and the parts that report do to the LED.
pub data LedStepped (l : Led) : Led → Type 0 where
  initialise : (now : ℕ) → LedStepped l (led_init l now)
  show : (now : ℕ) (p : Pattern) → LedStepped l (led_set l now p)
  wake : (now : ℕ) → LedStepped l (led_wake_sent l now)
  tick : (now : ℕ) → LedStepped l (led_task l now)

pub data LedReach (l : Led) : Led → Type 0 where
  here : LedReach l l
  then_step : {m n : Led} → LedReach l m → LedStepped m n → LedReach l n

set_cases :
    (l : Led) (now : ℕ) (p : Pattern)
    → (led_set l now p ≡ l)
      ⊎ (led_set l now p ≡ begin (record l { resting = p }) now (steps_of p) false)
      ⊎ (led_set l now p ≡ record l { resting = p })
unfolding led_set
set_cases l now p = ground arith

task_cases :
    (l : Led) (now : ℕ) (steps : List LedStep)
    → l.available ≡ true
    → l.active ≡ some steps
    → (led_task l now ≡ l)
      ⊎ (led_task l now ≡ begin l now (steps_of l.resting) false)
      ⊎ (led_task l now ≡ go_to l now steps 0)
      ⊎ ((led_task l now ≡ go_to l now steps (l.step + 1)) × (l.step + 1 < length steps))
unfolding led_task
task_cases l now steps radio act = ground arith

task_dark : (l : Led) (now : ℕ) → l.available ≡ false → led_task l now ≡ l
unfolding led_task
task_dark l now h = ground arith

rested : (l : Led) (p : Pattern) → IsShown l → IsShown (record l { resting = p })
rested l p (unavailable h) = unavailable h
rested l p (running steps a act s) =
    running steps a act
      (record { written = s.written; known = s.known; shown = s.shown; inside = s.inside })

LedStepped-IsShown : {l m : Led} → LedStepped l m → IsShown l → IsShown m
LedStepped-IsShown {l} (initialise now) h =
    unfold led_init in
    begin_shown (record l { available = true; initialised = false }) now _ false (inr (inl refl))
      (steps_of_some setup_ap)
LedStepped-IsShown {l} (show now p) h = elim (set_cases l now p) [
  | inl same ↦ rw same h
  | inr (inl same) ↦
      rw same (
        begin_shown (record l { resting = p }) now (steps_of p) false (agreed l h)
          (steps_of_some p))
  | inr (inr same) ↦ rw same (rested l p h)
]
LedStepped-IsShown {l} (wake now) h =
    unfold led_wake_sent in begin_shown l now wake_steps true (agreed l h) (omega arith)
LedStepped-IsShown {l} (tick now) (unavailable h) = rw (task_dark l now h) (unavailable h)
LedStepped-IsShown {l} (tick now) (running steps a act s) =
    let h : IsShown l = running steps a act s in
    let inside = s.inside in
    elim (task_cases l now steps a act) [
      | inl same ↦ rw same h
      | inr (inl same) ↦
          rw same
            (begin_shown l now (steps_of l.resting) false (agreed l h) (steps_of_some l.resting))
      | inr (inr (inl same)) ↦ rw same (go_to_shown l now steps 0 a act s.known (omega arith))
      | inr (inr (inr (same, more))) ↦
          rw same (go_to_shown l now steps (l.step + 1) a act s.known more)
    ]

-- From power-on, whatever calls follow and whenever, once the radio is there the pin shows the step that
-- the running pattern is at, and that step exists.
pub LedReach-IsShown : {l : Led} → LedReach led_reset l → IsShown l
LedReach-IsShown here = unavailable refl
LedReach-IsShown (then_step r st) = LedStepped-IsShown st (LedReach-IsShown r)
