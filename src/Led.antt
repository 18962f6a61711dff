-- ===== src/Led.antt =====
-- The status LED, firmware/src/led/led.c. The SDK's clock is a parameter: a call is told the time in
-- milliseconds, and a deadline of `make_timeout_time_ms` is that many milliseconds later.
pub mod Shown
pub mod Flash
use roosterwake.Prelude.{
  ℕ, zero, suc, ◌+◌, Bool, true, false, not, ◌&&◌, ◌||◌, Option, none, some, List, [], ◌∷◌, ltb,
  leb, ◌==◌, if◌then◌else◌, length, get_or,
}

-- `led_step_t`
pub record LedStep : Type 0 where
  pub on : Bool
  pub ms : ℕ

abbrev lit : ℕ → LedStep
lit ms = record { on = true; ms = ms }

abbrev dark : ℕ → LedStep
dark ms = record { on = false; ms = ms }

-- `rw_led_pattern_t`
pub data Pattern : Type 0 where
  setup_ap joining online connected led_error : Pattern

abbrev same_pattern : Pattern → Pattern → Bool
same_pattern setup_ap setup_ap = true
same_pattern joining joining = true
same_pattern online online = true
same_pattern connected connected = true
same_pattern led_error led_error = true
same_pattern _ _ = false

-- `k_patterns`
unfoldable pub steps_of : Pattern → List LedStep
steps_of setup_ap = lit 120 ∷ dark 120 ∷ []
steps_of joining = lit 400 ∷ dark 400 ∷ []
steps_of online = lit 60 ∷ dark 2940 ∷ []
steps_of connected = lit 60 ∷ dark 180 ∷ lit 60 ∷ dark 2700 ∷ []
steps_of led_error =
    lit 180
    ∷ dark 180
    ∷ lit 180
    ∷ dark 180
    ∷ lit 180
    ∷ dark 540
    ∷ lit 540
    ∷ dark 180
    ∷ lit 540
    ∷ dark 180
    ∷ lit 540
    ∷ dark 540
    ∷ lit 180
    ∷ dark 180
    ∷ lit 180
    ∷ dark 180
    ∷ lit 180
    ∷ dark 1500
    ∷ []

-- `k_wake_sent`
abbrev pub wake_steps : List LedStep
wake_steps = lit 2000 ∷ []

-- The module's variables, and `level`, what the pin was last set to. No `s_active` is `none`.
pub record Led : Type 0 where
  pub available : Bool
  pub resting : Pattern
  pub active : Option (List LedStep)
  pub transient : Bool
  pub step : ℕ
  pub next_change : ℕ
  pub last_written : Bool
  pub initialised : Bool
  pub level : Bool

-- At power-on
abbrev pub led_reset : Led
led_reset = record {
  available = false;
  resting = setup_ap;
  active = none;
  transient = false;
  step = 0;
  next_change = 0;
  last_written = false;
  initialised = false;
  level = false;
}

abbrev flip : Bool → Bool → Bool
flip true b = not b
flip false b = b

-- `write_led`
unfoldable pub write_led : Led → Bool → Led
write_led l on =
    if not l.available
    then l
    else if not l.initialised || flip on l.last_written
    then record l { last_written = on; initialised = true; level = on }
    else l

-- The entry `def->steps[i]`; no pattern is empty.
unfoldable pub step_at : List LedStep → ℕ → LedStep
step_at steps i = get_or steps i (dark 0)

-- `begin`
unfoldable pub begin : Led → ℕ → List LedStep → Bool → Led
begin l now steps transient =
    write_led
      (record l {
        active = some steps;
        transient = transient;
        step = 0;
        next_change = now + (step_at steps 0).ms;
      })
      (step_at steps 0).on

-- `rw_led_init`
unfoldable pub led_init : Led → ℕ → Led
led_init l now =
    begin (record l { available = true; initialised = false }) now (steps_of setup_ap) false

-- `rw_led_set`
unfoldable pub led_set : Led → ℕ → Pattern → Led
led_set l now p =
    if same_pattern p l.resting
    then l
    else if not l.transient
    then begin (record l { resting = p }) now (steps_of p) false
    else record l { resting = p }

-- `rw_led_wake_sent`
unfoldable pub led_wake_sent : Led → ℕ → Led
led_wake_sent l now = begin l now wake_steps true

-- The next step of a pattern
unfoldable pub go_to : Led → ℕ → List LedStep → ℕ → Led
go_to l now steps i =
    write_led (record l { step = i; next_change = now + (step_at steps i).ms }) (step_at steps i).on

-- `rw_led_task`
unfoldable pub led_task : Led → ℕ → Led
led_task l now = if not l.available then l else elim l.active [
  | none ↦ led_init l now
  | some steps ↦
      if ltb now l.next_change
      then l
      else if leb (length steps) (l.step + 1)
      then (if l.transient then begin l now (steps_of l.resting) false else go_to l now steps 0)
      else go_to l now steps (l.step + 1)
]
