-- ===== src/Led/Flash.antt =====
-- The flash that acknowledges a wake ends, and the resting pattern resumes.
use roosterwake.Prelude.{
  ℕ, ◌+◌, ◌≤◌, ◌<◌, ◌≡◌, refl, sym, ap, ◌∙◌, Bool, true, false, some, List, [], ◌∷◌, All, arith,
  Bool-cases, inl, inr,
}
use roosterwake.Led.{
  LedStep, Pattern, same_pattern, steps_of, wake_steps, Led, write_led, step_at, begin, led_set,
  led_wake_sent, led_task,
}

-- What may be called while the flash is shown.
pub data Call : Type 0 where
  show_at : ℕ → Pattern → Call
  tick_at : ℕ → Call

unfoldable pub called : Led → Call → Led
called l (show_at now p) = led_set l now p
called l (tick_at now) = led_task l now

unfoldable pub called_all : Led → List Call → Led
called_all l [] = l
called_all l (c ∷ cs) = called_all (called l c) cs

abbrev pub Before : ℕ → Call → Type 0
Before deadline (show_at now p) = Unit
Before deadline (tick_at now) = now < deadline

-- The pattern that was asked for last.
unfoldable pub asked : Pattern → List Call → Pattern
asked p [] = p
asked p (show_at now q ∷ cs) = asked q cs
asked p (tick_at now ∷ cs) = asked p cs

record Flashing (l : Led) (deadline : ℕ) (p : Pattern) : Type 0 where
  radio : l.available ≡ true
  flash : l.active ≡ some wake_steps
  passing : l.transient ≡ true
  at_first : l.step ≡ 0
  until : l.next_change ≡ deadline
  rests : l.resting ≡ p

same_pattern_eq : (p q : Pattern) → same_pattern p q ≡ true → p ≡ q
same_pattern_eq p q e = ground arith

write_kept :
    (l : Led) (on : Bool)
    → ((write_led l on).available ≡ l.available)
      × ((write_led l on).active ≡ l.active)
      × ((write_led l on).transient ≡ l.transient)
      × ((write_led l on).step ≡ l.step)
      × ((write_led l on).next_change ≡ l.next_change)
      × ((write_led l on).resting ≡ l.resting)
unfolding write_led
write_kept l on = ground arith

begin_kept :
    (l : Led) (now : ℕ) (steps : List LedStep) (transient : Bool)
    → ((begin l now steps transient).available ≡ l.available)
      × ((begin l now steps transient).active ≡ some steps)
      × ((begin l now steps transient).transient ≡ transient)
      × ((begin l now steps transient).step ≡ 0)
      × ((begin l now steps transient).next_change ≡ now + (step_at steps 0).ms)
      × ((begin l now steps transient).resting ≡ l.resting)
unfolding begin
begin_kept l now steps transient = write_kept _ _

wake-Flashing :
    (l : Led) (now : ℕ) → l.available ≡ true → Flashing (led_wake_sent l now) (now + 2000) l.resting
unfolding led_wake_sent step_at
wake-Flashing l now h =
    let (a, b, c, d, e, f) = begin_kept l now wake_steps true in
    record { radio = a ∙ h; flash = b; passing = c; at_first = d; until = e; rests = f }

set_flashing :
    (l : Led) (now : ℕ) (p : Pattern)
    → l.transient ≡ true
    → (led_set l now p ≡ record l { resting = p })
unfolding led_set
set_flashing l now p h = elim (Bool-cases (same_pattern p l.resting)) [
  | inl e ↦
      let same = same_pattern_eq p l.resting e in
      rw e (ap (λ q. record l { resting = q }) (sym same))
  | inr e ↦ rw (e, h) refl
]

tick_early :
    (l : Led) (now : ℕ) → now < l.next_change → l.active ≡ some wake_steps → led_task l now ≡ l
unfolding led_task
tick_early l now h act = ground arith

tick_late :
    (l : Led) (now : ℕ)
    → l.available ≡ true
    → l.active ≡ some wake_steps
    → l.transient ≡ true
    → l.step ≡ 0
    → l.next_change ≤ now
    → led_task l now ≡ begin l now (steps_of l.resting) false
unfolding led_task
tick_late l now a b c d h = ground arith

called-Flashing :
    (l : Led) (deadline : ℕ) (p : Pattern) (cs : List Call)
    → Flashing l deadline p
    → All (Before deadline) cs
    → Flashing (called_all l cs) deadline (asked p cs)
unfolding called_all called asked
called-Flashing l deadline p [] h early = h
called-Flashing l deadline p (show_at now q ∷ cs) h (_, early) =
    rw (set_flashing l now q h.passing) (
      called-Flashing (record l { resting = q }) deadline q cs
        (record {
          radio = h.radio;
          flash = h.flash;
          passing = h.passing;
          at_first = h.at_first;
          until = h.until;
          rests = refl;
        })
        early)
called-Flashing l deadline p (tick_at now ∷ cs) h (soon, early) =
    let waits = h.until in
    rw (tick_early l now (omega arith) h.flash) (called-Flashing l deadline p cs h early)

-- After a wake flash, whatever patterns are asked for meanwhile and however often the task runs, the
-- flash lasts its two seconds, and the first run of the task behind them starts the pattern asked for last,
-- or the one that rested before.
pub wake_resumes :
    (l : Led) (start now : ℕ) (cs : List Call)
    → l.available ≡ true
    → All (Before (start + 2000)) cs
    → start + 2000 ≤ now
    → ((called_all (led_wake_sent l start) cs).active ≡ some wake_steps)
      × ((led_task (called_all (led_wake_sent l start) cs) now).active
          ≡ some (steps_of (asked l.resting cs)))
      × ((led_task (called_all (led_wake_sent l start) cs) now).transient ≡ false)
wake_resumes l start now cs radio early late =
    let l1 = called_all (led_wake_sent l start) cs in
    let h =
      called-Flashing (led_wake_sent l start) (start + 2000) l.resting cs
        (wake-Flashing l start radio) early in
    let waits = h.until in
    let (a, b, c, d, e, f) = begin_kept l1 now (steps_of l1.resting) false in
    let same = tick_late l1 now h.radio h.flash h.passing h.at_first (omega arith) in
    (
      h.flash,
      ap (λ x. x.active) same ∙ b ∙ ap (λ p. some (steps_of p)) h.rests,
      ap (λ x. x.transient) same ∙ c,
    )
