-- ===== src/Tests/Light.antt =====
-- The status LED.
use roosterwake.Prelude.{◌≡◌, refl, true, false, some, List, [], ◌∷◌, arith}
use roosterwake.Led.{
  joining, online, steps_of, wake_steps, led_reset, write_led, step_at, begin, led_init,
  led_wake_sent, led_task,
}
use roosterwake.Led.Shown.{IsShown, here, then_step, initialise, wake, tick, LedReach-IsShown}
use roosterwake.Led.Flash.{Call, show_at, tick_at, called_all, asked, wake_resumes}

LedReach-IsShown_example :
    IsShown (led_task (led_wake_sent (led_task (led_init led_reset 0) 130) 200) 2300)
LedReach-IsShown_example = LedReach-IsShown (
    then_step (then_step (then_step (then_step here (initialise 0)) (tick 130)) (wake 200))
      (tick 2300))

started : (led_init led_reset 0).available ≡ true
unfolding led_init begin write_led step_at steps_of
started = refl

abbrev meanwhile : List Call
meanwhile = show_at 10 joining ∷ tick_at 500 ∷ show_at 900 online ∷ []

wake_resumes_example :
    ((called_all (led_wake_sent (led_init led_reset 0) 5) meanwhile).active ≡ some wake_steps)
    × ((led_task (called_all (led_wake_sent (led_init led_reset 0) 5) meanwhile) 2100).active
        ≡ some (steps_of (asked (led_init led_reset 0).resting meanwhile)))
    × ((led_task (called_all (led_wake_sent (led_init led_reset 0) 5) meanwhile) 2100).transient
        ≡ false)
wake_resumes_example =
    wake_resumes (led_init led_reset 0) 5 2100 meanwhile started (tt, (omega arith, (tt, tt)))
      (omega arith)
