-- ===== src/Tests/Diagnosis.antt =====
-- The stuck detector.
use roosterwake.Prelude.{◌≡◌, refl, ◌&&◌, true, false, [], ◌∷◌, List, replicate, ◌++◌}
use roosterwake.Diag.Stuck.{Entry, step, link_up, link_down, seal, elapsed, stuck_magic}
use roosterwake.Diag.Stuck.History.{
  Tick, tick, after, restarts, held, run_start, linked_at, lost_at, long_loss, told, after-told,
  restarts_exactly, restarts_at_zero, began_or, long_link,
}
use roosterwake.Prelude.Bytes.{Bytes, bytes32}

-- Linked from 1000 to 61000, latest first
abbrev minute : List Tick
minute = tick true true 61000 ∷ tick true true 1000 ∷ []

held-minute : held minute ≡ true
unfolding held run_start linked_at began_or long_link elapsed
held-minute = refl

abbrev lost : List Tick
lost = tick true false 70000 ∷ minute

quarter_hour : restarts (tick true false 970000) lost ≡ true
unfolding restarts after step link_up link_down elapsed
quarter_hour = refl

after-told_example :
    after lost ≡ told (held lost) (run_start linked_at lost) (run_start lost_at lost)
after-told_example = after-told lost

restarts_exactly_example :
    restarts (tick true false 970000) lost
    ≡ held lost && long_loss (run_start lost_at (tick true false 970000 ∷ lost)) 970000
restarts_exactly_example = restarts_exactly (tick true false 970000) lost

restarts_at_zero_example : restarts (tick true false 0) minute ≡ true
unfolding run_start lost_at
restarts_at_zero_example = restarts_at_zero minute held-minute refl

abbrev entry : Entry
entry = record {
  magic = 0;
  version = 0;
  relay_state = 2;
  reserved = 0xFFFF;
  uptime_s = 7200;
  unlinked_for_s = 900;
  heap_free = 40000;
  mem_err = 12;
  last_error = replicate 24 0;
  crc = 0;
}

-- The relay state, damaged
abbrev damaged : Entry
damaged = record (seal entry) { relay_state = 3 }

abbrev front : Bytes
front = bytes32 stuck_magic ++ (1 ∷ [])

abbrev behind : Bytes
behind = 0 ∷ 0 ∷ (bytes32 7200 ++ bytes32 900 ++ bytes32 40000 ++ bytes32 12 ++ replicate 24 0)
