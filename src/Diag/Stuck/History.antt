-- ===== src/Diag/Stuck/History.antt =====
-- What the stuck detector's state says of the steps so far.
use roosterwake.Prelude.{
  ℕ, ◌≡◌, refl, ap, ◌∙◌, Bool, true, false, not, ◌&&◌, leb, ◌==◌, if◌then◌else◌, Option, none, some,
  ◌||◌, List, [], ◌∷◌, arith,
}
use roosterwake.Diag.Stuck.{Stuck, init, elapsed, link_up, link_down, step, arm_ms, trigger_ms}

-- What one call of `rw_stuck_step` is told.
pub record Tick : Type 0 where
  pub net_ready : Bool
  pub relay_ready : Bool
  pub now_ms : ℕ

-- The state after some calls, the latest of which stands first.
unfoldable pub after : List Tick → Stuck
after [] = init
after (t ∷ past) = (step (after past) t.net_ready t.relay_ready t.now_ms).0

-- Whether the latest call asks for a restart.
unfoldable pub restarts : Tick → List Tick → Bool
restarts t past = (step (after past) t.net_ready t.relay_ready t.now_ms).1

unfoldable pub linked_at : Tick → Bool
linked_at t = t.net_ready && t.relay_ready

unfoldable pub lost_at : Tick → Bool
lost_at t = t.net_ready && not t.relay_ready

unfoldable pub began_or : Option ℕ → ℕ → ℕ
began_or none now = now
began_or (some b) now = b

-- Where the latest call meets a test: when the unbroken run of calls that do began.
unfoldable pub run_start : (Tick → Bool) → List Tick → Option ℕ
run_start p [] = none
run_start p (t ∷ past) = if p t then some (began_or (run_start p past) t.now_ms) else none

-- The time that the detector keeps for a stretch that began at `b`.
unfoldable pub nudged : ℕ → ℕ
nudged b = if b == 0 then 1 else b

unfoldable pub long_link : Option ℕ → ℕ → Bool
long_link none now = false
long_link (some b) now = leb arm_ms (elapsed now b)

unfoldable pub long_loss : Option ℕ → ℕ → Bool
long_loss none now = false
long_loss (some b) now = leb trigger_ms (elapsed now (nudged b))

-- At some call an unbroken link was at least RW_STUCK_ARM_MS old.
unfoldable pub held : List Tick → Bool
held [] = false
held (t ∷ past) = held past || long_link (run_start linked_at (t ∷ past)) t.now_ms

unfoldable pub stamp : Option ℕ → ℕ
stamp none = 0
stamp (some b) = nudged b

unfoldable pub is_some : Option ℕ → Bool
is_some none = false
is_some (some b) = true

abbrev pub told : Bool → Option ℕ → Option ℕ → Stuck
told armed link lost = record {
  armed = armed;
  linked = is_some link;
  linked_since_ms = began_or link 0;
  unlinked_since_ms = stamp lost;
}

-- One step from a state that tells of a history: the state, and the answer.
step-told :
    (armed : Bool) (link lost : Option ℕ) (net relay : Bool) (now : ℕ)
    → step (told armed link lost) net relay now ≡ (
        if net
        then (if relay
            then (
              told
                  (armed || long_link (some (began_or link now)) now)
                  (some (began_or link now))
                  none,
              false,
            )
            else (
              told armed none (some (began_or lost now)),
              armed && long_loss (some (began_or lost now)) now,
            ))
        else (told armed none none, false))
unfolding step link_up link_down stamp is_some began_or long_link long_loss nudged
step-told armed link lost false relay now = refl
step-told true none lost true true now = ground arith
step-told true (some b) lost true true now = ground arith
step-told false none lost true true now = ground arith
step-told false (some b) lost true true now = ground arith
step-told true none none true false now = ground arith
step-told true (some b) none true false now = ground arith
step-told false none none true false now = ground arith
step-told false (some b) none true false now = ground arith
step-told true none (some c) true false now = ground arith
step-told true (some b) (some c) true false now = ground arith
step-told false none (some c) true false now = ground arith
step-told false (some b) (some c) true false now = ground arith

abbrev pub tick : Bool → Bool → ℕ → Tick
tick net relay now = record { net_ready = net; relay_ready = relay; now_ms = now }

abbrev answer : Bool → Bool → ℕ → List Tick → Stuck × Bool
answer net relay now past = (
  told (held (tick net relay now ∷ past)) (run_start linked_at (tick net relay now ∷ past))
      (run_start lost_at (tick net relay now ∷ past)),
  held past && long_loss (run_start lost_at (tick net relay now ∷ past)) now,
)

step-answer :
    (net relay : Bool) (now : ℕ) (past : List Tick)
    → after past ≡ told (held past) (run_start linked_at past) (run_start lost_at past)
    → step (after past) net relay now ≡ answer net relay now past
unfolding held run_start linked_at lost_at long_link long_loss
step-answer false relay now past e = rw (e, step-told _ _ _ false relay now) (ground arith)
step-answer true true now past e = rw (e, step-told _ _ _ true true now) (ground arith)
step-answer true false now past e = rw (e, step-told _ _ _ true false now) (ground arith)

-- After any calls the state is what the calls say: armed where an unbroken link was once a minute
-- old, linked since the start of the run of linked calls, and unlinked since the start of the run
-- of calls with a network and no link.
pub after-told :
    (h : List Tick) → after h ≡ told (held h) (run_start linked_at h) (run_start lost_at h)
unfolding after held run_start stamp is_some began_or
after-told [] = refl
after-told (t ∷ past) =
    ap (λ r. r.0) (step-answer t.net_ready t.relay_ready t.now_ms past (after-told past))

-- A call asks for a restart exactly where an unbroken link was once at least RW_STUCK_ARM_MS old
-- before it, and the unbroken run of calls with a network and no link, to which it belongs, is at
-- least RW_STUCK_TRIGGER_MS old; its start counts as millisecond 1 where it is 0.
pub restarts_exactly :
    (t : Tick) (past : List Tick)
    → restarts t past ≡ held past && long_loss (run_start lost_at (t ∷ past)) t.now_ms
unfolding restarts
restarts_exactly t past =
    ap (λ r. r.1) (step-answer t.net_ready t.relay_ready t.now_ms past (after-told past))

-- Where a link was once held for a minute and is lost by a call at millisecond 0, that call asks
-- for a restart at once: its start is kept as 1, from which 2 ^ 32 - 1 milliseconds have elapsed.
pub restarts_at_zero :
    (past : List Tick)
    → held past ≡ true
    → run_start lost_at past ≡ none
    → restarts (tick true false 0) past ≡ true
unfolding run_start lost_at began_or long_loss nudged elapsed
restarts_at_zero past h fresh = restarts_exactly (tick true false 0) past ∙ rw (h, fresh) refl
