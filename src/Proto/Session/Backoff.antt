-- ===== src/Proto/Session/Backoff.antt =====
-- The wait before the next connection, firmware/src/proto/proto.c.
use Prim.Native.Nat.{min}
use native.Mathlib.Nat.{mod-lt}
use roosterwake.Prelude.{
  ℕ, zero, suc, ◌+◌, ◌*◌, ◌^◌, ◌<◌, ◌≤◌, Bool, true, false, not, ◌&&◌, ◌||◌, Bool-cases, List, [],
  ◌∷◌, ltb, ◌==◌, length, ◌≡◌, refl, ◌∙◌, inl, inr, arith,
}
use roosterwake.Proto.Session.{
  Session, Device, next_backoff, is_deprovisioned, wait_backoff, drop_work, on_close,
}
use roosterwake.Ws.Connection.{WsFail, Stack, Link}

next_backoff_lem : (b : ℕ) → next_backoff b ≡ min (b * 2) 60000
unfolding next_backoff
next_backoff_lem b = ground arith

power_pos : (n : ℕ) → 0 < 2 ^ n
power_pos zero = omega arith
power_pos (suc n) = let half = power_pos n in omega (arith, half)

saturated : (b p : ℕ) → 0 < p → min (min (b * 2) 60000 * p) 60000 ≡ min (b * (2 * p)) 60000
saturated b zero some_power = elim some_power [ ]
saturated b (suc q) some_power = elim (Bool-cases (ltb 60000 (b * 2))) [
  | inl over ↦
      let capped : min (b * 2) 60000 ≡ 60000 = ground arith in
      let large : 60000 < b * (2 * suc q) = ground arith in rw capped (omega (arith, large))
  | inr under ↦
      let kept : min (b * 2) 60000 ≡ b * 2 = ground arith in
      let same : b * 2 * suc q ≡ b * (2 * suc q) = omega arith in rw (kept, same) refl
]

-- A close that does not mean that the device was deprovisioned
unfoldable pub is_transient : WsFail × ℕ → Bool
is_transient (why, code) = not (is_deprovisioned why || code == 4002)

unfoldable pub all_transient : List (WsFail × ℕ) → Bool
all_transient [] = true
all_transient (c ∷ cs) = is_transient c && all_transient cs

again :
    (why : WsFail) (code : ℕ)
    → is_transient (why, code) ≡ true
    → (is_deprovisioned why || code == 4002) ≡ false
unfolding is_transient
again why code t = ground arith

module _ {W : Type 0} (net : Stack W) (dev : Device W) where
  -- The closes one after another
  unfoldable pub closes : List (WsFail × ℕ) → Link Session W → Link Session W
  closes [] l = l
  closes (c ∷ cs) l = closes cs (on_close net dev l c.0 c.1)

  wait_backoff_lem :
      (l : Link Session W)
      → (wait_backoff net dev l).ctx.backoff_ms ≡ min (l.ctx.backoff_ms * 2) 60000
  unfolding wait_backoff
  wait_backoff_lem l = elim (Bool-cases (l.ctx.backoff_ms == 0)) [
    | inl none_yet ↦ rw none_yet (next_backoff_lem l.ctx.backoff_ms)
    | inr waits ↦ rw waits (next_backoff_lem l.ctx.backoff_ms)
  ]

  on_close_backoff :
      (l : Link Session W) (why : WsFail) (code : ℕ)
      → is_transient (why, code) ≡ true
      → (on_close net dev l why code).ctx.backoff_ms ≡ min (l.ctx.backoff_ms * 2) 60000
  unfolding on_close drop_work
  on_close_backoff l why code t = rw (again why code t) (wait_backoff_lem _)

  -- After a wait of `b` milliseconds at most, k closes in a row that do not deprovision
  -- the device leave a wait of b * 2 ^ k milliseconds at most, or of a minute when that is less.
  pub closes-backoff_ms :
      (l : Link Session W) (cs : List (WsFail × ℕ))
      → all_transient cs ≡ true
      → l.ctx.backoff_ms ≤ 60000
      → (closes cs l).ctx.backoff_ms ≡ min (l.ctx.backoff_ms * 2 ^ length cs) 60000
  unfolding closes all_transient
  closes-backoff_ms l [] t small = ground arith
  closes-backoff_ms l (c ∷ cs) t small =
      let first = on_close_backoff l c.0 c.1 (ground arith) in
      let rest =
        closes-backoff_ms (on_close net dev l c.0 c.1) cs (ground arith) (omega (arith, first)) in
      let q : 2 ^ suc (length cs) ≡ 2 * 2 ^ length cs = omega arith in
      rest ∙ rw (first, q) (saturated l.ctx.backoff_ms (2 ^ length cs) (power_pos (length cs)))

  wait_backoff-retry_at :
      (l : Link Session W)
      → 0 < l.ctx.backoff_ms
      → (net.now (wait_backoff net dev l).world ≤ (wait_backoff net dev l).ctx.retry_at)
        × ((wait_backoff net dev l).ctx.retry_at
            < net.now (wait_backoff net dev l).world + l.ctx.backoff_ms)
  unfolding wait_backoff
  wait_backoff-retry_at l some_wait =
      let waits : (l.ctx.backoff_ms == 0) ≡ false = ground arith in
      let small = mod-lt (net.rand l.world).0 some_wait in
      rw waits (omega arith, omega (arith, small))

  -- A close that does not deprovision the device sets the next attempt at a moment from now on, less than the
  -- wait so far from now, where that wait is not 0.
  pub on_close_retry_at :
      (l : Link Session W) (why : WsFail) (code : ℕ)
      → is_transient (why, code) ≡ true
      → 0 < l.ctx.backoff_ms
      → let r = on_close net dev l why code in
        (net.now r.world ≤ r.ctx.retry_at) × (r.ctx.retry_at < net.now r.world + l.ctx.backoff_ms)
  unfolding on_close drop_work
  on_close_retry_at l why code t some_wait =
      rw (again why code t) (wait_backoff-retry_at _ some_wait)
