-- ===== src/Ws/Connection/Untouched.antt =====
-- What sending leaves as it was, for firmware/src/ws/ws.c.
use roosterwake.Prelude.{
  ℕ, ◌+◌, true, Bool-cases, Option, none, some, ◌≡◌, refl, sym, subst, inl, inr, arith,
}
use roosterwake.Prelude.Bytes.{Bytes}
use roosterwake.Config.Token.{random_words}
use roosterwake.Ws.Frame.{build_frame, build_close}
use roosterwake.Ws.Connection.{
  WsFail, local_fail, Stack, Link, is_closed, may_close, tcp_write_all, send_frame, send_text,
  close, teardown,
}

module _ {C W : Type 0} (net : Stack W) where
  abbrev pub Same : Link C W → Link C W → Type 0
  Same l k = (l.ws ≡ k.ws) × (l.ctx ≡ k.ctx)

  pub tcp_write_all-Same : (l : Link C W) (bytes : Bytes) → Same (tcp_write_all net l bytes).1 l
  unfolding tcp_write_all
  tcp_write_all-Same l bytes = by_pcb l.ws.pcb refl
    where
      by_pcb : (p : Option ℕ) → l.ws.pcb ≡ p → Same (tcp_write_all net l bytes).1 l
      by_pcb none e = rw e (refl, refl)
      by_pcb (some pcb) e = rw e (ground arith)

  pub send_frame-Same :
      (l : Link C W) (opcode : ℕ) (bytes : Bytes) → Same (send_frame net l opcode bytes).1 l
  unfolding send_frame
  send_frame-Same l opcode bytes = by_frame (build_frame (14 + 2048) true opcode bytes mask) refl
    where
      mask : Bytes
      mask = (random_words net.rand 1 l.world).0

      masked : Link C W
      masked = record l { world = (random_words net.rand 1 l.world).1 }

      by_frame :
          (f : Option Bytes)
          → build_frame (14 + 2048) true opcode bytes mask ≡ f
          → Same (send_frame net l opcode bytes).1 l
      by_frame none e = rw e (ground arith)
      by_frame (some f) e = let kept = tcp_write_all-Same masked f in rw e (ground (arith, kept))

  pub send_text-Same : (l : Link C W) (text : Bytes) → Same (send_text net l text).1 l
  unfolding send_text
  send_text-Same l text = let kept = send_frame-Same l 1 text in ground arith

  -- What the callback keeps of its context, a close keeps.
  module _ (on_close : Link C W → WsFail → ℕ → Link C W) (P : C → Type 0)
      (kept : (k : Link C W) (why : WsFail) (code : ℕ)
        → P k.ctx
        → P (on_close k why code).ctx) where
    pub teardown_keeps :
        (l : Link C W) (why : WsFail) (code : ℕ)
        → P l.ctx
        → P (teardown net on_close l why code).ctx
    unfolding teardown
    teardown_keeps l why code holds = elim (Bool-cases (is_closed l.ws.state)) [
      | inr o ↦ rw o (kept _ why code holds)
      | inl c ↦ rw c holds
    ]

    pub close_keeps :
        (l : Link C W) (code : ℕ) (reason : Bytes)
        → P l.ctx
        → P (close net on_close l code reason).ctx
    unfolding close
    close_keeps l code reason holds = elim (Bool-cases (may_close l.ws.state)) [
      | inl may ↦ by_frame may (build_close (14 + 125) code (some reason) mask) refl
      | inr not_now ↦ rw not_now holds
    ]
      where
        mask : Bytes
        mask = (random_words net.rand 1 l.world).0

        masked : Link C W
        masked = record l { world = (random_words net.rand 1 l.world).1 }

        by_frame :
            may_close l.ws.state ≡ true
            → (f : Option Bytes) → build_close (14 + 125) code (some reason) mask ≡ f
            → P (close net on_close l code reason).ctx
        by_frame may none e = rw (may, e) (teardown_keeps masked local_fail code holds)
        by_frame may (some f) e = elim (Bool-cases (tcp_write_all net masked f).0) [
          | inr unsent ↦
              rw (may, e, unsent)
                (teardown_keeps _ local_fail code
                  (subst P (sym (tcp_write_all-Same masked f).1) holds))
          | inl sent ↦ rw (may, e, sent) (subst P (sym (tcp_write_all-Same masked f).1) holds)
        ]
