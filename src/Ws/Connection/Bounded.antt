-- ===== src/Ws/Connection/Bounded.antt =====
-- The buffers of the WebSocket client, firmware/src/ws/ws.c, under what the application calls.
use roosterwake.Prelude.{
  ℕ, ◌+◌, ◌≤◌, Bool, true, Bool-cases, Option, none, some, ltb, leb, if◌then◌else◌, length, ◌≡◌,
  refl, sym, subst, inl, inr, arith,
}
use roosterwake.Prelude.Bytes.{Bytes}
use roosterwake.Prelude.Text.{codes}
use roosterwake.Config.Token.{random_words}
use roosterwake.Ws.Frame.{max_inbound, build_close}
use roosterwake.Ws.Connection.{
  WsState, closed, resolving, connecting, handshaking, open_state, closing, WsFail, local_fail,
  timeout, Conn, Stack, Link, Callbacks, rx_size, is_closed, may_close, fail_or_local, torn_down,
  closing_sent, tcp_write_all, send_frame, teardown, close, close_failed, ws_task,
}
use roosterwake.Ws.Connection.Untouched.{tcp_write_all-Same, send_frame-Same}

-- The buffers hold no more than the code reserved for them.
pub record Fits (ws : Conn) : Type 0 where
  pub rx : length ws.rx ≤ rx_size
  pub msg : length ws.msg ≤ max_inbound

-- What the application's callbacks leave of the buffers still fits.
pub record Keeps {C W : Type 0} (cb : Callbacks C W) : Type 0 where
  pub open_kept : (l : Link C W) → Fits l.ws → Fits (cb.on_open l).ws
  pub text_kept : (l : Link C W) (text : Bytes) → Fits l.ws → Fits (cb.on_text l text).ws
  pub binary_kept : (l : Link C W) (bytes : Bytes) → Fits l.ws → Fits (cb.on_binary l bytes).1.ws
  pub close_kept :
      (l : Link C W) (why : WsFail) (code : ℕ) → Fits l.ws → Fits (cb.on_close l why code).ws

abbrev pub LinkFits : {C W : Type 0} → Link C W → Type 0
LinkFits l = Fits l.ws

abbrev pub ResultFits : {C W : Type 0} → Bool × Link C W → Type 0
ResultFits r = Fits r.1.ws

module _ {C W : Type 0} (net : Stack W) where
  pub send_frame-Fits :
      (l : Link C W) (opcode : ℕ) (bytes : Bytes)
      → Fits l.ws
      → Fits (send_frame net l opcode bytes).1.ws
  send_frame-Fits l opcode bytes f = subst Fits (sym (send_frame-Same net l opcode bytes).0) f

  module _ (on_close : Link C W → WsFail → ℕ → Link C W)
      (kept : (l : Link C W) (why : WsFail) (code : ℕ)
        → Fits l.ws
        → Fits (on_close l why code).ws) where
    pub teardown-Fits :
        (l : Link C W) (why : WsFail) (code : ℕ) → Fits (teardown net on_close l why code).ws
    unfolding teardown torn_down
    teardown-Fits l why code = elim (Bool-cases (is_closed l.ws.state)) [
      | inl c ↦ rw c (record { rx = omega arith; msg = omega arith })
      | inr c ↦ rw c (kept _ why code (record { rx = omega arith; msg = omega arith }))
    ]

    pub close-Fits :
        (l : Link C W) (code : ℕ) (reason : Bytes)
        → Fits l.ws
        → Fits (close net on_close l code reason).ws
    unfolding close closing_sent
    close-Fits l code reason f = elim (Bool-cases (may_close l.ws.state)) [
      | inl may ↦ by_frame may (build_close (14 + 125) code (some reason) mask) refl
      | inr not_now ↦ rw not_now f
    ]
      where
        mask : Bytes
        mask = (random_words net.rand 1 l.world).0

        masked : Link C W
        masked = record l { world = (random_words net.rand 1 l.world).1 }

        by_frame :
            may_close l.ws.state ≡ true
            → (b : Option Bytes) → build_close (14 + 125) code (some reason) mask ≡ b
            → Fits (close net on_close l code reason).ws
        by_frame may none e = rw (may, e) (teardown-Fits masked local_fail code)
        by_frame may (some b) e = elim (Bool-cases (tcp_write_all net masked b).0) [
          | inr unsent ↦ rw (may, e, unsent) (teardown-Fits _ local_fail code)
          | inl sent ↦
              let same = (tcp_write_all-Same net masked b).0 in
              let g : Fits (tcp_write_all net masked b).1.ws = subst Fits (sym same) f in
              rw (may, e, sent) (record { rx = g.rx; msg = g.msg })
        ]

    pub close_failed-Fits :
        (l : Link C W) (code : ℕ) (reason : Bytes) (why : WsFail)
        → Fits l.ws
        → Fits (close_failed net on_close l code reason why).ws
    unfolding close_failed
    close_failed-Fits l code reason why f =
        let g = close-Fits l code reason f in record { rx = g.rx; msg = g.msg }

    pub ws_task-Fits : (l : Link C W) → Fits l.ws → Fits (ws_task net on_close l).ws
    unfolding ws_task
    ws_task-Fits l f = by_state l.ws.state refl
      where
        due : Bool
        due = leb l.ws.deadline (net.now l.world)

        at_deadline :
            (why : WsFail) (code : ℕ)
            → Fits (if due then teardown net on_close l why code else l).ws
        at_deadline why code = elim (Bool-cases due) [
          | inl d ↦ rw d (teardown-Fits l why code)
          | inr d ↦ rw d f
        ]

        by_state : (s : WsState) → l.ws.state ≡ s → Fits (ws_task net on_close l).ws
        by_state closed e = rw (e, ws_task) f
        by_state resolving e = rw (e, ws_task) (at_deadline timeout 0)
        by_state connecting e = rw (e, ws_task) (at_deadline timeout 0)
        by_state handshaking e = rw (e, ws_task) (at_deadline timeout 0)
        by_state closing e = rw (e, ws_task) (at_deadline (fail_or_local l.ws.fail) l.ws.close_code)
        by_state open_state e = elim (Bool-cases (ltb (l.ws.last_rx + 75000) (net.now l.world))) [
          | inl d ↦ rw (e, ws_task, d) (close_failed-Fits l 4003 (codes "idle") timeout f)
          | inr d ↦ rw (e, ws_task, d) f
        ]
