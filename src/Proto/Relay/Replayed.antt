-- ===== src/Proto/Relay/Replayed.antt =====
-- A proof of an earlier connection, firmware/src/proto/proto.c.
use roosterwake.Prelude.{
  ℕ, true, ◌||◌, Bool-cases, some, List, ◌==◌, length, ◌≡◌, refl, ◌∙◌, inl, inr,
}
use roosterwake.Prelude.Bytes.{Bytes}
use roosterwake.Prelude.Text.{codes}
use roosterwake.Config.Token.{random_words}
use roosterwake.Proto.Auth.{verify_proof}
use roosterwake.Proto.Inbound.{member_str, member_true, authenticated, is_ready, handle_hello_ack}
use roosterwake.Proto.Inbound.Quiet.{send_pieces-ctx}
use roosterwake.Proto.Hex.{hex_encode}
use roosterwake.Proto.Json.{Token}
use roosterwake.Proto.Relay.{on_open}
use roosterwake.Proto.Pieces.{short_pieces}
use roosterwake.Proto.Session.{
  authenticating, Session, Device, is_deprovisioned, hello_pieces, send_pieces, send_hello,
  send_adopt, wait_backoff, drop_work, on_close,
}
use roosterwake.Ws.Connection.{WsFail, local_fail, Stack, Link, abort}
use roosterwake.Ws.Connection.Untouched.{teardown_keeps}

module _ {W : Type 0} (net : Stack W) (dev : Device W) where
  on_close_expected :
      (x : Bytes) (l : Link Session W) (why : WsFail) (code : ℕ)
      → l.ctx.expected_proof_s ≡ x
      → (on_close net dev l why code).ctx.expected_proof_s ≡ x
  unfolding on_close drop_work wait_backoff
  on_close_expected x l why code e = elim (Bool-cases (is_deprovisioned why || code == 4002)) [
    | inl gone ↦ rw gone e
    | inr back ↦ elim (Bool-cases (l.ctx.backoff_ms == 0)) [
      | inl none_yet ↦ rw (back, none_yet) e
      | inr waits ↦ rw (back, waits) e
    ]
  ]

  send_hello_expected :
      (l : Link Session W) → (send_hello net dev l).1.ctx.expected_proof_s ≡ l.ctx.expected_proof_s
  unfolding send_hello
  send_hello_expected l =
      elim (Bool-cases
        (send_pieces net dev greeting (hello_pieces greeting.ctx dev.running_slot)).0) [
          | inl sent ↦ rw sent kept
          | inr unsent ↦ rw unsent kept
        ]
    where
      greeting : Link Session W
      greeting = record l {
        ctx = record l.ctx { nonce_c = hex_encode (random_words net.rand 4 l.world).0 };
        world = (random_words net.rand 4 l.world).1;
      }

      kept :
          (send_pieces net dev greeting
            (hello_pieces greeting.ctx dev.running_slot)).1.ctx.expected_proof_s
          ≡ l.ctx.expected_proof_s
      kept i =
          (send_pieces-ctx net dev greeting (hello_pieces greeting.ctx dev.running_slot)
            i).expected_proof_s

  on_open_expected :
      (x : Bytes) (l : Link Session W)
      → l.ctx.expected_proof_s ≡ x
      → (on_open net dev l).ctx.expected_proof_s ≡ x
  unfolding on_open abort
  on_open_expected x l e = elim (Bool-cases (send_hello net dev opened).0) [
    | inl sent ↦ rw sent greeted
    | inr unsent ↦ rw unsent (
        teardown_keeps net (on_close net dev) (λ s. s.expected_proof_s ≡ x) (on_close_expected x) _
          local_fail 0 greeted)
  ]
    where
      opened : Link Session W
      opened = record l { ctx = record l.ctx { state = authenticating } }

      greeted : (send_hello net dev opened).1.ctx.expected_proof_s ≡ x
      greeted = send_hello_expected opened ∙ e

  authenticated-ready : (s : Session) (now : ℕ) → is_ready (authenticated s now).state ≡ true
  unfolding authenticated is_ready
  authenticated-ready s now = elim (Bool-cases s.enrolling) [
    | inl e ↦ rw e refl
    | inr e ↦ rw e refl
  ]

  accepted :
      (l : Link Session W) (js : Bytes) (toks : List Token) (proof_s : Bytes)
      → member_true js toks (codes "ok") ≡ true
      → member_str js toks (codes "proof_s") 33 ≡ some proof_s
      → verify_proof (some l.ctx.expected_proof_s) (some proof_s) ≡ true
      → is_ready (handle_hello_ack net dev l js toks).ctx.state ≡ true
  unfolding handle_hello_ack send_adopt
  accepted l js toks proof_s ok brought fits =
      elim (Bool-cases (length l.ctx.cfg.owner_email == 0)) [
        | inl nobody ↦ rw (ok, brought, fits, nobody) ready_now
        | inr somebody ↦
            rw
              (
                ok,
                brought,
                fits,
                somebody,
                send_pieces-ctx net dev proven
                    (short_pieces (codes "adopt") (codes "email") proven.ctx.cfg.owner_email),
              )
              ready_now
      ]
    where
      proven : Link Session W
      proven = record l {
        ctx = authenticated l.ctx (net.now l.world);
        world = dev.confirm_image l.world;
      }

      ready_now : is_ready proven.ctx.state ≡ true
      ready_now = authenticated-ready l.ctx (net.now l.world)

  -- Whatever the session was, once its connection is closed and another one is open, a `hello_ack` that says ok and brings a proof
  -- which verifies against the one that the closed connection expected makes the session ready, though no challenge came.
  pub replayed_proof_ready :
      (l : Link Session W) (why : WsFail) (code : ℕ) (js : Bytes) (toks : List Token)
      (proof_s : Bytes)
      → member_true js toks (codes "ok") ≡ true
      → member_str js toks (codes "proof_s") 33 ≡ some proof_s
      → verify_proof (some l.ctx.expected_proof_s) (some proof_s) ≡ true
      → is_ready
          (handle_hello_ack net dev
            (on_open net dev (on_close net dev l why code))
            js
            toks).ctx.state
        ≡ true
  replayed_proof_ready l why code js toks proof_s ok brought fits =
      let kept =
        on_open_expected l.ctx.expected_proof_s (on_close net dev l why code)
          (on_close_expected _ l why code refl) in
      accepted _ js toks proof_s ok brought (rw kept fits)
