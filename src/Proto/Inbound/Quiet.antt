-- ===== src/Proto/Inbound/Quiet.antt =====
-- What a session that is not ready does with a text of the relay, firmware/src/proto/proto.c.
use roosterwake.Prelude.{
  ℕ, true, false, not, ◌||◌, Bool-cases, Option, none, some, List, [], ◌∷◌, length, ◌==◌, ◌≡◌, refl,
  sym, subst, ◌⊎◌, inl, inr, arith,
}
use roosterwake.Prelude.Bytes.{Bytes, eq_bytes}
use roosterwake.Prelude.Text.{codes}
use roosterwake.Proto.Auth.{verify_proof}
use roosterwake.Proto.Json.{Token, is_object}
use roosterwake.Proto.Pieces.{Piece}
use roosterwake.Proto.Session.{
  idle, Session, Device, send_pieces, send_auth, send_enrol, proof, wait_backoff, drop_work,
  on_close, is_deprovisioned,
}
use roosterwake.Proto.Inbound.{
  ping_frame, pong_frame, member, is_missing, member_str, member_true, is_type, is_ready,
  is_authenticating, is_enrolled, may_enrol, fail_auth, answer_challenge, handle_challenge,
  handle_hello_ack, handle_adopt_ack, frame, on_text,
}
use roosterwake.Ws.Connection.{WsFail, Stack, Link}
use roosterwake.Ws.Connection.Untouched.{send_text-Same, close_keeps}

-- The session is not ready, and its command is the one of `before` or none.
pub record Quiet (before s : Session) : Type 0 where
  pub unready : is_ready s.state ≡ false
  pub command : (s.kind ≡ before.kind) ⊎ (s.kind ≡ idle)
  pub target : s.mac ≡ before.mac
  pub answer_to : s.req_id ≡ before.req_id

module _ {W : Type 0} (net : Stack W) (dev : Device W) where
  pub send_pieces-ctx :
      (l : Link Session W) (ps : List Piece) → (send_pieces net dev l ps).1.ctx ≡ l.ctx
  unfolding send_pieces
  send_pieces-ctx l ps = let kept = send_text-Same net l in grind arith

  wait_backoff-Quiet :
      {before : Session} (l : Link Session W)
      → Quiet before l.ctx
      → Quiet before (wait_backoff net dev l).ctx
  unfolding wait_backoff
  wait_backoff-Quiet l q = elim (Bool-cases (l.ctx.backoff_ms == 0)) [
    | inl none_yet ↦ rw none_yet (record {
      unready = q.unready;
      command = q.command;
      target = q.target;
      answer_to = q.answer_to;
    })
    | inr waits ↦ rw waits (record {
      unready = q.unready;
      command = q.command;
      target = q.target;
      answer_to = q.answer_to;
    })
  ]

  pub on_close-Quiet :
      {before : Session} (l : Link Session W) (why : WsFail) (code : ℕ)
      → Quiet before l.ctx
      → Quiet before (on_close net dev l why code).ctx
  unfolding on_close drop_work is_ready
  on_close-Quiet l why code q = elim (Bool-cases (is_deprovisioned why || code == 4002)) [
    | inl gone ↦
        rw gone (record {
          unready = refl;
          command = inr refl;
          target = q.target;
          answer_to = q.answer_to;
        })
    | inr again ↦ rw again (
        wait_backoff-Quiet _ (record {
          unready = ground arith;
          command = inr refl;
          target = q.target;
          answer_to = q.answer_to;
        }))
  ]

  pub fail_auth-Quiet :
      {before : Session} (l : Link Session W) (reason : Bytes)
      → Quiet before l.ctx
      → Quiet before (fail_auth net dev l reason).ctx
  unfolding fail_auth is_ready
  fail_auth-Quiet l reason q =
      close_keeps net (on_close net dev) (Quiet _) on_close-Quiet _ 1008 reason
        (record { unready = refl; command = q.command; target = q.target; answer_to = q.answer_to })

  send_pieces-Quiet :
      {before : Session} (l : Link Session W) (ps : List Piece)
      → Quiet before l.ctx
      → Quiet before (send_pieces net dev l ps).1.ctx
  send_pieces-Quiet l ps q = subst (Quiet _) (sym (send_pieces-ctx l ps)) q

  send_auth-Quiet :
      {before : Session} (l : Link Session W) (nonce_s : Bytes)
      → Quiet before l.ctx
      → Quiet before (send_auth net dev l nonce_s).1.ctx
  unfolding send_auth
  send_auth-Quiet {before} l nonce_s q =
      by_proofs (proof net dev l.ctx (codes "rw1:c") nonce_s)
        (proof net dev l.ctx (codes "rw1:s") nonce_s) refl refl
    where
      by_proofs :
          (c s : Option Bytes)
          → proof net dev l.ctx (codes "rw1:c") nonce_s ≡ c
          → proof net dev l.ctx (codes "rw1:s") nonce_s ≡ s
          → Quiet before (send_auth net dev l nonce_s).1.ctx
      by_proofs none s e f = rw (e, send_auth) q
      by_proofs (some c) none e f = rw (e, f, send_auth) q
      by_proofs (some c) (some s) e f =
          rw (e, f, send_auth)
            (send_pieces-Quiet _ _ (record {
              unready = q.unready;
              command = q.command;
              target = q.target;
              answer_to = q.answer_to;
            }))

  send_enrol-Quiet :
      {before : Session} (l : Link Session W) (nonce_s : Bytes)
      → Quiet before l.ctx
      → Quiet before (send_enrol net dev l nonce_s).1.ctx
  unfolding send_enrol
  send_enrol-Quiet {before} l nonce_s q =
      by_proof (proof net dev l.ctx (codes "rw1:s") nonce_s) refl
    where
      by_proof :
          (s : Option Bytes)
          → proof net dev l.ctx (codes "rw1:s") nonce_s ≡ s
          → Quiet before (send_enrol net dev l nonce_s).1.ctx
      by_proof none e = rw (e, send_enrol) q
      by_proof (some s) e =
          rw (e, send_enrol)
            (send_pieces-Quiet _ _ (record {
              unready = q.unready;
              command = q.command;
              target = q.target;
              answer_to = q.answer_to;
            }))

  answer_challenge-Quiet :
      {before : Session} (l : Link Session W) (nonce_s : Bytes)
      → Quiet before l.ctx
      → Quiet before (answer_challenge net dev l nonce_s).ctx
  unfolding answer_challenge
  answer_challenge-Quiet {before} l nonce_s q = elim (Bool-cases (is_enrolled l.ctx.cfg)) [
    | inl known ↦ elim (Bool-cases (send_auth net dev l nonce_s).0) [
      | inl sent ↦ rw (known, sent) authed
      | inr unsent ↦ rw (known, unsent) (fail_auth-Quiet _ (codes "auth") authed)
    ]
    | inr never ↦ elim (Bool-cases (may_enrol l.ctx.cfg)) [
      | inr refused ↦ rw (never, refused) (fail_auth-Quiet l (codes "auth") q)
      | inl may ↦ elim (Bool-cases (send_enrol net dev enrols nonce_s).0) [
        | inl sent ↦ rw (never, may, sent) enrolled
        | inr unsent ↦ rw (never, may, unsent) (fail_auth-Quiet _ (codes "auth") enrolled)
      ]
    ]
  ]
    where
      enrols : Link Session W
      enrols = record l { ctx = record l.ctx { enrolling = true } }

      authed : Quiet before (send_auth net dev l nonce_s).1.ctx
      authed = send_auth-Quiet l nonce_s q

      enrolled : Quiet before (send_enrol net dev enrols nonce_s).1.ctx
      enrolled = send_enrol-Quiet enrols nonce_s (record {
        unready = q.unready;
        command = q.command;
        target = q.target;
        answer_to = q.answer_to;
      })

  pub handle_challenge-Quiet :
      {before : Session} (l : Link Session W) (js : Bytes) (toks : List Token)
      → Quiet before l.ctx
      → Quiet before (handle_challenge net dev l js toks).ctx
  unfolding handle_challenge
  handle_challenge-Quiet {before} l js toks q = elim (Bool-cases (is_authenticating l.ctx.state)) [
    | inr other ↦ rw other q
    | inl waiting ↦ by_nonce waiting (member_str js toks (codes "nonce_s") 33) refl
  ]
    where
      by_nonce :
          is_authenticating l.ctx.state ≡ true
          → (n : Option Bytes) → member_str js toks (codes "nonce_s") 33 ≡ n
          → Quiet before (handle_challenge net dev l js toks).ctx
      by_nonce waiting none e = rw (waiting, e) (fail_auth-Quiet l (codes "auth") q)
      by_nonce waiting (some n) e = elim (Bool-cases (length n == 32)) [
        | inl whole ↦ rw (waiting, e, whole) (answer_challenge-Quiet l n q)
        | inr other ↦ rw (waiting, e, other) (fail_auth-Quiet l (codes "auth") q)
      ]

  handle_adopt_ack-Quiet :
      {before : Session} (l : Link Session W) (js : Bytes) (toks : List Token)
      → Quiet before l.ctx
      → Quiet before (handle_adopt_ack net dev l js toks).ctx
  unfolding handle_adopt_ack
  handle_adopt_ack-Quiet l js toks q = elim (Bool-cases (member_true js toks (codes "ok"))) [
    | inl ok ↦ rw ok (record {
      unready = q.unready;
      command = q.command;
      target = q.target;
      answer_to = q.answer_to;
    })
    | inr refused ↦ rw refused q
  ]

-- A `hello_ack` that says ok and brings a proof which verifies against the expected one.
unfoldable pub IsProof : Session → Bytes → List Token → Type 0
IsProof s js toks =
    (is_type js toks (codes "hello_ack") ≡ true)
    × (member_true js toks (codes "ok") ≡ true)
    × ((proof_s : Bytes) × (member_str js toks (codes "proof_s") 33 ≡ some proof_s)
        × (verify_proof (some s.expected_proof_s) (some proof_s) ≡ true))

-- The text brings such a frame.
unfoldable pub BringsProof : {W : Type 0} → Device W → Session → Bytes → Type 0
BringsProof dev s text = IsProof s text (dev.jsmn text)

module _ {W : Type 0} (net : Stack W) (dev : Device W)
    (other : Bytes → List Token → Bytes → Link Session W → Link Session W) where
  handle_hello_ack-Quiet :
      {before : Session} (l : Link Session W) (js : Bytes) (toks : List Token)
      → is_type js toks (codes "hello_ack") ≡ true
      → Quiet before l.ctx
      → Quiet before (handle_hello_ack net dev l js toks).ctx ⊎ IsProof l.ctx js toks
  unfolding handle_hello_ack IsProof
  handle_hello_ack-Quiet {before} l js toks ack q =
      elim (Bool-cases (member_true js toks (codes "ok"))) [
        | inr no_ok ↦ inl (rw no_ok (fail_auth-Quiet net dev l (codes "rejected") q))
        | inl ok ↦ by_proof ok (member_str js toks (codes "proof_s") 33) refl
      ]
    where
      by_proof :
          member_true js toks (codes "ok") ≡ true
          → (p : Option Bytes) → member_str js toks (codes "proof_s") 33 ≡ p
          → Quiet before (handle_hello_ack net dev l js toks).ctx ⊎ IsProof l.ctx js toks
      by_proof ok none e = inl (rw (ok, e) (fail_auth-Quiet net dev l (codes "auth") q))
      by_proof ok (some p) e =
          elim (Bool-cases (verify_proof (some l.ctx.expected_proof_s) (some p))) [
            | inl fits ↦ inr (ack, ok, (p, e, fits))
            | inr wrong ↦ inl (rw (ok, e, wrong) (fail_auth-Quiet net dev l (codes "auth") q))
          ]

  frame-Quiet :
      {before : Session} (l : Link Session W) (js : Bytes) (toks : List Token)
      → Quiet before l.ctx
      → Quiet before (frame net dev other l js toks).ctx ⊎ IsProof l.ctx js toks
  unfolding frame
  frame-Quiet l js [] q = inl q
  frame-Quiet l js (root ∷ toks) q =
      elim (Bool-cases
        (not (is_object root.type) || is_missing (member js (root ∷ toks) (codes "t")))) [
          | inl unusable ↦ inl (rw unusable q)
          | inr usable ↦ elim (Bool-cases (is_type js (root ∷ toks) (codes "challenge"))) [
            | inl c ↦ inl (rw (usable, c) (handle_challenge-Quiet net dev l js (root ∷ toks) q))
            | inr c ↦ elim (Bool-cases (is_type js (root ∷ toks) (codes "hello_ack"))) [
              | inl h ↦ rw (usable, c, h) (handle_hello_ack-Quiet l js (root ∷ toks) h q)
              | inr h ↦ elim (Bool-cases (is_type js (root ∷ toks) (codes "adopt_ack"))) [
                | inl a ↦
                    inl (rw (usable, c, h, a) (handle_adopt_ack-Quiet net dev l js (root ∷ toks) q))
                | inr a ↦ inl (rw (usable, c, h, a, q.unready) q)
              ]
            ]
          ]
        ]

  -- A text that reaches a session which is not ready leaves it not ready, with no command queued that was not queued before, unless the text
  -- brings a `hello_ack` that says ok and whose proof verifies against the one the session expects.
  pub on_text-Quiet :
      (l : Link Session W) (text : Bytes)
      → is_ready l.ctx.state ≡ false
      → Quiet l.ctx (on_text net dev other l text).ctx ⊎ BringsProof dev l.ctx text
  unfolding on_text BringsProof IsProof
  on_text-Quiet l text unready = elim (Bool-cases (eq_bytes text ping_frame)) [
    | inl ping ↦
        inl (rw ping (subst (Quiet l.ctx) (sym (send_text-Same net heard pong_frame).1) stamped))
    | inr p ↦ elim (Bool-cases (eq_bytes text pong_frame)) [
      | inl pong ↦ inl (rw (p, pong) stamped)
      | inr q ↦ rw (p, q) (frame-Quiet heard text (dev.jsmn text) stamped)
    ]
  ]
    where
      heard : Link Session W
      heard = record l { ctx = record l.ctx { last_heard = net.now l.world } }

      stamped : Quiet l.ctx heard.ctx
      stamped = record { unready = unready; command = inl refl; target = refl; answer_to = refl }
