-- ===== src/Proto/Inbound.antt =====
-- What the relay says, firmware/src/proto/proto.c: the handshake and the commands `wake`, `status`, `probe` and
-- `scan`. The plug commands and the offer of an update are a parameter. What is only logged is left out.
pub mod Quiet
use Prim.Native.Nat.{bit_or}
use roosterwake.Prelude.{
  ℕ, zero, suc, ◌+◌, ◌-◌, ◌*◌, ◌/◌, ◌%◌, ◌^◌, Bool, true, false, not, ◌&&◌, ◌||◌, Option, none,
  some, List, [], ◌∷◌, ltb, leb, ◌==◌, if◌then◌else◌, length, drop,
}
use roosterwake.Net.Url.{before}
use roosterwake.Prelude.Bytes.{Bytes, eq_bytes}
use roosterwake.Prelude.Options.{◌>>=◌}
use roosterwake.Prelude.Decimal.{ℤ, pos, negsuc}
use roosterwake.Prelude.Text.{codes}
use roosterwake.Config.Mac.{mac_parse, mac_wakeable}
use roosterwake.Config.Record.{Config}
use roosterwake.Proto.Auth.{verify_proof}
use roosterwake.Proto.Json.{Token, is_object, json_find, json_eq, json_str, json_int, json_is_true}
use roosterwake.Proto.Pieces.{Piece, default_relay_url, wake_pieces, refused_pieces}
use roosterwake.Proto.Session.{
  RelayState, authenticating, ready, auth_failed, Pending, idle, wake, status, probe, scan, Session,
  Device, send_pieces, send_auth, send_enrol, send_adopt, on_close,
}
use roosterwake.Ws.Connection.{Stack, Link, send_text, close}

-- `k_ping_frame` and `k_pong_frame`
abbrev pub ping_frame : Bytes
ping_frame = codes "{\"t\":\"ping\"}"

abbrev pub pong_frame : Bytes
pong_frame = codes "{\"t\":\"pong\"}"

-- The token of a member's value
unfoldable pub member : Bytes → List Token → Bytes → Option Token
member js toks key = elim (json_find js toks key) [
  | none ↦ none
  | some index ↦ elim (drop index toks) [ [] ↦ none | t ∷ _ ↦ some t ]
]

-- The string of a member, copied into `cap` bytes and read as far as its NUL
unfoldable pub member_str : Bytes → List Token → Bytes → ℕ → Option Bytes
member_str js toks key cap =
    (member js toks key >>= λ t. (json_str js t cap >>= λ text. some (before (◌== 0) text)))

-- The number of a member, or its default
unfoldable pub member_int : Bytes → List Token → Bytes → ℤ → ℤ
member_int js toks key default = elim (member js toks key) [
  | none ↦ default
  | some t ↦ elim (json_int js t) [ none ↦ default | some n ↦ n ]
]

-- The member is the word `true`.
unfoldable pub member_true : Bytes → List Token → Bytes → Bool
member_true js toks key = elim (member js toks key) [ none ↦ false | some t ↦ json_is_true js t ]

-- The frame's "t" is this word.
unfoldable pub is_type : Bytes → List Token → Bytes → Bool
is_type js toks word = elim (member js toks (codes "t")) [
  | none ↦ false
  | some t ↦ json_eq js t word
]

-- The address of a command; `none` for one that can wake nothing.
unfoldable pub wakeable_mac : Bytes → List Token → Option Bytes
wakeable_mac js toks =
    (member_str js toks (codes "mac") 32 >>= λ text.
    (mac_parse text >>= λ mac. (if mac_wakeable mac then some mac else none)))

unfoldable pub is_missing : Option Token → Bool
is_missing none = true
is_missing (some _) = false

-- The command's `req_id`, empty when it has none that fits.
unfoldable pub req_id_of : Bytes → List Token → Bytes
req_id_of js toks = elim (member_str js toks (codes "req_id") 37) [ none ↦ [] | some text ↦ text ]

-- The bursts that a `wake` asks for, held between 1 and 5.
unfoldable pub clamp_repeat : ℤ → ℕ
clamp_repeat (negsuc n) = 1
clamp_repeat (pos n) = if ltb n 1 then 1 else if ltb 5 n then 5 else n

unfoldable pub seconds : ℤ → ℕ
seconds (negsuc n) = 0
seconds (pos n) = n

unfoldable pub is_authenticating : RelayState → Bool
is_authenticating authenticating = true
is_authenticating _ = false

unfoldable pub is_ready : RelayState → Bool
is_ready ready = true
is_ready _ = false

unfoldable pub is_idle : Pending → Bool
is_idle idle = true
is_idle _ = false

-- `may_enrol` of a build that verifies certificates. Flag 0x01 is RW_CFG_FLAG_TLS_INSECURE.
unfoldable pub may_enrol : Config → Bool
may_enrol cfg =
    if cfg.flags % 2 == 1
    then false
    else length cfg.relay_url == 0 || eq_bytes cfg.relay_url default_relay_url

-- RW_CFG_FLAG_ENROLLED, 0x08
unfoldable pub is_enrolled : Config → Bool
is_enrolled cfg = cfg.flags / 8 % 2 == 1

-- `queue`
unfoldable pub queue : Session → Pending → Bytes → Option Session
queue s kind req_id =
    if not (is_idle s.kind) then none else some (record s { kind = kind; req_id = req_id })

-- What `handle_hello_ack` does to the session once the proof has verified.
unfoldable pub authenticated : Session → ℕ → Session
authenticated s now =
    let s1 : Session = record s {
      state = ready;
      backoff_ms = 1000;
      next_ping = now + 25000;
      last_heard = now;
    } in
    if not s.enrolling then s1 else record s1 {
      enrolling = false;
      cfg = record s.cfg { flags = bit_or 8 s.cfg.flags };
      persist_pending = true;
    }

module _ {W : Type 0} (net : Stack W) (dev : Device W) where
  abbrev with_s : Link Session W → Session → Link Session W
  with_s l s = record l { ctx = s }

  -- `fail_auth`, and the same with another reason
  unfoldable pub fail_auth : Link Session W → Bytes → Link Session W
  fail_auth l reason =
      close net (on_close net dev) (with_s l (record l.ctx { state = auth_failed })) 1008 reason

  -- The answer to a usable challenge
  unfoldable pub answer_challenge : Link Session W → Bytes → Link Session W
  answer_challenge l nonce_s =
      let (sent, l1) = send_auth net dev l nonce_s in
      let (enrolled, l2) =
        send_enrol net dev (with_s l (record l.ctx { enrolling = true })) nonce_s in
      if is_enrolled l.ctx.cfg
      then (if not sent then fail_auth l1 (codes "auth") else l1)
      else if not (may_enrol l.ctx.cfg)
      then fail_auth l (codes "auth")
      else if not enrolled
      then fail_auth l2 (codes "auth")
      else l2

  -- `handle_challenge`
  unfoldable pub handle_challenge : Link Session W → Bytes → List Token → Link Session W
  handle_challenge l js toks =
      if not (is_authenticating l.ctx.state)
      then l
      else elim (member_str js toks (codes "nonce_s") 33) [
        | none ↦ fail_auth l (codes "auth")
        | some nonce_s ↦
            if not (length nonce_s == 32)
            then fail_auth l (codes "auth")
            else answer_challenge l nonce_s
      ]

  -- `handle_hello_ack`
  unfoldable pub handle_hello_ack : Link Session W → Bytes → List Token → Link Session W
  handle_hello_ack l js toks =
      let l1 : Link Session W = record l {
        ctx = authenticated l.ctx (net.now l.world);
        world = dev.confirm_image l.world;
      } in
      if not (member_true js toks (codes "ok"))
      then fail_auth l (codes "rejected")
      else elim (member_str js toks (codes "proof_s") 33) [
        | none ↦ fail_auth l (codes "auth")
        | some proof_s ↦
            if not (verify_proof (some l.ctx.expected_proof_s) (some proof_s))
            then fail_auth l (codes "auth")
            else if length l.ctx.cfg.owner_email == 0
            then l1
            else (send_adopt net dev l1).1
      ]

  -- `handle_adopt_ack`
  unfoldable pub handle_adopt_ack : Link Session W → Bytes → List Token → Link Session W
  handle_adopt_ack l js toks =
      if not (member_true js toks (codes "ok"))
      then l
      else with_s l
          (record l.ctx { cfg = record l.ctx.cfg { owner_email = [] }; persist_pending = true })

  -- `send_wake_result` of a refusal, and `send_probe_result_err` and `send_scan_result_err`
  unfoldable pub refuse_wake : Link Session W → Bytes → Bytes → Link Session W
  refuse_wake l req_id err = (send_pieces net dev l (wake_pieces req_id (some err) 0 [])).1

  unfoldable pub refuse : Link Session W → Bytes → Bytes → Bytes → Link Session W
  refuse l type req_id err = (send_pieces net dev l (refused_pieces type req_id err)).1

  -- `handle_wake`
  unfoldable pub handle_wake : Link Session W → Bytes → List Token → Bytes → Link Session W
  handle_wake l js toks req_id = elim (member js toks (codes "mac")) [
    | none ↦ refuse_wake l req_id (codes "bad_frame")
    | some _ ↦ elim (wakeable_mac js toks) [
      | none ↦ refuse_wake l req_id (codes "bad_mac")
      | some mac ↦
          if not (dev.net_ready l.world)
          then refuse_wake l req_id (codes "no_link")
          else elim (queue l.ctx wake req_id) [
            | none ↦ refuse_wake l req_id (codes "busy")
            | some s1 ↦ with_s l (record s1 {
              mac = mac;
              repeat = clamp_repeat (member_int js toks (codes "repeat") (pos 3));
            })
          ]
    ]
  ]

  -- `handle_probe`
  unfoldable pub handle_probe : Link Session W → Bytes → List Token → Bytes → Link Session W
  handle_probe l js toks req_id = elim (member js toks (codes "mac")) [
    | none ↦ refuse l (codes "probe_result") req_id (codes "bad_frame")
    | some _ ↦ elim (wakeable_mac js toks) [
      | none ↦ refuse l (codes "probe_result") req_id (codes "bad_mac")
      | some mac ↦ elim (queue l.ctx probe req_id) [
        | none ↦ refuse l (codes "probe_result") req_id (codes "busy")
        | some s1 ↦ with_s l (record s1 {
          mac = mac;
          timeout_s = seconds (member_int js toks (codes "timeout_s") (pos 90));
        })
      ]
    ]
  ]

  module _ (other_command : Bytes → List Token → Bytes → Link Session W → Link Session W) where
    -- The commands of `on_text` in a ready session
    unfoldable pub command : Link Session W → Bytes → List Token → Bytes → Link Session W
    command l js toks req_id =
        if is_type js toks (codes "wake")
        then (if length req_id == 0 then l else handle_wake l js toks req_id)
        else if is_type js toks (codes "status")
        then (if length req_id == 0
            then l
            else elim (queue l.ctx status req_id) [ none ↦ l | some s1 ↦ with_s l s1 ])
        else if is_type js toks (codes "probe")
        then (if length req_id == 0 then l else handle_probe l js toks req_id)
        else if is_type js toks (codes "scan")
        then (if length req_id == 0 then l else elim (queue l.ctx scan req_id) [
          | none ↦ refuse l (codes "scan_result") req_id (codes "busy")
          | some s1 ↦ with_s l s1
        ])
        else other_command js toks req_id l

    -- The frames that `on_text` has told apart from the keepalive
    unfoldable pub frame : Link Session W → Bytes → List Token → Link Session W
    frame l js [] = l
    frame l js (root ∷ toks) =
        if not (is_object root.type) || is_missing (member js (root ∷ toks) (codes "t"))
        then l
        else if is_type js (root ∷ toks) (codes "challenge")
        then handle_challenge l js (root ∷ toks)
        else if is_type js (root ∷ toks) (codes "hello_ack")
        then handle_hello_ack l js (root ∷ toks)
        else if is_type js (root ∷ toks) (codes "adopt_ack")
        then handle_adopt_ack l js (root ∷ toks)
        else if not (is_ready l.ctx.state)
        then l
        else command l js (root ∷ toks) (req_id_of js (root ∷ toks))

    -- `on_text`
    unfoldable pub on_text : Link Session W → Bytes → Link Session W
    on_text l text =
        let l1 = with_s l (record l.ctx { last_heard = net.now l.world }) in
        if eq_bytes text ping_frame
        then (send_text net l1 pong_frame).1
        else if eq_bytes text pong_frame
        then l1
        else frame l1 text (dev.jsmn text)
