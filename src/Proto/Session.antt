-- ===== src/Proto/Session.antt =====
-- The relay session's state and what it sends, firmware/src/proto/proto.c. The diagnostic log's own
-- frames are left out. Times are milliseconds.
pub mod Backoff
use roosterwake.Prelude.{
  ℕ, zero, suc, ◌+◌, ◌-◌, ◌*◌, ◌/◌, ◌%◌, ◌^◌, Bool, true, false, not, ◌&&◌, ◌||◌, Option, none,
  some, List, [], ◌∷◌, ◌++◌, ltb, leb, ◌==◌, if◌then◌else◌, length,
}
use roosterwake.Prelude.Bytes.{Bytes}
use roosterwake.Prelude.Decimal.{ℤ, pos, negsuc}
use roosterwake.Prelude.Text.{codes}
use roosterwake.Config.Record.{Config}
use roosterwake.Config.Token.{random_words}
use roosterwake.Diag.Stuck.{Entry}
use roosterwake.Proto.Auth.{auth_proof}
use roosterwake.Proto.Hex.{hex_encode}
use roosterwake.Proto.Json.{JsonWriter, jw_init, jw_raw, jw_key, jw_str, jw_int, Token}
use roosterwake.Wol.{WolStatus, WolResult}
use roosterwake.Ws.Connection.{WsFail, deprovisioned, Stack, Link, send_text}
use roosterwake.Proto.Pieces.{
  default_relay_url, fw_version, board_name, caps_json, Piece, write_piece, write_pieces,
  relay_state_name, stuck_pieces, short_pieces, truth, name_pieces, err_pieces, result_head,
  wake_pieces, probe_ok_pieces, refused_pieces, status_pieces, raw, key, str, int,
}

-- `rw_relay_state_t`
pub data RelayState : Type 0 where
  offline backoff connecting authenticating ready auth_failed stopped : RelayState

-- `pending_kind_t`
pub data Pending : Type 0 where
  idle wake status probe scan ota_begin plug_scan plug_set plug_status plug_fw_check
        plug_fw_update :
      Pending

-- `s`, less the parameters of the plug commands and of an update
pub record Session : Type 0 where
  pub state : RelayState
  pub cfg : Config
  pub enabled : Bool
  pub nonce_c : Bytes
  pub expected_proof_s : Bytes
  pub backoff_ms : ℕ
  pub retry_at : ℕ
  pub next_ping : ℕ
  pub last_heard : ℕ
  pub kind : Pending
  pub req_id : Bytes
  pub mac : Bytes
  pub repeat : ℕ
  pub timeout_s : ℕ
  pub probe_req_id : Bytes
  pub probe_owned : Bool
  pub plug_owned : Bool
  pub receiving : Bool
  pub draining : Bool
  pub enrolling : Bool
  pub persist_pending : Bool
  pub last_stuck : Option Entry
  pub reboot_pending : Bool

-- What the other parts do for the session, and jsmn.
pub record Device (W : Type 0) : Type 0 where
  pub sha256 : Bytes → Bytes
  pub jsmn : Bytes → List Token
  pub net_ready : W → Bool
  pub running_slot : ℕ
  pub send_wake : Bytes → ℕ → Bool → W → (WolStatus × WolResult) × W
  pub wake_sent : W → W
  pub probe_start : Bytes → ℕ → W → Bool × W
  pub probe_cancel : W → W
  pub probe_method : W → Bytes
  pub plug_cancel : W → W
  pub ota_abort : W → W
  pub confirm_image : W → W
  pub save_config : Config → W → Bool × W
  pub reboot : W → W
  pub rssi : W → ℤ × W
  pub uptime_s : W → ℕ
  pub ip : W → Bytes
  pub netmask : W → Bytes
  pub reset_reason : W → Bytes

unfoldable pub hello_pieces : Session → ℕ → List Piece
hello_pieces s slot =
    raw (codes "{")
    ∷ key (codes "t")
    ∷ str (codes "hello")
    ∷ raw (codes ",")
    ∷ key (codes "v")
    ∷ int (pos 2)
    ∷ raw (codes ",")
    ∷ key (codes "device_id")
    ∷ str s.cfg.device_id
    ∷ raw (codes ",")
    ∷ key (codes "nonce_c")
    ∷ str s.nonce_c
    ∷ raw (codes ",")
    ∷ key (codes "fw")
    ∷ str fw_version
    ∷ raw (codes ",")
    ∷ key (codes "board")
    ∷ str board_name
    ∷ raw (codes ",")
    ∷ key (codes "slot")
    ∷ int (pos slot)
    ∷ raw (codes ",")
    ∷ key (codes "caps")
    ∷ raw caps_json
    ∷ (stuck_pieces s.last_stuck ++ (raw (codes "}") ∷ []))

-- The delay that follows `backoff_ms`
unfoldable pub next_backoff : ℕ → ℕ
next_backoff b = if ltb 30000 b then 60000 else b * 2

unfoldable pub is_deprovisioned : WsFail → Bool
is_deprovisioned deprovisioned = true
is_deprovisioned _ = false

unfoldable pub is_auth_failed : RelayState → Bool
is_auth_failed auth_failed = true
is_auth_failed _ = false

module _ {W : Type 0} (net : Stack W) (dev : Device W) where
  abbrev pub Relay : Type 0
  Relay = Link Session W

  abbrev pub with_session : Relay → Session → Relay
  with_session l s = record l { ctx = s }

  -- `send_json` of a frame that was begun with an empty buffer of RW_WS_MAX_OUTBOUND bytes
  unfoldable pub send_pieces : Relay → List Piece → Bool × Relay
  send_pieces l ps =
      let w = write_pieces (jw_init 2048) ps in
      if not w.ok then (false, l) else send_text net l w.text

  -- `send_hello`
  unfoldable pub send_hello : Relay → Bool × Relay
  send_hello l =
      let (nonce, w1) = random_words net.rand 4 l.world in
      let s1 : Session = record l.ctx { nonce_c = hex_encode nonce } in
      let (sent, l2) =
        send_pieces (record l { ctx = s1; world = w1 }) (hello_pieces s1 dev.running_slot) in
      if not sent
      then (false, l2)
      else (true, with_session l2 (record l2.ctx { last_stuck = none }))

  -- `rw_auth_proof` with the configuration's token
  unfoldable pub proof : Session → Bytes → Bytes → Option Bytes
  proof s tag nonce_s =
      auth_proof dev.sha256 (some s.cfg.token) (some tag) (some s.cfg.device_id) (some s.nonce_c)
        (some nonce_s)

  -- `send_auth`
  unfoldable pub send_auth : Relay → Bytes → Bool × Relay
  send_auth l nonce_s = elim (proof l.ctx (codes "rw1:c") nonce_s) [
    | none ↦ (false, l)
    | some proof_c ↦ elim (proof l.ctx (codes "rw1:s") nonce_s) [
      | none ↦ (false, l)
      | some proof_s ↦
          send_pieces (with_session l (record l.ctx { expected_proof_s = proof_s }))
            (short_pieces (codes "auth") (codes "proof_c") proof_c)
    ]
  ]

  -- `send_enrol`
  unfoldable pub send_enrol : Relay → Bytes → Bool × Relay
  send_enrol l nonce_s = elim (proof l.ctx (codes "rw1:s") nonce_s) [
    | none ↦ (false, l)
    | some proof_s ↦
        send_pieces (with_session l (record l.ctx { expected_proof_s = proof_s }))
          (short_pieces (codes "enrol") (codes "token") l.ctx.cfg.token)
  ]

  -- `send_adopt`
  unfoldable pub send_adopt : Relay → Bool × Relay
  send_adopt l = send_pieces l (short_pieces (codes "adopt") (codes "email") l.ctx.cfg.owner_email)

  -- The end of `on_close` and of `rw_relay_task`: the wait before the next attempt.
  unfoldable pub wait_backoff : Relay → Relay
  wait_backoff l =
      let b = l.ctx.backoff_ms in
      let (word, w1) = net.rand l.world in
      if b == 0
      then with_session l (record l.ctx { retry_at = net.now l.world; backoff_ms = next_backoff b })
      else record l {
        ctx = record l.ctx { retry_at = net.now w1 + word % b; backoff_ms = next_backoff b };
        world = w1;
      }

  -- What `on_close` cancels
  unfoldable pub drop_work : Relay → Relay
  drop_work l =
      let w1 = if l.ctx.probe_owned then dev.probe_cancel l.world else l.world in
      let w2 = if l.ctx.plug_owned then dev.plug_cancel w1 else w1 in
      let w3 = if l.ctx.receiving then dev.ota_abort w2 else w2 in
      record l {
        ctx = record l.ctx {
          kind = idle;
          probe_owned = false;
          plug_owned = false;
          receiving = false;
          draining = false;
        };
        world = w3;
      }

  -- `on_close`
  unfoldable pub on_close : Relay → WsFail → ℕ → Relay
  on_close l why code =
      let l1 = drop_work l in
      if is_deprovisioned why || code == 4002
      then with_session l1 (record l1.ctx { state = stopped })
      else wait_backoff (
          with_session l1 (record l1.ctx {
            state = if is_auth_failed l.ctx.state || code == 1008 then auth_failed else backoff;
          }))
