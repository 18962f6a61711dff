-- ===== src/Ws/Connection.antt =====
-- The WebSocket client, firmware/src/ws/ws.c: its state and what the application calls. lwIP, the SDK's clock and random numbers and Mbed TLS are the
-- record `Stack` over a world that is passed on; a pcb is a number. The application's callbacks and its
-- `ctx` are parameters. Times are milliseconds.
pub mod Untouched
pub mod Bounded
use roosterwake.Prelude.{
  ℕ, zero, suc, ◌+◌, ◌-◌, ◌*◌, ◌^◌, Bool, true, false, not, ◌&&◌, ◌||◌, Option, none, some, [], ◌∷◌,
  ◌++◌, ltb, leb, ◌==◌, if◌then◌else◌, length, take, drop,
}
use roosterwake.Prelude.Bytes.{Bytes, byte_at, slice}
use roosterwake.Prelude.Text.{codes}
use roosterwake.Config.Token.{random_words}
use roosterwake.Net.Url.{Url, url_parse, plaintext_permitted}
use roosterwake.Ws.Frame.{
  Header, Parse, ok, too_large, need_more, error, max_inbound, parse_header, build_frame,
  build_close,
}
use roosterwake.Ws.Handshake.{
  Handshake, upgraded, bad_status, bad_upgrade, bad_accept, no_subprotocol, response_too_large,
  key_encode, compute_accept, build_request, parse_response,
}

-- `rw_ws_state_t`
pub data WsState : Type 0 where
  closed resolving connecting handshaking open_state closing : WsState

-- `rw_ws_fail_t`
pub data WsFail : Type 0 where
  no_fail dns connect tls handshake subprotocol protocol too_big timeout peer_closed deprovisioned
        local_fail :
      WsFail

-- What `dns_gethostbyname` and `altcp_recv` tell.
pub data Lookup : Type 0 where
  cached in_progress refused : Lookup

-- `rw_ws_client_t`, less the callbacks and `addr`. Its buffers hold their first `rx_len` and `msg_len` bytes.
pub record Conn : Type 0 where
  pub state : WsState
  pub fail : WsFail
  pub close_code : ℕ
  pub url : Url
  pub pcb : Option ℕ
  pub key_b64 : Bytes
  pub accept_b64 : Bytes
  pub rx : Bytes
  pub msg : Bytes
  pub msg_active : Bool
  pub last_rx : ℕ
  pub deadline : ℕ

-- The calls of lwIP, the SDK and Mbed TLS.
pub record Stack (W : Type 0) : Type 0 where
  pub rand : W → ℕ × W
  pub now : W → ℕ
  pub sndbuf : W → ℕ
  pub write : Bytes → W → Bool × W
  pub output : W → Bool × W
  pub release : ℕ → W → W
  pub new_pcb : Bool → Bytes → W → Option ℕ × W
  pub dial : ℕ → ℕ → W → Bool × W
  pub lookup_host : Bytes → W → Lookup × W
  pub recved : ℕ → ℕ → W → W
  pub sha1 : Bytes → Bytes
  pub base64 : Bytes → Option Bytes

-- A client with what its callbacks work on.
pub record Link (C W : Type 0) : Type 0 where
  pub ws : Conn
  pub ctx : C
  pub world : W

-- `rw_ws_callbacks_t`; every callback is given.
pub record Callbacks (C W : Type 0) : Type 0 where
  pub on_open : Link C W → Link C W
  pub on_text : Link C W → Bytes → Link C W
  pub on_binary : Link C W → Bytes → Bool × Link C W
  pub on_close : Link C W → WsFail → ℕ → Link C W

-- RW_WS_SUBPROTOCOL
abbrev pub ws_subprotocol : Bytes
ws_subprotocol = codes "roosterwake.v1"

-- The size of `rx`
abbrev pub rx_size : ℕ
rx_size = 14 + max_inbound

unfoldable pub is_closed : WsState → Bool
is_closed closed = true
is_closed _ = false

unfoldable pub is_open : WsState → Bool
is_open open_state = true
is_open _ = false

-- Bytes are taken for frames in these states.
unfoldable pub takes_frames : WsState → Bool
takes_frames open_state = true
takes_frames closing = true
takes_frames _ = false

-- A close may be sent in these states.
unfoldable pub may_close : WsState → Bool
may_close open_state = true
may_close handshaking = true
may_close _ = false

-- The state that `ws_teardown` leaves.
unfoldable pub torn_down : Conn → WsFail → ℕ → Conn
torn_down ws why code = record ws {
  pcb = none;
  state = closed;
  fail = why;
  close_code = code;
  rx = [];
  msg = [];
  msg_active = false;
}

-- The release of the pcb
unfoldable pub released : {W : Type 0} → Stack W → Option ℕ → W → W
released net none w = w
released net (some pcb) w = net.release pcb w

-- The state of a close that was sent.
unfoldable pub closing_sent : Conn → ℕ → ℕ → Conn
closing_sent ws code deadline = record ws {
  state = closing;
  close_code = code;
  deadline = deadline;
}

-- The failure that a timed-out closing reports
unfoldable pub fail_or_local : WsFail → WsFail
fail_or_local no_fail = local_fail
fail_or_local why = why

module _ {C W : Type 0} (net : Stack W) where
  -- `tcp_write_all`
  unfoldable pub tcp_write_all : Link C W → Bytes → Bool × Link C W
  tcp_write_all l bytes = elim l.ws.pcb [
    | none ↦ (false, l)
    | some _ ↦
        let (wrote, w1) = net.write bytes l.world in
        let (flushed, w2) = net.output w1 in
        if ltb (net.sndbuf l.world) (length bytes)
        then (false, l)
        else if not wrote
        then (false, record l { world = w1 })
        else (flushed, record l { world = w2 })
  ]

  -- `send_frame`
  unfoldable pub send_frame : Link C W → ℕ → Bytes → Bool × Link C W
  send_frame l opcode payload =
      let (mask, w1) = random_words net.rand 1 l.world in
      if ltb 2048 (length payload)
      then (false, l)
      else elim (build_frame (14 + 2048) true opcode payload mask) [
        | none ↦ (false, record l { world = w1 })
        | some frame ↦ tcp_write_all (record l { world = w1 }) frame
      ]

  -- `rw_ws_send_text`
  unfoldable pub send_text : Link C W → Bytes → Bool × Link C W
  send_text l text = if not (is_open l.ws.state) then (false, l) else send_frame l 1 text

  -- `send_upgrade_request`
  unfoldable pub send_upgrade : Link C W → Bool × Link C W
  send_upgrade l =
      let (key, w1) = random_words net.rand 4 l.world in
      let key_b64 = key_encode net.base64 key in
      let ws1 : Conn = record l.ws {
        key_b64 = key_b64;
        accept_b64 = compute_accept net.sha1 net.base64 key_b64;
      } in
      let l1 : Link C W = record l { ws = ws1; world = w1 } in
      elim (build_request 512 l.ws.url.host l.ws.url.port l.ws.url.tls l.ws.url.path key_b64
        ws_subprotocol) [ none ↦ (false, l1) | some request ↦ tcp_write_all l1 request ]

  module _ (on_close : Link C W → WsFail → ℕ → Link C W) where
    -- `ws_teardown`
    unfoldable pub teardown : Link C W → WsFail → ℕ → Link C W
    teardown l why code =
        let gone : Link C W = record l {
          ws = torn_down l.ws why code;
          world = released net l.ws.pcb l.world;
        } in
        if is_closed l.ws.state then gone else on_close gone why code

    -- `rw_ws_abort`
    unfoldable pub abort : Link C W → WsFail → Link C W
    abort l why = teardown l why 0

    -- `rw_ws_close`; RW_WS_CLOSE_GRACE_MS is 2000.
    unfoldable pub close : Link C W → ℕ → Bytes → Link C W
    close l code reason =
        let (mask, w1) = random_words net.rand 1 l.world in
        let l1 : Link C W = record l { world = w1 } in
        if not (may_close l.ws.state)
        then l
        else elim (build_close (14 + 125) code (some reason) mask) [
          | none ↦ teardown l1 local_fail code
          | some frame ↦
              let (sent, l2) = tcp_write_all l1 frame in
              if not sent
              then teardown l2 local_fail code
              else record l2 { ws = closing_sent l2.ws code (net.now l2.world + 2000) }
        ]

    -- A close, after which `fail` is set.
    unfoldable pub close_failed : Link C W → ℕ → Bytes → WsFail → Link C W
    close_failed l code reason why =
        let l1 = close l code reason in record l1 { ws = record l1.ws { fail = why } }

    -- `rw_ws_task`; RW_WS_DEAD_PEER_MS is 75000.
    unfoldable pub ws_task : Link C W → Link C W
    ws_task l = elim l.ws.state [
      | closed ↦ l
      | resolving ↦ if leb l.ws.deadline (net.now l.world) then teardown l timeout 0 else l
      | connecting ↦ if leb l.ws.deadline (net.now l.world) then teardown l timeout 0 else l
      | handshaking ↦ if leb l.ws.deadline (net.now l.world) then teardown l timeout 0 else l
      | open_state ↦
          if ltb (l.ws.last_rx + 75000) (net.now l.world)
          then close_failed l 4003 (codes "idle") timeout
          else l
      | closing ↦
          if leb l.ws.deadline (net.now l.world)
          then teardown l (fail_or_local l.ws.fail) l.ws.close_code
          else l
    ]
