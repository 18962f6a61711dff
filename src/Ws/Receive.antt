-- ===== src/Ws/Receive.antt =====
-- The WebSocket client's callbacks of lwIP, firmware/src/ws/ws.c: setting a connection up, the handshake and
-- the frames. An `err_t` is `true` for ERR_OK.
pub mod Bounded
pub mod Reached
use roosterwake.Prelude.{
  ℕ, zero, suc, ◌+◌, ◌-◌, ◌*◌, ◌^◌, Bool, true, false, not, ◌&&◌, ◌||◌, Option, none, some, [], ◌∷◌,
  ◌++◌, ltb, leb, ◌==◌, if◌then◌else◌, length, take, drop,
}
use roosterwake.Prelude.Bytes.{Bytes, byte_at}
use roosterwake.Prelude.Text.{codes}
use roosterwake.Net.Url.{Url, url_parse, plaintext_permitted}
use roosterwake.Ws.Frame.{Header, Parse, ok, too_large, need_more, error, max_inbound, parse_header}
use roosterwake.Ws.Handshake.{
  Handshake, upgraded, bad_status, bad_upgrade, bad_accept, no_subprotocol, response_too_large,
  parse_response,
}
use roosterwake.Ws.Connection.{
  WsState, closed, resolving, connecting, handshaking, open_state, closing, WsFail, no_fail, dns,
  connect, tls, handshake, subprotocol, protocol, too_big, peer_closed, deprovisioned, local_fail,
  Lookup, cached, in_progress, refused, Conn, Stack, Link, Callbacks, ws_subprotocol, rx_size,
  is_closed, is_open, takes_frames, send_frame, send_upgrade, teardown, abort, close_failed,
  ws_task,
}

-- A round of `pump_frames` ends the function with `false`, or goes on.
pub data Pumped (C W : Type 0) : Type 0 where
  stop : Link C W → Pumped C W
  next : Link C W → Pumped C W

unfoldable pub is_handshaking : WsState → Bool
is_handshaking handshaking = true
is_handshaking _ = false

unfoldable pub is_resolving : WsState → Bool
is_resolving resolving = true
is_resolving _ = false

-- RW_WS_FAIL_CONNECT before the connection stands, RW_WS_FAIL_PEER_CLOSED after
unfoldable pub transport_fail : WsState → WsFail
transport_fail connecting = connect
transport_fail resolving = connect
transport_fail _ = peer_closed

unfoldable pub same_pcb : Option ℕ → ℕ → Bool
same_pcb none pcb = false
same_pcb (some p) pcb = p == pcb

module _ {C W : Type 0} where
  -- The client in another state of its own
  abbrev pub with_ws : Link C W → Conn → Link C W
  with_ws l ws = record l { ws = ws }

  -- The frame leaves the buffer.
  unfoldable pub consume : Link C W → ℕ → Link C W
  consume l total = with_ws l (record l.ws { rx = drop total l.ws.rx })

  module _ (net : Stack W) (cb : Callbacks C W) where
    -- `deliver_message`
    unfoldable pub deliver_message : Link C W → Link C W
    deliver_message l =
        let l1 = cb.on_text l l.ws.msg in with_ws l1 (record l1.ws { msg = []; msg_active = false })

    -- The case of a close frame
    unfoldable pub on_close_frame : Link C W → Bytes → Link C W
    on_close_frame l payload =
        let has_code = leb 2 (length payload) in
        let code = if has_code then byte_at payload 0 * 2 ^ 8 + byte_at payload 1 else 1000 in
        let l1 = if is_open l.ws.state then (send_frame net l 8 (take 2 payload)).1 else l in
        let why = if code == 4002 then deprovisioned else peer_closed in
        teardown net cb.on_close l1 why code

    -- The end of the case of a text or continuation frame, on the message so far.
    unfoldable pub add_text : Link C W → Bool → Bytes → Bytes → ℕ → Pumped C W
    add_text l fin so_far payload total =
        let l1 = with_ws l (record l.ws { msg = so_far ++ payload; msg_active = not fin }) in
        let l2 = deliver_message (consume l1 total) in
        if ltb max_inbound (length so_far + length payload)
        then stop (
            close_failed net cb.on_close (with_ws l (record l.ws { msg = so_far })) 1009
              (codes "message too large") too_big)
        else if not fin
        then next (consume l1 total)
        else if not (is_open l2.ws.state)
        then stop l2
        else next l2

    -- The case of a binary frame
    unfoldable pub on_binary_frame : Link C W → Bool → Bytes → ℕ → Pumped C W
    on_binary_frame l fin payload total =
        let (wanted, l1) = cb.on_binary l payload in
        if not fin || l.ws.msg_active
        then stop (close_failed net cb.on_close l 1002 (codes "unexpected binary frame") protocol)
        else if not (is_open l1.ws.state)
        then stop l1
        else if not wanted
        then stop
            (close_failed net cb.on_close l1 1008 (codes "binary frame not expected") protocol)
        else next (consume l1 total)

    -- The case of a ping
    unfoldable pub on_ping_frame : Link C W → Bytes → ℕ → Pumped C W
    on_ping_frame l payload total =
        let (sent, l1) = send_frame net l 10 payload in
        if not sent
        then stop (teardown net cb.on_close l1 local_fail 0)
        else next (consume l1 total)

    -- The switch over the opcode of a complete frame.
    unfoldable pub on_frame : Link C W → Header → Bytes → Pumped C W
    on_frame l h payload =
        let total = h.header_len + h.payload_len in
        if h.opcode == 9
        then on_ping_frame l payload total
        else if h.opcode == 10
        then next (consume l total)
        else if h.opcode == 8
        then stop (on_close_frame l payload)
        else if h.opcode == 1
        then (if l.ws.msg_active
            then stop (close_failed net cb.on_close l 1002 (codes "interleaved fragment") protocol)
            else add_text l h.fin [] payload total)
        else if h.opcode == 0
        then (if not l.ws.msg_active
            then stop (close_failed net cb.on_close l 1002 (codes "orphan continuation") protocol)
            else add_text l h.fin l.ws.msg payload total)
        else if h.opcode == 2
        then on_binary_frame l h.fin payload total
        else stop (close_failed net cb.on_close l 1002 (codes "unexpected opcode") protocol)

    -- `pump_frames`. A round takes two bytes of the buffer at least.
    unfoldable pub pump_frames : ℕ → Link C W → Bool × Link C W
    pump_frames zero l = (true, l)
    pump_frames (suc fuel) l = elim (parse_header l.ws.rx) [
      | need_more ↦ (true, l)
      | error ↦ (false, close_failed net cb.on_close l 1002 (codes "bad frame") protocol)
      | too_large h ↦ (false, close_failed net cb.on_close l 1009 (codes "frame too large") too_big)
      | ok h ↦
          if ltb (length l.ws.rx) (h.header_len + h.payload_len)
          then (true, l)
          else elim (on_frame l h (take h.payload_len (drop h.header_len l.ws.rx))) [
            | stop l1 ↦ (false, l1)
            | next l1 ↦ pump_frames fuel l1
          ]
    ]

    -- `handle_handshake_bytes`
    unfoldable pub handle_handshake : Link C W → Link C W
    handle_handshake l = elim (parse_response l.ws.rx l.ws.accept_b64 ws_subprotocol) [
      | Handshake.need_more ↦ l
      | upgraded n ↦ cb.on_open (
          with_ws l
            (record l.ws { rx = drop n l.ws.rx; state = open_state; last_rx = net.now l.world }))
      | bad_status ↦ teardown net cb.on_close l handshake 0
      | bad_upgrade ↦ teardown net cb.on_close l handshake 0
      | bad_accept ↦ teardown net cb.on_close l handshake 0
      | no_subprotocol ↦ teardown net cb.on_close l subprotocol 0
      | response_too_large ↦ teardown net cb.on_close l handshake 0
    ]

    -- What a chunk that was copied into the buffer starts: whether the loop of `on_recv` goes on.
    unfoldable pub take_chunk : Link C W → Bool × Link C W
    take_chunk l =
        let was = is_handshaking l.ws.state in
        let l1 = if was then handle_handshake l else l in
        if was && is_closed l1.ws.state
        then (false, l1)
        else if takes_frames l1.ws.state
        then pump_frames (length l1.ws.rx) l1
        else (true, l1)

    -- The loop of `on_recv`. A round takes a byte at least.
    unfoldable pub recv_loop : ℕ → Bytes → Link C W → Link C W
    recv_loop zero bytes l = l
    recv_loop (suc fuel) bytes l =
        let space = rx_size - length l.ws.rx in
        let (go_on, l1) =
          take_chunk (with_ws l (record l.ws { rx = l.ws.rx ++ take space bytes })) in
        let rest = recv_loop fuel (drop space bytes) l1 in
        if length bytes == 0
        then l
        else if space == 0
        then close_failed net cb.on_close l 1009 (codes "buffer overflow") too_big
        else if not go_on
        then l1
        else rest

    -- `on_recv` of a pcb: `none` is a NULL pbuf.
    unfoldable pub on_recv : ℕ → Option Bytes → Bool → Link C W → Bool × Link C W
    on_recv pcb none err_ok l = (true, teardown net cb.on_close l peer_closed 0)
    on_recv pcb (some bytes) err_ok l =
        let l1 =
          recv_loop (length bytes) bytes (with_ws l (record l.ws { last_rx = net.now l.world })) in
        if not err_ok
        then (true, teardown net cb.on_close l protocol 0)
        else if not (same_pcb l1.ws.pcb pcb)
        then (false, l1)
        else (true, record l1 { world = net.recved pcb (length bytes) l1.world })

    -- `on_connected`; RW_WS_CONNECT_TIMEOUT_MS is 20000.
    unfoldable pub on_connected : ℕ → Bool → Link C W → Bool × Link C W
    on_connected pcb err_ok l =
        let now = net.now l.world in
        let (sent, l1) = send_upgrade net (
          with_ws l (record l.ws { state = handshaking; last_rx = now; deadline = now + 20000 })) in
        let l2 = if sent then l1 else teardown net cb.on_close l1 local_fail 0 in
        if not err_ok
        then (false, teardown net cb.on_close l connect 0)
        else (same_pcb l2.ws.pcb pcb, l2)

    -- `on_err`
    unfoldable pub on_err : Link C W → Link C W
    on_err l =
        teardown net cb.on_close (with_ws l (record l.ws { pcb = none }))
          (transport_fail l.ws.state) 0

    -- `on_poll`
    unfoldable pub on_poll : ℕ → Link C W → Bool × Link C W
    on_poll pcb l = let l1 = ws_task net cb.on_close l in (same_pcb l1.ws.pcb pcb, l1)

    -- `start_connect`
    unfoldable pub start_connect : Link C W → Bool × Link C W
    start_connect l =
        let (made, w1) = net.new_pcb l.ws.url.tls l.ws.url.host l.world in
        elim made [
          | none ↦ (
            false,
            record l {
              ws = record l.ws {
                pcb = none;
                state = closed;
                fail = (if l.ws.url.tls then tls else local_fail);
              };
              world = w1;
            },
          )
          | some pcb ↦
              let (dialled, w2) = net.dial pcb l.ws.url.port w1 in
              let l1 : Link C W = record l {
                ws = record l.ws {
                  pcb = some pcb;
                  state = connecting;
                  deadline = net.now w1 + 20000;
                };
                world = w2;
              } in
              if not dialled then (false, teardown net cb.on_close l1 connect 0) else (true, l1)
        ]

    -- `dns_done`: whether an address was found.
    unfoldable pub dns_done : Bool → Link C W → Link C W
    dns_done found l =
        if not (is_resolving l.ws.state)
        then l
        else if not found
        then cb.on_close (with_ws l (record l.ws { state = closed; fail = dns })) dns 0
        else (start_connect l).1

    -- `rw_ws_connect` once the connection before it is gone.
    unfoldable pub connect_fresh : Link C W → Option Bytes → Bool × Link C W
    connect_fresh l url =
        let ws0 : Conn = record l.ws {
          rx = [];
          msg = [];
          msg_active = false;
          fail = no_fail;
          close_code = 0;
        } in
        elim (url_parse url) [
          | none ↦ (false, with_ws l (record ws0 { fail = dns }))
          | some u ↦
              let now = net.now l.world in
              let (found, w1) = net.lookup_host u.host l.world in
              let l1 : Link C W = record l {
                ws = record ws0 {
                  url = u;
                  state = resolving;
                  deadline = now + 20000;
                  last_rx = now;
                };
                world = w1;
              } in
              if not u.tls && not (plaintext_permitted (some u.host))
              then (false, with_ws l (record ws0 { url = u; fail = local_fail }))
              else elim found [
                | cached ↦ start_connect l1
                | in_progress ↦ (true, l1)
                | refused ↦ (false, with_ws l1 (record l1.ws { state = closed; fail = dns }))
              ]
        ]

    -- `rw_ws_connect`
    unfoldable pub ws_connect : Link C W → Option Bytes → Bool × Link C W
    ws_connect l url =
        connect_fresh (if is_closed l.ws.state then l else abort net cb.on_close l local_fail) url
