-- ===== src/Ws/Receive/Bounded.antt =====
-- The two buffers of the WebSocket client never overflow, whatever arrives: firmware/src/ws/ws.c.
use roosterwake.Prelude.{
  ℕ, zero, suc, ◌+◌, ◌-◌, ◌≤◌, Bool, true, false, not, ◌&&◌, ◌||◌, Bool-cases, Option, none, some,
  [], ◌++◌, ltb, ◌==◌, if◌then◌else◌, length, take, drop, ◌≡◌, refl, ◌⊎◌, inl, inr, arith,
  length-append, length-take, length-drop,
}
use roosterwake.Prelude.Options.{if_holds}
use roosterwake.Prelude.Bytes.{Bytes}
use roosterwake.Prelude.Text.{codes}
use roosterwake.Ws.Frame.{Header, Parse, ok, too_large, need_more, error, max_inbound, parse_header}
use roosterwake.Ws.Handshake.{
  Handshake, upgraded, bad_status, bad_upgrade, bad_accept, no_subprotocol, response_too_large,
  parse_response,
}
use roosterwake.Ws.Connection.{
  WsFail, local_fail, too_big, protocol, Stack, Link, Callbacks, ws_subprotocol, rx_size, is_closed,
  is_open, takes_frames, send_frame, teardown, close_failed,
}
use roosterwake.Ws.Receive.{
  Pumped, stop, next, is_handshaking, consume, deliver_message, on_close_frame, add_text,
  on_binary_frame, on_ping_frame, on_frame, pump_frames, handle_handshake, take_chunk, recv_loop,
  on_recv,
}
use roosterwake.Ws.Connection.Bounded.{
  Fits, Keeps, LinkFits, ResultFits, send_frame-Fits, teardown-Fits, close_failed-Fits,
}

unfoldable pub FitsAfter : {C W : Type 0} → Pumped C W → Type 0
FitsAfter (stop l) = Fits l.ws
FitsAfter (next l) = Fits l.ws

module _ {C W : Type 0} (net : Stack W) where
  module _ (cb : Callbacks C W) (keeps : Keeps cb) where
    consume-Fits : (l : Link C W) (total : ℕ) → Fits l.ws → Fits (consume l total).ws
    unfolding consume
    consume-Fits l total f =
        let n = length-drop total l.ws.rx in record { rx = omega (arith, n, f.rx); msg = f.msg }

    deliver_message-Fits : (l : Link C W) → Fits l.ws → Fits (deliver_message net cb l).ws
    unfolding deliver_message
    deliver_message-Fits l f =
        let g = keeps.text_kept l l.ws.msg f in record { rx = g.rx; msg = omega arith }

    on_close_frame-Fits :
        (l : Link C W) (payload : Bytes) → Fits (on_close_frame net cb l payload).ws
    unfolding on_close_frame
    on_close_frame-Fits l payload = teardown-Fits net cb.on_close keeps.close_kept _ _ _

    handed_on :
        (l : Link C W) → Fits l.ws → FitsAfter (if not (is_open l.ws.state) then stop l else next l)
    unfolding FitsAfter
    handed_on l f = elim (Bool-cases (is_open l.ws.state)) [ inl o ↦ rw o f | inr o ↦ rw o f ]

    add_text-Fits :
        (l : Link C W) (fin : Bool) (so_far payload : Bytes) (total : ℕ)
        → length so_far ≤ max_inbound
        → Fits l.ws
        → FitsAfter (add_text net cb l fin so_far payload total)
    unfolding add_text FitsAfter
    add_text-Fits l fin so_far payload total small f =
        by_length fin (Bool-cases (ltb max_inbound (length so_far + length payload)))
      where
        grown : Bool → Link C W
        grown last = record l {
          ws = record l.ws { msg = so_far ++ payload; msg_active = not last };
        }

        added :
            (last : Bool)
            → ltb max_inbound (length so_far + length payload) ≡ false
            → Fits (consume (grown last) total).ws
        added last short =
            let n = length-append so_far payload in
            consume-Fits (grown last) total (record { rx = f.rx; msg = ground (arith, n) })

        by_length :
            (last : Bool)
            → (ltb max_inbound (length so_far + length payload) ≡ true)
              ⊎ (ltb max_inbound (length so_far + length payload) ≡ false)
            → FitsAfter (add_text net cb l last so_far payload total)
        by_length last (inl long) = rw long (
            close_failed-Fits net cb.on_close keeps.close_kept _ 1009 (codes "message too large")
              too_big (record { rx = f.rx; msg = small }))
        by_length false (inr short) = rw short (added false short)
        by_length true (inr short) =
            rw short (handed_on _ (deliver_message-Fits _ (added true short)))

    refuse-Fits :
        (l : Link C W) (code : ℕ) (reason : Bytes) (why : WsFail)
        → Fits l.ws
        → FitsAfter (stop (close_failed net cb.on_close l code reason why))
    unfolding FitsAfter
    refuse-Fits l code reason why f =
        close_failed-Fits net cb.on_close keeps.close_kept l code reason why f

    on_binary_frame-Fits :
        (l : Link C W) (fin : Bool) (payload : Bytes) (total : ℕ)
        → Fits l.ws
        → FitsAfter (on_binary_frame net cb l fin payload total)
    unfolding on_binary_frame FitsAfter
    on_binary_frame-Fits l fin payload total f = elim (Bool-cases (not fin || l.ws.msg_active)) [
      | inl odd ↦ rw odd (refuse-Fits l 1002 (codes "unexpected binary frame") protocol f)
      | inr o ↦ elim (Bool-cases (is_open (cb.on_binary l payload).1.ws.state)) [
        | inr shut ↦ rw (o, shut) g
        | inl opened ↦ elim (Bool-cases (cb.on_binary l payload).0) [
          | inl wanted ↦ rw (o, opened, wanted) (consume-Fits _ total g)
          | inr unwanted ↦
              rw (o, opened, unwanted)
                (refuse-Fits _ 1008 (codes "binary frame not expected") protocol g)
        ]
      ]
    ]
      where
        g : Fits (cb.on_binary l payload).1.ws
        g = keeps.binary_kept l payload f

    on_ping_frame-Fits :
        (l : Link C W) (payload : Bytes) (total : ℕ)
        → Fits l.ws
        → FitsAfter (on_ping_frame net cb l payload total)
    unfolding on_ping_frame FitsAfter
    on_ping_frame-Fits l payload total f = elim (Bool-cases (send_frame net l 10 payload).0) [
      | inl sent ↦ rw sent (consume-Fits _ total (send_frame-Fits net l 10 payload f))
      | inr unsent ↦ rw unsent (teardown-Fits net cb.on_close keeps.close_kept _ local_fail 0)
    ]

    on_frame-Fits :
        (l : Link C W) (h : Header) (payload : Bytes)
        → Fits l.ws
        → FitsAfter (on_frame net cb l h payload)
    unfolding on_frame FitsAfter
    on_frame-Fits l h payload f =
        let total = h.header_len + h.payload_len in
        if_holds FitsAfter (h.opcode == 9) (on_ping_frame-Fits l payload total f) (
          if_holds FitsAfter (h.opcode == 10) (consume-Fits l total f) (
            if_holds FitsAfter (h.opcode == 8) (on_close_frame-Fits l payload) (
              if_holds FitsAfter (h.opcode == 1)
                (if_holds FitsAfter l.ws.msg_active
                  (refuse-Fits l 1002 (codes "interleaved fragment") protocol f)
                  (add_text-Fits l h.fin [] payload total (omega arith) f))
                (if_holds FitsAfter (h.opcode == 0)
                  (if_holds FitsAfter (not l.ws.msg_active)
                    (refuse-Fits l 1002 (codes "orphan continuation") protocol f)
                    (add_text-Fits l h.fin l.ws.msg payload total f.msg f))
                  (if_holds FitsAfter (h.opcode == 2) (on_binary_frame-Fits l h.fin payload total f)
                    (refuse-Fits l 1002 (codes "unexpected opcode") protocol f))))))

    pub pump_frames-Fits :
        (fuel : ℕ) (l : Link C W) → Fits l.ws → Fits (pump_frames net cb fuel l).1.ws
    unfolding pump_frames FitsAfter
    pump_frames-Fits zero l f = f
    pump_frames-Fits (suc fuel) l f = by_parse (pump_frames-Fits fuel) (parse_header l.ws.rx) refl
      where
        pumped : Bool × Link C W
        pumped = pump_frames net cb (suc fuel) l

        go_on :
            ((k : Link C W) → Fits k.ws → Fits (pump_frames net cb fuel k).1.ws)
            → (p : Pumped C W) → FitsAfter p
            → Fits
                (elim p as (λ x. Bool × Link C W) [
                  | stop l1 ↦ (false, l1)
                  | next l1 ↦ pump_frames net cb fuel l1
                ]).1.ws
        go_on ih (stop l1) g = g
        go_on ih (next l1) g = ih l1 g

        by_parse :
            ((k : Link C W) → Fits k.ws → Fits (pump_frames net cb fuel k).1.ws)
            → (p : Parse) → parse_header l.ws.rx ≡ p
            → Fits pumped.1.ws
        by_parse ih need_more e = rw (e, pump_frames) f
        by_parse ih error e =
            rw (e, pump_frames)
              (close_failed-Fits net cb.on_close keeps.close_kept l 1002 (codes "bad frame")
                protocol f)
        by_parse ih (too_large h) e =
            rw (e, pump_frames)
              (close_failed-Fits net cb.on_close keeps.close_kept l 1009 (codes "frame too large")
                too_big f)
        by_parse ih (ok h) e =
            rw (e, pump_frames)
              (if_holds ResultFits (ltb (length l.ws.rx) (h.header_len + h.payload_len)) f
                (go_on ih _ (on_frame-Fits l h (take h.payload_len (drop h.header_len l.ws.rx)) f)))

    handle_handshake-Fits : (l : Link C W) → Fits l.ws → Fits (handle_handshake net cb l).ws
    unfolding handle_handshake
    handle_handshake-Fits l f =
        by_answer (parse_response l.ws.rx l.ws.accept_b64 ws_subprotocol) refl
      where
        down : (why : WsFail) → Fits (teardown net cb.on_close l why 0).ws
        down why = teardown-Fits net cb.on_close keeps.close_kept l why 0

        by_answer :
            (h : Handshake)
            → parse_response l.ws.rx l.ws.accept_b64 ws_subprotocol ≡ h
            → Fits (handle_handshake net cb l).ws
        by_answer Handshake.need_more e = rw (e, handle_handshake) f
        by_answer (upgraded n) e =
            let dropped = length-drop n l.ws.rx in
            rw (e, handle_handshake)
              (keeps.open_kept _ (record { rx = omega (arith, dropped, f.rx); msg = f.msg }))
        by_answer bad_status e = rw (e, handle_handshake) (down _)
        by_answer bad_upgrade e = rw (e, handle_handshake) (down _)
        by_answer bad_accept e = rw (e, handle_handshake) (down _)
        by_answer no_subprotocol e = rw (e, handle_handshake) (down _)
        by_answer response_too_large e = rw (e, handle_handshake) (down _)

    take_chunk-Fits : (l : Link C W) → Fits l.ws → Fits (take_chunk net cb l).1.ws
    unfolding take_chunk
    take_chunk-Fits l f =
        if_holds ResultFits (is_handshaking l.ws.state && is_closed after.ws.state) g (
          if_holds ResultFits (takes_frames after.ws.state)
            (pump_frames-Fits (length after.ws.rx) after g) g)
      where
        after : Link C W
        after = if is_handshaking l.ws.state then handle_handshake net cb l else l

        g : Fits after.ws
        g = if_holds LinkFits (is_handshaking l.ws.state) (handle_handshake-Fits l f) f

    recv_loop-Fits :
        (fuel : ℕ) (bytes : Bytes) (l : Link C W)
        → Fits l.ws
        → Fits (recv_loop net cb fuel bytes l).ws
    unfolding recv_loop
    recv_loop-Fits zero bytes l f = f
    recv_loop-Fits (suc fuel) bytes l f =
        let taken = length-take (rx_size - length l.ws.rx) bytes in
        let joined = length-append l.ws.rx (take (rx_size - length l.ws.rx) bytes) in
        let g =
          take_chunk-Fits
            (record l {
              ws = record l.ws { rx = l.ws.rx ++ take (rx_size - length l.ws.rx) bytes };
            })
            (record { rx = omega (arith, taken, joined, f.rx); msg = f.msg }) in
        if_holds LinkFits (length bytes == 0) f (
          if_holds LinkFits (rx_size - length l.ws.rx == 0)
            (close_failed-Fits net cb.on_close keeps.close_kept l 1009 (codes "buffer overflow")
              too_big f)
            (if_holds LinkFits (not _) g (recv_loop-Fits fuel _ _ g)))

    pub on_recv-Fits :
        (pcb : ℕ) (p : Option Bytes) (err_ok : Bool) (l : Link C W)
        → Fits l.ws
        → Fits (on_recv net cb pcb p err_ok l).1.ws
    unfolding on_recv
    on_recv-Fits pcb none err_ok l f = teardown-Fits net cb.on_close keeps.close_kept l _ 0
    on_recv-Fits pcb (some bytes) err_ok l f =
        let g =
          recv_loop-Fits (length bytes) bytes
            (record l { ws = record l.ws { last_rx = net.now l.world } })
            (record { rx = f.rx; msg = f.msg }) in
        if_holds ResultFits (not err_ok)
          (teardown-Fits net cb.on_close keeps.close_kept l protocol 0)
          (if_holds ResultFits (not _) g g)
