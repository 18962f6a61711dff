-- ===== src/Proto/Relay.antt =====
-- The relay session's main loop, firmware/src/proto/proto.c, over the WebSocket client. The probe's and the plugs'
-- own tasks, the plug commands, the scan and the update are parameters of the model.
pub mod Replayed
use roosterwake.Prelude.{
  ℕ, zero, suc, ◌+◌, ◌-◌, ◌*◌, ◌/◌, ◌%◌, ◌^◌, Bool, true, false, not, ◌&&◌, ◌||◌, Option, none,
  some, List, [], ◌∷◌, ltb, leb, ◌==◌, if◌then◌else◌, length,
}
use roosterwake.Prelude.Bytes.{Bytes}
use roosterwake.Prelude.Text.{codes}
use roosterwake.Config.Record.{Config}
use roosterwake.Proto.Inbound.{ping_frame, is_ready, on_text}
use roosterwake.Proto.Json.{Token}
use roosterwake.Proto.Pieces.{
  default_relay_url, wake_pieces, probe_ok_pieces, refused_pieces, status_pieces,
}
use roosterwake.Proto.Session.{
  RelayState, offline, backoff, connecting, authenticating, auth_failed, stopped, Pending, idle,
  wake, status, probe, Session, Device, send_pieces, send_hello, wait_backoff, on_close,
}
use roosterwake.Wol.{WolStatus, wol_ok, err_no_link, err_send_failed}
use roosterwake.Ws.Connection.{
  local_fail, Stack, Link, Callbacks, is_closed, send_text, abort, close, ws_task,
}
use roosterwake.Ws.Receive.{ws_connect}

-- What a probe reports
pub data ProbeState : Type 0 where
  waiting up timed_out : ProbeState

-- The rest of the program: other commands and their running, binary frames, and the probe's and the plugs' tasks.
pub record Others (W : Type 0) : Type 0 where
  pub other_command : Bytes → List Token → Bytes → Link Session W → Link Session W
  pub run_other : Link Session W → Link Session W
  pub binary_frame : Link Session W → Bytes → Bool × Link Session W
  pub probe_task : Link Session W → Link Session W
  pub plug_task : Link Session W → Link Session W

unfoldable pub probe_name : ProbeState → Bytes
probe_name up = codes "up"
probe_name timed_out = codes "timeout"
probe_name waiting = codes "waiting"

unfoldable pub is_waiting : ProbeState → Bool
is_waiting waiting = true
is_waiting _ = false

unfoldable pub wol_error : WolStatus → Option Bytes
wol_error wol_ok = none
wol_error err_no_link = some (codes "no_link")
wol_error err_send_failed = some (codes "send_failed")

unfoldable pub is_stopped : RelayState → Bool
is_stopped stopped = true
is_stopped _ = false

unfoldable pub is_offline : RelayState → Bool
is_offline offline = true
is_offline _ = false

-- A new connection may be tried in these states.
unfoldable pub may_retry : RelayState → Bool
may_retry backoff = true
may_retry auth_failed = true
may_retry _ = false

-- The relay's address
unfoldable pub relay_url_of : Config → Bytes
relay_url_of cfg = if length cfg.relay_url == 0 then default_relay_url else cfg.relay_url

module _ {W : Type 0} (net : Stack W) (dev : Device W) where
  abbrev with_s : Link Session W → Session → Link Session W
  with_s l s = record l { ctx = s }

  -- `on_open`
  unfoldable pub on_open : Link Session W → Link Session W
  on_open l =
      let (sent, l1) = send_hello net dev (with_s l (record l.ctx { state = authenticating })) in
      if not sent then abort net (on_close net dev) l1 local_fail else l1

  -- `send_status_result`
  unfoldable pub send_status : Link Session W → Link Session W
  send_status l =
      let (rssi, w1) = dev.rssi l.world in
      let l1 : Link Session W = record l { world = w1 } in
      (send_pieces net dev l1 (
        status_pieces l.ctx.req_id rssi (dev.uptime_s w1) (dev.ip w1) (dev.netmask w1)
          (dev.reset_reason w1))).1

  -- The case PENDING_WAKE
  unfoldable pub run_wake : Link Session W → Link Session W
  run_wake l =
      let s = l.ctx in
      let (r, w1) = dev.send_wake s.mac s.repeat (s.cfg.flags / 4 % 2 == 1) l.world in
      let w2 : W = elim (wol_error r.0) [ none ↦ dev.wake_sent w1 | some _ ↦ w1 ] in
      (send_pieces net dev (record l { world = w2 })
        (wake_pieces s.req_id (wol_error r.0) r.1.sent r.1.ifaces)).1

  -- The case PENDING_PROBE
  unfoldable pub run_probe : Link Session W → Link Session W
  run_probe l =
      let s = l.ctx in
      let (started, w1) = dev.probe_start s.mac s.timeout_s l.world in
      let l1 : Link Session W = record l {
        ctx = record s { probe_req_id = s.req_id; probe_owned = started };
        world = w1;
      } in
      if started
      then l1
      else (send_pieces net dev l1
          (refused_pieces (codes "probe_result") s.req_id (codes "busy"))).1

  -- `probe_report`
  unfoldable pub probe_report : Link Session W → ProbeState → ℕ → Link Session W
  probe_report l state elapsed_s =
      let l1 =
        (send_pieces net dev l (
          probe_ok_pieces l.ctx.probe_req_id (probe_name state) elapsed_s
            (dev.probe_method l.world))).1 in
      if not l.ctx.probe_owned || not (is_ready l.ctx.state)
      then l
      else if is_waiting state
      then l1
      else with_s l1 (record l1.ctx { probe_owned = false })

  -- `rw_relay_start`
  unfoldable pub relay_start : Link Session W → Link Session W
  relay_start l =
      if is_stopped l.ctx.state
      then l
      else with_s l (record l.ctx {
        enabled = true;
        retry_at = net.now l.world;
        state = if is_offline l.ctx.state then backoff else l.ctx.state;
      })

  -- `rw_relay_stop`
  unfoldable pub relay_stop : Link Session W → Link Session W
  relay_stop l =
      let l1 =
        abort net (on_close net dev) (with_s l (record l.ctx { enabled = false })) local_fail in
      with_s l1 (record l1.ctx { state = offline })

  -- The writing of a configuration that a callback changed
  unfoldable pub persist : Link Session W → Link Session W
  persist l = if not l.ctx.persist_pending then l else record l {
    ctx = record l.ctx { persist_pending = false };
    world = (dev.save_config l.ctx.cfg l.world).1;
  }

  -- The restart into a staged image
  unfoldable pub restart : Link Session W → Link Session W
  restart l =
      let l1 =
        close net (on_close net dev) (with_s l (record l.ctx { reboot_pending = false })) 1000
          (codes "updating") in
      record l1 { world = dev.reboot l1.world }

  -- The silence timer and the keepalive of a ready session
  unfoldable pub keepalive : Link Session W → Link Session W
  keepalive l =
      let now = net.now l.world in
      let (sent, l1) =
        send_text net (with_s l (record l.ctx { next_ping = now + 25000 })) ping_frame in
      if leb (l.ctx.last_heard + 75000) now
      then abort net (on_close net dev) l local_fail
      else if ltb now l.ctx.next_ping
      then l
      else if not sent
      then abort net (on_close net dev) l1 local_fail
      else l1

  module _ (oth : Others W) where
    -- `k_ws_callbacks`
    unfoldable pub callbacks : Callbacks Session W
    callbacks = record {
      on_open = on_open;
      on_text = on_text net dev oth.other_command;
      on_binary = oth.binary_frame;
      on_close = on_close net dev;
    }

    -- `run_pending`
    unfoldable pub run_pending : Link Session W → Link Session W
    run_pending l =
        let l1 : Link Session W = elim l.ctx.kind [
          | idle ↦ l
          | wake ↦ run_wake l
          | status ↦ send_status l
          | probe ↦ run_probe l
          | Pending.scan ↦ oth.run_other l
          | Pending.ota_begin ↦ oth.run_other l
          | Pending.plug_scan ↦ oth.run_other l
          | Pending.plug_set ↦ oth.run_other l
          | Pending.plug_status ↦ oth.run_other l
          | Pending.plug_fw_check ↦ oth.run_other l
          | Pending.plug_fw_update ↦ oth.run_other l
        ] in
        with_s l1 (record l1.ctx { kind = idle })

    -- The next attempt to connect
    unfoldable pub reconnect : Link Session W → Link Session W
    reconnect l =
        let (started, l1) =
          ws_connect net callbacks (with_s l (record l.ctx { state = connecting }))
            (some (relay_url_of l.ctx.cfg)) in
        if not (may_retry l.ctx.state)
          || not (is_closed l.ws.state)
          || ltb (net.now l.world) l.ctx.retry_at
        then l
        else if not (dev.net_ready l.world)
        then l
        else if length l.ctx.cfg.device_id == 0 || length l.ctx.cfg.token == 0
        then l
        else if started
        then l1
        else wait_backoff net dev (with_s l1 (record l1.ctx { state = backoff }))

    -- `rw_relay_task`
    unfoldable pub relay_task : Link Session W → Link Session W
    relay_task l =
        let l1 = oth.plug_task (oth.probe_task (ws_task net (on_close net dev) l)) in
        let l2 = persist (if is_ready l1.ctx.state then run_pending l1 else l1) in
        if l2.ctx.reboot_pending
        then restart l2
        else if not l2.ctx.enabled || is_stopped l2.ctx.state
        then l2
        else if is_ready l2.ctx.state
        then keepalive l2
        else reconnect l2
