-- ===== src/Tests/Session.antt =====
-- The relay session over a connection whose world is the list of what was written.
use roosterwake.Prelude.{
  ◌+◌, ◌<◌, ◌≤◌, true, false, List, none, some, [], ◌∷◌, ◌≡◌, refl, ◌⊎◌, arith, replicate,
}
use roosterwake.Prelude.Bytes.{Bytes, eq_bytes, slice}
use roosterwake.Net.Url.{before}
use roosterwake.Prelude.Decimal.{pos}
use roosterwake.Proto.Inbound.{member, member_str, member_true, is_ready, handle_hello_ack, on_text}
use roosterwake.Proto.Inbound.Quiet.{Quiet, BringsProof, on_text-Quiet}
use roosterwake.Proto.Auth.{ct_diff, ct_equal, verify_proof}
use roosterwake.Proto.Hex.{nibble, hex_decode, hex_pairs}
use roosterwake.Proto.Json.{
  Token, object, string, primitive, is_object, is_string, is_primitive, token_text, skip_inside,
  json_skip, json_eq, find_key, json_find, unescape, json_str, json_is_true,
}
use roosterwake.Proto.Relay.{Others, on_open}
use roosterwake.Proto.Relay.Replayed.{replayed_proof_ready}
use roosterwake.Proto.Session.{authenticating, idle, Session, Device, is_deprovisioned, on_close}
use roosterwake.Proto.Session.Backoff.{
  is_transient, all_transient, closes, closes-backoff_ms, on_close_retry_at,
}
use roosterwake.Wol.{wol_ok, no_result}
use roosterwake.Ws.Connection.{peer_closed, Link}
use roosterwake.Tests.Connection.{wire, unused}
use roosterwake.Tests.Samples.{codes, home}

-- jsmn's tokens of {"t":"..."}
abbrev tokens_of : Bytes → List Token
tokens_of text =
    record { type = object; start = 0; end = 12; size = 1 }
    ∷ record { type = string; start = 2; end = 3; size = 1 }
    ∷ record { type = string; start = 6; end = 10; size = 0 }
    ∷ []

abbrev board : Device (List Bytes)
board = record {
  sha256 = λ m. replicate 32 1;
  jsmn = tokens_of;
  net_ready = λ w. true;
  running_slot = 0;
  send_wake = λ mac n unicast w. ((wol_ok, no_result), w);
  wake_sent = λ w. w;
  probe_start = λ mac n w. (true, w);
  probe_cancel = λ w. w;
  probe_method = λ w. codes "arp";
  plug_cancel = λ w. w;
  ota_abort = λ w. w;
  confirm_image = λ w. w;
  save_config = λ cfg w. (true, w);
  reboot = λ w. w;
  rssi = λ w. (pos 0, w);
  uptime_s = λ w. 60;
  ip = λ w. codes "192.168.1.2";
  netmask = λ w. codes "255.255.255.0";
  reset_reason = λ w. codes "power";
}

abbrev others : Others (List Bytes)
others = record {
  other_command = λ js toks req_id l. l;
  run_other = λ l. l;
  binary_frame = λ l bytes. (false, l);
  probe_task = λ l. l;
  plug_task = λ l. l;
}

abbrev session : Session
session = record {
  state = authenticating;
  cfg = home;
  enabled = true;
  nonce_c = [];
  expected_proof_s = codes "00112233445566778899aabbccddeeff";
  backoff_ms = 1000;
  retry_at = 0;
  next_ping = 0;
  last_heard = 0;
  kind = idle;
  req_id = [];
  mac = [];
  repeat = 0;
  timeout_s = 0;
  probe_req_id = [];
  probe_owned = false;
  plug_owned = false;
  receiving = false;
  draining = false;
  enrolling = false;
  persist_pending = false;
  last_stuck = none;
  reboot_pending = false;
}

abbrev waiting : Link Session (List Bytes)
waiting = record { ws = unused; ctx = session; world = [] }

abbrev wake_text : Bytes
wake_text = codes "{\"t\":\"wake\"}"

on_text-Quiet_example :
    Quiet session (on_text wire board others.other_command waiting wake_text).ctx
    ⊎ BringsProof board session wake_text
unfolding is_ready
on_text-Quiet_example = on_text-Quiet wire board others.other_command waiting wake_text refl

closes-backoff_ms_example :
    (closes wire board ((peer_closed, 1006) ∷ (peer_closed, 1001) ∷ []) waiting).ctx.backoff_ms
    ≡ 4000
unfolding all_transient is_transient is_deprovisioned
closes-backoff_ms_example =
    closes-backoff_ms wire board waiting ((peer_closed, 1006) ∷ (peer_closed, 1001) ∷ []) refl
      (omega arith)

on_close_retry_at_example :
    (5 ≤ (on_close wire board waiting peer_closed 1006).ctx.retry_at)
    × ((on_close wire board waiting peer_closed 1006).ctx.retry_at < 5 + 1000)
unfolding is_transient is_deprovisioned
on_close_retry_at_example = on_close_retry_at wire board waiting peer_closed 1006 refl (omega arith)

abbrev ack_text : Bytes
ack_text = codes "{\"ok\":true,\"proof_s\":\"00112233445566778899aabbccddeeff\"}"

abbrev ack_tokens : List Token
ack_tokens =
    record { type = object; start = 0; end = 56; size = 2 }
    ∷ record { type = string; start = 2; end = 4; size = 1 }
    ∷ record { type = primitive; start = 6; end = 10; size = 0 }
    ∷ record { type = string; start = 12; end = 19; size = 1 }
    ∷ record { type = string; start = 22; end = 54; size = 0 }
    ∷ []

ack_ok : member_true ack_text ack_tokens (codes "ok") ≡ true
unfolding member_true member json_find find_key json_skip skip_inside json_eq json_is_true is_object
    is_string eq_bytes token_text slice is_primitive
ack_ok = refl

ack_proof : member_str ack_text ack_tokens (codes "proof_s") 33 ≡ some session.expected_proof_s
unfolding member_str member json_find find_key json_skip skip_inside json_eq is_object is_string
    is_primitive json_str unescape before eq_bytes token_text slice
ack_proof = refl

ack_verifies : verify_proof (some session.expected_proof_s) (some session.expected_proof_s) ≡ true
unfolding verify_proof hex_decode hex_pairs nibble ct_equal ct_diff
ack_verifies = refl

replayed_proof_ready_example :
    is_ready
      (handle_hello_ack wire board
        (on_open wire board (on_close wire board waiting peer_closed 1006))
        ack_text
        ack_tokens).ctx.state
    ≡ true
replayed_proof_ready_example =
    replayed_proof_ready wire board waiting peer_closed 1006 ack_text ack_tokens
      session.expected_proof_s ack_ok ack_proof ack_verifies
