-- ===== src/Ws/Handshake.antt =====
-- The opening handshake, firmware/src/ws/ws_handshake.c. SHA-1 and base64 are Mbed TLS's; base64 gives `none`
-- where it fails. The search for the end of the head, the comparison without case and the trimming are
-- those of Provisioning/Http, which http_req.c writes alike.
pub mod Upgraded
use roosterwake.Prelude.{
  ℕ, zero, suc, ◌+◌, Bool, true, false, not, ◌&&◌, ◌||◌, Option, none, some, [], ◌∷◌, ◌++◌, ltb,
  leb, ◌==◌, if◌then◌else◌, length, take, drop,
}
use roosterwake.Prelude.Bytes.{Bytes, eq_bytes}
use roosterwake.Prelude.Decimal.{decimal}
use roosterwake.Prelude.Text.{codes}
use roosterwake.Net.Url.{before, contains}
use roosterwake.Provisioning.Http.{starts_with_ci, skip_blanks, drop_blanks, find_end}

-- `k_ws_guid`
abbrev pub ws_guid : Bytes
ws_guid = codes "258EAFA5-E914-47DA-95CA-C5AB0DC85B11"

-- `rw_ws_key_encode`
unfoldable pub key_encode : (Bytes → Option Bytes) → Bytes → Bytes
key_encode base64 key = elim (base64 key) [ none ↦ [] | some text ↦ text ]

-- `rw_ws_compute_accept`
unfoldable pub compute_accept : (Bytes → Bytes) → (Bytes → Option Bytes) → Bytes → Bytes
compute_accept sha1 base64 key_b64 = elim (base64 (sha1 (take 24 key_b64 ++ ws_guid))) [
  | none ↦ []
  | some text ↦ text
]

abbrev crlf : Bytes
crlf = 13 ∷ 10 ∷ []

-- The host header's value
unfoldable pub host_header : Bytes → ℕ → Bool → Bytes
host_header host port tls =
    if port == (if tls then 443 else 80) then host else host ++ (58 ∷ decimal port)

-- The text of the request
unfoldable pub request_text : Bytes → Bytes → Bytes → Bytes → Bytes
request_text path host key_b64 subprotocol =
    codes "GET "
    ++ path
    ++ codes " HTTP/1.1"
    ++ crlf
    ++ codes "Host: "
    ++ host
    ++ crlf
    ++ codes "Upgrade: websocket"
    ++ crlf
    ++ codes "Connection: Upgrade"
    ++ crlf
    ++ codes "Sec-WebSocket-Key: "
    ++ key_b64
    ++ crlf
    ++ codes "Sec-WebSocket-Version: 13"
    ++ crlf
    ++ codes "Sec-WebSocket-Protocol: "
    ++ subprotocol
    ++ crlf
    ++ crlf

-- `rw_ws_build_request`: the request, or `none` for 0.
unfoldable pub build_request : ℕ → Bytes → ℕ → Bool → Bytes → Bytes → Bytes → Option Bytes
build_request out_len host port tls path key_b64 subprotocol =
    let header = host_header host port tls in
    let text = request_text path header key_b64 subprotocol in
    if leb 256 (length header) then none else if leb out_len (length text) then none else some text

-- `rw_ws_hs_result_t`, with `*consumed` where the upgrade is accepted
pub data Handshake : Type 0 where
  need_more : Handshake
  upgraded : ℕ → Handshake
  bad_status : Handshake
  bad_upgrade : Handshake
  bad_accept : Handshake
  no_subprotocol : Handshake
  response_too_large : Handshake

-- `saw_upgrade`, `saw_connection`, `saw_accept` and `saw_protocol`
pub record Seen : Type 0 where
  pub upgrade : Bool
  pub connection : Bool
  pub accept : Bool
  pub protocol : Bool

abbrev pub nothing_seen : Seen
nothing_seen = record { upgrade = false; connection = false; accept = false; protocol = false }

-- `ci_contains`, for a needle that is not empty
unfoldable pub ci_contains : Bytes → Bytes → Bool
ci_contains [] needle = false
ci_contains (c ∷ s) needle = starts_with_ci (c ∷ s) needle || ci_contains s needle

-- The bytes up to the next CRLF.
unfoldable pub line_of : Bytes → Bytes
line_of (x ∷ y ∷ rest) =
    let more = line_of (y ∷ rest) in if x == 13 && y == 10 then [] else x ∷ more
line_of _ = []

-- The value behind the colon, trimmed
unfoldable pub value_of : Bytes → Bytes
value_of line = drop_blanks (skip_blanks (drop (length (before (◌== 58) line) + 1) line))

-- A header's name and its length
unfoldable pub named : Bytes → Bytes → Bool
named line name =
    length (before (◌== 58) line) == length name && starts_with_ci (before (◌== 58) line) name

-- The body of the loop, on one line.
unfoldable pub see_line : Bytes → Bytes → Bytes → Seen → Seen
see_line expected_accept expected_protocol line seen =
    if not (contains 58 line)
    then seen
    else if named line (codes "upgrade")
    then record seen { upgrade = ci_contains (value_of line) (codes "websocket") }
    else if named line (codes "connection")
    then record seen { connection = ci_contains (value_of line) (codes "upgrade") }
    else if named line (codes "sec-websocket-accept")
    then record seen { accept = eq_bytes (value_of line) expected_accept }
    else if named line (codes "sec-websocket-protocol")
    then record seen { protocol = eq_bytes (value_of line) expected_protocol }
    else seen

-- The loop over the lines, from `p` to the end of the head. A round takes two bytes at least.
unfoldable pub see_lines : Bytes → Bytes → ℕ → Bytes → Seen → Seen
see_lines expected_accept expected_protocol zero p seen = seen
see_lines expected_accept expected_protocol (suc fuel) p seen =
    let line = line_of p in
    let rest =
      see_lines expected_accept expected_protocol fuel (drop (length line + 2) p)
        (see_line expected_accept expected_protocol line seen) in
    if length line == 0 then seen else rest

-- The answer once the head was read.
unfoldable pub judge : ℕ → Seen → Handshake
judge consumed seen =
    if not seen.upgrade || not seen.connection
    then bad_upgrade
    else if not seen.accept
    then bad_accept
    else if not seen.protocol
    then no_subprotocol
    else upgraded consumed

-- What follows the search for the end of the head.
unfoldable pub answer_head : Bytes → Bytes → Bytes → Handshake
answer_head expected_accept expected_protocol whole =
    if not (starts_with_ci whole (codes "HTTP/1.1 101"))
      && not (starts_with_ci whole (codes "HTTP/1.0 101"))
    then bad_status
    else judge (length whole)
        (see_lines expected_accept expected_protocol (length whole) whole nothing_seen)

-- `rw_ws_parse_response`; `*consumed` is given for an accepted upgrade alone, as its caller reads it there alone.
unfoldable pub parse_response : Bytes → Bytes → Bytes → Handshake
parse_response buf expected_accept expected_protocol = elim (find_end buf) [
  | none ↦ if leb 1024 (length buf) then response_too_large else need_more
  | some n ↦ answer_head expected_accept expected_protocol (take n buf)
]
