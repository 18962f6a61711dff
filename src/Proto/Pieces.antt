-- ===== src/Proto/Pieces.antt =====
-- The frames to the relay, firmware/src/proto/proto.c: a frame is written by one call of the JSON writer for each
-- `Piece`.
use roosterwake.Prelude.{
  ℕ, ◌-◌, ◌^◌, ltb, Bool, true, false, ◌||◌, Option, none, some, List, [], ◌∷◌, ◌++◌, ◌==◌,
  if◌then◌else◌, length,
}
use roosterwake.Prelude.Bytes.{Bytes}
use roosterwake.Prelude.Decimal.{ℤ, pos, negsuc}
use roosterwake.Prelude.Text.{codes}
use roosterwake.Diag.Stuck.{Entry}
use roosterwake.Net.Url.{before}
use roosterwake.Proto.Json.{JsonWriter, jw_raw, jw_key, jw_str, jw_int}

-- RW_DEFAULT_RELAY_URL, RW_FW_VERSION, RW_BOARD_NAME of the Pico 2 W and RW_CAPS_JSON
abbrev pub default_relay_url : Bytes
default_relay_url = codes "wss://relay.roosterwake.com/ws"

abbrev pub fw_version : Bytes
fw_version = codes "2.6.1"

abbrev pub board_name : Bytes
board_name = codes "pico2_w"

abbrev pub caps_json : Bytes
caps_json = codes "[\"wake\",\"status\",\"probe\",\"scan\",\"ota\",\"plug\",\"plugfw\"]"

-- A call of the JSON writer
pub data Piece : Type 0 where
  raw key str : Bytes → Piece
  int : ℤ → Piece

unfoldable pub write_piece : JsonWriter → Piece → JsonWriter
write_piece w (raw text) = jw_raw w text
write_piece w (key text) = jw_key w text
write_piece w (str text) = jw_str w text
write_piece w (int n) = jw_int w n

unfoldable pub write_pieces : JsonWriter → List Piece → JsonWriter
write_pieces w [] = w
write_pieces w (p ∷ ps) = write_pieces (write_piece w p) ps

-- `relay_state_name_of`, of the state's number
unfoldable pub relay_state_name : ℕ → Bytes
relay_state_name n =
    if n == 1
    then codes "backoff"
    else if n == 2 || n == 3
    then codes "connecting"
    else if n == 4
    then codes "connected"
    else if n == 5 || n == 6
    then codes "auth_failed"
    else codes "idle"

-- The cast of a `uint32_t` to `long`, which has 32 bits too
unfoldable pub as_long : ℕ → ℤ
as_long n = if ltb n (2 ^ 31) then pos n else negsuc (2 ^ 32 - 1 - n)

-- The report of a stuck restart in `hello`; the text of `last_error` ends at its first NUL.
unfoldable pub stuck_pieces : Option Entry → List Piece
stuck_pieces none = []
stuck_pieces (some e) =
    raw (codes ",")
    ∷ key (codes "stuck")
    ∷ raw (codes "{")
    ∷ key (codes "relay")
    ∷ str (relay_state_name e.relay_state)
    ∷ raw (codes ",")
    ∷ key (codes "unlinked_s")
    ∷ int (as_long e.unlinked_for_s)
    ∷ raw (codes ",")
    ∷ key (codes "uptime_s")
    ∷ int (as_long e.uptime_s)
    ∷ raw (codes ",")
    ∷ key (codes "heap_free")
    ∷ int (as_long e.heap_free)
    ∷ raw (codes ",")
    ∷ key (codes "mem_err")
    ∷ int (as_long e.mem_err)
    ∷ ((if length (before (◌== 0) e.last_error) == 0
          then []
          else raw (codes ",") ∷ key (codes "err") ∷ str (before (◌== 0) e.last_error) ∷ [])
        ++ (raw (codes "}") ∷ []))

-- A frame with one member besides its type
unfoldable pub short_pieces : Bytes → Bytes → Bytes → List Piece
short_pieces type name value =
    raw (codes "{")
    ∷ key (codes "t")
    ∷ str type
    ∷ raw (codes ",")
    ∷ key name
    ∷ str value
    ∷ raw (codes "}")
    ∷ []

unfoldable pub truth : Bool → Bytes
truth true = codes "true"
truth false = codes "false"

-- The names of the interfaces, with commas between
unfoldable pub name_pieces : List Bytes → List Piece
name_pieces [] = []
name_pieces (n ∷ []) = str n ∷ []
name_pieces (n ∷ m ∷ ns) = str n ∷ raw (codes ",") ∷ name_pieces (m ∷ ns)

unfoldable pub err_pieces : Option Bytes → List Piece
err_pieces none = []
err_pieces (some err) = raw (codes ",") ∷ key (codes "err") ∷ str err ∷ []

unfoldable pub result_head : Bytes → Bytes → Bool → List Piece
result_head type req_id ok =
    raw (codes "{")
    ∷ key (codes "t")
    ∷ str type
    ∷ raw (codes ",")
    ∷ key (codes "req_id")
    ∷ str req_id
    ∷ raw (codes ",")
    ∷ key (codes "ok")
    ∷ raw (truth ok)
    ∷ []

-- `send_wake_result`, of the error where `ok` is false
unfoldable pub wake_pieces : Bytes → Option Bytes → ℕ → List Bytes → List Piece
wake_pieces req_id none sent ifaces =
    result_head (codes "wake_result") req_id true
    ++ (raw (codes ",")
        ∷ key (codes "sent")
        ∷ int (pos sent)
        ∷ raw (codes ",")
        ∷ key (codes "ifaces")
        ∷ raw (codes "[")
        ∷ (name_pieces ifaces ++ (raw (codes "]}") ∷ [])))
wake_pieces req_id (some err) sent ifaces =
    result_head (codes "wake_result") req_id false
    ++ err_pieces (some err)
    ++ (raw (codes ",")
        ∷ key (codes "sent")
        ∷ int (pos sent)
        ∷ raw (codes ",")
        ∷ key (codes "ifaces")
        ∷ raw (codes "[")
        ∷ (name_pieces ifaces ++ (raw (codes "]}") ∷ [])))

unfoldable pub probe_ok_pieces : Bytes → Bytes → ℕ → Bytes → List Piece
probe_ok_pieces req_id state elapsed_s method =
    result_head (codes "probe_result") req_id true
    ++ (raw (codes ",")
        ∷ key (codes "state")
        ∷ str state
        ∷ raw (codes ",")
        ∷ key (codes "elapsed_s")
        ∷ int (as_long elapsed_s)
        ∷ raw (codes ",")
        ∷ key (codes "method")
        ∷ str method
        ∷ raw (codes "}")
        ∷ [])

unfoldable pub refused_pieces : Bytes → Bytes → Bytes → List Piece
refused_pieces type req_id err =
    result_head type req_id false ++ err_pieces (some err) ++ (raw (codes "}") ∷ [])

unfoldable pub status_pieces : Bytes → ℤ → ℕ → Bytes → Bytes → Bytes → List Piece
status_pieces req_id rssi uptime_s ip netmask reason =
    raw (codes "{")
    ∷ key (codes "t")
    ∷ str (codes "status_result")
    ∷ raw (codes ",")
    ∷ key (codes "req_id")
    ∷ str req_id
    ∷ raw (codes ",")
    ∷ key (codes "rssi")
    ∷ int rssi
    ∷ raw (codes ",")
    ∷ key (codes "uptime_s")
    ∷ int (as_long uptime_s)
    ∷ raw (codes ",")
    ∷ key (codes "ip")
    ∷ str ip
    ∷ raw (codes ",")
    ∷ key (codes "netmask")
    ∷ str netmask
    ∷ raw (codes ",")
    ∷ key (codes "fw")
    ∷ str fw_version
    ∷ raw (codes ",")
    ∷ key (codes "reset_reason")
    ∷ str reason
    ∷ raw (codes "}")
    ∷ []
