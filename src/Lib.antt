-- ===== src/Lib.antt =====
-- Rooster Wake: the logic of the dongle's firmware (firmware/src), a Wake-on-LAN emitter that holds
-- an outbound connection to a relay.
--
-- Parts, the files that model them, and how they meet:
--
-- - Config (firmware/src/config): the configuration record of config.c is Config/Record
--   (`encode`, `decode`, `select` are rw_config_encode, rw_config_decode, rw_config_select), its
--   CRC is Config/Crc (rw_crc32), what a running device carries over is Config/Live, its token is
--   Config/Token (`ensure_token`), MAC addresses are Config/Mac, and the dual-slot storage of
--   config_flash.c is Config/Flash (`save`, `erase_all`, `factory_reset`).
-- - Ota (firmware/src/ota): the boot record of state.c is Ota/State: its codec, the loader's
--   `on_boot` and the application's `stage` and `confirm`. It shares the CRC of Config. The signed
--   header of image.c is Ota/Image (`header_open` is rw_ota_header_open), and the writer of
--   ota_write.c is Ota/Writer (`write_begin`, `write_chunk`, `write_end`).
--   The application's half, ota.c and ota_flash.c, is Ota/Running: it keeps the record of Ota/State
--   in two sectors (`flash_save`, `stage_slot`, `confirm_running`).
-- - Ws (firmware/src/ws): the frame codec of ws_frame.c is Ws/Frame (`parse_header`, `build_frame`,
--   `build_close`), and ws_handshake.c is Ws/Handshake (`build_request`, `parse_response`). ws.c is
--   Ws/Connection (its state `Conn`, and what the application calls: `send_text`, `close`, `abort`,
--   `ws_task`) and Ws/Receive (`ws_connect`, and lwIP's callbacks `on_recv`, `on_connected`, `on_err`,
--   `on_poll`, `dns_done`). A `Link` is a connection with the context of its callbacks and a world.
--   Ws/Receive/Reached makes a step relation of what can happen to a connection.
-- - Diag (firmware/src/diag): the detector of stuck.c is Diag/Stuck (`step` is rw_stuck_step; `seal`
--   and `valid` are the record's). Diag/Stuck/History speaks of the calls so far.
-- - Net (firmware/src/net): url.c is Net/Url (`url_parse`, `plaintext_permitted`).
-- - Wol (firmware/src/wol): magic.c and wol.c are Wol (`build_magic`, `wol_send`).
-- - Proto (firmware/src/proto): the hexadecimal codec of auth.c is Proto/Hex, its proofs are Proto/Auth
--   (`auth_proof`, `verify_proof`), and json.c is Proto/Json (`jw_str` is rw_jw_str, `json_str` is
--   rw_json_str). A configuration's token is made with the codec of Proto/Hex. The relay session of
--   proto.c is Proto/Session (the state and the frames that are sent; a frame is a list of calls of the
--   JSON writer, Proto/Pieces), Proto/Inbound (`on_text` and its handlers) and Proto/Relay (`relay_task`, `on_open`,
--   `run_pending`). Its `callbacks` are those of Ws/Connection: a context of a `Link` is its `Session`.
--   The host list of scan_json.c is Proto/Scan (`scan_json_hosts`).
-- - Led (firmware/src/led): led.c is Led (`led_set`, `led_wake_sent`, `led_task`).
-- - Provisioning (firmware/src/provisioning): dns_msg.c, dhcp_msg.c and http_req.c are
--   Provisioning/Dns, Provisioning/Dhcp and Provisioning/Http (`parse_query`, `build_response`,
--   `dhcp_parse`, `build_reply`, `http_parse`).
-- - Usbcfg (firmware/src/usbcfg): cmdline.c. Its UTF-8 check is Usbcfg/Utf8 (`utf8_valid`), the tables are
--   Usbcfg/Command, the tokeniser is Usbcfg/Cmdline (`cmdline_parse`), and staging and the answers are
--   Usbcfg/Stage (`stage_set_wifi`, `config_json`). A staged configuration is one of Config/Record.
--
-- A byte buffer is a list of numbers, read by `byte_at` and written by `blit` (Prelude/Bytes); a
-- word of w bits is a number with its wrap-around written out; `long` has 32 bits. A `char` array is the string up to
-- its first NUL. State is passed explicitly: an operation returns the new state and its result.
-- Loops are recursion on the list or on the rounds left. The writer's copying loop is given as many
-- rounds as the chunk has bytes, and its erasing loop as many as the span has: a round takes a byte at
-- least. So are the walks over a DNS name, DHCP options, an escaped path, HTTP headers, UTF-8 text and
-- an escaped JSON string: as many rounds as the text has bytes, of which each takes at least one. The
-- loop of `on_recv` is given a round for each byte received, and `pump_frames` one for each byte in the
-- buffer: a frame has two bytes at least.
--
-- Third-party code is a parameter. The SDK's flash calls are the record `Hardware`, with one law: a
-- call touches the sector it names and no other. The image writer's flash has the law
-- IsFlash: a page leaves what lies before it. The two sectors of the boot record have the
-- law IsSectors: writing one leaves the other. SHA-256 gives 32 bytes (IsSha) where a proof's length
-- matters. The tokens of jsmn are given with the text, the time with each call of the LED, and random
-- numbers are drawn from a world that is passed on. SHA-256 elsewhere, the ECDSA check,
-- SHA-1 and base64 of Mbed TLS, and the
-- calls of lwIP by Wol, are functions of which nothing is assumed. lwIP, the clock and the random
-- numbers of the connection are the record `Stack`, and what the session asks of the other parts is the
-- record `Device`; nothing is assumed of either. The commands for plugs, the running of a scan and the
-- frames of an update are the record `Others`; a theorem that needs something of them says it.
--
-- Not modelled: log output, the watchdog and interrupt control, which have no result that the
-- modelled code reads; the log's own frames to the relay; the dispatch of USB commands; the servers and the drivers.
pub mod Prelude
pub mod Config
pub mod Ota
pub mod Ws
pub mod Diag
pub mod Net
pub mod Wol
pub mod Proto
pub mod Led
pub mod Provisioning
pub mod Usbcfg
pub mod Tests
