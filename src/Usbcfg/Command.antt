-- ===== src/Usbcfg/Command.antt =====
-- The commands and the error codes of the USB channel, firmware/src/usbcfg/cmdline.c.
use roosterwake.Prelude.{
  ℕ, ◌+◌, ◌-◌, Bool, true, false, ◌&&◌, List, Option, none, some, [], ◌∷◌, leb, ◌==◌, if◌then◌else◌,
  length,
}
use roosterwake.Prelude.Bytes.{Bytes}
use roosterwake.Prelude.Text.{codes}

-- `rw_uerr_t`
pub data Uerr : Type 0 where
  no_error unknown_cmd bad_args bad_arg bad_frame too_long nothing_staged needs_confirm not_joined
        busy flash_error scan_failed scan_incomplete internal :
      Uerr

-- `rw_cmd_id_t`
pub data Command : Type 0 where
  no_command unknown info scan lan_scan set_wifi set_relay set_email set_token get_config commit
        status wifi_trace ota_state ota_stage ota_selftest flash_bench test_wake factory_reset
        reboot bootsel :
      Command

-- `rw_uerr_code`
unfoldable pub uerr_code : Uerr → Bytes
uerr_code no_error = codes "ok"
uerr_code unknown_cmd = codes "unknown_cmd"
uerr_code bad_args = codes "bad_args"
uerr_code bad_arg = codes "bad_arg"
uerr_code bad_frame = codes "bad_frame"
uerr_code too_long = codes "too_long"
uerr_code nothing_staged = codes "nothing_staged"
uerr_code needs_confirm = codes "needs_confirm"
uerr_code not_joined = codes "not_joined"
uerr_code busy = codes "busy"
uerr_code flash_error = codes "flash_error"
uerr_code scan_failed = codes "scan_failed"
uerr_code scan_incomplete = codes "scan_incomplete"
uerr_code internal = codes "internal"

-- `rw_uerr_message`
unfoldable pub uerr_message : Uerr → Bytes
uerr_message no_error = codes "ok"
uerr_message unknown_cmd = codes "command not recognised"
uerr_message bad_args = codes "wrong number of arguments"
uerr_message bad_arg = codes "an argument failed validation"
uerr_message bad_frame = codes "malformed quoting or invalid UTF-8"
uerr_message too_long = codes "line exceeded 512 bytes"
uerr_message nothing_staged = codes "no pending changes to commit"
uerr_message needs_confirm = codes "repeat with the CONFIRM argument"
uerr_message not_joined = codes "wi-fi is not connected"
uerr_message busy = codes "a conflicting operation is already running"
uerr_message flash_error = codes "flash write failed; configuration unchanged"
uerr_message scan_failed = codes "the radio would not start a scan; try again"
uerr_message scan_incomplete =
    codes "the scan ran out of time, usually because the radio was joining; try again"
uerr_message internal = codes "internal error"

-- `k_commands`
abbrev pub commands : List (Command × Bytes)
commands =
    (info, codes "INFO")
    ∷ (scan, codes "SCAN")
    ∷ (lan_scan, codes "LAN_SCAN")
    ∷ (set_wifi, codes "SET_WIFI")
    ∷ (set_relay, codes "SET_RELAY")
    ∷ (set_email, codes "SET_EMAIL")
    ∷ (set_token, codes "SET_TOKEN")
    ∷ (get_config, codes "GET_CONFIG")
    ∷ (commit, codes "COMMIT")
    ∷ (status, codes "STATUS")
    ∷ (wifi_trace, codes "WIFI_TRACE")
    ∷ (ota_state, codes "OTA_STATE")
    ∷ (ota_stage, codes "OTA_STAGE")
    ∷ (ota_selftest, codes "OTA_SELFTEST")
    ∷ (flash_bench, codes "FLASH_BENCH")
    ∷ (test_wake, codes "TEST_WAKE")
    ∷ (factory_reset, codes "FACTORY_RESET")
    ∷ (reboot, codes "REBOOT")
    ∷ (bootsel, codes "BOOTSEL")
    ∷ []

-- `ascii_upper`
unfoldable pub ascii_upper : ℕ → ℕ
ascii_upper c = if leb b'a' c && leb c b'z' then c - b'a' + b'A' else c

-- `iequal`
unfoldable pub iequal : Bytes → Bytes → Bool
iequal [] [] = true
iequal (a ∷ xs) (b ∷ ys) = ascii_upper a == ascii_upper b && iequal xs ys
iequal _ _ = false

-- The loop of `rw_cmd_lookup`
unfoldable pub lookup_among : List (Command × Bytes) → Bytes → Command
lookup_among [] word = unknown
lookup_among (entry ∷ table) word =
    let rest = lookup_among table word in if iequal word entry.1 then entry.0 else rest

-- `rw_cmd_lookup`
unfoldable pub cmd_lookup : Option Bytes → Command
cmd_lookup none = no_command
cmd_lookup (some word) = if length word == 0 then no_command else lookup_among commands word
