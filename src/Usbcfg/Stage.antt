-- ===== src/Usbcfg/Stage.antt =====
-- Staging of a configuration over the USB channel, and what the channel says of one: firmware/src/usbcfg/cmdline.c.
-- A NULL string is `none`.
pub mod Committed
pub mod Secret
use roosterwake.Prelude.{
  ℕ, zero, suc, ◌+◌, ◌-◌, Bool, true, false, not, ◌&&◌, ◌||◌, List, Option, none, some, [], ◌∷◌,
  ◌++◌, ltb, leb, ◌==◌, if◌then◌else◌, length, drop,
}
use roosterwake.Prelude.Bytes.{Bytes}
use roosterwake.Prelude.Decimal.{ℤ, pos}
use roosterwake.Prelude.Text.{codes}
use roosterwake.Config.Record.{Config}
use roosterwake.Net.Url.{Url, before, url_parse, plaintext_permitted}
use roosterwake.Proto.Json.{jw_init, jw_finish}
use roosterwake.Proto.Pieces.{
  Piece, raw, key, str, int, as_long, write_pieces, truth, default_relay_url, fw_version,
  board_name,
}
use roosterwake.Usbcfg.Command.{Uerr, no_error, bad_arg, bad_frame, nothing_staged}
use roosterwake.Usbcfg.Utf8.{utf8_valid}

-- `rw_stage_t`
pub record Stage : Type 0 where
  pub cfg : Config
  pub dirty : Bool

-- `rw_stage_init`
unfoldable pub stage_init : Config → Stage
stage_init base = record { cfg = base; dirty = false }

-- `copy_field`: whether `src` fits.
unfoldable pub field_fits : ℕ → Bytes → Bool
field_fits dst_len src = leb (length src + 1) dst_len

abbrev staged : Config → Uerr × Stage
staged cfg = (no_error, record { cfg = cfg; dirty = true })

unfoldable pub is_empty : Option Bytes → Bool
is_empty none = true
is_empty (some s) = length s == 0

unfoldable pub text_of : Option Bytes → Bytes
text_of none = []
text_of (some s) = s

-- `rw_stage_set_wifi`
unfoldable pub stage_set_wifi : Stage → Option Bytes → Option Bytes → Uerr × Stage
stage_set_wifi stage ssid psk =
    let named : Config = record stage.cfg { ssid = text_of ssid } in
    if is_empty ssid
    then (bad_arg, stage)
    else if not (field_fits 33 (text_of ssid))
    then (bad_arg, stage)
    else if is_empty psk
    then staged (record named { psk = []; wifi_auth = 0 })
    else if not (field_fits 65 (text_of psk))
    then (bad_arg, record stage { cfg = named })
    else staged (record named { psk = text_of psk; wifi_auth = 255 })

-- `rw_stage_set_relay`
unfoldable pub stage_set_relay : Stage → Option Bytes → Uerr × Stage
stage_set_relay stage url = elim (url_parse url) [
  | none ↦ (bad_arg, stage)
  | some u ↦
      if is_empty url
      then (bad_arg, stage)
      else if not u.tls && not (plaintext_permitted (some u.host))
      then (bad_arg, stage)
      else if not (field_fits 129 (text_of url))
      then (bad_arg, stage)
      else staged (record stage.cfg { relay_url = text_of url })
]

-- What follows the first `c`, for `strchr`.
unfoldable pub behind : ℕ → Bytes → Option Bytes
behind c [] = none
behind c (x ∷ s) = let rest = behind c s in if x == c then some s else rest

-- The shape of an address: one `@`, neither first, and a dot in the domain that is neither first nor last.
unfoldable pub is_address : Bytes → Bool
is_address email = elim (behind b'@' email) [
  | none ↦ false
  | some domain ↦ elim (behind b'@' domain) [
    | some _ ↦ false
    | none ↦ elim (behind b'.' domain) [
      | none ↦ false
      | some rest ↦
          not (length (before (◌== b'@') email) == 0)
          && (not (length (before (◌== b'.') domain) == 0) && not (length rest == 0))
    ]
  ]
]

-- `rw_stage_set_email`
unfoldable pub stage_set_email : Stage → Option Bytes → Uerr × Stage
stage_set_email stage none = (bad_arg, stage)
stage_set_email stage (some email) =
    if not (utf8_valid email)
    then (bad_frame, stage)
    else if not (is_address email)
    then (bad_arg, stage)
    else if not (field_fits 129 email)
    then (bad_arg, stage)
    else staged (record stage.cfg { owner_email = email })

-- A character of a token, in lower case
unfoldable pub token_char : ℕ → Option ℕ
token_char c =
    if (leb b'0' c && leb c b'9') || (leb b'a' c && leb c b'f')
    then some c
    else if leb b'A' c && leb c b'F'
    then some (c - b'A' + b'a')
    else none

-- The loop of `rw_stage_set_token`
unfoldable pub normalised : Bytes → Option Bytes
normalised [] = some []
normalised (c ∷ s) = elim (token_char c) [
  | none ↦ none
  | some d ↦ elim (normalised s) [ none ↦ none | some rest ↦ some (d ∷ rest) ]
]

-- `rw_stage_set_token`
unfoldable pub stage_set_token : Stage → Option Bytes → Uerr × Stage
stage_set_token stage none = (bad_arg, stage)
stage_set_token stage (some token) = elim (normalised token) [
  | none ↦ (bad_arg, stage)
  | some text ↦
      if not (length token == 64)
      then (bad_arg, stage)
      else staged (record stage.cfg { token = text })
]

-- `rw_stage_validate`
unfoldable pub stage_validate : Stage → Uerr
stage_validate stage =
    if not stage.dirty
    then nothing_staged
    else if length stage.cfg.ssid == 0
    then bad_arg
    else no_error

-- `auth_name`
unfoldable pub auth_name : ℕ → Bytes
auth_name wifi_auth =
    if wifi_auth == 0
    then codes "open"
    else if wifi_auth == 1
    then codes "wpa2"
    else if wifi_auth == 2
    then codes "wpa3"
    else codes "auto"

-- `rw_info_view_t`
pub record InfoView : Type 0 where
  pub device_id : Bytes
  pub mac : Bytes
  pub reset_reason : Bytes
  pub uptime_s : ℕ
  pub configured : Bool

-- `rw_usbcfg_info_json`; RW_USBCFG_VERSION is 2.
unfoldable pub info_json : InfoView → ℕ → Option Bytes
info_json view cap = jw_finish (
    write_pieces (jw_init cap) (
      raw (codes "{")
      ∷ key (codes "proto")
      ∷ int (pos 2)
      ∷ raw (codes ",")
      ∷ key (codes "fw")
      ∷ str fw_version
      ∷ raw (codes ",")
      ∷ key (codes "board")
      ∷ str board_name
      ∷ raw (codes ",")
      ∷ key (codes "device_id")
      ∷ str view.device_id
      ∷ raw (codes ",")
      ∷ key (codes "mac")
      ∷ str view.mac
      ∷ raw (codes ",")
      ∷ key (codes "configured")
      ∷ raw (truth view.configured)
      ∷ raw (codes ",")
      ∷ key (codes "uptime_s")
      ∷ int (as_long view.uptime_s)
      ∷ raw (codes ",")
      ∷ key (codes "reset_reason")
      ∷ str view.reset_reason
      ∷ raw (codes "}")
      ∷ []))

unfoldable pub is_set : Bytes → Bool
is_set [] = false
is_set (_ ∷ _) = true

-- `rw_usbcfg_config_json`
unfoldable pub config_json : Config → ℕ → Option Bytes
config_json cfg cap = jw_finish (
    write_pieces (jw_init cap) (
      raw (codes "{")
      ∷ key (codes "ssid")
      ∷ str cfg.ssid
      ∷ raw (codes ",")
      ∷ key (codes "auth")
      ∷ str (auth_name cfg.wifi_auth)
      ∷ raw (codes ",")
      ∷ key (codes "psk_set")
      ∷ raw (truth (is_set cfg.psk))
      ∷ raw (codes ",")
      ∷ key (codes "relay")
      ∷ str (if is_set cfg.relay_url then cfg.relay_url else default_relay_url)
      ∷ raw (codes ",")
      ∷ key (codes "device_id")
      ∷ str cfg.device_id
      ∷ raw (codes ",")
      ∷ key (codes "token_set")
      ∷ raw (truth (is_set cfg.token))
      ∷ raw (codes ",")
      ∷ key (codes "email_set")
      ∷ raw (truth (is_set cfg.owner_email))
      ∷ raw (codes ",")
      ∷ key (codes "flags")
      ∷ int (as_long cfg.flags)
      ∷ raw (codes "}")
      ∷ []))
