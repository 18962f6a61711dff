-- ===== src/Config/Live.antt =====
-- What a running device does with a new configuration, the beginning of firmware/src/config/config.c. The flags
-- are a word of 32 bits; bit `k` of it is written as a quotient and a remainder.
use roosterwake.Prelude.{◌+◌, ◌-◌, ◌*◌, ◌/◌, ◌%◌, ◌^◌, ◌<◌, ◌≡◌, refl, Bool, not, ◌||◌, ◌==◌, arith}
use roosterwake.Prelude.Bytes.{eq_bytes}
use roosterwake.Config.Record.{Config}

-- `rw_config_needs_restart`; RW_CFG_FLAGS_BOOT_TIME is bit 0.
unfoldable pub needs_restart : Config → Config → Bool
needs_restart before after =
    not (eq_bytes before.ssid after.ssid)
    || not (eq_bytes before.psk after.psk)
    || not (before.wifi_auth == after.wifi_auth)
    || not (before.flags % 2 == after.flags % 2)
    || not (eq_bytes before.device_id after.device_id)

-- `rw_config_carry_runtime_flags`; RW_CFG_FLAGS_RUNTIME_OWNED is bit 3.
unfoldable pub carry_runtime_flags : Config → Config → Config
carry_runtime_flags next live = record next {
  flags = next.flags - next.flags / 2 ^ 3 % 2 * 2 ^ 3 + live.flags / 2 ^ 3 % 2 * 2 ^ 3;
}

-- Carrying the flags takes exactly the bit that the running device owns from it, leaves every other bit
-- and all else of the new configuration, and so never changes whether a restart is needed.
pub carry_runtime_flags_owned :
    (next live before : Config)
    → next.flags < 2 ^ 32
    → ((carry_runtime_flags next live).flags / 2 ^ 3 % 2 ≡ live.flags / 2 ^ 3 % 2)
      × ((carry_runtime_flags next live).flags % 2 ^ 3 ≡ next.flags % 2 ^ 3)
      × ((carry_runtime_flags next live).flags / 2 ^ 4 ≡ next.flags / 2 ^ 4)
      × ((carry_runtime_flags next live).flags < 2 ^ 32)
      × (needs_restart before (carry_runtime_flags next live) ≡ needs_restart before next)
unfolding carry_runtime_flags needs_restart
carry_runtime_flags_owned next live before h =
    let low : (next.flags - next.flags / 2 ^ 3 % 2 * 2 ^ 3 + live.flags / 2 ^ 3 % 2 * 2 ^ 3) % 2
        ≡ next.flags % 2 =
      omega arith in
    (omega arith, omega arith, omega arith, omega arith, rw low refl)
