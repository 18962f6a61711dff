-- ===== src/Usbcfg/Stage/Secret.antt =====
-- What the USB channel tells of the secrets, firmware/src/usbcfg/cmdline.c.
use roosterwake.Prelude.{ℕ, ◌≡◌, refl}
use roosterwake.Prelude.Bytes.{Bytes}
use roosterwake.Config.Record.{Config}
use roosterwake.Usbcfg.Stage.{is_set, config_json}

-- Two configurations that differ in the key of the network, in the token and in the owner's address alone, and agree on which of
-- these are set, give the same text in a buffer of any size.
pub config_json_keeps_secrets :
    (cfg : Config) (psk token owner_email : Bytes) (cap : ℕ)
    → is_set psk ≡ is_set cfg.psk
    → is_set token ≡ is_set cfg.token
    → is_set owner_email ≡ is_set cfg.owner_email
    → config_json (record cfg { psk = psk; token = token; owner_email = owner_email }) cap
      ≡ config_json cfg cap
unfolding config_json
config_json_keeps_secrets cfg psk token owner_email cap p t o = rw (p, t, o) refl
