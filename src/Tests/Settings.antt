-- ===== src/Tests/Settings.antt =====
-- New settings and the token.
use roosterwake.Prelude.{ℕ, ◌+◌, ◌<◌, ◌≡◌, ◌⊎◌, refl, true, false, some, length}
use roosterwake.Prelude.Bytes.{Bytes, eq_bytes}
use roosterwake.Proto.Hex.{hex_encode, hex_decode}
use roosterwake.Config.Record.{Config, init}
use roosterwake.Config.Live.{needs_restart}
use roosterwake.Config.Token.{ensure_token, Drawn, ensure_token_usable}
use roosterwake.Tests.Samples.{codes, home}

abbrev live : Config
live = record home { flags = 8 }

other_network : needs_restart home (record home { ssid = codes "office" }) ≡ true
unfolding needs_restart eq_bytes
other_network = refl

-- Random words that count up.
abbrev counting : ℕ → ℕ × ℕ
counting w = (w, w + 1)

ensure_token_usable_example :
    ((length init.token ≡ 0)
      × (raw : Bytes) × Drawn counting 8 5 raw (ensure_token counting init 5).2
      × (length raw ≡ 32)
      × ((ensure_token counting init 5).0 ≡ true)
      × (hex_decode (some (ensure_token counting init 5).1.token) 32 ≡ some raw)
      × (length (ensure_token counting init 5).1.token ≡ 64)
      × ((ensure_token counting init 5).1 ≡ record init { token = hex_encode raw }))
    ⊎ ((0 < length init.token) × (ensure_token counting init 5 ≡ (false, init, 5)))
ensure_token_usable_example = ensure_token_usable counting init 5
