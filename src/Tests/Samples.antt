-- ===== src/Tests/Samples.antt =====
-- Sample data that the tests share.
pub use roosterwake.Prelude.Text.{codes}
use roosterwake.Prelude.{ℕ, ◌≡◌, refl, [], true, arith}
use roosterwake.Prelude.Bytes.{Bytes}
use roosterwake.Config.Record.{Config, init, known_auth}
use roosterwake.Config.Record.RoundTrip.{IsConfig}
use roosterwake.Config.Flash.{
  Slot, a, b, Flash, sector, other, Rc, pico_ok, Job, program, erase, Hardware,
}
use roosterwake.Ota.State.{State}

abbrev pub home : Config
home = record init {
  ssid = codes "home";
  psk = codes "secret pass";
  relay_url = codes "wss://relay.example/v1";
  device_id = codes "rw-0123456789abc";
  token = codes "0011";
  flags = 4;
}

pub home-IsConfig : IsConfig home
home-IsConfig = record {
  version = refl;
  seq = omega arith;
  flags = omega arith;
  auth = unfold known_auth in refl;
  ssid = omega arith;
  psk = omega arith;
  relay_url = omega arith;
  device_id = omega arith;
  token = omega arith;
  owner_email = tt;
}

abbrev pub store : Slot → Bytes → Flash → Flash
store a bytes fl = record fl { sector_a = bytes }
store b bytes fl = record fl { sector_b = bytes }

-- Flash that does what it is asked; an erased sector is left empty.
abbrev pub perform : ℕ → Slot → Job → Flash → Rc × Flash
perform n s (program bytes) fl = (pico_ok, store s bytes fl)
perform n s erase fl = (pico_ok, store s [] fl)

pub perform-other :
    (n : ℕ) (s : Slot) (j : Job) (fl : Flash)
    → sector (other s) (perform n s j fl).1 ≡ sector (other s) fl
perform-other n a (program bytes) fl = refl
perform-other n a erase fl = refl
perform-other n b (program bytes) fl = refl
perform-other n b erase fl = refl

abbrev pub good_flash : Hardware
good_flash = record { execute = perform; other_kept = perform-other }

abbrev pub blank : Flash
blank = record { sector_a = []; sector_b = [] }

abbrev pub running : State
running = record {
  seq = 0xFFFF_FFFF;
  active = 0;
  fallback = 1;
  trial = 0;
  confirmed = true;
  version = codes "1.4.0";
}
