-- ===== src/Tests/Updates.antt =====
-- The OTA state record.
use roosterwake.Prelude.{ℕ, ◌<◌, ◌≡◌, refl, some, none, replicate, arith, true, false}
use roosterwake.Prelude.Bytes.{Bytes}
use roosterwake.Ota.State.{
  State, default, encode, decode, on_boot, stage, boot_active, boot_reverted,
}
use roosterwake.Ota.State.Codec.{IsState, decode-encode_state}
use roosterwake.Ota.State.Trial.{
  boots, stage_reverts, IsValid, here, more, boot, stage_slot, Reach-IsValid,
}
use roosterwake.Tests.Samples.{codes, running}

abbrev staged : State
staged = record running { seq = 0; active = 1; fallback = 0; trial = 3; confirmed = false }

stage_next : stage running 1 (some (codes "1.4.0")) ≡ staged
unfolding stage
stage_next = refl

stage_reverts_example :
    ((n : ℕ)
      → n < 3
      → ((on_boot (boots n (stage running 1 none))).0.active ≡ 1)
        × ((on_boot (boots n (stage running 1 none))).1 ≡ true)
        × ((on_boot (boots n (stage running 1 none))).2 ≡ boot_active))
    × ((on_boot (boots 3 (stage running 1 none))).2 ≡ boot_reverted)
    × ((on_boot (boots 3 (stage running 1 none))).1 ≡ true)
    × ((on_boot (boots 3 (stage running 1 none))).0.active ≡ 0)
    × ((on_boot (boots 3 (stage running 1 none))).0.confirmed ≡ true)
stage_reverts_example = stage_reverts running 1 none (omega arith) (omega arith)

Reach-IsValid_example : IsValid (on_boot (stage (default none) 1 none)).0
Reach-IsValid_example = Reach-IsValid none (more (more here (stage_slot 1 none)) boot)

running-IsState : IsState running
running-IsState = record {
  seq = omega arith;
  active = omega arith;
  fallback = omega arith;
  trial = omega arith;
  version_fits = omega arith;
  version_text = omega arith;
}

staged-IsState : IsState staged
staged-IsState = record {
  seq = omega arith;
  active = omega arith;
  fallback = omega arith;
  trial = omega arith;
  version_fits = omega arith;
  version_text = omega arith;
}

abbrev sector_bytes : Bytes
sector_bytes = replicate 64 0xFF

abbrev Stored : State → Type 0
Stored s = (r : Bytes) × (encode s sector_bytes ≡ some r) × (decode r ≡ some s)

decode-encode_state_example :
    (r : Bytes) × (encode running sector_bytes ≡ some r) × (decode r ≡ some running)
decode-encode_state_example = decode-encode_state running sector_bytes running-IsState (omega arith)

then_staged : Stored staged
then_staged = decode-encode_state staged sector_bytes staged-IsState (omega arith)
