-- ===== src/Tests/Storage.antt =====
-- Saving and resetting the stored configuration.
use roosterwake.Prelude.{◌≡◌, ◌⊎◌, refl, ap}
use roosterwake.Prelude.Bytes.{blit, slice, eq_bytes, le16, le32, bytes16, bytes32}
use roosterwake.Config.Crc.{crc32}
use roosterwake.Config.Record.{
  init, encode, decode, put_strings, put_str, put_header, fields, get_str, known_auth, seq_newer,
  choose, select, slot_a,
}
use roosterwake.Config.Flash.{
  a, Flash, ok, sector, load, save, write_and_verify, retry, target, new_seq, finish, erase_then,
  confirm_erased, erase_all, identity_of, wipe_or_keep, write_identity, factory_reset,
}
use roosterwake.Config.Flash.Attempt.{win, saved}
use roosterwake.Config.Flash.Save.{IsLive, save_keeps_live, load-save}
use roosterwake.Config.Flash.Reset.{load-factory_reset, after_reset}
use roosterwake.Tests.Samples.{home, home-IsConfig, good_flash, blank, codes}

first_save : (save good_flash home (0, blank)).0 ≡ ok
unfolding save load select choose decode target new_seq encode put_strings put_str blit put_header
    bytes16 bytes32 crc32 slice write_and_verify eq_bytes retry finish
first_save = refl

abbrev once : Flash
once = (save good_flash home (0, blank)).2.1

load-save_example :
    (load once ≡ (win a, saved home blank))
    × ((save good_flash home (0, blank)).1 ≡ saved home blank)
unfolding target load select choose decode
load-save_example = load-save good_flash home 0 blank home-IsConfig first_save

-- The first save went to slot A, which is then the live one.
once-IsLive : IsLive a once
once-IsLive = ap (λ r. r.0) load-save_example.0

save_keeps_live_example :
    (sector a (save good_flash home (1, once)).2.1 ≡ sector a once)
    × (((save good_flash home (1, once)).0 ≡ ok) ⊎ ((save good_flash home (1, once)).1 ≡ home))
save_keeps_live_example = save_keeps_live good_flash home 1 once a once-IsLive

reset_ok : (factory_reset good_flash (1, once)).0 ≡ ok
unfolding factory_reset save load select choose decode target new_seq encode put_strings put_str
    blit put_header bytes16 bytes32 crc32 slice write_and_verify eq_bytes retry finish fields
    get_str known_auth le16 le32 seq_newer erase_all erase_then confirm_erased wipe_or_keep
    write_identity identity_of
reset_ok = refl

load-factory_reset_example : load (factory_reset good_flash (1, once)).1.1 ≡ after_reset (load once)
load-factory_reset_example = load-factory_reset good_flash 1 once reset_ok

-- The identity survives and the network does not.
reset_keeps :
    after_reset (slot_a, home)
    ≡ (slot_a, record init { seq = 1; device_id = codes "rw-0123456789abc"; token = codes "0011" })
unfolding after_reset
reset_keeps = refl
