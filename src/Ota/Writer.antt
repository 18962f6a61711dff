-- ===== src/Ota/Writer.antt =====
-- Streaming an image into the spare slot, firmware/src/ota/ota_write.c, with the payload digest of
-- firmware/src/ota/image.c. The SDK's flash calls and the SHA-256 of Mbed TLS are parameters; the flash is
-- addressed from the start of the device. `page` holds the `held` bytes that wait for a whole page.
pub mod Stream
use roosterwake.Prelude.{
  ℕ, zero, suc, ◌+◌, ◌-◌, ◌*◌, ◌/◌, ◌%◌, ◌^◌, Bool, true, false, not, ◌||◌, Option, none, some,
  List, [], ◌∷◌, ◌++◌, ltb, leb, ◌==◌, if◌then◌else◌, length, take, drop, replicate,
}
use roosterwake.Prelude.Bytes.{Bytes, eq_bytes}
use roosterwake.Ota.Image.{OtaStatus, ota_ok, err_length, err_board, err_digest, ImageHeader}

-- `rw_ota_digest_t`
pub record Digest (Sha : Type 0) : Type 0 where
  pub sha : Sha
  pub seen : ℕ

-- `writer_t`
pub record Writer (Sha : Type 0) : Type 0 where
  pub active : Bool
  pub slot : ℕ
  pub base : ℕ
  pub written : ℕ
  pub total : ℕ
  pub page : Bytes
  pub digest : Digest Sha
  pub expected : Bytes

module _ {Flash Sha : Type 0} (erase : Flash → ℕ → ℕ → Flash) (program : Flash → ℕ → Bytes → Flash)
    (read : Flash → ℕ → ℕ → Bytes) (sha_start : Sha) (sha_update : Sha → Bytes → Sha)
    (sha_finish : Sha → Option Bytes) where
  -- `rw_ota_digest_update`
  unfoldable pub digest_update : Digest Sha → Bytes → Digest Sha
  digest_update d bytes = record {
    sha = sha_update d.sha bytes;
    seen = (d.seen + length bytes) % 2 ^ 32;
  }

  -- `rw_ota_digest_finish`
  unfoldable pub digest_finish : Digest Sha → ℕ → Bytes → OtaStatus
  digest_finish d payload_len expected = elim (sha_finish d.sha) [
    | none ↦ err_digest
    | some got ↦
        if not (d.seen == payload_len)
        then err_length
        else if not (eq_bytes got expected)
        then err_digest
        else ota_ok
  ]

  -- `program_page`: the flash after it, and whether the page reads back.
  unfoldable pub program_page : Writer Sha → Flash → Bool × Flash
  program_page w f =
      let offset = w.base + (w.written - length w.page) in
      let f1 = program f offset w.page in (eq_bytes (read f1 offset 256) w.page, f1)

  -- `rw_ota_write_abort`
  unfoldable pub write_abort : Writer Sha → Writer Sha
  write_abort w = record w { active = false; page = [] }

  -- The erasing loop of `rw_ota_write_begin`, with the steps of 64 KB that may be left.
  unfoldable pub erase_span : ℕ → Flash → ℕ → ℕ → ℕ → Flash
  erase_span zero f base off span = f
  erase_span (suc n) f base off span =
      let size = if ltb 0x10000 (span - off) then 0x10000 else span - off in
      let rest = erase_span n (erase f (base + off) size) base (off + 0x10000) span in
      if ltb off span then rest else f

  -- `rw_ota_write_begin`; the slots' offsets and size and the running slot are the build's.
  unfoldable pub write_begin :
      (ℕ → ℕ) → ℕ → ℕ → Writer Sha → Flash → ImageHeader → ℕ → OtaStatus × Writer Sha × Flash
  write_begin slot_offset payload_max running w f header slot =
      let span = (header.payload_len + 4095) / 4096 * 4096 in
      if w.active
      then (err_length, w, f)
      else if ltb 1 slot || slot == running
      then (err_board, w, f)
      else if header.payload_len == 0 || ltb payload_max header.payload_len
      then (err_length, w, f)
      else (
        ota_ok,
        record {
          active = true;
          slot = slot;
          base = slot_offset slot;
          written = 0;
          total = header.payload_len;
          page = [];
          digest = record { sha = sha_start; seen = 0 };
          expected = header.payload_sha256;
        },
        erase_span span f (slot_offset slot) 0 span,
      )

  -- One round of the copying loop: as much as the page has room for.
  unfoldable pub fill : Writer Sha → Bytes → Writer Sha
  fill w bytes = record w {
    page = w.page ++ take (256 - length w.page) bytes;
    written = (w.written + length (take (256 - length w.page) bytes)) % 2 ^ 32;
  }

  -- The copying loop, with the rounds that may be left: each takes a byte at least.
  unfoldable pub copy_loop : ℕ → Writer Sha → Flash → Bytes → OtaStatus × Writer Sha × Flash
  copy_loop zero w f bytes = (ota_ok, w, f)
  copy_loop (suc n) w f [] = (ota_ok, w, f)
  copy_loop (suc n) w f (d ∷ ds) =
      let w1 = fill w (d ∷ ds) in
      let left = drop (256 - length w.page) (d ∷ ds) in
      let (took, f1) = program_page w1 f in
      let next = copy_loop n (record w1 { page = [] }) f1 left in
      let waiting = copy_loop n w1 f left in
      if not (length w1.page == 256)
      then waiting
      else if took
      then next
      else (err_digest, write_abort w1, f1)

  -- `rw_ota_write_chunk`
  unfoldable pub write_chunk : Writer Sha → Flash → Bytes → OtaStatus × Writer Sha × Flash
  write_chunk w f bytes =
      if not w.active
      then (err_length, w, f)
      else if ltb ((w.total + 2 ^ 32 - w.written) % 2 ^ 32) (length bytes)
      then (err_length, write_abort w, f)
      else copy_loop (length bytes) (record w { digest = digest_update w.digest bytes }) f bytes

  -- The last page, filled up with the erased value.
  unfoldable pub pad_page : Writer Sha → Writer Sha
  pad_page w = record w {
    page = w.page ++ replicate (256 - length w.page) 0xFF;
    written = w.written + (256 - length w.page);
  }

  -- The check of the digest, which ends the transfer.
  unfoldable pub settle : Writer Sha → Flash → OtaStatus × Writer Sha × Flash
  settle w f = (digest_finish w.digest w.total w.expected, record w { active = false }, f)

  -- `rw_ota_write_end`
  unfoldable pub write_end : Writer Sha → Flash → OtaStatus × Writer Sha × Flash
  write_end w f =
      let (took, f1) = program_page (pad_page w) f in
      if not w.active
      then (err_length, w, f)
      else if length w.page == 0
      then settle w f
      else if not took
      then (err_digest, write_abort w, f1)
      else settle (record w { page = [] }) f1
