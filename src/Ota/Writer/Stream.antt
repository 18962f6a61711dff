-- ===== src/Ota/Writer/Stream.antt =====
-- What the flash holds while an image streams in.
use roosterwake.Prelude.{
  ℕ, zero, suc, ◌+◌, ◌-◌, ◌%◌, ◌^◌, ◌≤◌, ◌<◌, ◌≡◌, ◌≢◌, refl, sym, ap, ◌∙◌, ◌⊎◌, inl, inr, Bool,
  true, Option, [], ◌∷◌, ◌++◌, length, length-append, append_assoc, append_nil, take, drop,
  length-take, length-drop, take-append-drop, arith,
}
use roosterwake.Prelude.Bytes.{Bytes, eq_bytes_iff}
use roosterwake.Ota.Image.{OtaStatus, ota_ok}
use roosterwake.Ota.Writer.{Writer, program_page, fill, copy_loop, write_chunk, digest_update}

module _ {Flash : Type 0} (program : Flash → ℕ → Bytes → Flash) (read : Flash → ℕ → ℕ → Bytes) where
  -- What the SDK documents of the flash: programming a page leaves what lies before it, and a region
  -- reads as its two parts.
  pub record IsFlash : Type 0 where
    pub read_before :
        (f : Flash) (off : ℕ) (page : Bytes) (a n : ℕ)
        → a + n ≤ off
        → read (program f off page) a n ≡ read f a n
    pub read_parts : (f : Flash) (a m n : ℕ) → read f a (m + n) ≡ read f a m ++ read f (a + m) n

module _ {Flash Sha : Type 0} (erase : Flash → ℕ → ℕ → Flash) (program : Flash → ℕ → Bytes → Flash)
    (read : Flash → ℕ → ℕ → Bytes) (sha_start : Sha) (sha_update : Sha → Bytes → Sha)
    (sha_finish : Sha → Option Bytes) where
  abbrev filled : Writer Sha → Bytes → Writer Sha
  filled = fill erase program read sha_start sha_update sha_finish

  abbrev programmed : Writer Sha → Flash → Bool × Flash
  programmed = program_page erase program read sha_start sha_update sha_finish

  abbrev copied : ℕ → Writer Sha → Flash → Bytes → OtaStatus × Writer Sha × Flash
  copied = copy_loop erase program read sha_start sha_update sha_finish

  -- The bytes accepted so far are what the flash holds from the slot's start on, and then the page.
  pub record Holds (f : Flash) (w : Writer Sha) (stream : Bytes) : Type 0 where
    pub stored : read f w.base (w.written - length w.page) ++ w.page ≡ stream
    pub counted : w.written ≡ length stream
    pub paged : length w.page ≤ w.written

  fill-Holds :
      (f : Flash) (w : Writer Sha) (stream bytes : Bytes)
      → Holds f w stream
      → length stream + length bytes < 2 ^ 32
      → Holds f (filled w bytes) (stream ++ take (256 - length w.page) bytes)
  unfolding fill
  fill-Holds f w stream bytes h room =
      let t = take (256 - length w.page) bytes in
      let fits : length t ≤ length bytes = omega (arith, length-take (256 - length w.page) bytes) in
      let grown = length-append w.page t in
      let longer = length-append stream t in
      let known = h.counted in
      let before = h.paged in
      let sum : (w.written + length t) % 2 ^ 32 ≡ w.written + length t = omega arith in
      let same : (w.written + length t) % 2 ^ 32 - length (w.page ++ t)
          ≡ w.written - length w.page =
        omega arith in
      record {
        stored =
            ap (λ n. read f w.base n ++ (w.page ++ t)) same
            ∙ sym (append_assoc (read f w.base (w.written - length w.page)) w.page t)
            ∙ ap (◌++ t) h.stored;
        counted = omega arith;
        paged = omega arith;
      }

  program-Holds :
      (f : Flash) (w : Writer Sha) (stream : Bytes)
      → IsFlash program read
      → Holds f w stream
      → length w.page ≡ 256
      → (programmed w f).0 ≡ true
      → Holds (programmed w f).1 (record w { page = [] }) stream
  unfolding program_page
  program-Holds f w stream law h whole took =
      let off = w.written - length w.page in
      let f1 = program f (w.base + off) w.page in
      let known = h.paged in
      let all : w.written - 0 ≡ off + 256 = omega arith in
      let back : read f1 (w.base + off) 256 ≡ w.page = (eq_bytes_iff _ _).0 took in
      record {
        stored =
            append_nil _
            ∙ ap (read f1 w.base) all
            ∙ law.read_parts f1 w.base off 256
            ∙ ap (◌++ read f1 (w.base + off) 256)
                (law.read_before f (w.base + off) w.page w.base off (omega arith))
            ∙ ap (read f w.base off ++◌) back
            ∙ h.stored;
        counted = h.counted;
        paged = omega arith;
      }

  copy_step :
      (n : ℕ) (w : Writer Sha) (f : Flash) (d : ℕ) (ds : Bytes)
      → (copied (suc n) w f (d ∷ ds)).0 ≡ ota_ok
      → ((length (filled w (d ∷ ds)).page ≡ 256)
          × ((programmed (filled w (d ∷ ds)) f).0 ≡ true)
          × (copied (suc n) w f (d ∷ ds)
              ≡ copied n
                  (record (filled w (d ∷ ds)) { page = [] })
                  (programmed (filled w (d ∷ ds)) f).1
                  (drop (256 - length w.page) (d ∷ ds))))
        ⊎ ((length (filled w (d ∷ ds)).page ≢ 256)
            × (copied (suc n) w f (d ∷ ds)
                ≡ copied n (filled w (d ∷ ds)) f (drop (256 - length w.page) (d ∷ ds))))
  unfolding copy_loop
  copy_step n w f d ds e = ground arith

  filled_size :
      (w : Writer Sha) (bytes : Bytes)
      → length w.page < 256
      → (length (filled w bytes).page ≤ 256)
        × (length (drop (256 - length w.page) bytes) ≤ length bytes - 1)
        × (length (take (256 - length w.page) bytes) + length (drop (256 - length w.page) bytes)
            ≡ length bytes)
  unfolding fill
  filled_size w bytes h = omega (
    arith,
    length-append w.page (take (256 - length w.page) bytes),
    length-take (256 - length w.page) bytes,
    length-drop (256 - length w.page) bytes,
  )

  -- What a run of the copying loop leaves.
  pub record Continues (stream : Bytes) (r : OtaStatus × Writer Sha × Flash) : Type 0 where
    pub holds : Holds r.2 r.1 stream
    pub page_open : length r.1.page < 256

  nothing_left : (n : ℕ) (w : Writer Sha) (f : Flash) → copied n w f [] ≡ (ota_ok, w, f)
  unfolding copy_loop
  nothing_left zero w f = refl
  nothing_left (suc n) w f = refl

  copy-Holds :
      (n : ℕ) (w : Writer Sha) (f : Flash) (bytes stream : Bytes)
      → IsFlash program read
      → length bytes ≤ n
      → length w.page < 256
      → Holds f w stream
      → length stream + length bytes < 2 ^ 32
      → (copied n w f bytes).0 ≡ ota_ok
      → Continues (stream ++ bytes) (copied n w f bytes)
  copy-Holds zero w f [] stream law l p h room e =
      rw (nothing_left zero w f) (record { holds = rw (append_nil stream) h; page_open = p })
  copy-Holds zero w f (d ∷ ds) stream law l p h room e = absurd (omega arith)
  copy-Holds (suc n) w f [] stream law l p h room e =
      rw (nothing_left (suc n) w f) (record { holds = rw (append_nil stream) h; page_open = p })
  copy-Holds (suc n) w f (d ∷ ds) stream law l p h room e =
      let (page, less, parts) = filled_size w (d ∷ ds) p in
      let t = take (256 - length w.page) (d ∷ ds) in
      let left = drop (256 - length w.page) (d ∷ ds) in
      let next = fill-Holds f w stream (d ∷ ds) h room in
      let longer = length-append stream t in
      let whole : (stream ++ t) ++ left ≡ stream ++ (d ∷ ds) =
        append_assoc stream t left
        ∙ ap (stream ++◌) (take-append-drop (256 - length w.page) (d ∷ ds)) in
      elim (copy_step n w f d ds e) [
        | inl (full, took, same) ↦
            rw (same, sym whole)
              (copy-Holds n _ _ left (stream ++ t) law (omega arith) (omega arith)
                (program-Holds f (filled w (d ∷ ds)) (stream ++ t) law next full took) (omega arith)
                (ap (λ r. r.0) (sym same) ∙ e))
        | inr (open_page, same) ↦
            rw (same, sym whole)
              (copy-Holds n _ f left (stream ++ t) law (omega arith) (omega arith) next
                (omega arith) (ap (λ r. r.0) (sym same) ∙ e))
      ]

  abbrev chunk : Writer Sha → Flash → Bytes → OtaStatus × Writer Sha × Flash
  chunk = write_chunk erase program read sha_start sha_update sha_finish

  abbrev hashed : Writer Sha → Bytes → Writer Sha
  hashed w bytes = record w {
    digest = digest_update erase program read sha_start sha_update sha_finish w.digest bytes;
  }

  chunk_step :
      (w : Writer Sha) (f : Flash) (bytes : Bytes)
      → (chunk w f bytes).0 ≡ ota_ok
      → (length bytes ≤ (w.total + 2 ^ 32 - w.written) % 2 ^ 32)
        × (chunk w f bytes ≡ copied (length bytes) (hashed w bytes) f bytes)
  unfolding write_chunk
  chunk_step w f bytes e = ground arith

  -- Where the flash and the page hold what was accepted so far, and fewer than 256 bytes wait, a chunk
  -- that `rw_ota_write_chunk` accepts leaves them holding that and the chunk, with fewer than 256
  -- bytes waiting again.
  pub write_chunk-Continues :
      (w : Writer Sha) (f : Flash) (bytes stream : Bytes)
      → IsFlash program read
      → Holds f w stream
      → length w.page < 256
      → w.written ≤ w.total
      → w.total < 2 ^ 32
      → (chunk w f bytes).0 ≡ ota_ok
      → Continues (stream ++ bytes) (chunk w f bytes)
  write_chunk-Continues w f bytes stream law h p within word e =
      let (fits, same) = chunk_step w f bytes e in
      let known = h.counted in
      let hashed_holds : Holds f (hashed w bytes) stream = record {
        stored = h.stored;
        counted = h.counted;
        paged = h.paged;
      } in
      rw same (
        copy-Holds (length bytes) (hashed w bytes) f bytes stream law (omega arith) p hashed_holds
          (omega arith) (ap (λ r. r.0) (sym same) ∙ e))
