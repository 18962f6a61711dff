-- ===== src/Ota/Image/Verified.antt =====
-- What an image header that `rw_ota_header_open` accepts is known to be.
use roosterwake.Prelude.{
  ℕ, ◌-◌, ◌≤◌, ◌≡◌, refl, ap, ◌∙◌, Bool, true, Option, some, [], ◌∷◌, ◌++◌, length, drop, replicate,
  length-drop, All, arith,
}
use roosterwake.Prelude.Bytes.{Bytes, eq_bytes, eq_bytes_iff, length-slice, slice, le32}
use roosterwake.Ota.Image.{
  ota_ok, ImageHeader, ota_magic, board_tag, printable_prefix, all_nul, field_str, opened,
  verify_signature, signed, open_strings, header_open,
}

abbrev pub IsPrintable : ℕ → Type 0
IsPrintable c = (0x20 ≤ c) × (c ≤ 0x7E)

prefix_same :
    (c : ℕ) (cs : Bytes) (d : ℕ) (text : Bytes)
    → printable_prefix (c ∷ cs) ≡ some (d ∷ text)
    → (d ≡ c) × (printable_prefix cs ≡ some text)
unfolding printable_prefix
prefix_same c cs d text e = ground arith

prefix_cons :
    (c : ℕ) (cs : Bytes) (d : ℕ) (text : Bytes)
    → printable_prefix (c ∷ cs) ≡ some (d ∷ text)
    → IsPrintable d × (printable_prefix cs ≡ some text)
unfolding printable_prefix
prefix_cons c cs d text e = ground arith

printable_prefix-IsPrintable :
    (raw text : Bytes)
    → printable_prefix raw ≡ some text
    → All IsPrintable text × (length text ≤ length raw)
unfolding printable_prefix
printable_prefix-IsPrintable [] [] e = (tt, omega arith)
printable_prefix-IsPrintable [] (c ∷ cs) e = absurd (ground arith)
printable_prefix-IsPrintable (c ∷ cs) [] e = ground arith
printable_prefix-IsPrintable (c ∷ cs) (d ∷ text) e =
    let (printable, rest) = prefix_cons c cs d text e in
    let (shape, short) = printable_prefix-IsPrintable cs text rest in
    ((printable, shape), omega arith)

-- The whole field is the text and then NULs.
field_cases :
    (raw : Bytes) (width out_len : ℕ) (text : Bytes)
    → field_str raw width out_len ≡ some text
    → (printable_prefix raw ≡ some text)
      × (1 ≤ length text)
      × (all_nul (drop (length text) raw) ≡ true)
unfolding field_str
field_cases raw width out_len text e = ground arith

printable_prefix-append :
    (raw text : Bytes)
    → printable_prefix raw ≡ some text
    → (length text ≤ length raw) × (raw ≡ text ++ drop (length text) raw)
unfolding printable_prefix
printable_prefix-append [] [] e = (omega arith, refl)
printable_prefix-append [] (c ∷ cs) e = absurd (ground arith)
printable_prefix-append (c ∷ cs) [] e = (omega arith, refl)
printable_prefix-append (c ∷ cs) (d ∷ text) e =
    let (same, rest) = prefix_same c cs d text e in
    let (short, more) = printable_prefix-append cs text rest in
    (omega (arith, short), rw same (ap (c ∷◌) more))

all_nul-replicate : (xs : Bytes) → all_nul xs ≡ true → xs ≡ replicate (length xs) 0
unfolding all_nul
all_nul-replicate [] e = refl
all_nul-replicate (c ∷ cs) e =
    let zero_byte : c ≡ 0 = ground arith in
    let more : all_nul cs ≡ true = ground arith in
    rw zero_byte (ap (0 ∷◌) (all_nul-replicate cs more))

-- A field that is read is the text, filled up with zeros.
field_filled :
    (raw : Bytes) (width out_len : ℕ) (text : Bytes)
    → field_str raw width out_len ≡ some text
    → raw ≡ text ++ replicate (length raw - length text) 0
field_filled raw width out_len text e =
    let (prefix, some_text, nul) = field_cases raw width out_len text e in
    let (short, split) = printable_prefix-append raw text prefix in
    split
    ∙ ap (text ++◌) (
        all_nul-replicate (drop (length text) raw) nul
        ∙ ap (λ n. replicate n 0) (length-drop (length text) raw))

module _ (sha256 : Bytes → Option Bytes) (ecdsa_verify : Bytes → Bytes → Bytes → Bytes → Bool)
    (public_key : Bytes) where
  -- What holds of a header that is accepted.
  pub record IsVerified (rp2350 : Bool) (raw : Bytes) (max_payload : ℕ) (h : ImageHeader)
      : Type 0 where
    pub whole : 128 ≤ length raw
    pub magic : slice raw 0 4 ≡ ota_magic
    pub payload : (1 ≤ h.payload_len) × (h.payload_len ≤ max_payload)
    pub same_board : h.board ≡ board_tag rp2350
    pub board_read : slice raw 28 4 ≡ h.board ++ replicate (4 - length h.board) 0
    pub version_read : slice raw 12 16 ≡ h.version ++ replicate (16 - length h.version) 0
    pub version_text : All IsPrintable h.version × (1 ≤ length h.version) × (length h.version ≤ 16)
    pub digest_read : h.payload_sha256 ≡ slice raw 32 32
    pub length_read : h.payload_len ≡ le32 raw 8
    pub signature :
        (digest : Bytes) × (sha256 (slice raw 0 64) ≡ some digest)
        × (ecdsa_verify (0x04 ∷ public_key) digest (slice raw 64 32) (slice raw 96 32) ≡ true)

  verify_ok :
      (raw : Bytes)
      → verify_signature sha256 ecdsa_verify public_key raw ≡ ota_ok
      → (digest : Bytes) × (sha256 (slice raw 0 64) ≡ some digest)
        × (ecdsa_verify (0x04 ∷ public_key) digest (slice raw 64 32) (slice raw 96 32) ≡ true)
  unfolding verify_signature
  verify_ok raw e = ground arith

  header_ok :
      (rp2350 : Bool) (raw : Bytes) (max_payload : ℕ) (h : ImageHeader)
      → header_open sha256 ecdsa_verify public_key rp2350 (some raw) max_payload ≡ opened h
      → (128 ≤ length raw)
        × (eq_bytes (slice raw 0 4) ota_magic ≡ true)
        × (1 ≤ le32 raw 8)
        × (le32 raw 8 ≤ max_payload)
        × (open_strings sha256 ecdsa_verify public_key rp2350 raw ≡ opened h)
  unfolding header_open
  header_ok rp2350 raw max_payload h e = ground arith

  strings_ok :
      (rp2350 : Bool) (raw : Bytes) (h : ImageHeader)
      → open_strings sha256 ecdsa_verify public_key rp2350 raw ≡ opened h
      → (field_str (slice raw 12 16) 16 17 ≡ some h.version)
        × (field_str (slice raw 28 4) 4 5 ≡ some h.board)
        × (eq_bytes h.board (board_tag rp2350) ≡ true)
        × (h.payload_sha256 ≡ slice raw 32 32)
        × (h.payload_len ≡ le32 raw 8)
        × (verify_signature sha256 ecdsa_verify public_key raw ≡ ota_ok)
  unfolding open_strings signed
  strings_ok rp2350 raw h e = ground arith

  -- A header that `rw_ota_header_open` accepts is a whole header with the magic; its payload length
  -- that of bytes 8 to 11 and between 1 and the limit, its board is the running one and fills bytes 28 to 31 with its zeros, its version is 1 to
  -- 16 printable characters and fills bytes 12 to 27 with its zeros, its digest is bytes 32 to 63, and the ECDSA check passed on the SHA-256 of
  -- the first 64 bytes.
  pub header_open-IsVerified :
      (rp2350 : Bool) (raw : Bytes) (max_payload : ℕ) (h : ImageHeader)
      → header_open sha256 ecdsa_verify public_key rp2350 (some raw) max_payload ≡ opened h
      → IsVerified rp2350 raw max_payload h
  header_open-IsVerified rp2350 raw max_payload h e =
      let (whole, magic, low, high, opens) = header_ok rp2350 raw max_payload h e in
      let (text, tag, board, digest, size, check) = strings_ok rp2350 raw h opens in
      let (prefix, some_text, nul) = field_cases _ 16 17 _ text in
      let (printable, short) = printable_prefix-IsPrintable _ _ prefix in
      record {
        whole = whole;
        magic = (eq_bytes_iff _ _).0 magic;
        payload = (omega arith, omega arith);
        same_board = (eq_bytes_iff _ _).0 board;
        board_read =
            field_filled _ 4 5 _ tag
            ∙ ap (λ n. h.board ++ replicate (n - length h.board) 0) (length-slice raw 28 4);
        version_read =
            field_filled _ 16 17 _ text
            ∙ ap (λ n. h.version ++ replicate (n - length h.version) 0) (length-slice raw 12 16);
        version_text = (printable, some_text, omega (arith, length-slice raw 12 16));
        digest_read = digest;
        length_read = size;
        signature = verify_ok raw check;
      }
