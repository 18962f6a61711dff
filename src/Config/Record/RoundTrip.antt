-- ===== src/Config/Record/RoundTrip.antt =====
-- `decode` after `encode`.
use mathlib.Core.Option.{some-injective}
use roosterwake.Prelude.{
  ℕ, ◌+◌, ◌-◌, ◌^◌, ◌≤◌, ◌<◌, ◌≡◌, sym, ◌∙◌, ap, true, some, [], ◌∷◌, tail, ◌⊎◌, ◌↔◌, ==_iff, inl,
  inr, length, arith,
}
use roosterwake.Prelude.Bytes.{
  Bytes, byte_at, slice, bytes16, bytes32, byte_at-blit, length-blit, le16, le32, eq_bytes,
  eq_bytes_iff, slice_congr, le32-bytes32, le16-bytes16, slice_of,
}
use roosterwake.Config.Record.{Config, get_str, known_auth, fields, decode, encode, record_len}
use roosterwake.Prelude.Writes.{
  writes, over, length-writes, byte_at-writes, Only, brought, over_miss, over-Only, over_clear,
}
use roosterwake.Config.Record.Image.{
  str_at_holds, NoNul, body, header, Fits, image, encode-image, encode_inverse,
}
use roosterwake.Config.Crc.{crc32, crc32-lt}

-- A configuration that the rest of the program may hold: C strings, words of their widths, and a
-- known authentication mode.
pub record IsConfig (cfg : Config) : Type 0 where
  pub version : cfg.version ≡ 2
  pub seq : cfg.seq < 2 ^ 32
  pub flags : cfg.flags < 2 ^ 32
  pub auth : known_auth cfg.wifi_auth ≡ cfg.wifi_auth
  pub ssid : NoNul cfg.ssid
  pub psk : NoNul cfg.psk
  pub relay_url : NoNul cfg.relay_url
  pub device_id : NoNul cfg.device_id
  pub token : NoNul cfg.token
  pub owner_email : NoNul cfg.owner_email

-- A record that passes every check is read field by field.
pub decode_accepts :
    (rec : Bytes)
    → record_len ≤ length rec
    → slice rec 0 4 ≡ 0x52 ∷ 0x57 ∷ 0x43 ∷ 0x46 ∷ []
    → le16 rec 4 ≡ 2
    → le32 rec 12 ≡ 443
    → crc32 (slice rec 32 443) ≡ le32 rec 16
    → decode rec ≡ some (fields rec)
unfolding decode
decode_accepts rec h magic version len crc =
    ground (arith, (==_iff (crc32 (slice rec 32 443)) (le32 rec 16)).1 crc, magic_read)
  where
    magic_read : eq_bytes (slice rec 0 4) (0x52 ∷ 0x57 ∷ 0x43 ∷ 0x46 ∷ []) ≡ true
    magic_read = (eq_bytes_iff _ _).1 magic

module _ (cfg : Config) (out : Bytes) (long : record_len ≤ length out) (f : Fits cfg) where
  abbrev unsealed : Bytes
  unsealed = writes (header cfg.seq) (writes (body cfg) out)

  abbrev seal : ℕ
  seal = crc32 (slice unsealed 32 443)

  length-image : length (image cfg out) ≡ length out
  length-image =
      length-blit unsealed 16 (bytes32 seal)
      ∙ length-writes (header cfg.seq) (writes (body cfg) out)
      ∙ length-writes (body cfg) out

  length-unsealed : length unsealed ≡ length out
  length-unsealed =
      length-writes (header cfg.seq) (writes (body cfg) out) ∙ length-writes (body cfg) out

  -- The bytes behind the header are those that `body` wrote.
  byte_at-unsealed :
      (i : ℕ) → 32 ≤ i → i < 475 → byte_at unsealed i ≡ over (body cfg) i (byte_at out i)
  byte_at-unsealed i lo hi =
      byte_at-writes (header cfg.seq) (writes (body cfg) out) i
        (omega (arith, length-writes (body cfg) out))
      ∙ over_miss (header cfg.seq) i _ (unfold bytes16 bytes32 in omega arith)
      ∙ byte_at-writes (body cfg) out i (omega arith)

  byte_at-sealed :
      (i : ℕ) → (i < 16) ⊎ (20 ≤ i) → i < 475 → byte_at (image cfg out) i ≡ byte_at unsealed i
  unfolding bytes32
  byte_at-sealed i m hi = ground (arith, byte_at-blit unsealed 16 (bytes32 seal) i, length-unsealed)

  -- Place `i` of the payload, if write number `k` of the fields alone may touch it.
  byte_at-field :
      (k i : ℕ)
      → 32 ≤ i
      → i < 475
      → Only k (tail (body cfg)) i
      → byte_at (image cfg out) i ≡ brought k (tail (body cfg)) i
  byte_at-field k i lo hi only =
      byte_at-sealed i (inr (omega arith)) hi
      ∙ byte_at-unsealed i lo hi
      ∙ over_clear 475 (tail (body cfg)) i _ hi
      ∙ over-Only k (tail (body cfg)) i only

  -- Place `i` of the header, if write number `k` to the header alone may touch it.
  byte_at-header :
      (k i : ℕ)
      → i < 16
      → Only k (header cfg.seq) i
      → byte_at (image cfg out) i ≡ brought k (header cfg.seq) i
  byte_at-header k i hi only =
      byte_at-sealed i (inl hi) (omega arith)
      ∙ byte_at-writes (header cfg.seq) (writes (body cfg) out) i
          (omega (arith, length-writes (body cfg) out))
      ∙ ap (over (header cfg.seq) i) cleared
      ∙ over-Only k (header cfg.seq) i only
    where
      cleared : byte_at (writes (body cfg) out) i ≡ 0
      cleared =
          byte_at-writes (body cfg) out i (omega arith)
          ∙ over_clear 475 (tail (body cfg)) i _ (omega arith)
          ∙ over_miss (tail (body cfg)) i 0 (unfold bytes32 in omega arith)

  -- A field that holds a string and zeros gives the string back.
  get_str-field :
      (k off width : ℕ) (value : Bytes)
      → 0 < width
      → length value ≤ width - 1
      → off + width ≤ 443
      → NoNul value
      → ((j : ℕ)
          → j < width
          → Only k (tail (body cfg)) (32 + off + j)
            × (brought k (tail (body cfg)) (32 + off + j) ≡ byte_at value j))
      → get_str (image cfg out) off width ≡ value
  get_str-field k off width value hw hv fit w at =
      unfold get_str in
      str_at_holds (image cfg out) value (32 + off) (width - 1) hv w λ j lv lw.
        let (only, same) = at j (omega arith) in
        byte_at-field k (32 + off + j) (omega arith) (omega arith) only ∙ same

  crc-image : crc32 (slice (image cfg out) 32 443) ≡ le32 (image cfg out) 16
  crc-image =
      ap crc32 (
        slice_congr (image cfg out) unsealed 32 32 443
          (λ i h. byte_at-sealed (32 + i) (inr (omega arith)) (omega arith)))
      ∙ sym (
          le32-bytes32 (image cfg out) 16 seal (crc32-lt (slice unsealed 32 443)) (λ i h.
            unfold bytes32 in
            ground (arith, byte_at-blit unsealed 16 (bytes32 seal) (16 + i), length-unsealed)))

  magic-image : slice (image cfg out) 0 4 ≡ 0x52 ∷ 0x57 ∷ 0x43 ∷ 0x46 ∷ []
  magic-image = slice_of (image cfg out) (0x52 ∷ 0x57 ∷ 0x43 ∷ 0x46 ∷ []) 0 (λ i h.
      byte_at-header 0 (0 + i) (omega arith) (unfold bytes16 bytes32 in omega arith)
      ∙ ap (byte_at (0x52 ∷ 0x57 ∷ 0x43 ∷ 0x46 ∷ [])) (omega arith))

  version-image : le16 (image cfg out) 4 ≡ 2
  version-image = le16-bytes16 (image cfg out) 4 2 (omega arith) (λ i h.
      byte_at-header 1 (4 + i) (omega arith) (unfold bytes16 bytes32 in omega arith)
      ∙ ap (byte_at (bytes16 2)) (omega arith))

  seq-image : cfg.seq < 2 ^ 32 → le32 (image cfg out) 8 ≡ cfg.seq
  seq-image hs = le32-bytes32 (image cfg out) 8 cfg.seq hs (λ i h.
      byte_at-header 3 (8 + i) (omega arith) (unfold bytes16 bytes32 in omega arith)
      ∙ ap (byte_at (bytes32 cfg.seq)) (omega arith))

  len-image : le32 (image cfg out) 12 ≡ 443
  len-image = le32-bytes32 (image cfg out) 12 443 (omega arith) (λ i h.
      byte_at-header 4 (12 + i) (omega arith) (unfold bytes16 bytes32 in omega arith)
      ∙ ap (byte_at (bytes32 443)) (omega arith))

  flags-image : cfg.flags < 2 ^ 32 → le32 (image cfg out) 471 ≡ cfg.flags
  flags-image hf = le32-bytes32 (image cfg out) 471 cfg.flags hf (λ i h.
      byte_at-field 7 (471 + i) (omega arith) (omega arith)
        (unfold bytes32 in omega (arith, f.ssid))
      ∙ ap (byte_at (bytes32 cfg.flags)) (omega arith))

  ssid-image : NoNul cfg.ssid → get_str (image cfg out) 0 33 ≡ cfg.ssid
  ssid-image w = get_str-field 0 0 33 cfg.ssid (omega arith) f.ssid (omega arith) w (λ j h. (
    unfold bytes32 in
        omega (arith, f.ssid, f.psk, f.relay_url, f.device_id, f.token, f.owner_email),
    ap (byte_at cfg.ssid) (omega arith),
  ))

  psk-image : NoNul cfg.psk → get_str (image cfg out) 33 65 ≡ cfg.psk
  psk-image w = get_str-field 1 33 65 cfg.psk (omega arith) f.psk (omega arith) w (λ j h. (
    unfold bytes32 in
        omega (arith, f.ssid, f.psk, f.relay_url, f.device_id, f.token, f.owner_email),
    ap (byte_at cfg.psk) (omega arith),
  ))

  relay_url-image : NoNul cfg.relay_url → get_str (image cfg out) 99 129 ≡ cfg.relay_url
  relay_url-image w =
      get_str-field 2 99 129 cfg.relay_url (omega arith) f.relay_url (omega arith) w (λ j h. (
        unfold bytes32 in
            omega (arith, f.ssid, f.psk, f.relay_url, f.device_id, f.token, f.owner_email),
        ap (byte_at cfg.relay_url) (omega arith),
      ))

  device_id-image : NoNul cfg.device_id → get_str (image cfg out) 228 17 ≡ cfg.device_id
  device_id-image w =
      get_str-field 3 228 17 cfg.device_id (omega arith) f.device_id (omega arith) w (λ j h. (
        unfold bytes32 in
            omega (arith, f.ssid, f.psk, f.relay_url, f.device_id, f.token, f.owner_email),
        ap (byte_at cfg.device_id) (omega arith),
      ))

  token-image : NoNul cfg.token → get_str (image cfg out) 245 65 ≡ cfg.token
  token-image w = get_str-field 4 245 65 cfg.token (omega arith) f.token (omega arith) w (λ j h. (
    unfold bytes32 in
        omega (arith, f.ssid, f.psk, f.relay_url, f.device_id, f.token, f.owner_email),
    ap (byte_at cfg.token) (omega arith),
  ))

  owner_email-image : NoNul cfg.owner_email → get_str (image cfg out) 310 129 ≡ cfg.owner_email
  owner_email-image w =
      get_str-field 5 310 129 cfg.owner_email (omega arith) f.owner_email (omega arith) w (λ j h. (
        unfold bytes32 in
            omega (arith, f.ssid, f.psk, f.relay_url, f.device_id, f.token, f.owner_email),
        ap (byte_at cfg.owner_email) (omega arith),
      ))

  wifi_auth-image : byte_at (image cfg out) 130 ≡ cfg.wifi_auth
  wifi_auth-image = byte_at-field 6 130 (omega arith) (omega arith) (
      unfold bytes32 in
      omega (arith, f.ssid, f.psk, f.relay_url, f.device_id, f.token, f.owner_email))

  fields-image : IsConfig cfg → fields (image cfg out) ≡ cfg
  unfolding fields
  fields-image c =
      let auth = ap known_auth wifi_auth-image ∙ c.auth in
      λ i. record {
        version = (version-image ∙ sym c.version) i;
        seq = seq-image c.seq i;
        ssid = ssid-image c.ssid i;
        psk = psk-image c.psk i;
        wifi_auth = auth i;
        relay_url = relay_url-image c.relay_url i;
        device_id = device_id-image c.device_id i;
        token = token-image c.token i;
        owner_email = owner_email-image c.owner_email i;
        flags = flags-image c.flags i;
      }

  decode-image : IsConfig cfg → decode (image cfg out) ≡ some cfg
  decode-image c =
      decode_accepts (image cfg out) (omega (arith, length-image)) magic-image version-image
        len-image crc-image
      ∙ ap some (fields-image c)

-- What `encode` wrote is read back.
pub decode_encoded :
    (cfg : Config) (out : Bytes) {r : Bytes}
    → IsConfig cfg
    → encode cfg out ≡ some r
    → decode r ≡ some cfg
decode_encoded cfg out c e =
    let (f, long) = encode_inverse cfg out e in
    let same = encode-image cfg out long f in
    sym (ap decode (some-injective _ _ (sym same ∙ e))) ∙ decode-image cfg out long f c

-- A configuration of C strings that fit their fields, 32-bit words, the current version and a known
-- authentication mode is encoded into any buffer of a record's length, and decoding the result
-- gives the same configuration.
pub decode-encode_config :
    (cfg : Config) (out : Bytes)
    → IsConfig cfg
    → Fits cfg
    → record_len ≤ length out
    → (r : Bytes) × (encode cfg out ≡ some r) × (decode r ≡ some cfg)
decode-encode_config cfg out c f long =
    (image cfg out, encode-image cfg out long f, decode-image cfg out long f c)

-- `encode` succeeds exactly where the buffer takes a record and every string fits its field with
-- the terminator.
pub encode_iff :
    (cfg : Config) (out : Bytes)
    → ((r : Bytes) × (encode cfg out ≡ some r)) ↔ (Fits cfg × (record_len ≤ length out))
encode_iff cfg out =
    (λ (r, e). encode_inverse cfg out e, λ (f, long). (image cfg out, encode-image cfg out long f))
