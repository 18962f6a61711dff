-- ===== src/Config/Record/Image.antt =====
-- What a record holds at each place, after the writes of `encode`.
use roosterwake.Prelude.{
  ℕ, zero, suc, ◌+◌, ◌-◌, ◌≤◌, ◌<◌, ◌≡◌, refl, ◌∙◌, ap, false, some, [], ◌∷◌, ltb, Bool-cases, inl,
  inr, length, replicate, All, arith,
}
use roosterwake.Prelude.Bytes.{Bytes, byte_at, blit, slice, bytes16, bytes32}
use roosterwake.Prelude.Writes.{Writes, writes}
use roosterwake.Config.Record.{Config, str_at, put_str, put_strings, put_header, encode, record_len}
use roosterwake.Prelude.Options.{>>=-eq-some}
use roosterwake.Config.Crc.{crc32}

-- A string with no NUL, shorter than its field, is read back from a field that holds it and a NUL.
abbrev pub NoNul : Bytes → Type 0
NoNul = All (λ c. 0 < c)

pub str_at_holds :
    (buf value : Bytes) (off n : ℕ)
    → length value ≤ n
    → NoNul value
    → ((i : ℕ) → i ≤ length value → i < n → byte_at buf (off + i) ≡ byte_at value i)
    → str_at buf off n ≡ value
unfolding str_at
str_at_holds buf [] off zero h w at = refl
str_at_holds buf [] off (suc n) h w at =
    let nul : byte_at buf off ≡ 0 =
      ap (byte_at buf) (omega arith) ∙ at 0 (omega arith) (omega arith) in
    ground arith
str_at_holds buf (c ∷ cs) off zero h w at = absurd (omega arith)
str_at_holds buf (c ∷ cs) off (suc n) h (hc, w) at =
    let first : byte_at buf off ≡ c =
      ap (byte_at buf) (omega arith) ∙ at 0 (omega arith) (omega arith) in
    let rest : str_at buf (suc off) n ≡ cs =
      str_at_holds buf cs (suc off) n (omega arith) w
        (λ i l m. ap (byte_at buf) (omega arith) ∙ at (suc i) (omega arith) (omega arith)) in
    ground arith

-- The writes to the payload, and then to the header.
abbrev pub body : Config → Writes
body cfg =
    (0, replicate 475 0)
    ∷ (32, cfg.ssid)
    ∷ (65, cfg.psk)
    ∷ (131, cfg.relay_url)
    ∷ (260, cfg.device_id)
    ∷ (277, cfg.token)
    ∷ (342, cfg.owner_email)
    ∷ (130, cfg.wifi_auth ∷ [])
    ∷ (471, bytes32 cfg.flags)
    ∷ []

abbrev pub header : ℕ → Writes
header seq =
    (0, 0x52 ∷ 0x57 ∷ 0x43 ∷ 0x46 ∷ [])
    ∷ (4, bytes16 2)
    ∷ (6, bytes16 0)
    ∷ (8, bytes32 seq)
    ∷ (12, bytes32 443)
    ∷ []

-- Every string fits its field, the terminator included.
pub record Fits (cfg : Config) : Type 0 where
  pub ssid : length cfg.ssid ≤ 32
  pub psk : length cfg.psk ≤ 64
  pub relay_url : length cfg.relay_url ≤ 128
  pub device_id : length cfg.device_id ≤ 16
  pub token : length cfg.token ≤ 64
  pub owner_email : length cfg.owner_email ≤ 128

pub put_str_holds :
    (out : Bytes) (off width : ℕ) (value : Bytes) {r : Bytes}
    → put_str out off width value ≡ some r
    → (length value ≤ width - 1) × (r ≡ blit out (32 + off) value)
unfolding put_str
put_str_holds out off width value e = ground arith

pub put_str_fits :
    (out : Bytes) (off width : ℕ) (value : Bytes)
    → length value ≤ width - 1
    → put_str out off width value ≡ some (blit out (32 + off) value)
unfolding put_str
put_str_fits out off width value h = ground arith

-- The buffer that a successful `encode` leaves.
abbrev pub image : Config → Bytes → Bytes
image cfg out =
    let unsealed = writes (header cfg.seq) (writes (body cfg) out) in
    blit unsealed 16 (bytes32 (crc32 (slice unsealed 32 443)))

pub put_strings-Fits :
    (cfg : Config) (out : Bytes)
    → Fits cfg
    → put_strings cfg out
      ≡ some (
          writes
            ((32, cfg.ssid)
              ∷ (65, cfg.psk)
              ∷ (131, cfg.relay_url)
              ∷ (260, cfg.device_id)
              ∷ (277, cfg.token)
              ∷ (342, cfg.owner_email)
              ∷ [])
            out)
unfolding put_strings writes
put_strings-Fits cfg out f = rw (
  put_str_fits _ 0 33 cfg.ssid f.ssid,
  put_str_fits _ 33 65 cfg.psk f.psk,
  put_str_fits _ 99 129 cfg.relay_url f.relay_url,
  put_str_fits _ 228 17 cfg.device_id f.device_id,
  put_str_fits _ 245 65 cfg.token f.token,
  put_str_fits _ 310 129 cfg.owner_email f.owner_email,
)

pub encode-image :
    (cfg : Config) (out : Bytes)
    → record_len ≤ length out
    → Fits cfg
    → encode cfg out ≡ some (image cfg out)
unfolding encode put_header writes
encode-image cfg out h f =
    let long : ltb (length out) 475 ≡ false = ground arith in
    rw (long, put_strings-Fits cfg (blit out 0 (replicate 475 0)) f)

put_strings_inverse :
    (cfg : Config) (out : Bytes) {r : Bytes} → put_strings cfg out ≡ some r → Fits cfg
unfolding put_strings
put_strings_inverse cfg out e =
    let (o1, e1, r1) = >>=-eq-some (put_str out 0 33 cfg.ssid) _ e in
    let (o2, e2, r2) = >>=-eq-some (put_str o1 33 65 cfg.psk) _ r1 in
    let (o3, e3, r3) = >>=-eq-some (put_str o2 99 129 cfg.relay_url) _ r2 in
    let (o4, e4, r4) = >>=-eq-some (put_str o3 228 17 cfg.device_id) _ r3 in
    let (o5, e5, r5) = >>=-eq-some (put_str o4 245 65 cfg.token) _ r4 in
    record {
      ssid = (put_str_holds _ 0 33 _ e1).0;
      psk = (put_str_holds _ 33 65 _ e2).0;
      relay_url = (put_str_holds _ 99 129 _ e3).0;
      device_id = (put_str_holds _ 228 17 _ e4).0;
      token = (put_str_holds _ 245 65 _ e5).0;
      owner_email = (put_str_holds _ 310 129 _ r5).0;
    }

-- `encode` succeeds only where the buffer is long enough and every string fits.
pub encode_inverse :
    (cfg : Config) (out : Bytes) {r : Bytes}
    → encode cfg out ≡ some r
    → Fits cfg × (record_len ≤ length out)
unfolding encode
encode_inverse cfg out e = elim (Bool-cases (ltb (length out) 475)) [
  | inl short ↦ cc (rw short at e)
  | inr long ↦
      let (o, e1, _) =
        >>=-eq-some (put_strings cfg (blit out 0 (replicate 475 0))) _ (rw long at e) in
      (put_strings_inverse cfg _ e1, ground arith)
]
