-- ===== src/Proto/Auth/Verified.antt =====
-- Which proofs are accepted.
use Prim.Native.Nat.{bit_xor, bit_or}
use roosterwake.Prelude.{
  ℕ, zero, suc, ◌≡◌, ◌↔◌, refl, sym, ap, ◌∙◌, ◌⊎◌, inl, inr, true, not, if◌then◌else◌, ◌==◌, ==_iff,
  Option, none, some, [], ◌∷◌, ◌++◌, map, length, length-take, take, replicate, All, arith,
}
use roosterwake.Prelude.Bits.{bit_or_eq_zero, bit_xor_eq_zero, bit_xor_self}
use roosterwake.Prelude.Bytes.{Bytes, IsByte}
use roosterwake.Prelude.Options.{◌>>=◌, >>=-eq-some}
use roosterwake.Proto.Hex.{hex_encode, hex_decode, hex_decode-hex_encode, hex_encode-hex_decode}
use roosterwake.Proto.Auth.{
  ct_diff, ct_equal, verify_proof, key_block, hmac_sha256, proof_of, auth_proof,
}

ct_diff_zero : (d : ℕ) (a b : Bytes) → length a ≡ length b → ct_diff d a b ≡ 0 → (d ≡ 0) × (a ≡ b)
unfolding ct_diff
ct_diff_zero d [] [] l e = (e, refl)
ct_diff_zero d (x ∷ xs) (y ∷ ys) l e =
    let (none_set, rest) = ct_diff_zero (bit_or d (bit_xor x y)) xs ys (omega arith) e in
    let (zero_d, zero_x) = bit_or_eq_zero d (bit_xor x y) none_set in
    let same = bit_xor_eq_zero x y zero_x in (zero_d, cc)
ct_diff_zero d [] (y ∷ ys) l e = absurd (omega arith)
ct_diff_zero d (x ∷ xs) [] l e = absurd (omega arith)

ct_diff_self : (a : Bytes) → ct_diff 0 a a ≡ 0
unfolding ct_diff
ct_diff_self [] = refl
ct_diff_self (x ∷ xs) = rw (bit_xor_self x) (ct_diff_self xs)

ct_equal_iff : (a b : Bytes) → length a ≡ length b → (ct_equal a b ≡ true) ↔ (a ≡ b)
unfolding ct_equal
ct_equal_iff a b l =
    ((λ e. (ct_diff_zero 0 a b l ((==_iff _ _).0 e)).1), (λ e. rw (sym e, ct_diff_self a) refl))

-- An offer is accepted where it decodes to the expected bytes, or is malformed and these are all 0.
pub data Accepted (expected : Bytes) (offered_hex : Bytes) : Type 0 where
  same_bytes : hex_decode (some offered_hex) 16 ≡ some expected → Accepted expected offered_hex
  malformed :
      hex_decode (some offered_hex) 16 ≡ none
      → expected ≡ replicate 16 0
      → Accepted expected offered_hex

decoded_cases : (d : Option Bytes) → (d ≡ none) ⊎ ((bs : Bytes) × (d ≡ some bs))
decoded_cases none = inl refl
decoded_cases (some bs) = inr (bs, refl)

some_eq : (a b : Bytes) → some a ≡ some b → a ≡ b
some_eq a b e = ground arith

verify_bad :
    (p q e : Bytes)
    → hex_decode (some p) 16 ≡ some e
    → hex_decode (some q) 16 ≡ none
    → verify_proof (some p) (some q) ≡ ct_equal e (replicate 16 0)
unfolding verify_proof
verify_bad p q e read bad = ground arith

verify_good :
    (p q e o : Bytes)
    → hex_decode (some p) 16 ≡ some e
    → hex_decode (some q) 16 ≡ some o
    → verify_proof (some p) (some q) ≡ ct_equal e o
unfolding verify_proof
verify_good p q e o read good = ground arith

verify_iff :
    (p q e : Bytes)
    → hex_decode (some p) 16 ≡ some e
    → (verify_proof (some p) (some q) ≡ true) ↔ Accepted e q
verify_iff p q e read =
    let (text, size, bytes) = hex_encode-hex_decode p e 16 read in
    elim (decoded_cases (hex_decode (some q) 16)) [
      | inl bad ↦
          let zeros = ct_equal_iff e (replicate 16 0) size in
          rw (verify_bad p q e read bad) (
            (λ v. malformed bad (zeros.0 v)),
            (λ w. elim w [ same_bytes f ↦ absurd (ground arith) | malformed f g ↦ zeros.1 g ]),
          )
      | inr (o, good) ↦
          let (text_o, size_o, bytes_o) = hex_encode-hex_decode q o 16 good in
          let equal = ct_equal_iff e o (size ∙ sym size_o) in
          rw (verify_good p q e o read good) (
            (λ v. same_bytes (good ∙ ap some (sym (equal.0 v)))),
            (λ w. elim w [
              | same_bytes f ↦ equal.1 (sym (some_eq o e (sym good ∙ f)))
              | malformed f g ↦ absurd (ground arith)
            ]),
          )
    ]

-- What Mbed TLS documents of its digest: 32 bytes.
pub record IsSha (sha256 : Bytes → Bytes) : Type 0 where
  pub digest_len : (msg : Bytes) → length (sha256 msg) ≡ 32
  pub digest_bytes : (msg : Bytes) → All IsByte (sha256 msg)

All-take : (n : ℕ) (xs : Bytes) → All IsByte xs → All IsByte (take n xs)
All-take zero xs h = tt
All-take (suc n) [] h = tt
All-take (suc n) (x ∷ xs) (h, hs) = (h, All-take n xs hs)

zeros-IsByte : All IsByte (replicate 16 0)
zeros-IsByte = ground arith

module _ (sha256 : Bytes → Bytes) (law : IsSha sha256) where
  mac_size :
      (key msg : Bytes)
      → (length (take 16 (hmac_sha256 sha256 key msg)) ≡ 16)
        × All IsByte (take 16 (hmac_sha256 sha256 key msg))
  unfolding hmac_sha256
  mac_size key msg = (
    omega (
      arith,
      length-take 16 (
          sha256 (
            map (bit_xor 0x5c) (key_block sha256 key)
            ++ sha256 (map (bit_xor 0x36) (key_block sha256 key) ++ msg))),
      law.digest_len (
          map (bit_xor 0x5c) (key_block sha256 key)
          ++ sha256 (map (bit_xor 0x36) (key_block sha256 key) ++ msg)),
    ),
    All-take 16 _ (law.digest_bytes _),
  )

  abbrev after_token : Bytes → Bytes → Bytes → Bytes → Bytes → Option Bytes
  after_token g d c s token =
      if not (length g == 5)
      then none
      else some (hex_encode (take 16 (hmac_sha256 sha256 token (g ++ d ++ c ++ s))))

  sizes_ok :
      (t g d c s p : Bytes)
      → proof_of sha256 t g d c s ≡ some p
      → (hex_decode (some t) 32 >>= after_token g d c s) ≡ some p
  unfolding proof_of
  sizes_ok t g d c s p e = ground arith

  tag_ok :
      (token g d c s p : Bytes)
      → after_token g d c s token ≡ some p
      → p ≡ hex_encode (take 16 (hmac_sha256 sha256 token (g ++ d ++ c ++ s)))
  tag_ok token g d c s p e = ground arith

  token_step :
      (t g d c s p : Bytes)
      → proof_of sha256 t g d c s ≡ some p
      → (token : Bytes) × (p ≡ hex_encode (take 16 (hmac_sha256 sha256 token (g ++ d ++ c ++ s))))
  token_step t g d c s p e =
      let (token, read, rest) = >>=-eq-some (hex_decode (some t) 32) _ (sizes_ok t g d c s p e) in
      (token, tag_ok token g d c s p rest)

  proof_bytes :
      (t g d c s p : Bytes)
      → proof_of sha256 t g d c s ≡ some p
      → (mac : Bytes) × (p ≡ hex_encode mac) × (length mac ≡ 16) × All IsByte mac
  unfolding proof_of
  proof_bytes t g d c s p e =
      let (token, made) = token_step t g d c s p e in
      let (size, bytes) = mac_size token (g ++ d ++ c ++ s) in
      (take 16 (hmac_sha256 sha256 token (g ++ d ++ c ++ s)), made, size, bytes)

  auth_step :
      (token_hex tag device_id nonce_c nonce_s : Option Bytes) (p : Bytes)
      → auth_proof sha256 token_hex tag device_id nonce_c nonce_s ≡ some p
      → (mac : Bytes) × (p ≡ hex_encode mac) × (length mac ≡ 16) × All IsByte mac
  unfolding auth_proof
  auth_step (some t) (some g) (some d) (some c) (some s) p e = proof_bytes t g d c s p e
  auth_step none g d c s p e = absurd (ground arith)
  auth_step (some t) none d c s p e = absurd (ground arith)
  auth_step (some t) (some g) none c s p e = absurd (ground arith)
  auth_step (some t) (some g) (some d) none s p e = absurd (ground arith)
  auth_step (some t) (some g) (some d) (some c) none p e = absurd (ground arith)

  -- Against a proof that `rw_auth_proof` computed, `rw_auth_verify_proof` accepts exactly that text;
  -- only where the proof is all zeros does it also accept what is no proof at all.
  pub verify_proof-auth_proof :
      (token_hex tag device_id nonce_c nonce_s : Option Bytes) (p q : Bytes)
      → auth_proof sha256 token_hex tag device_id nonce_c nonce_s ≡ some p
      → (verify_proof (some p) (some q) ≡ true)
        ↔ ((q ≡ p) ⊎ ((hex_decode (some q) 16 ≡ none) × (p ≡ hex_encode (replicate 16 0))))
  verify_proof-auth_proof token_hex tag device_id nonce_c nonce_s p q e =
      let (mac, made, size, bytes) = auth_step token_hex tag device_id nonce_c nonce_s p e in
      let read : hex_decode (some p) 16 ≡ some mac =
        rw (made, sym size) (hex_decode-hex_encode mac bytes) in
      let accepts = verify_iff p q mac read in
      (
        (λ v. elim (accepts.0 v) [
          | same_bytes f ↦ inl (sym ((hex_encode-hex_decode q mac 16 f).0) ∙ sym made)
          | malformed f g ↦ inr (f, made ∙ ap hex_encode g)
        ]),
        (λ w. elim w [
          | inl same ↦ accepts.1 (same_bytes (ap (λ t. hex_decode (some t) 16) same ∙ read))
          | inr (f, g) ↦ accepts.1 (
              malformed f (
                some_eq _ _ (
                  sym read
                  ∙ ap (λ t. hex_decode (some t) 16) g
                  ∙ hex_decode-hex_encode (replicate 16 0) zeros-IsByte)))
        ]),
      )
