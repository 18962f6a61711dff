-- ===== src/Proto/Auth.antt =====
-- The mutual challenge and response, firmware/src/proto/auth.c. `sha256` is Mbed TLS's digest of all that it was
-- fed; a NULL string is `none`.
pub mod Verified
use Prim.Native.Nat.{bit_xor, bit_or}
use roosterwake.Prelude.{
  ℕ, zero, suc, ◌+◌, ◌-◌, ◌*◌, Bool, true, false, not, ◌&&◌, ◌||◌, Option, none, some, List, [],
  ◌∷◌, ◌++◌, map, ltb, ◌==◌, if◌then◌else◌, length, take, replicate,
}
use roosterwake.Prelude.Bytes.{Bytes, byte_at, slice, blit}
use roosterwake.Prelude.Options.{◌>>=◌}
use roosterwake.Proto.Hex.{hex_encode, hex_decode}

-- `diff` after the loop of `rw_ct_equal`
unfoldable pub ct_diff : ℕ → Bytes → Bytes → ℕ
ct_diff diff (x ∷ xs) (y ∷ ys) = ct_diff (bit_or diff (bit_xor x y)) xs ys
ct_diff diff _ _ = diff

-- `rw_ct_equal` of two buffers of one length
unfoldable pub ct_equal : Bytes → Bytes → Bool
ct_equal a b = ct_diff 0 a b == 0

-- `rw_auth_verify_proof`
unfoldable pub verify_proof : Option Bytes → Option Bytes → Bool
verify_proof (some expected_hex) (some offered_hex) = elim (hex_decode (some expected_hex) 16) [
  | none ↦ false
  | some expected ↦ elim (hex_decode (some offered_hex) 16) [
    | none ↦ ct_equal expected (replicate 16 0)
    | some offered ↦ ct_equal expected offered
  ]
]
verify_proof _ _ = false

module _ (sha256 : Bytes → Bytes) where
  -- The key block of `rw_hmac_sha256`
  unfoldable pub key_block : Bytes → Bytes
  key_block key = blit (replicate 64 0) 0 (if ltb 64 (length key) then sha256 key else key)

  -- `rw_hmac_sha256`
  unfoldable pub hmac_sha256 : Bytes → Bytes → Bytes
  hmac_sha256 key msg =
      let inner = sha256 (map (bit_xor 0x36) (key_block key) ++ msg) in
      sha256 (map (bit_xor 0x5c) (key_block key) ++ inner)

  -- `rw_auth_proof`, once no argument is NULL
  unfoldable pub proof_of : Bytes → Bytes → Bytes → Bytes → Bytes → Option Bytes
  proof_of token_hex tag device_id nonce_c nonce_s =
      if not (length device_id == 16) || not (length nonce_c == 32) || not (length nonce_s == 32)
      then none
      else do
        token ← hex_decode (some token_hex) 32
        if not (length tag == 5)
            then none
            else some
                (hex_encode (take 16 (hmac_sha256 token (tag ++ device_id ++ nonce_c ++ nonce_s))))

  -- `rw_auth_proof`
  unfoldable pub auth_proof :
      Option Bytes → Option Bytes → Option Bytes → Option Bytes → Option Bytes → Option Bytes
  auth_proof token_hex tag device_id nonce_c nonce_s = do
    t ← token_hex
    g ← tag
    d ← device_id
    c ← nonce_c
    s ← nonce_s
    proof_of t g d c s
