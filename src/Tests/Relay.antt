-- ===== src/Tests/Relay.antt =====
-- The relay's messages.
use roosterwake.Prelude.{
  ◌≡◌, ◌↔◌, ◌⊎◌, refl, true, none, some, [], ◌∷◌, ◌++◌, replicate, length, arith,
}
use roosterwake.Prelude.Bytes.{Bytes, slice}
use roosterwake.Proto.Hex.{hex_char, hex_encode, nibble, hex_pairs, hex_decode}
use roosterwake.Proto.Auth.{verify_proof, key_block, hmac_sha256, proof_of, auth_proof}
use roosterwake.Proto.Auth.Verified.{IsSha, verify_proof-auth_proof}
use roosterwake.Proto.Json.{jw_init, escape, jw_str, string, token_text, json_str}
use roosterwake.Proto.Json.Escaped.{json_str-jw_str}
use roosterwake.Proto.Json.Spelled.{escaped, Spells}
use roosterwake.Tests.Samples.{codes}

-- A digest that does not depend on the message.
abbrev sevens : Bytes → Bytes
sevens msg = replicate 32 7

sevens-IsSha : IsSha sevens
sevens-IsSha = record { digest_len = λ msg. refl; digest_bytes = λ msg. ground arith }

abbrev token_text_of_device : Bytes
token_text_of_device = replicate 64 48

abbrev proof : Bytes
proof = codes "07070707070707070707070707070707"

proof_made :
    auth_proof sevens
      (some token_text_of_device)
      (some (codes "rw-c1"))
      (some (codes "rw-0123456789abc"))
      (some (replicate 32 97))
      (some (replicate 32 98))
    ≡ some proof
unfolding auth_proof proof_of hmac_sha256 key_block hex_decode hex_pairs nibble hex_encode hex_char
proof_made = refl

verify_proof-auth_proof_example : (verify_proof (some proof) (some (codes "07")) ≡ true) ↔ (
    (codes "07" ≡ proof)
    ⊎ ((hex_decode (some (codes "07")) 16 ≡ none) × (proof ≡ hex_encode (replicate 16 0))))
verify_proof-auth_proof_example =
    verify_proof-auth_proof sevens sevens-IsSha (some token_text_of_device) (some (codes "rw-c1"))
      (some (codes "rw-0123456789abc")) (some (replicate 32 97)) (some (replicate 32 98)) proof
      (codes "07") proof_made

abbrev quoted : Bytes
quoted = 97 ∷ 34 ∷ 9 ∷ 1 ∷ []

quoted_text :
    token_text
      (34 ∷ (escaped quoted ++ (34 ∷ [])))
      (record { type = string; start = 1; end = 12; size = 0 })
    ≡ escaped quoted
unfolding token_text escaped escape hex_char slice
quoted_text = refl

quoted_len : length (escaped quoted) ≡ 11
unfolding escaped escape hex_char
quoted_len = refl

json_str-jw_str_example :
    ((jw_str (jw_init 64) quoted).ok ≡ true)
    × ((jw_str (jw_init 64) quoted).text ≡ [] ++ (34 ∷ (escaped quoted ++ (34 ∷ []))))
    × Spells quoted (escaped quoted)
    × (json_str
          (34 ∷ (escaped quoted ++ (34 ∷ [])))
          (record { type = string; start = 1; end = 12; size = 0 })
          16
        ≡ some quoted)
json_str-jw_str_example =
    json_str-jw_str (jw_init 64) quoted (34 ∷ (escaped quoted ++ (34 ∷ [])))
      (record { type = string; start = 1; end = 12; size = 0 }) 16 refl (omega (arith, quoted_len))
      refl quoted_text (omega arith)
