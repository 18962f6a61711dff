-- ===== src/Tests/Characters.antt =====
-- UTF-8.
use roosterwake.Prelude.{ℕ, ◌≡◌, ◌↔◌, refl, true, false, List, [], ◌∷◌, All}
use roosterwake.Usbcfg.Utf8.{lead, continued, refused, utf8_chars, utf8_valid}
use roosterwake.Usbcfg.Utf8.Encoded.{IsScalar, encoded}
use roosterwake.Usbcfg.Utf8.Valid.{utf8_valid_iff}

-- A letter, the euro sign and a rooster are accepted; an overlong '/', a surrogate and a text cut off are not.
accepted_and_refused :
    (utf8_valid (97 ∷ 0xE2 ∷ 0x82 ∷ 0xAC ∷ 0xF0 ∷ 0x9F ∷ 0x90 ∷ 0x93 ∷ []) ≡ true)
    × (utf8_valid (0xC0 ∷ 0xAF ∷ []) ≡ false)
    × (utf8_valid (0xED ∷ 0xA0 ∷ 0x80 ∷ []) ≡ false)
    × (utf8_valid (0xE2 ∷ 0x82 ∷ []) ≡ false)
unfolding utf8_valid utf8_chars lead continued refused
accepted_and_refused = (refl, refl, refl, refl)

utf8_valid_iff_example :
    (utf8_valid (0xE2 ∷ 0x82 ∷ 0xAC ∷ []) ≡ true)
    ↔ ((cps : List ℕ) × All IsScalar cps × (0xE2 ∷ 0x82 ∷ 0xAC ∷ [] ≡ encoded cps))
utf8_valid_iff_example = utf8_valid_iff (0xE2 ∷ 0x82 ∷ 0xAC ∷ [])
