-- ===== src/Usbcfg/Utf8.antt =====
-- `rw_utf8_valid` of firmware/src/usbcfg/cmdline.c. A string is its bytes without the NUL, which is no
-- continuation byte.
pub mod Encoded
pub mod Valid
use roosterwake.Prelude.{
  ℕ, zero, suc, ◌+◌, ◌*◌, ◌/◌, ◌%◌, ◌^◌, Bool, true, false, not, ◌&&◌, ◌||◌, Option, none, some, [],
  ◌∷◌, ltb, leb, ◌==◌, if◌then◌else◌, length,
}
use roosterwake.Prelude.Bytes.{Bytes}

-- The number of continuation bytes that a lead byte announces, and its own bits.
unfoldable pub lead : ℕ → Option (ℕ × ℕ)
lead c =
    if c / 2 ^ 5 == 6
    then some (1, c % 2 ^ 5)
    else if c / 2 ^ 4 == 14
    then some (2, c % 2 ^ 4)
    else if c / 2 ^ 3 == 30
    then some (3, c % 2 ^ 3)
    else none

-- The loop over the continuation bytes: the code point, and what follows.
unfoldable pub continued : ℕ → ℕ → Bytes → Option (ℕ × Bytes)
continued zero cp s = some (cp, s)
continued (suc extra) cp [] = none
continued (suc extra) cp (c ∷ s) =
    let rest = continued extra (cp * 2 ^ 6 + c % 2 ^ 6) s in
    if not (c / 2 ^ 6 == 2) then none else rest

-- The tests of the code point
unfoldable pub refused : ℕ → ℕ → Bool
refused extra cp =
    (extra == 1 && ltb cp 0x80)
    || (extra == 2 && ltb cp 0x800)
    || (extra == 3 && ltb cp 0x10000)
    || ltb 0x10FFFF cp
    || (leb 0xD800 cp && leb cp 0xDFFF)

-- The loop of `rw_utf8_valid`. A round takes a byte at least.
unfoldable pub utf8_chars : ℕ → Bytes → Bool
utf8_chars fuel [] = true
utf8_chars zero (c ∷ s) = false
utf8_chars (suc fuel) (c ∷ s) =
    let plain = utf8_chars fuel s in
    if ltb c 0x80 then plain else elim (lead c) [
      | none ↦ false
      | some (extra, bits) ↦ elim (continued extra bits s) [
        | none ↦ false
        | some (cp, rest) ↦ elim (refused extra cp) [ true ↦ false | false ↦ utf8_chars fuel rest ]
      ]
    ]

-- `rw_utf8_valid`
unfoldable pub utf8_valid : Bytes → Bool
utf8_valid s = utf8_chars (length s) s
