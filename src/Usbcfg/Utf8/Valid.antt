-- ===== src/Usbcfg/Utf8/Valid.antt =====
-- Which text is valid.
use roosterwake.Prelude.{
  ℕ, zero, suc, ◌+◌, ◌*◌, ◌/◌, ◌%◌, ◌^◌, ◌≤◌, ◌<◌, ◌≡◌, ◌↔◌, refl, sym, subst, ◌∙◌, ◌⊎◌, inl, inr,
  true, false, some, List, [], ◌∷◌, ◌++◌, ltb, ◌==◌, length, length-append, All, arith,
}
use roosterwake.Prelude.Bytes.{Bytes}
use roosterwake.Proto.Json.{utf8}
use roosterwake.Usbcfg.Utf8.{lead, continued, refused, utf8_chars, utf8_valid}
use roosterwake.Usbcfg.Utf8.Encoded.{IsScalar, encoded, of_two, of_three, of_four, chars-Text}

long_char :
    (fuel c : ℕ) (s : Bytes) (extra bits cp : ℕ) (rest : Bytes)
    → 0x80 ≤ c
    → lead c ≡ some (extra, bits)
    → continued extra bits s ≡ some (cp, rest)
    → refused extra cp ≡ false
    → utf8_chars (suc fuel) (c ∷ s) ≡ utf8_chars fuel rest
unfolding utf8_chars
long_char fuel c s extra bits cp rest long l m fine =
    let no_ascii : ltb c 0x80 ≡ false = ground arith in rw (no_ascii, l, m, fine) refl

lead_two : (q : ℕ) → q < 32 → lead (0xC0 + q) ≡ some (1, q)
unfolding lead
lead_two q h = ground arith

lead_three : (q : ℕ) → q < 16 → lead (0xE0 + q) ≡ some (2, q)
unfolding lead
lead_three q h = ground arith

lead_four : (q : ℕ) → q < 8 → lead (0xF0 + q) ≡ some (3, q)
unfolding lead
lead_four q h = ground arith

-- One continuation byte, where the code point so far comes to `next`.
takes :
    (extra cp r next : ℕ) (s : Bytes)
    → r < 64
    → cp * 2 ^ 6 + r ≡ next
    → continued (suc extra) cp ((0x80 + r) ∷ s) ≡ continued extra next s
unfolding continued
takes extra cp r next s h e =
    let cont : ((0x80 + r) / 2 ^ 6 == 2) ≡ true = ground arith in
    let own : cp * 2 ^ 6 + (0x80 + r) % 2 ^ 6 ≡ next = omega arith in rw (cont, own) refl

stops : (cp : ℕ) (s : Bytes) → continued zero cp s ≡ some (cp, s)
unfolding continued
stops cp s = refl

passes :
    (extra cp : ℕ)
    → IsScalar cp
    → ((extra ≡ 1) × (0x80 ≤ cp)) ⊎ ((extra ≡ 2) × (0x800 ≤ cp)) ⊎ ((extra ≡ 3) × (0x10000 ≤ cp))
    → refused extra cp ≡ false
unfolding refused
passes extra cp scalar size = ground arith

back_one :
    (fuel cp : ℕ) (rest : Bytes)
    → cp < 0x80
    → utf8_chars (suc fuel) (utf8 cp ++ rest) ≡ utf8_chars fuel rest
unfolding utf8_chars utf8
back_one fuel cp rest h = let small : ltb cp 0x80 ≡ true = ground arith in rw (small, small) refl

back_two :
    (fuel cp : ℕ) (rest : Bytes)
    → IsScalar cp
    → 0x80 ≤ cp
    → cp < 0x800
    → utf8_chars (suc fuel) (utf8 cp ++ rest) ≡ utf8_chars fuel rest
back_two fuel cp rest scalar low high = rw (of_two cp low high) (
    long_char fuel _ _ 1 (cp / 2 ^ 6) cp rest (omega arith) (lead_two _ (omega arith))
      (takes 0 _ _ cp rest (omega arith) (omega arith) ∙ stops cp rest)
      (passes 1 cp scalar (inl (refl, low))))

back_three :
    (fuel cp : ℕ) (rest : Bytes)
    → IsScalar cp
    → 0x800 ≤ cp
    → cp < 0x10000
    → utf8_chars (suc fuel) (utf8 cp ++ rest) ≡ utf8_chars fuel rest
back_three fuel cp rest scalar low high = rw (of_three cp low high) (
    long_char fuel _ _ 2 (cp / 2 ^ 12) cp rest (omega arith) (lead_three _ (omega arith))
      (takes 1 _ _ (cp / 2 ^ 6) _ (omega arith) (omega arith)
        ∙ takes 0 _ _ cp rest (omega arith) (omega arith)
        ∙ stops cp rest)
      (passes 2 cp scalar (inr (inl (refl, low)))))

back_four :
    (fuel cp : ℕ) (rest : Bytes)
    → IsScalar cp
    → 0x10000 ≤ cp
    → utf8_chars (suc fuel) (utf8 cp ++ rest) ≡ utf8_chars fuel rest
back_four fuel cp rest scalar low =
    let top = scalar.0 in
    rw (of_four cp low) (
      long_char fuel _ _ 3 (cp / 2 ^ 18) cp rest (omega arith) (lead_four _ (omega arith))
        (takes 2 _ _ (cp / 2 ^ 12) _ (omega arith) (omega arith)
          ∙ takes 1 _ _ (cp / 2 ^ 6) _ (omega arith) (omega arith)
          ∙ takes 0 _ _ cp rest (omega arith) (omega arith)
          ∙ stops cp rest)
        (passes 3 cp scalar (inr (inr (refl, low)))))

sizes :
    (cp : ℕ)
    → (cp < 0x80) ⊎ ((0x80 ≤ cp) × (cp < 0x800)) ⊎ ((0x800 ≤ cp) × (cp < 0x10000)) ⊎ (0x10000 ≤ cp)
sizes cp = ground arith

back :
    (fuel cp : ℕ) (rest : Bytes)
    → IsScalar cp
    → utf8_chars (suc fuel) (utf8 cp ++ rest) ≡ utf8_chars fuel rest
back fuel cp rest scalar = elim (sizes cp) [
  | inl h ↦ back_one fuel cp rest h
  | inr (inl (l, h)) ↦ back_two fuel cp rest scalar l h
  | inr (inr (inl (l, h))) ↦ back_three fuel cp rest scalar l h
  | inr (inr (inr l)) ↦ back_four fuel cp rest scalar l
]

utf8_some : (cp : ℕ) → 0 < length (utf8 cp)
unfolding utf8
utf8_some cp = ground arith

encoded_valid :
    (fuel : ℕ) (cps : List ℕ)
    → All IsScalar cps
    → length (encoded cps) ≤ fuel
    → utf8_chars fuel (encoded cps) ≡ true
unfolding encoded
encoded_valid fuel [] h enough = unfold utf8_chars in refl
encoded_valid zero (cp ∷ cps) h enough =
    absurd (omega (arith, utf8_some cp, length-append (utf8 cp) (encoded cps)))
encoded_valid (suc fuel) (cp ∷ cps) (scalar, h) enough =
    back fuel cp (encoded cps) scalar
    ∙ encoded_valid fuel cps h (omega (arith, utf8_some cp, length-append (utf8 cp) (encoded cps)))

-- Text is valid exactly where it is the encoding of some Unicode scalar values, each encoded as the JSON reader
-- encodes it: no overlong form, no surrogate, nothing beyond U+10FFFF and nothing cut off.
pub utf8_valid_iff :
    (s : Bytes) → (utf8_valid s ≡ true) ↔ ((cps : List ℕ) × All IsScalar cps × (s ≡ encoded cps))
unfolding utf8_valid
utf8_valid_iff s = (
  chars-Text (length s) s,
  λ t.
      subst (λ x. utf8_chars (length x) x ≡ true) (sym t.2)
        (encoded_valid (length (encoded t.0)) t.0 t.1 (omega arith)),
)
