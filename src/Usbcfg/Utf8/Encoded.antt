-- ===== src/Usbcfg/Utf8/Encoded.antt =====
-- Valid text is the encoding of code points.
use roosterwake.Prelude.{
  ℕ, zero, suc, ◌+◌, ◌*◌, ◌/◌, ◌%◌, ◌^◌, ◌≤◌, ◌<◌, ◌≡◌, ◌≢◌, refl, sym, ap, ◌∙◌, ◌⊎◌, inl, inr,
  Bool, true, false, Option, none, some, List, [], ◌∷◌, ◌++◌, ltb, ◌==◌, All, arith,
}
use roosterwake.Prelude.Bytes.{Bytes}
use roosterwake.Proto.Json.{utf8}
use roosterwake.Usbcfg.Utf8.{lead, continued, refused, utf8_chars}

-- A Unicode scalar value
abbrev pub IsScalar : ℕ → Type 0
IsScalar cp = (cp ≤ 0x10FFFF) × ((cp < 0xD800) ⊎ (0xDFFF < cp))

-- The encodings, one behind the other. `put_utf8` gives each.
unfoldable pub encoded : List ℕ → Bytes
encoded [] = []
encoded (cp ∷ cps) = utf8 cp ++ encoded cps

abbrev Char : ℕ → ℕ → Bytes → Type 0
Char fuel c s =
    (cp : ℕ) × (rest : Bytes) × IsScalar cp
    × (c ∷ s ≡ utf8 cp ++ rest)
    × (utf8_chars fuel rest ≡ true)

one_byte :
    (fuel c : ℕ) (s : Bytes) → c < 0x80 → utf8_chars (suc fuel) (c ∷ s) ≡ true → Char fuel c s
unfolding utf8_chars utf8
one_byte fuel c s h e =
    let small : ltb c 0x80 ≡ true = ground arith in
    (c, s, (omega arith, inl (omega arith)), rw small refl, rw small at e)

pub of_two :
    (cp : ℕ) → 0x80 ≤ cp → cp < 0x800 → utf8 cp ≡ (0xC0 + cp / 2 ^ 6) ∷ (0x80 + cp % 2 ^ 6) ∷ []
unfolding utf8
of_two cp low high = ground arith

pub of_three :
    (cp : ℕ)
    → 0x800 ≤ cp
    → cp < 0x10000
    → utf8 cp ≡ (0xE0 + cp / 2 ^ 12) ∷ (0x80 + cp / 2 ^ 6 % 2 ^ 6) ∷ (0x80 + cp % 2 ^ 6) ∷ []
unfolding utf8
of_three cp low high = ground arith

pub of_four :
    (cp : ℕ)
    → 0x10000 ≤ cp
    → utf8 cp
      ≡ (0xF0 + cp / 2 ^ 18)
        ∷ (0x80 + cp / 2 ^ 12 % 2 ^ 6)
        ∷ (0x80 + cp / 2 ^ 6 % 2 ^ 6)
        ∷ (0x80 + cp % 2 ^ 6)
        ∷ []
unfolding utf8
of_four cp low = ground arith

two_bytes :
    (fuel c : ℕ) (s : Bytes) → c / 2 ^ 5 ≡ 6 → utf8_chars (suc fuel) (c ∷ s) ≡ true → Char fuel c s
unfolding utf8_chars lead continued refused
two_bytes fuel c [] h e = absurd (ground arith)
two_bytes fuel c (x ∷ s) h e =
    let cp = c % 2 ^ 5 * 2 ^ 6 + x % 2 ^ 6 in
    let facts : (x / 2 ^ 6 ≡ 2) × (0x80 ≤ cp) × (utf8_chars fuel s ≡ true) = ground arith in
    let cont = facts.0 in
    let first : 0xC0 + cp / 2 ^ 6 ≡ c = omega arith in
    let second : 0x80 + cp % 2 ^ 6 ≡ x = omega arith in
    (
      cp,
      s,
      (omega arith, inl (omega arith)),
      rw (of_two cp facts.1 (omega arith), first, second) refl,
      facts.2,
    )

three_bytes :
    (fuel c : ℕ) (s : Bytes) → c / 2 ^ 4 ≡ 14 → utf8_chars (suc fuel) (c ∷ s) ≡ true → Char fuel c s
unfolding utf8_chars lead continued refused
three_bytes fuel c [] h e = absurd (ground arith)
three_bytes fuel c (x ∷ []) h e = absurd (ground arith)
three_bytes fuel c (x ∷ y ∷ s) h e =
    let cp = (c % 2 ^ 4 * 2 ^ 6 + x % 2 ^ 6) * 2 ^ 6 + y % 2 ^ 6 in
    let facts : (x / 2 ^ 6 ≡ 2)
        × (y / 2 ^ 6 ≡ 2)
        × (0x800 ≤ cp)
        × ((cp < 0xD800) ⊎ (0xDFFF < cp))
        × (utf8_chars fuel s ≡ true) =
      ground arith in
    let cont = facts.0 in
    let cont2 = facts.1 in
    let first : 0xE0 + cp / 2 ^ 12 ≡ c = omega arith in
    let second : 0x80 + cp / 2 ^ 6 % 2 ^ 6 ≡ x = omega arith in
    let third : 0x80 + cp % 2 ^ 6 ≡ y = omega arith in
    (
      cp,
      s,
      (omega arith, facts.3),
      rw (of_three cp facts.2 (omega arith), first, second, third) refl,
      facts.4,
    )

-- A continuation byte is taken.
continued_on :
    (extra cp x : ℕ) (s : Bytes) (r : ℕ × Bytes)
    → continued (suc extra) cp (x ∷ s) ≡ some r
    → (x / 2 ^ 6 ≡ 2) × (continued extra (cp * 2 ^ 6 + x % 2 ^ 6) s ≡ some r)
unfolding continued
continued_on extra cp x s r e = ground arith

continued_none : (extra cp : ℕ) (r : ℕ × Bytes) → continued (suc extra) cp [] ≢ some r
unfolding continued
continued_none extra cp r e = ground arith

continued_end : (cp : ℕ) (s : Bytes) (r : ℕ × Bytes) → continued zero cp s ≡ some r → r ≡ (cp, s)
unfolding continued
continued_end cp s r e = some_inj e
  where
    some_inj : {a b : ℕ × Bytes} → some a ≡ some b → b ≡ a
    some_inj e = cc

Checked : ℕ → ℕ → ℕ × Bytes → Type 0
Checked fuel extra r = (refused extra r.0 ≡ false) × (utf8_chars fuel r.1 ≡ true)

-- The test of a longer character, step by step.
four_steps :
    (fuel c : ℕ) (s : Bytes)
    → c / 2 ^ 3 ≡ 30
    → utf8_chars (suc fuel) (c ∷ s) ≡ true
    → (r : ℕ × Bytes) × (continued 3 (c % 2 ^ 3) s ≡ some r) × Checked fuel 3 r
unfolding utf8_chars lead Checked
four_steps fuel c s h e =
    let long : ltb c 0x80 ≡ false = ground arith in
    let no_two : (c / 2 ^ 5 == 6) ≡ false = ground arith in
    let no_three : (c / 2 ^ 4 == 14) ≡ false = ground arith in
    let four : (c / 2 ^ 3 == 30) ≡ true = ground arith in
    by_code (continued 3 (c % 2 ^ 3) s) refl (rw (long, no_two, no_three, four) at e)
  where
    by_test :
        (r : ℕ × Bytes) (t : Bool)
        → refused 3 r.0 ≡ t
        → (elim t [ true ↦ false | false ↦ utf8_chars fuel r.1 ]) ≡ true
        → (refused 3 r.0 ≡ false) × (utf8_chars fuel r.1 ≡ true)
    by_test r true same e = absurd (ground arith)
    by_test r false same e = (same, e)

    by_code :
        (m : Option (ℕ × Bytes))
        → continued 3 (c % 2 ^ 3) s ≡ m
        → (elim m [
          | none ↦ false
          | some (cp, rest) ↦ elim (refused 3 cp) [ true ↦ false | false ↦ utf8_chars fuel rest ]
        ])
          ≡ true
        → (r : ℕ × Bytes) × (continued 3 (c % 2 ^ 3) s ≡ some r)
          × ((refused 3 r.0 ≡ false) × (utf8_chars fuel r.1 ≡ true))
    by_code none same e = absurd (ground arith)
    by_code (some r) same e = (r, same, by_test r (refused 3 r.0) refl e)

in_range : (cp : ℕ) → refused 3 cp ≡ false → (0x10000 ≤ cp) × (cp ≤ 0x10FFFF)
unfolding refused
in_range cp e = ground arith

four_bytes :
    (fuel c : ℕ) (s : Bytes) → c / 2 ^ 3 ≡ 30 → utf8_chars (suc fuel) (c ∷ s) ≡ true → Char fuel c s
unfolding Checked
four_bytes fuel c [] h e =
    let (r, m, _) = four_steps fuel c [] h e in absurd (continued_none 2 _ r m)
four_bytes fuel c (x ∷ []) h e =
    let (r, m, _) = four_steps fuel c (x ∷ []) h e in
    absurd (continued_none 1 _ r ((continued_on 2 _ x [] r m).1))
four_bytes fuel c (x ∷ y ∷ []) h e =
    let (r, m, _) = four_steps fuel c (x ∷ y ∷ []) h e in
    absurd
      (continued_none 0 _ r ((continued_on 1 _ y [] r ((continued_on 2 _ x (y ∷ []) r m).1)).1))
four_bytes fuel c (x ∷ y ∷ z ∷ s) h e =
    let cp = ((c % 2 ^ 3 * 2 ^ 6 + x % 2 ^ 6) * 2 ^ 6 + y % 2 ^ 6) * 2 ^ 6 + z % 2 ^ 6 in
    let (r, m, (fine, more)) = four_steps fuel c (x ∷ y ∷ z ∷ s) h e in
    let (cont, m1) = continued_on 2 _ x (y ∷ z ∷ s) r m in
    let (cont2, m2) = continued_on 1 _ y (z ∷ s) r m1 in
    let (cont3, m3) = continued_on 0 _ z s r m2 in
    let same = continued_end cp s r m3 in
    let (low, high) = in_range cp (ap (λ q. refused 3 q.0) (sym same) ∙ fine) in
    let first : 0xF0 + cp / 2 ^ 18 ≡ c = omega arith in
    let second : 0x80 + cp / 2 ^ 12 % 2 ^ 6 ≡ x = omega arith in
    let third : 0x80 + cp / 2 ^ 6 % 2 ^ 6 ≡ y = omega arith in
    let fourth : 0x80 + cp % 2 ^ 6 ≡ z = omega arith in
    (
      cp,
      s,
      (high, inr (omega arith)),
      rw (of_four cp low, first, second, third, fourth) refl,
      ap (λ q. utf8_chars fuel q.1) (sym same) ∙ more,
    )

shapes :
    (fuel c : ℕ) (s : Bytes)
    → utf8_chars (suc fuel) (c ∷ s) ≡ true
    → (c < 0x80) ⊎ (c / 2 ^ 5 ≡ 6) ⊎ (c / 2 ^ 4 ≡ 14) ⊎ (c / 2 ^ 3 ≡ 30)
unfolding utf8_chars lead
shapes fuel c s e = ground arith

first-Char : (fuel c : ℕ) (s : Bytes) → utf8_chars (suc fuel) (c ∷ s) ≡ true → Char fuel c s
first-Char fuel c s e = elim (shapes fuel c s e) [
  | inl h ↦ one_byte fuel c s h e
  | inr (inl h) ↦ two_bytes fuel c s h e
  | inr (inr (inl h)) ↦ three_bytes fuel c s h e
  | inr (inr (inr h)) ↦ four_bytes fuel c s h e
]

abbrev Text : Bytes → Type 0
Text s = (cps : List ℕ) × All IsScalar cps × (s ≡ encoded cps)

pub chars-Text : (fuel : ℕ) (s : Bytes) → utf8_chars fuel s ≡ true → Text s
unfolding encoded
chars-Text fuel [] e = ([], tt, refl)
chars-Text zero (c ∷ s) e = absurd (no_fuel e)
  where
    no_fuel : utf8_chars zero (c ∷ s) ≢ true
    no_fuel e = unfold utf8_chars in ground arith
chars-Text (suc fuel) (c ∷ s) e =
    let (cp, rest, scalar, same, more) = first-Char fuel c s e in
    let (cps, scalars, text) = chars-Text fuel rest more in
    (cp ∷ cps, (scalar, scalars), same ∙ ap (λ t. utf8 cp ++ t) text)
