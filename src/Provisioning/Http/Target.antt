-- ===== src/Provisioning/Http/Target.antt =====
-- What the path of a request is decoded to.
use roosterwake.Prelude.{
  ℕ, zero, suc, ◌+◌, ◌<◌, ◌≡◌, ◌≢◌, refl, sym, ap, inl, inr, true, none, some, [], ◌∷◌, leb, ◌==◌,
  length, arith, Bool-cases,
}
use roosterwake.Prelude.Bytes.{Bytes}
use roosterwake.Prelude.Options.{>>=-eq-some}
use roosterwake.Net.Url.{before, begins_with}
use roosterwake.Provisioning.Http.{next_char, percent_chars, percent_decode}

-- The decoded path fits its field, and begins as the path does where that is no escape.
percent_round :
    (fuel c : ℕ) (src : Bytes) (o out_len : ℕ) (out : Bytes)
    → percent_chars (suc fuel) (c ∷ src) o out_len ≡ some out
    → (next : ℕ × Bytes) × (rest : Bytes) × (next_char c src ≡ some next)
      × (o + 1 < out_len)
      × (percent_chars fuel next.1 (o + 1) out_len ≡ some rest)
      × (next.0 ∷ rest ≡ out)
unfolding percent_chars
percent_round fuel c src o out_len out e =
    let (next, one, e1) = >>=-eq-some (next_char c src) _ e in
    elim (Bool-cases (leb out_len (o + 1))) [
      | inl full ↦ absurd (none_some (rw full at e1))
      | inr room ↦
          let (rest, more, e2) =
            >>=-eq-some (percent_chars fuel next.1 (o + 1) out_len) _ (rw room at e1) in
          (next, rest, one, ground arith, more, some_inj e2)
    ]
  where
    none_some : none ≢ some out
    none_some e = cc

    some_inj : {a b : Bytes} → some a ≡ some b → a ≡ b
    some_inj e = cc

pub percent_chars_fits :
    (fuel : ℕ) (src : Bytes) (o out_len : ℕ) (out : Bytes)
    → o < out_len
    → percent_chars fuel src o out_len ≡ some out
    → o + length out < out_len
percent_chars_fits fuel [] o out_len out h e = nothing_left e
  where
    nothing_left : percent_chars fuel [] o out_len ≡ some out → o + length out < out_len
    nothing_left e = unfold percent_chars in ground arith
percent_chars_fits zero (c ∷ src) o out_len out h e = absurd (no_fuel e)
  where
    no_fuel : percent_chars zero (c ∷ src) o out_len ≢ some out
    no_fuel e = unfold percent_chars in ground arith
percent_chars_fits (suc fuel) (c ∷ src) o out_len out h e =
    let (next, rest, one, room, more, same) = percent_round fuel c src o out_len out e in
    let fits = percent_chars_fits fuel next.1 (o + 1) out_len rest room more in
    let size : length out ≡ suc (length rest) = sym (ap length same) in omega arith

slash_next :
    (c : ℕ) (src : Bytes) (next : ℕ × Bytes)
    → begins_with 47 (c ∷ src) ≡ true
    → next_char c src ≡ some next
    → next.0 ≡ 47
unfolding begins_with next_char
slash_next c src next b e = ground arith

pub decode_begins :
    (src : Bytes) (out_len : ℕ) (out : Bytes)
    → begins_with 47 src ≡ true
    → percent_decode src out_len ≡ some out
    → begins_with 47 out ≡ true
unfolding percent_decode begins_with
decode_begins [] out_len out b e = ground arith
decode_begins (c ∷ src) out_len out b e =
    let (next, rest, one, room, more, same) = percent_round (length src) c src 0 out_len out e in
    let slash = slash_next c src next b one in rw (sym same, slash) refl

pub before_begins :
    (s : Bytes) → begins_with 47 s ≡ true → begins_with 47 (before (◌== 63) s) ≡ true
unfolding begins_with before
before_begins [] b = b
before_begins (c ∷ s) b = ground arith
