-- ===== src/Config/Mac/Parse.antt =====
-- Reading a MAC address back, and what can be read at all.
use mathlib.Core.Path.{ap₂}
use mathlib.Core.List.{append-nil, append_assoc}
use roosterwake.Prelude.{
  ℕ, ◌+◌, ◌*◌, ◌/◌, ◌%◌, ◌^◌, ◌<◌, ◌≤◌, ◌≡◌, ◌↔◌, refl, sym, subst, ◌∙◌, ap, true, false, not,
  Option, none, some, [], ◌∷◌, ◌++◌, leb, ◌==◌, ==_iff, Bool-cases, inl, inr, if◌then◌else◌, length,
  length-append, All, arith,
}
use roosterwake.Prelude.Bytes.{Bytes, IsByte}
use roosterwake.Prelude.Options.{◌>>=◌, >>=-eq-some}
use roosterwake.Config.Mac.{
  hex_nibble, is_separator, push_nibble, read_nibbles, octets, mac_parse, hex_digit, mac_format,
  all_equal, mac_wakeable,
}

hex_nibble-hex_digit :
    (v : ℕ) → v < 16 → (hex_nibble (hex_digit v) ≡ some v) × (is_separator (hex_digit v) ≡ false)
unfolding hex_nibble hex_digit is_separator
hex_nibble-hex_digit v h = (ground arith, ground arith)

-- One hex digit, while there is room for it.
read_digit :
    (v : ℕ) (nibbles rest : Bytes)
    → v < 16
    → length nibbles < 12
    → read_nibbles nibbles (hex_digit v ∷ rest) ≡ read_nibbles (nibbles ++ (v ∷ [])) rest
unfolding read_nibbles push_nibble
read_digit v nibbles rest h room =
    let (value, plain) = hex_nibble-hex_digit v h in
    let open_place : leb 12 (length nibbles) ≡ false = ground arith in
    rw (plain, value, push_nibble, open_place)

read_octet :
    (o : ℕ) (nibbles rest : Bytes)
    → o < 256
    → length nibbles + 1 < 12
    → read_nibbles nibbles (hex_digit (o / 2 ^ 4) ∷ hex_digit (o % 2 ^ 4) ∷ rest)
      ≡ read_nibbles ((nibbles ++ (o / 2 ^ 4 ∷ [])) ++ (o % 2 ^ 4 ∷ [])) rest
read_octet o nibbles rest h room =
    read_digit (o / 2 ^ 4) nibbles (hex_digit (o % 2 ^ 4) ∷ rest) (omega arith) (omega arith)
    ∙ read_digit (o % 2 ^ 4) (nibbles ++ (o / 2 ^ 4 ∷ [])) rest (omega arith)
        (omega (arith, length-append nibbles (o / 2 ^ 4 ∷ [])))

read_colon : (nibbles rest : Bytes) → read_nibbles nibbles (b':' ∷ rest) ≡ read_nibbles nibbles rest
unfolding read_nibbles is_separator
read_colon nibbles rest = refl

-- The nibbles of some octets, high ones first.
abbrev nibbles_of : Bytes → Bytes
nibbles_of [] = []
nibbles_of (o ∷ rest) = o / 2 ^ 4 ∷ o % 2 ^ 4 ∷ nibbles_of rest

length-nibbles_of : (mac : Bytes) → length (nibbles_of mac) ≡ 2 * length mac
length-nibbles_of [] = refl
length-nibbles_of (o ∷ rest) = omega (arith, length-nibbles_of rest)

octets-nibbles_of : (mac : Bytes) → All IsByte mac → octets (nibbles_of mac) ≡ mac
unfolding octets
octets-nibbles_of [] h = refl
octets-nibbles_of (o ∷ rest) (ho, h) = ap₂ ◌∷◌ (omega arith) (octets-nibbles_of rest h)

regroup :
    (xs : Bytes) (a b : ℕ) (ys : Bytes) → ((xs ++ (a ∷ [])) ++ (b ∷ [])) ++ ys ≡ xs ++ (a ∷ b ∷ ys)
regroup xs a b ys = append_assoc (xs ++ (a ∷ [])) (b ∷ []) ys ∙ append_assoc xs (a ∷ []) (b ∷ ys)

read_formatted :
    (mac nibbles : Bytes)
    → All IsByte mac
    → length nibbles + 2 * length mac ≤ 12
    → read_nibbles nibbles (mac_format mac) ≡ some (nibbles ++ nibbles_of mac)
unfolding mac_format
read_formatted [] nibbles h room = unfold read_nibbles in ap some (sym (append-nil nibbles))
read_formatted (o ∷ []) nibbles (ho, h) room =
    read_octet o nibbles [] ho (omega arith)
    ∙ unfold read_nibbles in ap some (append_assoc nibbles (o / 2 ^ 4 ∷ []) (o % 2 ^ 4 ∷ []))
read_formatted (o ∷ p ∷ rest) nibbles (ho, h) room =
    let more = (nibbles ++ (o / 2 ^ 4 ∷ [])) ++ (o % 2 ^ 4 ∷ []) in
    let longer : length more ≡ length nibbles + 2 = omega (
      arith,
      length-append (nibbles ++ (o / 2 ^ 4 ∷ [])) (o % 2 ^ 4 ∷ []),
      length-append nibbles (o / 2 ^ 4 ∷ []),
    ) in
    read_octet o nibbles (b':' ∷ mac_format (p ∷ rest)) ho (omega arith)
    ∙ read_colon more (mac_format (p ∷ rest))
    ∙ read_formatted (p ∷ rest) more h (omega arith)
    ∙ ap some (regroup nibbles (o / 2 ^ 4) (o % 2 ^ 4) (nibbles_of (p ∷ rest)))

-- Parsing what was formatted gives the six octets back.
pub mac_parse-mac_format :
    (mac : Bytes) → All IsByte mac → length mac ≡ 6 → mac_parse (mac_format mac) ≡ some mac
unfolding mac_parse
mac_parse-mac_format mac h six =
    let twelve : (length (nibbles_of mac) == 12) ≡ true =
      (==_iff _ 12).1 (omega (arith, length-nibbles_of mac)) in
    rw (read_formatted mac [] h (omega arith), mac_parse, twelve)
      (ap some (octets-nibbles_of mac h))

-- The text without its separators.
unfoldable pub digits_of : Bytes → Bytes
digits_of [] = []
digits_of (c ∷ text) = if is_separator c then digits_of text else c ∷ digits_of text

bind_congr :
    (m : Option Bytes) (f g : Bytes → Option Bytes)
    → ((x : Bytes) → f x ≡ g x)
    → (m >>= f) ≡ (m >>= g)
bind_congr none f g h = refl
bind_congr (some x) f g h = h x

read_plain :
    (nibbles : Bytes) (c : ℕ) (text : Bytes)
    → is_separator c ≡ false
    → read_nibbles nibbles (c ∷ text)
      ≡ (push_nibble nibbles (hex_nibble c) >>= λ more. read_nibbles more text)
unfolding read_nibbles
read_plain nibbles c text plain = rw plain

digits_plain :
    (c : ℕ) (text : Bytes) → is_separator c ≡ false → digits_of (c ∷ text) ≡ c ∷ digits_of text
unfolding digits_of
digits_plain c text plain = rw plain

skip_separator :
    (nibbles : Bytes) (c : ℕ) (text : Bytes)
    → is_separator c ≡ true
    → (read_nibbles nibbles (c ∷ text) ≡ read_nibbles nibbles text)
      × (digits_of (c ∷ text) ≡ digits_of text)
unfolding read_nibbles digits_of
skip_separator nibbles c text sep = (rw sep, rw sep)

read_nibbles-digits_of :
    (nibbles text : Bytes) → read_nibbles nibbles text ≡ read_nibbles nibbles (digits_of text)
read_nibbles-digits_of nibbles [] = unfold digits_of in refl
read_nibbles-digits_of nibbles (c ∷ text) = elim (Bool-cases (is_separator c)) [
  | inl sep ↦
      let (skipped, dropped) = skip_separator nibbles c text sep in
      skipped ∙ read_nibbles-digits_of nibbles text ∙ ap (read_nibbles nibbles) (sym dropped)
  | inr plain ↦
      read_plain nibbles c text plain
      ∙ bind_congr (push_nibble nibbles (hex_nibble c)) _ _
          (λ more. read_nibbles-digits_of more text)
      ∙ sym (read_plain nibbles c (digits_of text) plain)
      ∙ ap (read_nibbles nibbles) (sym (digits_plain c text plain))
]

-- Separators may stand anywhere and in any number: the text is read as its digits alone.
pub mac_parse-digits_of : (text : Bytes) → mac_parse text ≡ mac_parse (digits_of text)
unfolding mac_parse
mac_parse-digits_of text = rw (read_nibbles-digits_of [] text)

octets_shape : (ns : Bytes) → (length (octets ns) ≡ length ns / 2) × All IsByte (octets ns)
unfolding octets
octets_shape [] = (refl, tt)
octets_shape (x ∷ []) = (refl, tt)
octets_shape (x ∷ y ∷ rest) =
    let (same, bytes) = octets_shape rest in (omega arith, (omega arith, bytes))

-- What is parsed is exactly six octets.
pub mac_parse_shape :
    (text : Bytes) {mac : Bytes} → mac_parse text ≡ some mac → (length mac ≡ 6) × All IsByte mac
unfolding mac_parse
mac_parse_shape text {mac} e =
    let (ns, _, taken) = >>=-eq-some (read_nibbles [] text) _ e in
    let (twelve, same) = picked ns taken in
    let (long, bytes) = octets_shape ns in
    (omega (arith, ap (length {A = ℕ}) same), subst (All IsByte) same bytes)
  where
    picked :
        (ns : Bytes)
        → (if not (length ns == 12) then none else some (octets ns)) ≡ some mac
        → (length ns ≡ 12) × (octets ns ≡ mac)
    picked ns h = ground arith

-- A wakeable address is a unicast one with some octet that is not zero: the test for the
-- broadcast address adds nothing to the test of the group bit.
pub mac_wakeable_iff :
    (o : ℕ) (rest : Bytes)
    → (mac_wakeable (o ∷ rest) ≡ true) ↔ ((o % 2 ≡ 0) × (all_equal 0x00 (o ∷ rest) ≡ false))
unfolding mac_wakeable all_equal
mac_wakeable_iff o rest = (λ h. ground arith, λ (even, some_set). ground arith)
