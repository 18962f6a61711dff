-- ===== src/Proto/Json/Spelled.antt =====
-- The texts that spell a string in JSON, RFC 8259 section 7, and that the writer's is one of them.
use roosterwake.Prelude.{
  ℕ, ◌+◌, ◌-◌, ◌*◌, ◌/◌, ◌%◌, ◌^◌, ◌≤◌, ◌<◌, ◌≡◌, ◌≢◌, refl, ◌⊎◌, inl, inr, false, Bool-cases, ltb,
  some, [], ◌∷◌, ◌++◌, ◌==◌, arith,
}
use roosterwake.Prelude.Bytes.{Bytes}
use roosterwake.Proto.Hex.{hex_char}
use roosterwake.Proto.Json.{escape, short_escape}

-- All characters of a text, escaped.
unfoldable pub escaped : Bytes → Bytes
escaped [] = []
escaped (c ∷ cs) = escape c ++ escaped cs

-- The letter of a two-character escape and what it stands for
pub data Letter : ℕ → ℕ → Type 0 where
  letter_quote : Letter b'"' b'"'
  letter_backslash : Letter b'\\' b'\\'
  letter_slash : Letter b'/' b'/'
  letter_b : Letter b'b' 8
  letter_f : Letter b'f' 12
  letter_n : Letter b'n' 10
  letter_r : Letter b'r' 13
  letter_t : Letter b't' 9

-- A hexadecimal digit and its value
pub data Digit (c v : ℕ) : Type 0 where
  numeral : c ≡ 48 + v → v < 10 → Digit c v
  lower_case : c ≡ 87 + v → 10 ≤ v → v < 16 → Digit c v
  upper_case : c ≡ 55 + v → 10 ≤ v → v < 16 → Digit c v

-- A string and a text that spells it between quotes: no quote, backslash or control character stands for itself,
-- and an escape is one of the eight letters or the four digits of an ASCII character.
pub data Spells : Bytes → Bytes → Type 0 where
  over : Spells [] []
  plain :
      (c : ℕ) (s text : Bytes)
      → 0x20 ≤ c
      → c ≢ b'"'
      → c ≢ b'\\'
      → Spells s text
      → Spells (c ∷ s) (c ∷ text)
  letter :
      (e c : ℕ) (s text : Bytes) → Letter e c → Spells s text → Spells (c ∷ s) (b'\\' ∷ e ∷ text)
  code :
      (h3 h2 h1 h0 v3 v2 v1 v0 c : ℕ) (s text : Bytes)
      → Digit h3 v3
      → Digit h2 v2
      → Digit h1 v1
      → Digit h0 v0
      → c ≡ v3 * 4096 + v2 * 256 + v1 * 16 + v0
      → c < 0x80
      → Spells s text
      → Spells (c ∷ s) (b'\\' ∷ b'u' ∷ h3 ∷ h2 ∷ h1 ∷ h0 ∷ text)

pub data Short : ℕ → Type 0 where
  quote : Short b'"'
  backslash : Short b'\\'
  backspace : Short 8
  form_feed : Short 12
  line_feed : Short 10
  carriage_return : Short 13
  tab : Short 9

pub escape-Letter :
    (c : ℕ)
    → Short c
    → (e : ℕ) × (escape c ≡ b'\\' ∷ e ∷ [])
      × (short_escape e ≡ some c)
      × ((e == b'u') ≡ false)
      × Letter e c
unfolding escape short_escape
escape-Letter _ quote = (b'"', refl, refl, refl, letter_quote)
escape-Letter _ backslash = (b'\\', refl, refl, refl, letter_backslash)
escape-Letter _ backspace = (b'b', refl, refl, refl, letter_b)
escape-Letter _ form_feed = (b'f', refl, refl, refl, letter_f)
escape-Letter _ line_feed = (b'n', refl, refl, refl, letter_n)
escape-Letter _ carriage_return = (b'r', refl, refl, refl, letter_r)
escape-Letter _ tab = (b't', refl, refl, refl, letter_t)

escape_split :
    (c : ℕ)
    → ((c ≡ b'"') ⊎ (c ≡ b'\\') ⊎ (c ≡ 8) ⊎ (c ≡ 12) ⊎ (c ≡ 10) ⊎ (c ≡ 13) ⊎ (c ≡ 9))
      ⊎ ((escape c ≡ c ∷ []) × ((c == b'\\') ≡ false) × (0x20 ≤ c) × (c ≢ b'"'))
      ⊎ ((c < 0x20)
          × (escape c
              ≡ b'\\' ∷ b'u' ∷ b'0' ∷ b'0' ∷ hex_char (c / 2 ^ 4) ∷ hex_char (c % 2 ^ 4) ∷ []))
unfolding escape
escape_split c = ground arith

-- A character is written with a short escape, as it is, or, where it is below 32, with its code.
pub escape_cases :
    (c : ℕ)
    → Short c
      ⊎ ((escape c ≡ c ∷ []) × ((c == b'\\') ≡ false) × (0x20 ≤ c) × (c ≢ b'"'))
      ⊎ ((c < 0x20)
          × (escape c
              ≡ b'\\' ∷ b'u' ∷ b'0' ∷ b'0' ∷ hex_char (c / 2 ^ 4) ∷ hex_char (c % 2 ^ 4) ∷ []))
escape_cases c = elim (escape_split c) [
  | inl (inl h) ↦ inl (rw h quote)
  | inl (inr (inl h)) ↦ inl (rw h backslash)
  | inl (inr (inr (inl h))) ↦ inl (rw h backspace)
  | inl (inr (inr (inr (inl h)))) ↦ inl (rw h form_feed)
  | inl (inr (inr (inr (inr (inl h))))) ↦ inl (rw h line_feed)
  | inl (inr (inr (inr (inr (inr (inl h)))))) ↦ inl (rw h carriage_return)
  | inl (inr (inr (inr (inr (inr (inr h)))))) ↦ inl (rw h tab)
  | inr h ↦ inr h
]

hex_char-Digit : (v : ℕ) → v < 16 → Digit (hex_char v) v
unfolding hex_char
hex_char-Digit v h = elim (Bool-cases (ltb v 10)) [
  | inl low ↦ rw low (numeral refl (ground arith))
  | inr high ↦
      let ten : 10 ≤ v = ground arith in
      let sum : 97 + (v - 10) ≡ 87 + v = omega (arith, ten) in rw high (lower_case sum ten h)
]

escape-Spells : (c : ℕ) (s text : Bytes) → Spells s text → Spells (c ∷ s) (escape c ++ text)
escape-Spells c s text rest = elim (escape_cases c) [
  | inl short ↦
      let (e, two, _, _, stands) = escape-Letter c short in rw two (letter e c s text stands rest)
  | inr (inl (same, apart, visible, unquoted)) ↦
      rw same (plain c s text visible unquoted (λ h. ground arith) rest)
  | inr (inr (small, text_of)) ↦ rw text_of (
      code b'0' b'0' (hex_char (c / 2 ^ 4)) (hex_char (c % 2 ^ 4)) 0 0 (c / 2 ^ 4) (c % 2 ^ 4) c s
        text (numeral refl (omega arith)) (numeral refl (omega arith))
        (hex_char-Digit (c / 2 ^ 4) (omega arith)) (hex_char-Digit (c % 2 ^ 4) (omega arith))
        (omega arith) (omega arith) rest)
]

pub escaped-Spells : (s : Bytes) → Spells s (escaped s)
unfolding escaped
escaped-Spells [] = over
escaped-Spells (c ∷ cs) = escape-Spells c cs (escaped cs) (escaped-Spells cs)
