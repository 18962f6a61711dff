-- ===== src/Proto/Json/Escaped.antt =====
-- A string that is written as JSON reads back.
use roosterwake.Prelude.{
  ℕ, zero, suc, ◌+◌, ◌*◌, ◌/◌, ◌%◌, ◌^◌, ◌≤◌, ◌<◌, ◌≡◌, refl, sym, ap, ◌∙◌, inl, inr, true, false,
  some, [], ◌∷◌, ◌++◌, ◌==◌, length, length-append, append_assoc, append_nil, arith,
}
use roosterwake.Prelude.Bytes.{Bytes}
use roosterwake.Proto.Hex.{hex_char}
use roosterwake.Proto.Json.Spelled.{escaped, escape-Letter, escape_cases, Spells, escaped-Spells}
use roosterwake.Proto.Json.{
  JsonWriter, put, jw_raw, escape, jw_chars, jw_str, Token, string, is_string, token_text,
  hex4_digit, hex4, utf8, short_escape, code_point, unescape, json_str,
}

-- A writer that has room for a text takes it whole.
module _ (w : JsonWriter) (fine : w.ok ≡ true) where
  put_fits : (c : ℕ) → length w.text + 1 < w.cap → put w c ≡ record w { text = w.text ++ (c ∷ []) }
  unfolding put
  put_fits c room = ground arith

with_text : JsonWriter → Bytes → JsonWriter
with_text w text = record w { text = text }

raw_fits :
    (w : JsonWriter) (s : Bytes)
    → w.ok ≡ true
    → length w.text + length s < w.cap
    → jw_raw w s ≡ with_text w (w.text ++ s)
unfolding jw_raw with_text
raw_fits w [] fine room = ap (λ t. record w { text = t }) (sym (append_nil w.text))
raw_fits w (c ∷ cs) fine room =
    let longer = length-append w.text (c ∷ []) in
    rw (put_fits w fine c (omega arith)) (
      raw_fits (record w { text = w.text ++ (c ∷ []) }) cs fine (omega arith)
      ∙ ap (λ t. record w { text = t }) (append_assoc w.text (c ∷ []) cs))

chars_fit :
    (w : JsonWriter) (s : Bytes)
    → w.ok ≡ true
    → length w.text + length (escaped s) < w.cap
    → jw_chars w s ≡ with_text w (w.text ++ escaped s)
unfolding jw_chars with_text escaped
chars_fit w [] fine room = ap (λ t. record w { text = t }) (sym (append_nil w.text))
chars_fit w (c ∷ cs) fine room =
    let size = length-append (escape c) (escaped cs) in
    let longer = length-append w.text (escape c) in
    rw (raw_fits w (escape c) fine (omega arith)) (
      chars_fit (record w { text = w.text ++ escape c }) cs fine (omega arith)
      ∙ ap (λ t. record w { text = t }) (append_assoc w.text (escape c) (escaped cs)))

str_fits :
    (w : JsonWriter) (s : Bytes)
    → w.ok ≡ true
    → length w.text + length (escaped s) + 2 < w.cap
    → jw_str w s ≡ with_text w (w.text ++ (b'"' ∷ (escaped s ++ (b'"' ∷ []))))
unfolding jw_str with_text
str_fits w s fine room =
    let opened = length-append w.text (b'"' ∷ []) in
    let inside = length-append (w.text ++ (b'"' ∷ [])) (escaped s) in
    rw
      (
        put_fits w fine b'"' (omega arith),
        chars_fit (record w { text = w.text ++ (b'"' ∷ []) }) s fine (omega arith),
      )
      (put_fits (record w { text = (w.text ++ (b'"' ∷ [])) ++ escaped s }) fine b'"' (omega arith)
        ∙ ap (λ t. record w { text = t })
            (append_assoc (w.text ++ (b'"' ∷ [])) (escaped s) (b'"' ∷ [])
              ∙ append_assoc w.text (b'"' ∷ []) (escaped s ++ (b'"' ∷ []))))

digit_read : (v : ℕ) → v < 16 → hex4_digit (hex_char v) ≡ some v
unfolding hex4_digit hex_char
digit_read v h = ground arith

code_read :
    (c : ℕ) (rest : Bytes)
    → c < 0x20
    → code_point (b'0' ∷ b'0' ∷ hex_char (c / 2 ^ 4) ∷ hex_char (c % 2 ^ 4) ∷ rest) ≡ some (c, rest)
unfolding code_point hex4 hex4_digit
code_read c rest h =
    let high = digit_read (c / 2 ^ 4) (omega arith) in
    let low = digit_read (c % 2 ^ 4) (omega arith) in
    let sum : 0 * 2 ^ 12 + 0 * 2 ^ 8 + c / 2 ^ 4 * 2 ^ 4 + c % 2 ^ 4 ≡ c = omega arith in
    rw (high, low, sum) (ground arith)

one_byte : (c : ℕ) → c < 0x80 → utf8 c ≡ c ∷ []
unfolding utf8
one_byte c h = ground arith

short_read :
    (fuel e c : ℕ) (rest : Bytes) (out_len : ℕ) (out : Bytes)
    → length out + 1 < out_len
    → short_escape e ≡ some c
    → (e == b'u') ≡ false
    → unescape (suc fuel) (b'\\' ∷ e ∷ rest) out_len out
      ≡ unescape fuel rest out_len (out ++ (c ∷ []))
unfolding unescape
short_read fuel e c rest out_len out room read other = rw (other, read) (ground arith)

plain_read :
    (fuel c : ℕ) (rest : Bytes) (out_len : ℕ) (out : Bytes)
    → length out + 1 < out_len
    → (c == b'\\') ≡ false
    → unescape (suc fuel) (c ∷ rest) out_len out ≡ unescape fuel rest out_len (out ++ (c ∷ []))
unfolding unescape
plain_read fuel c rest out_len out room other = rw other (ground arith)

code_char :
    (fuel c : ℕ) (rest : Bytes) (out_len : ℕ) (out : Bytes)
    → length out + 1 < out_len
    → c < 0x20
    → unescape
        (suc fuel)
        (b'\\' ∷ b'u' ∷ b'0' ∷ b'0' ∷ hex_char (c / 2 ^ 4) ∷ hex_char (c % 2 ^ 4) ∷ rest)
        out_len
        out
      ≡ unescape fuel rest out_len (out ++ (c ∷ []))
unfolding unescape
code_char fuel c rest out_len out room small =
    let one : utf8 c ≡ c ∷ [] = one_byte c (omega arith) in
    rw (code_read c rest small, one) (ground arith)

-- Reading goes over one escaped character in one round.
unescape_char :
    (fuel c : ℕ) (rest : Bytes) (out_len : ℕ) (out : Bytes)
    → length out + 1 < out_len
    → unescape (suc fuel) (escape c ++ rest) out_len out
      ≡ unescape fuel rest out_len (out ++ (c ∷ []))
unescape_char fuel c rest out_len out room = elim (escape_cases c) [
  | inl s ↦
      let (e, code, read, other, _) = escape-Letter c s in
      rw code (short_read fuel e c rest out_len out room read other)
  | inr (inl (same, other, _, _)) ↦ rw same (plain_read fuel c rest out_len out room other)
  | inr (inr (small, code)) ↦ rw code (code_char fuel c rest out_len out room small)
]

nothing_left : (fuel out_len : ℕ) (out : Bytes) → unescape fuel [] out_len out ≡ some out
unfolding unescape
nothing_left zero out_len out = refl
nothing_left (suc fuel) out_len out = refl

unescape-escaped :
    (fuel : ℕ) (s : Bytes) (out_len : ℕ) (out : Bytes)
    → length s ≤ fuel
    → length out + length s < out_len
    → unescape fuel (escaped s) out_len out ≡ some (out ++ s)
unfolding escaped
unescape-escaped fuel [] out_len out h room =
    nothing_left fuel out_len out ∙ ap some (sym (append_nil out))
unescape-escaped zero (c ∷ cs) out_len out h room = absurd (omega arith)
unescape-escaped (suc fuel) (c ∷ cs) out_len out h room =
    let longer = length-append out (c ∷ []) in
    unescape_char fuel c (escaped cs) out_len out (omega arith)
    ∙ unescape-escaped fuel cs out_len (out ++ (c ∷ [])) (omega arith) (omega arith)
    ∙ ap some (append_assoc out (c ∷ []) cs)

length-escape : (c : ℕ) → 1 ≤ length (escape c)
unfolding escape
length-escape c = ground arith

length-escaped : (s : Bytes) → length s ≤ length (escaped s)
unfolding escaped
length-escaped [] = omega arith
length-escaped (c ∷ cs) =
    omega (arith, length-append (escape c) (escaped cs), length-escape c, length-escaped cs)

string_read :
    (js : Bytes) (tok : Token) (out_len : ℕ)
    → is_string tok.type ≡ true
    → 0 < out_len
    → json_str js tok out_len ≡ unescape (length (token_text js tok)) (token_text js tok) out_len []
unfolding json_str
string_read js tok out_len kind h = ground arith

-- What `rw_jw_str` adds to a writer with room for it is a quote, a text that spells the string in JSON and a quote, and
-- from a string token of that text `rw_json_str` reads the string back into any buffer that holds it.
pub json_str-jw_str :
    (w : JsonWriter) (s js : Bytes) (tok : Token) (out_len : ℕ)
    → w.ok ≡ true
    → length w.text + length (escaped s) + 2 < w.cap
    → tok.type ≡ string
    → token_text js tok ≡ escaped s
    → length s < out_len
    → ((jw_str w s).ok ≡ true)
      × ((jw_str w s).text ≡ w.text ++ (b'"' ∷ (escaped s ++ (b'"' ∷ []))))
      × Spells s (escaped s)
      × (json_str js tok out_len ≡ some s)
unfolding with_text is_string
json_str-jw_str w s js tok out_len fine room kind text fits =
    let written = str_fits w s fine room in
    (
      ap (λ x. x.ok) written ∙ fine,
      ap (λ x. x.text) written,
      escaped-Spells s,
      string_read js tok out_len (ap is_string kind) (omega arith)
          ∙ ap (λ t. unescape (length t) t out_len []) text
          ∙ unescape-escaped (length (escaped s)) s out_len [] (length-escaped s) (omega arith),
    )
