-- ===== src/Proto/Json.antt =====
-- JSON, firmware/src/proto/json.c: the bounded writer and the readers. The tokens are those of jsmn, a
-- parameter: a token's text is given with it. A string is its bytes without the NUL.
pub mod Escaped
pub mod Spelled
use roosterwake.Prelude.{
  ℕ, zero, suc, ◌+◌, ◌-◌, ◌*◌, ◌/◌, ◌%◌, ◌^◌, Bool, true, false, not, ◌&&◌, ◌||◌, Option, none,
  some, List, [], ◌∷◌, ◌++◌, ltb, leb, ◌==◌, if◌then◌else◌, length, take, drop,
}
use roosterwake.Prelude.Bytes.{Bytes, eq_bytes, slice}
use roosterwake.Prelude.Options.{◌>>=◌}
use roosterwake.Prelude.Decimal.{ℤ, pos, negsuc, decimal, signed_decimal}
use roosterwake.Proto.Hex.{hex_char}

-- `rw_jw_t`, with the first `len` bytes of the buffer
pub record JsonWriter : Type 0 where
  pub cap : ℕ
  pub text : Bytes
  pub ok : Bool

-- `rw_jw_init`
abbrev pub jw_init : ℕ → JsonWriter
jw_init cap = record { cap = cap; text = []; ok = ltb 0 cap }

-- `put`
unfoldable pub put : JsonWriter → ℕ → JsonWriter
put w c =
    if not w.ok
    then w
    else if leb w.cap (length w.text + 1)
    then record w { ok = false }
    else record w { text = w.text ++ (c ∷ []) }

-- `rw_jw_raw`
unfoldable pub jw_raw : JsonWriter → Bytes → JsonWriter
jw_raw w [] = w
jw_raw w (c ∷ cs) = jw_raw (put w c) cs

-- What the switch of `rw_jw_str` writes for a character.
unfoldable pub escape : ℕ → Bytes
escape c =
    if c == b'"'
    then b'\\' ∷ b'"' ∷ []
    else if c == b'\\'
    then b'\\' ∷ b'\\' ∷ []
    else if c == 8
    then b'\\' ∷ b'b' ∷ []
    else if c == 12
    then b'\\' ∷ b'f' ∷ []
    else if c == 10
    then b'\\' ∷ b'n' ∷ []
    else if c == 13
    then b'\\' ∷ b'r' ∷ []
    else if c == 9
    then b'\\' ∷ b't' ∷ []
    else if ltb c 0x20
    then b'\\' ∷ b'u' ∷ b'0' ∷ b'0' ∷ hex_char (c / 2 ^ 4) ∷ hex_char (c % 2 ^ 4) ∷ []
    else c ∷ []

-- The loop of `rw_jw_str`
unfoldable pub jw_chars : JsonWriter → Bytes → JsonWriter
jw_chars w [] = w
jw_chars w (c ∷ cs) = jw_chars (jw_raw w (escape c)) cs

-- `rw_jw_str`
unfoldable pub jw_str : JsonWriter → Bytes → JsonWriter
jw_str w s = put (jw_chars (put w b'"') s) b'"'

-- `rw_jw_key`
unfoldable pub jw_key : JsonWriter → Bytes → JsonWriter
jw_key w key = put (jw_str w key) b':'

-- `rw_jw_int`
unfoldable pub jw_int : JsonWriter → ℤ → JsonWriter
jw_int w value = jw_raw w (signed_decimal value)

-- The end of a text without its zeros.
unfoldable pub drop_zeros : Bytes → Bytes
drop_zeros [] = []
drop_zeros (c ∷ cs) =
    let rest = drop_zeros cs in if length rest == 0 && c == b'0' then [] else c ∷ rest

-- What `rw_jw_milli` prints of an absolute value.
unfoldable pub milli_text : ℕ → Bytes
milli_text a =
    if a % 1000 == 0
    then decimal (a / 1000)
    else decimal (a / 1000)
      ++ (b'.'
          ∷ drop_zeros ((b'0' + a % 1000 / 100) ∷ (b'0' + a % 100 / 10) ∷ (b'0' + a % 10) ∷ []))

-- `rw_jw_milli`
unfoldable pub jw_milli : JsonWriter → ℤ → JsonWriter
jw_milli w (pos a) = jw_raw w (milli_text a)
jw_milli w (negsuc a) = jw_raw w (b'-' ∷ milli_text (a + 1))

-- `rw_jw_finish`: the text, or `none` for 0.
unfoldable pub jw_finish : JsonWriter → Option Bytes
jw_finish w = if not w.ok then none else some w.text

-- `jsmntype_t`
pub data TokenType : Type 0 where
  undefined object array string primitive : TokenType

-- `jsmntok_t`
pub record Token : Type 0 where
  pub type : TokenType
  pub start : ℕ
  pub end : ℕ
  pub size : ℕ

unfoldable pub is_object : TokenType → Bool
is_object object = true
is_object _ = false

unfoldable pub is_string : TokenType → Bool
is_string string = true
is_string _ = false

unfoldable pub is_primitive : TokenType → Bool
is_primitive primitive = true
is_primitive _ = false

unfoldable pub token_text : Bytes → Token → Bytes
token_text js tok = slice js tok.start (tok.end - tok.start)

-- The loop of `rw_json_skip` over the tokens behind the subtree's root.
unfoldable pub skip_inside : List Token → ℕ → ℕ → ℕ
skip_inside [] stop end = end
skip_inside (t ∷ ts) stop end =
    let more = skip_inside ts stop (end + 1) in if leb stop t.start then end else more

-- `rw_json_skip`
unfoldable pub json_skip : List Token → ℕ → ℕ
json_skip tokens index = elim (drop index tokens) [
  | [] ↦ length tokens
  | root ∷ rest ↦ skip_inside rest root.end (index + 1)
]

-- `rw_json_eq`
unfoldable pub json_eq : Bytes → Token → Bytes → Bool
json_eq js tok literal =
    if not (is_string tok.type) && not (is_primitive tok.type)
    then false
    else eq_bytes (token_text js tok) literal

-- The loop of `rw_json_find`, with the keys that are left; -1 is `none`.
unfoldable pub find_key : Bytes → List Token → Bytes → ℕ → ℕ → Option ℕ
find_key js tokens key zero i = none
find_key js tokens key (suc n) i =
    let rest = find_key js tokens key n (json_skip tokens (i + 1)) in
    elim (drop i tokens) [
      | [] ↦ none
      | t ∷ _ ↦
          if leb (length tokens) (i + 1)
          then none
          else if json_eq js t key
          then some (i + 1)
          else rest
    ]

-- `rw_json_find`
unfoldable pub json_find : Bytes → List Token → Bytes → Option ℕ
json_find js [] key = none
json_find js (root ∷ rest) key =
    if not (is_object root.type) then none else find_key js (root ∷ rest) key root.size 1

-- A digit of `hex4`
unfoldable pub hex4_digit : ℕ → Option ℕ
hex4_digit c =
    if leb b'0' c && leb c b'9'
    then some (c - b'0')
    else if leb b'a' c && leb c b'f'
    then some (c - b'a' + 10)
    else if leb b'A' c && leb c b'F'
    then some (c - b'A' + 10)
    else none

-- `hex4`, with `none` for -1; fewer than four characters do not occur.
unfoldable pub hex4 : Bytes → Option ℕ
hex4 (a ∷ b ∷ c ∷ d ∷ _) = do
  v3 ← hex4_digit a
  v2 ← hex4_digit b
  v1 ← hex4_digit c
  v0 ← hex4_digit d
  some (v3 * 2 ^ 12 + v2 * 2 ^ 8 + v1 * 2 ^ 4 + v0)
hex4 _ = none

-- The bytes of `put_utf8`
unfoldable pub utf8 : ℕ → Bytes
utf8 cp =
    if ltb cp 0x80
    then cp ∷ []
    else if ltb cp 0x800
    then (0xC0 + cp / 2 ^ 6) ∷ (0x80 + cp % 2 ^ 6) ∷ []
    else if ltb cp 0x10000
    then (0xE0 + cp / 2 ^ 12) ∷ (0x80 + cp / 2 ^ 6 % 2 ^ 6) ∷ (0x80 + cp % 2 ^ 6) ∷ []
    else (0xF0 + cp / 2 ^ 18)
      ∷ (0x80 + cp / 2 ^ 12 % 2 ^ 6)
      ∷ (0x80 + cp / 2 ^ 6 % 2 ^ 6)
      ∷ (0x80 + cp % 2 ^ 6)
      ∷ []

-- The character of a short escape
unfoldable pub short_escape : ℕ → Option ℕ
short_escape c =
    if c == b'"' || c == b'\\' || c == b'/'
    then some c
    else if c == b'b'
    then some 8
    else if c == b'f'
    then some 12
    else if c == b'n'
    then some 10
    else if c == b'r'
    then some 13
    else if c == b't'
    then some 9
    else none

-- The code point of a `\u` escape, from what follows the `u`, and what follows the escape.
unfoldable pub code_point : Bytes → Option (ℕ × Bytes)
code_point p = if ltb (length p) 4 then none else do
  hi ← hex4 p
  if leb 0xD800 hi && leb hi 0xDBFF
      then (if ltb (length p) 10 || not (eq_bytes (slice p 4 2) (b'\\' ∷ b'u' ∷ []))
          then none
          else do
            lo ← hex4 (drop 6 p)
            if ltb lo 0xDC00 || ltb 0xDFFF lo
                then none
                else some (0x10000 + (hi - 0xD800) * 2 ^ 10 + (lo - 0xDC00), drop 10 p))
      else if leb 0xDC00 hi && leb hi 0xDFFF
      then none
      else some (hi, drop 4 p)

-- The loop of `rw_json_str`: what is written so far goes in front. A round takes a character at least.
unfoldable pub unescape : ℕ → Bytes → ℕ → Bytes → Option Bytes
unescape fuel [] out_len out = some out
unescape zero (p ∷ rest) out_len out = none
unescape (suc fuel) (p ∷ rest) out_len out =
    let plain = unescape fuel rest out_len (out ++ (p ∷ [])) in
    if not (p == b'\\') then (if leb out_len (length out + 1) then none else plain) else elim rest [
      | [] ↦ none
      | c ∷ more ↦
          if c == b'u'
          then (code_point more >>= λ r.
              (if leb out_len (length out + length (utf8 r.0))
                then none
                else unescape fuel r.1 out_len (out ++ utf8 r.0)))
          else (short_escape c >>= λ simple.
              (if leb out_len (length out + 1)
                then none
                else unescape fuel more out_len (out ++ (simple ∷ []))))
    ]

-- `rw_json_str`
unfoldable pub json_str : Bytes → Token → ℕ → Option Bytes
json_str js tok out_len =
    if not (is_string tok.type) || out_len == 0
    then none
    else unescape (length (token_text js tok)) (token_text js tok) out_len []

-- The loop of `rw_json_int`
unfoldable pub int_digits : ℕ → ℕ → Bytes → Option ℕ
int_digits limit value [] = some value
int_digits limit value (c ∷ cs) =
    let rest = int_digits limit (value * 10 + (c - b'0')) cs in
    if ltb c b'0' || ltb b'9' c
    then none
    else if ltb limit (value * 10 + (c - b'0'))
    then none
    else rest

-- `-(long)value`
unfoldable pub negative : ℕ → ℤ
negative zero = pos 0
negative (suc n) = negsuc n

-- `rw_json_int`
unfoldable pub json_int : Bytes → Token → Option ℤ
json_int js tok = if not (is_primitive tok.type) then none else elim (token_text js tok) [
  | [] ↦ none
  | c ∷ cs ↦
      if (c == b'-' || c == b'+') && length cs == 0
      then none
      else if c == b'-'
      then (int_digits 2147483648 0 cs >>= λ v. some (negative v))
      else if c == b'+'
      then (int_digits 2147483647 0 cs >>= λ v. some (pos v))
      else (int_digits 2147483647 0 (c ∷ cs) >>= λ v. some (pos v))
]

-- "true"
abbrev pub true_text : Bytes
true_text = b't' ∷ b'r' ∷ b'u' ∷ b'e' ∷ []

-- `rw_json_is_true`
unfoldable pub json_is_true : Bytes → Token → Bool
json_is_true js tok = is_primitive tok.type && json_eq js tok true_text
