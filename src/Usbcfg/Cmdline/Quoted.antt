-- ===== src/Usbcfg/Cmdline/Quoted.antt =====
-- The tokeniser reads back what is quoted for it, firmware/src/usbcfg/cmdline.c.
use roosterwake.Prelude.{
  ℕ, zero, suc, ◌+◌, ◌≤◌, true, false, Bool-cases, List, some, [], ◌∷◌, ltb, ◌==◌, if◌then◌else◌,
  length, ◌≡◌, refl, inl, inr, arith,
}
use roosterwake.Prelude.Bytes.{Bytes}
use roosterwake.Usbcfg.Cmdline.{
  parsed, push_byte, push_arg, is_escaped, quoted, ends_argument, check_end, argument, skip_spaces,
  arguments, cmdline_parse,
}
use roosterwake.Usbcfg.Utf8.{utf8_valid}

-- An argument, args a host quotes it, in front of the rest of the line.
unfoldable pub quote_bytes : Bytes → Bytes → Bytes
quote_bytes [] rest = b'"' ∷ rest
quote_bytes (c ∷ s) rest =
    let more = quote_bytes s rest in if is_escaped c then b'\\' ∷ c ∷ more else c ∷ more

-- A line of quoted arguments, with a space behind each.
unfoldable pub quote_line : List Bytes → Bytes
quote_line [] = []
quote_line (a ∷ args) = b'"' ∷ quote_bytes a (b' ' ∷ quote_line args)

quoted-quote_bytes : (a rest : Bytes) → quoted false (quote_bytes a rest) ≡ some (a, rest)
unfolding quoted quote_bytes push_byte is_escaped
quoted-quote_bytes [] rest = refl
quoted-quote_bytes (c ∷ s) rest = elim (Bool-cases (is_escaped c)) [
  | inl special ↦ rw (special, special, quoted-quote_bytes s rest) refl
  | inr plain ↦
      let no_backslash : (c == b'\\') ≡ false = ground arith in
      let no_quote : (c == b'"') ≡ false = ground arith in
      rw (plain, no_backslash, no_quote, quoted-quote_bytes s rest) refl
]

skip_spaces-quote_line :
    (args : List Bytes) → skip_spaces (b' ' ∷ quote_line args) ≡ quote_line args
unfolding skip_spaces quote_line
skip_spaces-quote_line [] = refl
skip_spaces-quote_line (a ∷ args) = refl

unspaced : (args : List Bytes) → skip_spaces (quote_line args) ≡ quote_line args
unfolding skip_spaces quote_line
unspaced [] = refl
unspaced (a ∷ args) = refl

arguments-quote_line :
    (left : ℕ) (args : List Bytes)
    → length args ≤ left
    → (s : Bytes) → skip_spaces s ≡ quote_line args
    → arguments left s ≡ parsed args
unfolding arguments quote_line argument check_end ends_argument push_arg
arguments-quote_line zero [] room s e = rw (e, arguments) refl
arguments-quote_line zero (a ∷ args) room s e = elim room [ ]
arguments-quote_line (suc left) [] room s e = rw (e, arguments, e) refl
arguments-quote_line (suc left) (a ∷ args) room s e =
    let rest =
      arguments-quote_line left args (omega (arith, room)) (b' ' ∷ quote_line args)
        (skip_spaces-quote_line args) in
    rw (e, arguments, quoted-quote_bytes a (b' ' ∷ quote_line args), rest) refl

-- A line of at most six quoted arguments that is UTF-8 and shorter than 512 bytes is parsed into those arguments.
pub cmdline_parse-quote_line :
    (args : List Bytes)
    → length args ≤ 6
    → length (quote_line args) ≤ 511
    → utf8_valid (quote_line args) ≡ true
    → cmdline_parse (quote_line args) ≡ parsed args
unfolding cmdline_parse
cmdline_parse-quote_line args few short valid =
    let fits : ltb 512 (length (quote_line args) + 1) ≡ false = ground (arith, short) in
    rw (fits, valid) (arguments-quote_line 6 args few (quote_line args) (unspaced args))
