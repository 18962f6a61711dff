-- ===== src/Usbcfg/Cmdline.antt =====
-- The tokeniser of firmware/src/usbcfg/cmdline.c. A string is its bytes without the NUL.
pub mod Quoted
use roosterwake.Prelude.{
  ℕ, zero, suc, ◌+◌, Bool, true, false, not, ◌||◌, List, Option, none, some, [], ◌∷◌, ltb, ◌==◌,
  if◌then◌else◌, length,
}
use roosterwake.Prelude.Bytes.{Bytes}
use roosterwake.Usbcfg.Command.{Uerr, bad_args, bad_frame, too_long}
use roosterwake.Usbcfg.Utf8.{utf8_valid}

-- What `rw_cmdline_parse` gives: an error, or the arguments.
pub data Cmdline : Type 0 where
  refused : Uerr → Cmdline
  parsed : List Bytes → Cmdline

-- The byte that `*w++ = c` writes stands in front of the rest of its argument.
unfoldable pub push_byte : ℕ → Option (Bytes × Bytes) → Option (Bytes × Bytes)
push_byte c none = none
push_byte c (some r) = some (c ∷ r.0, r.1)

unfoldable pub push_arg : Bytes → Cmdline → Cmdline
push_arg arg (refused e) = refused e
push_arg arg (parsed args) = parsed (arg ∷ args)

-- The bytes that are written with a backslash
unfoldable pub is_escaped : ℕ → Bool
is_escaped c = c == b'"' || c == b'\\'

-- The loop over a quoted argument, behind a backslash or not: the argument, and what follows the closing quote.
unfoldable pub quoted : Bool → Bytes → Option (Bytes × Bytes)
quoted behind [] = none
quoted true (c ∷ s) =
    let rest = quoted false s in if not (is_escaped c) then none else push_byte c rest
quoted false (c ∷ s) =
    let rest = quoted (c == b'\\') s in
    if c == b'\\' then rest else if c == b'"' then some ([], s) else push_byte c rest

-- The loop over a bare argument
unfoldable pub bare : Bytes → Option (Bytes × Bytes)
bare [] = some ([], [])
bare (c ∷ s) =
    let rest = bare s in
    if c == b' ' then some ([], c ∷ s) else if is_escaped c then none else push_byte c rest

-- Only a space or the end may follow a closing quote.
unfoldable pub ends_argument : Bytes → Bool
ends_argument [] = true
ends_argument (c ∷ s) = c == b' '

unfoldable pub check_end : Option (Bytes × Bytes) → Option (Bytes × Bytes)
check_end none = none
check_end (some r) = if ends_argument r.1 then some r else none

-- One argument, which does not begin with a space.
unfoldable pub argument : Bytes → Option (Bytes × Bytes)
argument [] = none
argument (c ∷ s) = if c == b'"' then check_end (quoted false s) else bare (c ∷ s)

unfoldable pub skip_spaces : Bytes → Bytes
skip_spaces [] = []
skip_spaces (c ∷ s) = let rest = skip_spaces s in if c == b' ' then rest else c ∷ s

-- The outer loop of `rw_cmdline_parse`, with the arguments that there is room for.
unfoldable pub arguments : ℕ → Bytes → Cmdline
arguments zero s = if length (skip_spaces s) == 0 then parsed [] else refused bad_args
arguments (suc left) s = elim (argument (skip_spaces s)) [
  | none ↦ if length (skip_spaces s) == 0 then parsed [] else refused bad_frame
  | some r ↦ push_arg r.0 (arguments left r.1)
]

-- `rw_cmdline_parse`; RW_USBCFG_MAX_LINE is 512, RW_USBCFG_MAX_ARGS is 6.
unfoldable pub cmdline_parse : Bytes → Cmdline
cmdline_parse line =
    if ltb 512 (length line + 1)
    then refused too_long
    else if not (utf8_valid line)
    then refused bad_frame
    else arguments 6 line
