-- ===== src/Net/Url.antt =====
-- WebSocket URLs, firmware/src/net/url.c. A string is its bytes without the NUL, none of which is 0.
pub mod Parsed
pub mod Plaintext
use roosterwake.Prelude.{
  ℕ, zero, suc, ◌+◌, ◌-◌, ◌*◌, ◌%◌, ◌^◌, Bool, true, false, not, ◌&&◌, ◌||◌, Option, none, some, [],
  ◌∷◌, ◌++◌, ltb, leb, ◌==◌, if◌then◌else◌, length, take, drop,
}
use roosterwake.Prelude.Bytes.{Bytes, eq_bytes}
use roosterwake.Prelude.Options.{◌>>=◌}

-- `rw_url_t`, its strings without their NUL
pub record Url : Type 0 where
  pub tls : Bool
  pub host : Bytes
  pub port : ℕ
  pub path : Bytes

-- `copy_bounded`
unfoldable pub copy_bounded : ℕ → Bytes → Option Bytes
copy_bounded dst_size src = if leb dst_size (length src) then none else some src

-- The loop of `parse_u16`, with the value so far.
unfoldable pub read_digits : ℕ → Bytes → Option ℕ
read_digits v [] = some v
read_digits v (c ∷ cs) =
    let rest = read_digits (v * 10 + (c - 48)) cs in
    if ltb c 48 || ltb 57 c then none else if ltb 65535 (v * 10 + (c - 48)) then none else rest

-- `parse_u16`
unfoldable pub parse_u16 : Bytes → Option ℕ
parse_u16 s =
    if length s == 0 || ltb 5 (length s)
    then none
    else (read_digits 0 s >>= λ v. if v == 0 then none else some v)

-- `strncmp(url, prefix, length prefix) == 0`, and what follows the prefix
unfoldable pub after_prefix : Bytes → Bytes → Option Bytes
after_prefix [] s = some s
after_prefix (c ∷ cs) [] = none
after_prefix (c ∷ cs) (d ∷ ds) = let rest = after_prefix cs ds in if c == d then rest else none

-- '/', '?' and '#' end the authority.
unfoldable pub ends_authority : ℕ → Bool
ends_authority c = c == 47 || c == 63 || c == 35

-- The bytes before the first that meets the test.
unfoldable pub before : (ℕ → Bool) → Bytes → Bytes
before p [] = []
before p (c ∷ cs) = if p c then [] else c ∷ before p cs

-- `memchr(s, c, length s) != NULL`
unfoldable pub contains : ℕ → Bytes → Bool
contains c [] = false
contains c (d ∷ ds) = d == c || contains c ds

unfoldable pub begins_with : ℕ → Bytes → Bool
begins_with c [] = false
begins_with c (d ∷ ds) = d == c

-- The request target from what follows the authority.
unfoldable pub request_path : Bytes → Option Bytes
request_path [] = some (47 ∷ [])
request_path (c ∷ cs) =
    let target = before (◌== 35) (c ∷ cs) in
    if c == 35
    then some (47 ∷ [])
    else if c == 63
    then (if leb 128 (length target + 1) then none else some (47 ∷ target))
    else copy_bounded 128 target

-- The port behind the first ':', where there is one.
unfoldable pub read_port : ℕ → Bytes → Option ℕ
read_port default_port authority =
    if contains 58 authority
    then parse_u16 (drop (length (before (◌== 58) authority) + 1) authority)
    else some default_port

-- What follows the scheme.
unfoldable pub parse_rest : Bool → ℕ → Bytes → Option Url
parse_rest tls default_port p =
    let authority = before ends_authority p in
    if length authority == 0
    then none
    else if contains 64 authority
    then none
    else if begins_with 91 authority
    then none
    else do
      port ← read_port default_port authority
      if length (before (◌== 58) authority) == 0 then none else do
        host ← copy_bounded 128 (before (◌== 58) authority)
        path ← request_path (drop (length authority) p)
        some (record { tls = tls; host = host; port = port; path = path })

-- "wss://" and "ws://"
abbrev pub wss_scheme : Bytes
wss_scheme = 119 ∷ 115 ∷ 115 ∷ 58 ∷ 47 ∷ 47 ∷ []

abbrev pub ws_scheme : Bytes
ws_scheme = 119 ∷ 115 ∷ 58 ∷ 47 ∷ 47 ∷ []

-- `rw_url_parse`; a NULL `url` is `none`.
unfoldable pub url_parse : Option Bytes → Option Url
url_parse none = none
url_parse (some url) = elim (after_prefix wss_scheme url) [
  | some p ↦ parse_rest true 443 p
  | none ↦ elim (after_prefix ws_scheme url) [ some p ↦ parse_rest false 80 p | none ↦ none ]
]

-- The loop of `parse_ipv4` from a byte on: the octets so far, and the digits and value of the next.
unfoldable pub read_octets : Bytes → Bytes → ℕ → ℕ → Option Bytes
read_octets [] octets digits value =
    if digits == 0 || ltb 3 (length octets)
    then none
    else if length octets + 1 == 4
    then some (octets ++ (value ∷ []))
    else none
read_octets (c ∷ cs) octets digits value =
    let more = read_octets cs octets (digits + 1) (value * 10 + (c - 48)) in
    let next = read_octets cs (octets ++ (value ∷ [])) 0 0 in
    if leb 48 c && leb c 57
    then (if ltb 3 (digits + 1)
        then none
        else if ltb 255 (value * 10 + (c - 48))
        then none
        else more)
    else if c == 46
    then (if digits == 0 || ltb 3 (length octets) then none else next)
    else none

-- `parse_ipv4`
unfoldable pub parse_ipv4 : Bytes → Option Bytes
parse_ipv4 host = read_octets host [] 0 0

-- The loopback, private and link-local ranges.
unfoldable pub local_range : Bytes → Bool
local_range (a ∷ b ∷ _) =
    a == 127
    || a == 10
    || (a == 172 && leb 16 b && leb b 31)
    || (a == 192 && b == 168)
    || (a == 169 && b == 254)
local_range _ = false

-- "localhost"
abbrev pub localhost : Bytes
localhost = 108 ∷ 111 ∷ 99 ∷ 97 ∷ 108 ∷ 104 ∷ 111 ∷ 115 ∷ 116 ∷ []

-- `rw_url_plaintext_permitted`; a NULL `host` is `none`.
unfoldable pub plaintext_permitted : Option Bytes → Bool
plaintext_permitted none = false
plaintext_permitted (some host) =
    if length host == 0
    then false
    else if eq_bytes host localhost
    then true
    else elim (parse_ipv4 host) [ none ↦ false | some ip ↦ local_range ip ]
