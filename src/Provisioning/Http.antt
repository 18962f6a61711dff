-- ===== src/Provisioning/Http.antt =====
-- The setup portal's HTTP request parser, firmware/src/provisioning/http_req.c. A string is its bytes without
-- the NUL, and a parse gives the request where the code fills in `out` and gives RW_HTTP_PARSE_OK.
pub mod Headers
pub mod Lines
pub mod Target
pub mod Accepted
use roosterwake.Prelude.{
  ℕ, zero, suc, ◌+◌, ◌-◌, ◌*◌, ◌^◌, Bool, true, false, not, ◌&&◌, ◌||◌, Option, none, some, List,
  [], ◌∷◌, ltb, leb, ◌==◌, if◌then◌else◌, length, take, drop,
}
use roosterwake.Prelude.Bytes.{Bytes, eq_bytes}
use roosterwake.Prelude.Options.{◌>>=◌}
use roosterwake.Prelude.Text.{codes}
use roosterwake.Net.Url.{before, contains, begins_with}

-- `rw_http_method_t`
pub data HttpMethod : Type 0 where
  unknown : HttpMethod
  get : HttpMethod
  post : HttpMethod
  head : HttpMethod
  options : HttpMethod

-- `rw_http_request_t`
pub record HttpRequest : Type 0 where
  pub method : HttpMethod
  pub path : Bytes
  pub header_len : ℕ
  pub content_length : ℕ
  pub expects_continue : Bool
  pub accepts_gzip : Bool

-- `rw_http_parse_t`
pub data HttpParse : Type 0 where
  ok : HttpRequest → HttpParse
  incomplete : HttpParse
  bad : HttpParse
  too_large : HttpParse

unfoldable pub lower : ℕ → ℕ
lower c = if leb 65 c && leb c 90 then c - 65 + 97 else c

unfoldable pub starts_with_ci : Bytes → Bytes → Bool
starts_with_ci s [] = true
starts_with_ci [] (p ∷ prefix) = false
starts_with_ci (c ∷ s) (p ∷ prefix) = lower c == lower p && starts_with_ci s prefix

-- `hex_val`, with `none` for -1
unfoldable pub hex_val : ℕ → Option ℕ
hex_val c =
    if leb 48 c && leb c 57
    then some (c - 48)
    else if leb 97 c && leb c 102
    then some (c - 97 + 10)
    else if leb 65 c && leb c 70
    then some (c - 65 + 10)
    else none

-- What an escape stands for, from what follows the '%', and what comes behind it.
unfoldable pub escaped_char : Bytes → Option (ℕ × Bytes)
escaped_char (h ∷ l ∷ rest) = do
  hi ← hex_val h
  lo ← hex_val l
  if (hi * 2 ^ 4 + lo) == 0 then none else some (hi * 2 ^ 4 + lo, rest)
escaped_char _ = none

unfoldable pub next_char : ℕ → Bytes → Option (ℕ × Bytes)
next_char c rest = if c == 37 then escaped_char rest else some (c, rest)

-- The loop of `rw_http_percent_decode`, with `o` bytes written. A round takes a byte at least.
unfoldable pub percent_chars : ℕ → Bytes → ℕ → ℕ → Option Bytes
percent_chars _ [] o out_len = some []
percent_chars zero (c ∷ src) o out_len = none
percent_chars (suc fuel) (c ∷ src) o out_len = do
  next ← next_char c src
  if leb out_len (o + 1)
      then none
      else do out ← percent_chars fuel next.1 (o + 1) out_len; some (next.0 ∷ out)

-- `rw_http_percent_decode` into a buffer of at least one byte
unfoldable pub percent_decode : Bytes → ℕ → Option Bytes
percent_decode src out_len = percent_chars (length src) src 0 out_len

unfoldable pub method_of : Bytes → HttpMethod
method_of s =
    if eq_bytes s (codes "GET")
    then get
    else if eq_bytes s (codes "POST")
    then post
    else if eq_bytes s (codes "HEAD")
    then head
    else if eq_bytes s (codes "OPTIONS")
    then options
    else unknown

-- The loop of `parse_length`, with the value so far.
unfoldable pub length_digits : ℕ → Bytes → Option ℕ
length_digits v [] = some v
length_digits v (c ∷ s) =
    let rest = length_digits (v * 10 + (c - 48)) s in if ltb c 48 || ltb 57 c then none else rest

unfoldable pub parse_length : Bytes → Option ℕ
parse_length s = if length s == 0 || ltb 9 (length s) then none else length_digits 0 s

-- The blanks before and behind a value.
unfoldable pub is_blank : ℕ → Bool
is_blank c = c == 32 || c == 9

unfoldable pub skip_blanks : Bytes → Bytes
skip_blanks [] = []
skip_blanks (c ∷ v) = let rest = skip_blanks v in if is_blank c then rest else c ∷ v

unfoldable pub drop_blanks : Bytes → Bytes
drop_blanks [] = []
drop_blanks (c ∷ v) =
    let rest = drop_blanks v in if is_blank c && length rest == 0 then [] else c ∷ rest

-- The search for "gzip"
unfoldable pub mentions_gzip : Bytes → Bool
mentions_gzip [] = false
mentions_gzip (c ∷ v) = starts_with_ci (c ∷ v) (codes "gzip") || mentions_gzip v

-- The body of the loop over the headers, on one line.
unfoldable pub take_header : Bytes → HttpRequest → HttpParse
take_header line req =
    if starts_with_ci line (codes "content-length:")
    then (elim (parse_length (drop_blanks (skip_blanks (drop 15 line)))) [
      | none ↦ bad
      | some n ↦ if ltb 512 n then too_large else ok (record req { content_length = n })
    ])
    else if starts_with_ci line (codes "transfer-encoding:")
    then bad
    else if starts_with_ci line (codes "expect:")
    then ok (record req { expects_continue = true })
    else if starts_with_ci line (codes "accept-encoding:")
    then (if mentions_gzip (drop 16 line) then ok (record req { accepts_gzip = true }) else ok req)
    else ok req

-- The loop over the headers, from `p` to the end of the head. A round takes two bytes at least.
unfoldable pub walk_headers : ℕ → Bytes → HttpRequest → HttpParse
walk_headers zero p req = ok req
walk_headers (suc fuel) p req =
    if leb (length p) 2
    then ok req
    else if not (contains 13 p)
    then ok req
    else elim (take_header (before (◌== 13) p) req) [
      | ok req1 ↦ walk_headers fuel (drop (length (before (◌== 13) p) + 2) p) req1
      | incomplete ↦ incomplete
      | bad ↦ bad
      | too_large ↦ too_large
    ]

-- Where the blank line ends that ends the head.
unfoldable pub find_end : Bytes → Option ℕ
find_end [] = none
find_end (c ∷ buf) =
    if eq_bytes (take 4 (c ∷ buf)) (13 ∷ 10 ∷ 13 ∷ 10 ∷ [])
    then some 4
    else (find_end buf >>= λ n. some (suc n))

-- The request with its method and its path, before the headers are read.
unfoldable pub fresh_request : Bytes → HttpMethod → Bytes → HttpRequest
fresh_request whole method path = record {
  method = method;
  path = path;
  header_len = length whole;
  content_length = 0;
  expects_continue = false;
  accepts_gzip = false;
}

-- What follows the search for the end of the head, on the head.
unfoldable pub parse_head : Bytes → HttpParse
parse_head whole =
    let line = before (◌== 13) whole in
    let target = drop (length (before (◌== 32) line) + 1) line in
    let path = before (◌== 63) (before (◌== 32) target) in
    if not (contains 13 whole)
    then bad
    else if not (contains 32 line)
    then bad
    else if not (contains 32 target)
    then bad
    else if not (begins_with 47 (before (◌== 32) target))
    then bad
    else if leb 128 (length path)
    then too_large
    else elim (percent_decode path 128) [
      | none ↦ bad
      | some decoded ↦
          walk_headers (length whole) (drop (length line + 2) whole)
            (fresh_request whole (method_of (before (◌== 32) line)) decoded)
    ]

-- `rw_http_parse`; a NULL `buf` is `none`.
unfoldable pub http_parse : Option Bytes → HttpParse
http_parse none = bad
http_parse (some buf) = elim (find_end buf) [
  | none ↦ if leb 1024 (length buf) then too_large else incomplete
  | some n ↦ parse_head (take n buf)
]

-- `rw_http_probe_t`
pub data Probe : Type 0 where
  not_probe : Probe
  redirect : Probe
  inline : Probe

-- The search of `k_probes`
unfoldable pub probe_among : List (Bytes × Probe) → Bytes → Probe
probe_among [] path = not_probe
probe_among (known ∷ rest) path =
    let later = probe_among rest path in if eq_bytes path known.0 then known.1 else later

-- `rw_http_probe_kind`
unfoldable pub probe_kind : Bytes → Probe
probe_kind path =
    probe_among
      ((codes "/hotspot-detect.html", inline)
        ∷ (codes "/library/test/success.html", inline)
        ∷ (codes "/Library/test/success.html", inline)
        ∷ (codes "/generate_204", redirect)
        ∷ (codes "/gen_204", redirect)
        ∷ (codes "/success.txt", redirect)
        ∷ (codes "/canonical.html", redirect)
        ∷ (codes "/connecttest.txt", redirect)
        ∷ (codes "/ncsi.txt", redirect)
        ∷ (codes "/redirect", redirect)
        ∷ [])
      path

-- `rw_http_is_captive_probe`
unfoldable pub is_captive_probe : Bytes → Bool
is_captive_probe path = elim (probe_kind path) [
  | not_probe ↦ false
  | redirect ↦ true
  | inline ↦ true
]
