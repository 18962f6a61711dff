-- ===== src/Net/Url/Parsed.antt =====
-- What `rw_url_parse` accepts.
use roosterwake.Prelude.{
  ℕ, ◌+◌, ◌-◌, ◌*◌, ◌≤◌, ◌≡◌, ◌≢◌, refl, ◌⊎◌, inl, inr, Bool, true, false, some, [], ◌∷◌, ◌==◌,
  length, drop, All, arith,
}
use roosterwake.Prelude.Bytes.{Bytes}
use roosterwake.Net.Url.{
  Url, copy_bounded, read_digits, parse_u16, after_prefix, ends_authority, before, contains,
  begins_with, request_path, read_port, parse_rest, wss_scheme, ws_scheme, url_parse,
}

-- No '/', '?', '#', '@' or ':', and no '[' at its start
abbrev pub IsHostChar : ℕ → Type 0
IsHostChar c = (c ≢ 47) × (c ≢ 63) × (c ≢ 35) × (c ≢ 64) × (c ≢ 58)

-- What holds of a URL that is accepted.
pub record IsUrl (u : Url) : Type 0 where
  pub host_size : (1 ≤ length u.host) × (length u.host ≤ 127)
  pub host_chars : All IsHostChar u.host
  pub no_bracket : begins_with 91 u.host ≡ false
  pub port_range : (1 ≤ u.port) × (u.port ≤ 65535)
  pub path_size : length u.path ≤ 127
  pub path_rooted : begins_with 47 u.path ≡ true

read_digits-le : (v : ℕ) (s : Bytes) (n : ℕ) → v ≤ 65535 → read_digits v s ≡ some n → n ≤ 65535
unfolding read_digits
read_digits-le v [] n h e = ground arith
read_digits-le v (c ∷ cs) n h e =
    let (l, rest) = digit_step v c cs n e in read_digits-le (v * 10 + (c - 48)) cs n l rest
  where
    digit_step :
        (v c : ℕ) (cs : Bytes) (n : ℕ)
        → read_digits v (c ∷ cs) ≡ some n
        → (v * 10 + (c - 48) ≤ 65535) × (read_digits (v * 10 + (c - 48)) cs ≡ some n)
    digit_step v c cs n e = ground arith

parse_u16_range : (s : Bytes) (n : ℕ) → parse_u16 s ≡ some n → (1 ≤ n) × (n ≤ 65535)
unfolding parse_u16
parse_u16_range s n e =
    let (read, positive) = found s n e in (positive, read_digits-le 0 s n (omega arith) read)
  where
    found : (s : Bytes) (n : ℕ) → parse_u16 s ≡ some n → (read_digits 0 s ≡ some n) × (1 ≤ n)
    found s n e = ground arith

port_cases :
    (default_port : ℕ) (authority : Bytes) (n : ℕ)
    → read_port default_port authority ≡ some n
    → (default_port ≡ n)
      ⊎ (parse_u16 (drop (length (before (◌== 58) authority) + 1) authority) ≡ some n)
unfolding read_port
port_cases default_port authority n e = ground arith

read_port_range :
    (default_port : ℕ) (authority : Bytes) (n : ℕ)
    → (1 ≤ default_port) × (default_port ≤ 65535)
    → read_port default_port authority ≡ some n
    → (1 ≤ n) × (n ≤ 65535)
read_port_range default_port authority n (low, high) e =
    elim (port_cases default_port authority n e) [
      | inl same ↦ (omega arith, omega arith)
      | inr read ↦ parse_u16_range _ n read
    ]

host_step :
    (c : ℕ) (cs : Bytes)
    → contains 64 (before ends_authority (c ∷ cs)) ≡ false
    → (before (◌== 58) (before ends_authority (c ∷ cs)) ≡ [])
      ⊎ ((before (◌== 58) (before ends_authority (c ∷ cs))
            ≡ c ∷ before (◌== 58) (before ends_authority cs))
          × IsHostChar c
          × (contains 64 (before ends_authority cs) ≡ false))
unfolding before contains ends_authority
host_step c cs h = ground arith

host_char :
    (p : Bytes)
    → contains 64 (before ends_authority p) ≡ false
    → All IsHostChar (before (◌== 58) (before ends_authority p))
host_char [] h = unfold before in tt
host_char (c ∷ cs) h = elim (host_step c cs h) [
  | inl e ↦ rw e tt
  | inr (e, fine, more) ↦ rw e (fine, host_char cs more)
]

no_bracket_before :
    (authority : Bytes)
    → begins_with 91 authority ≡ false
    → begins_with 91 (before (◌== 58) authority) ≡ false
unfolding before begins_with
no_bracket_before [] h = refl
no_bracket_before (c ∷ cs) h = ground arith

rest_cases :
    (p : Bytes)
    → (length (drop (length (before ends_authority p)) p) ≡ 0)
      ⊎ (begins_with 47 (drop (length (before ends_authority p)) p) ≡ true)
      ⊎ (begins_with 63 (drop (length (before ends_authority p)) p) ≡ true)
      ⊎ (begins_with 35 (drop (length (before ends_authority p)) p) ≡ true)
unfolding before begins_with ends_authority
rest_cases [] = inl refl
rest_cases (c ∷ cs) = ground (arith, rest_cases cs)

path_shape :
    (rest path : Bytes)
    → (length rest ≡ 0)
      ⊎ (begins_with 47 rest ≡ true)
      ⊎ (begins_with 63 rest ≡ true)
      ⊎ (begins_with 35 rest ≡ true)
    → request_path rest ≡ some path
    → (length path ≤ 127) × (begins_with 47 path ≡ true)
unfolding request_path copy_bounded begins_with before
path_shape [] path h e = ground arith
path_shape (c ∷ cs) path h e = ground arith

parse_rest_steps :
    (tls : Bool) (default_port : ℕ) (p : Bytes) (u : Url)
    → parse_rest tls default_port p ≡ some u
    → (contains 64 (before ends_authority p) ≡ false)
      × (begins_with 91 (before ends_authority p) ≡ false)
      × (read_port default_port (before ends_authority p) ≡ some u.port)
      × (1 ≤ length (before (◌== 58) (before ends_authority p)))
      × (length (before (◌== 58) (before ends_authority p)) ≤ 127)
      × (u.host ≡ before (◌== 58) (before ends_authority p))
      × (request_path (drop (length (before ends_authority p)) p) ≡ some u.path)
unfolding parse_rest copy_bounded
parse_rest_steps tls default_port p u e = ground arith

parse_rest-IsUrl :
    (tls : Bool) (default_port : ℕ) (p : Bytes) (u : Url)
    → (1 ≤ default_port) × (default_port ≤ 65535)
    → parse_rest tls default_port p ≡ some u
    → IsUrl u
parse_rest-IsUrl tls default_port p u d e =
    let (no_at, no_open, port, low, high, host, path) = parse_rest_steps tls default_port p u e in
    let (size, rooted) = path_shape _ u.path (rest_cases p) path in
    record {
      host_size = rw host (low, high);
      host_chars = rw host (host_char p no_at);
      no_bracket = rw host (no_bracket_before _ no_open);
      port_range = read_port_range default_port _ u.port d port;
      path_size = size;
      path_rooted = rooted;
    }

scheme_cases :
    (url : Bytes) (u : Url)
    → url_parse (some url) ≡ some u
    → ((p : Bytes) × (after_prefix wss_scheme url ≡ some p) × (parse_rest true 443 p ≡ some u))
      ⊎ ((p : Bytes) × (after_prefix ws_scheme url ≡ some p) × (parse_rest false 80 p ≡ some u))
unfolding url_parse
scheme_cases url u e = ground arith

-- A URL that `rw_url_parse` accepts names a host of 1 to 127 characters, none of which ends or splits an
-- authority, a port between 1 and 65535, and a path of at most 127 characters that begins with '/'.
pub url_parse-IsUrl : (url : Bytes) (u : Url) → url_parse (some url) ≡ some u → IsUrl u
url_parse-IsUrl url u e = elim (scheme_cases url u e) [
  | inl (p, _, f) ↦ parse_rest-IsUrl true 443 p u (omega arith, omega arith) f
  | inr (p, _, f) ↦ parse_rest-IsUrl false 80 p u (omega arith, omega arith) f
]
