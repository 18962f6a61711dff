-- ===== src/Provisioning/Http/Accepted.antt =====
-- What an accepted request is like.
use roosterwake.Prelude.{
  ℕ, suc, ◌+◌, ◌≤◌, ◌<◌, ◌≡◌, ◌≢◌, refl, sym, ap, subst, ◌∙◌, inl, inr, true, Option, none, some,
  [], ◌∷◌, leb, ◌==◌, if◌then◌else◌, length, take, drop, length-take, length-drop, arith,
  Bool-cases,
}
use roosterwake.Prelude.Bytes.{Bytes, eq_bytes, eq_bytes_iff}
use roosterwake.Prelude.Options.{>>=-eq-some}
use roosterwake.Net.Url.{before, contains, begins_with}
use roosterwake.Provisioning.Http.{
  HttpMethod, HttpRequest, HttpParse, percent_decode, method_of, walk_headers, find_end,
  fresh_request, parse_head, http_parse, starts_with_ci,
}
use roosterwake.Provisioning.Http.Headers.{
  Line, HasEncoding, bad_ok, large_ok, next_line, walk_headers-Walked,
}
use roosterwake.Provisioning.Http.Lines.{
  IsCrlf, HeaderLine, Named, Named-starts_with_ci, HeaderLine-Line,
}
use roosterwake.Prelude.Text.{codes}
use roosterwake.Provisioning.Http.Target.{percent_chars_fits, decode_begins, before_begins}

pub length-find_end : (buf : Bytes) (n : ℕ) → find_end buf ≡ some n → n ≤ length buf
unfolding find_end
length-find_end [] n e = ground arith
length-find_end (c ∷ buf) n e =
    elim (Bool-cases (eq_bytes (take 4 (c ∷ buf)) (13 ∷ 10 ∷ 13 ∷ 10 ∷ []))) [
      | inl ends ↦ at_end (ap length ((eq_bytes_iff _ _).0 ends)) (rw ends at e)
      | inr goes ↦
          let (m, found, same) = >>=-eq-some (find_end buf) _ (rw goes at e) in
          further (length-find_end buf m found) same
    ]
  where
    at_end : length (take 4 (c ∷ buf)) ≡ 4 → some 4 ≡ some n → n ≤ length (c ∷ buf)
    at_end four e = ground (arith, length-take 4 (c ∷ buf))

    further : {m : ℕ} → m ≤ length buf → some (suc m) ≡ some n → n ≤ length (c ∷ buf)
    further h e = ground arith

-- The path that a request line gives.
abbrev target_path : Bytes → Bytes
target_path whole =
    let line = before (◌== 13) whole in
    before (◌== 63) (before (◌== 32) (drop (length (before (◌== 32) line) + 1) line))

abbrev Decoded : Bytes → HttpRequest → Type 0
Decoded whole r =
    (decoded : Bytes) × (method : HttpMethod) × (percent_decode (target_path whole) 128
      ≡ some decoded)
    × (walk_headers (length whole) (next_line whole) (fresh_request whole method decoded)
        ≡ HttpParse.ok r)

path-Decoded :
    (whole : Bytes) (method : HttpMethod) (r : HttpRequest)
    → (d : Option Bytes) → percent_decode (target_path whole) 128 ≡ d
    → (elim d [
      | none ↦ HttpParse.bad
      | some decoded ↦
          walk_headers (length whole) (next_line whole) (fresh_request whole method decoded)
    ])
      ≡ HttpParse.ok r
    → Decoded whole r
path-Decoded whole method r none same e = absurd (bad_ok e)
path-Decoded whole method r (some decoded) same e = (decoded, method, same, e)

head_accepted :
    (whole : Bytes) (r : HttpRequest)
    → parse_head whole ≡ HttpParse.ok r
    → (begins_with 47 (target_path whole) ≡ true) × Decoded whole r
unfolding parse_head
head_accepted whole r e =
    let line = before (◌== 13) whole in
    let target = drop (length (before (◌== 32) line) + 1) line in
    elim (Bool-cases (contains 13 whole)) [
      | inr a ↦ absurd (bad_ok (rw a at e))
      | inl a ↦ elim (Bool-cases (contains 32 line)) [
        | inr b ↦ absurd (bad_ok (rw (a, b) at e))
        | inl b ↦ elim (Bool-cases (contains 32 target)) [
          | inr c ↦ absurd (bad_ok (rw (a, b, c) at e))
          | inl c ↦ elim (Bool-cases (begins_with 47 (before (◌== 32) target))) [
            | inr d ↦ absurd (bad_ok (rw (a, b, c, d) at e))
            | inl d ↦ elim (Bool-cases (leb 128 (length (target_path whole)))) [
              | inl long ↦ absurd (large_ok (rw (a, b, c, d, long) at e))
              | inr fits ↦ (
                before_begins (before (◌== 32) target) d,
                path-Decoded whole (method_of (before (◌== 32) line)) r
                    (percent_decode (target_path whole) 128) refl (rw (a, b, c, d, fits) at e),
              )
            ]
          ]
        ]
      ]
    ]

-- A head of CR LF lines with a header line that names a transfer encoding
pub record Encoded (head : Bytes) : Type 0 where
  pub line : Bytes
  pub in_lines : IsCrlf head
  pub in_head : HeaderLine line head
  pub names : Named (codes "transfer-encoding:") line

refuses_encoding :
    (head : Bytes)
    → ((line : Bytes) → Line line (next_line head) → ¬ HasEncoding line)
    → ¬ Encoded head
refuses_encoding head plain enc =
    let found = Named-starts_with_ci (codes "transfer-encoding:") enc.line enc.names in
    plain enc.line
      (HeaderLine-Line enc.line head enc.in_lines enc.in_head (some_text enc.line found)) found
  where
    some_text : (line : Bytes) → HasEncoding line → 0 < length line
    some_text [] e = absurd (nothing e)
      where
        nothing : starts_with_ci [] (codes "transfer-encoding:") ≢ true
        nothing e = unfold starts_with_ci in ground arith
    some_text (c ∷ line) e = omega arith

abbrev Accepted : Bytes → HttpRequest → Type 0
Accepted buf r =
    (find_end buf ≡ some r.header_len)
    × (begins_with 47 r.path ≡ true)
    × (length r.path < 128)
    × (r.content_length ≤ 512)
    × ¬ Encoded (take r.header_len buf)

taken-Accepted :
    (buf : Bytes) (n : ℕ) (r : HttpRequest)
    → find_end buf ≡ some n
    → parse_head (take n buf) ≡ HttpParse.ok r
    → Accepted buf r
unfolding fresh_request percent_decode
taken-Accepted buf n r found e =
    let whole = take n buf in
    let (slash, (decoded, method, dec, walk)) = head_accepted whole r e in
    let (path, len, body, plain) =
      walk_headers-Walked (length whole) (next_line whole) (fresh_request whole method decoded) r
        (omega (arith, length-drop (length (before (◌== 13) whole) + 2) whole)) (omega arith)
        walk in
    let size : n ≡ r.header_len = sym (len ∙ whole_size) in
    let fits = percent_chars_fits _ (target_path whole) 0 128 decoded (omega arith) dec in
    (
      found ∙ ap some size,
      ap (begins_with 47) path ∙ decode_begins (target_path whole) 128 decoded slash dec,
      omega (arith, ap length path),
      body,
      subst (λ k. ¬ Encoded (take k buf)) size (refuses_encoding (take n buf) plain),
    )
  where
    whole_size : length (take n buf) ≡ n
    whole_size = ground (arith, length-take n buf, length-find_end buf n found)

-- A request is accepted only with a complete head, a path of at most 127 bytes that begins with '/', a body of
-- at most 512 bytes, and, where every CR of the head is followed by LF, no header line between two CR LF that
-- begins with "transfer-encoding:", in capitals or not.
pub http_parse_accepted :
    (buf : Bytes) (r : HttpRequest)
    → http_parse (some buf) ≡ HttpParse.ok r
    → (find_end buf ≡ some r.header_len)
      × (begins_with 47 r.path ≡ true)
      × (length r.path < 128)
      × (r.content_length ≤ 512)
      × ¬ Encoded (take r.header_len buf)
unfolding http_parse
http_parse_accepted buf r e = by_end (find_end buf) refl e
  where
    by_end :
        (f : Option ℕ)
        → find_end buf ≡ f
        → (elim f [
          | none ↦ if leb 1024 (length buf) then HttpParse.too_large else HttpParse.incomplete
          | some n ↦ parse_head (take n buf)
        ])
          ≡ HttpParse.ok r
        → Accepted buf r
    by_end none same e = absurd (ground arith)
    by_end (some n) same e = taken-Accepted buf n r same e
