-- ===== src/Provisioning/Http/Headers.antt =====
-- What the walk over the headers accepts.
use roosterwake.Prelude.{
  ℕ, zero, suc, ◌+◌, ◌≤◌, ◌<◌, ◌≡◌, ◌≢◌, refl, sym, subst, ◌∙◌, ◌⊎◌, inl, inr, true, false, Option,
  none, some, [], ◌∷◌, ltb, leb, ◌==◌, if◌then◌else◌, length, drop, length-drop, arith, Bool-cases,
}
use roosterwake.Prelude.Bytes.{Bytes}
use roosterwake.Prelude.Text.{codes}
use roosterwake.Net.Url.{before, contains}
use roosterwake.Provisioning.Http.{
  HttpRequest, HttpParse, ok, incomplete, bad, too_large, lower, starts_with_ci, parse_length,
  skip_blanks, drop_blanks, mentions_gzip, take_header, walk_headers,
}

-- The lines that the walk takes of what follows the request line: each ends at a CR, and two bytes on the next
-- begins whatever they are, as long as more than two bytes are left.
pub data Line (line : Bytes) : Bytes → Type 0 where
  here : (p : Bytes) → 2 < length p → contains 13 p ≡ true → before (◌== 13) p ≡ line → Line line p
  later :
      (p : Bytes)
      → 2 < length p
      → contains 13 p ≡ true
      → Line line (drop (length (before (◌== 13) p) + 2) p)
      → Line line p

abbrev pub HasEncoding : Bytes → Type 0
HasEncoding line = starts_with_ci line (codes "transfer-encoding:") ≡ true

first_alike :
    (c : ℕ) (s : Bytes) (p : ℕ) (prefix : Bytes)
    → starts_with_ci (c ∷ s) (p ∷ prefix) ≡ true
    → lower c ≡ lower p
unfolding starts_with_ci
first_alike c s p prefix e = ground arith

-- A line is not a length and an encoding at once.
not_both :
    (line : Bytes) → starts_with_ci line (codes "content-length:") ≡ true → ¬ HasEncoding line
not_both [] e enc = absurd (nothing e)
  where
    nothing : starts_with_ci [] (codes "content-length:") ≢ true
    nothing e = unfold starts_with_ci in ground arith
not_both (c ∷ s) e enc = absurd (
    apart (
      sym (first_alike c s 99 (codes "ontent-length:") e)
      ∙ first_alike c s 116 (codes "ransfer-encoding:") enc))
  where
    apart : lower 99 ≢ lower 116
    apart e = unfold lower in ground arith

record Kept (line : Bytes) (req : HttpRequest) (r : HttpRequest) : Type 0 where
  no_encoding : ¬ HasEncoding line
  same_path : r.path ≡ req.path
  same_len : r.header_len ≡ req.header_len
  bounded : req.content_length ≤ 512 → r.content_length ≤ 512

ok_inj : {a b : HttpRequest} → HttpParse.ok a ≡ HttpParse.ok b → a ≡ b
ok_inj e = cc

pub bad_ok : {r : HttpRequest} → HttpParse.bad ≢ HttpParse.ok r
bad_ok e = cc

pub large_ok : {r : HttpRequest} → HttpParse.too_large ≢ HttpParse.ok r
large_ok e = cc

-- A line that changes neither the path, the length of the head nor that of the body.
same_settings :
    (line : Bytes) (req r1 r : HttpRequest)
    → ¬ HasEncoding line
    → r1.path ≡ req.path
    → r1.header_len ≡ req.header_len
    → r1.content_length ≡ req.content_length
    → HttpParse.ok r1 ≡ HttpParse.ok r
    → Kept line req r
same_settings line req r1 r plain path len body e =
    subst (λ r. Kept line req r) (ok_inj e)
      (record { no_encoding = plain; same_path = path; same_len = len; bounded = λ h. omega arith })

-- The header that gives the length of the body
length-Kept :
    (line : Bytes) (req r : HttpRequest)
    → ¬ HasEncoding line
    → (v : Option ℕ)
    → (elim v [
      | none ↦ HttpParse.bad
      | some n ↦
          if ltb 512 n
          then HttpParse.too_large
          else HttpParse.ok (record req { content_length = n })
    ])
      ≡ HttpParse.ok r
    → Kept line req r
length-Kept line req r plain none e = absurd (bad_ok e)
length-Kept line req r plain (some n) e = elim (Bool-cases (ltb 512 n)) [
  | inl big ↦ absurd (large_ok (rw big at e))
  | inr small ↦
      subst (λ r. Kept line req r) (ok_inj (rw small at e))
        (record {
          no_encoding = plain;
          same_path = refl;
          same_len = refl;
          bounded = λ _. ground arith;
        })
]

take_header-Kept :
    (line : Bytes) (req r : HttpRequest) → take_header line req ≡ HttpParse.ok r → Kept line req r
unfolding take_header
take_header-Kept line req r e = elim (Bool-cases (starts_with_ci line (codes "content-length:"))) [
  | inl l ↦
      length-Kept line req r (not_both line l)
        (parse_length (drop_blanks (skip_blanks (drop 15 line)))) (rw l at e)
  | inr l ↦ elim (Bool-cases (starts_with_ci line (codes "transfer-encoding:"))) [
    | inl t ↦ absurd (bad_ok (rw (l, t) at e))
    | inr t ↦ others t (rw (l, t) at e)
  ]
]
  where
    others :
        starts_with_ci line (codes "transfer-encoding:") ≡ false
        → (if starts_with_ci line (codes "expect:")
            then HttpParse.ok (record req { expects_continue = true })
            else if starts_with_ci line (codes "accept-encoding:")
            then (if mentions_gzip (drop 16 line)
                then HttpParse.ok (record req { accepts_gzip = true })
                else HttpParse.ok req)
            else HttpParse.ok req)
          ≡ HttpParse.ok r
        → Kept line req r
    others t e =
        let plain : ¬ HasEncoding line = λ enc. cc in
        elim (Bool-cases (starts_with_ci line (codes "expect:"))) [
          | inl x ↦
              same_settings line req (record req { expects_continue = true }) r plain refl refl refl
                (rw x at e)
          | inr x ↦ elim (Bool-cases (starts_with_ci line (codes "accept-encoding:"))) [
            | inr a ↦ same_settings line req req r plain refl refl refl (rw (x, a) at e)
            | inl a ↦ elim (Bool-cases (mentions_gzip (drop 16 line))) [
              | inl g ↦
                  same_settings line req (record req { accepts_gzip = true }) r plain refl refl refl
                    (rw (x, a, g) at e)
              | inr g ↦ same_settings line req req r plain refl refl refl (rw (x, a, g) at e)
            ]
          ]
        ]

-- One round of the walk
walk_round :
    (fuel : ℕ) (p : Bytes) (req r : HttpRequest)
    → 2 < length p
    → contains 13 p ≡ true
    → walk_headers (suc fuel) p req ≡ HttpParse.ok r
    → (r1 : HttpRequest) × (take_header (before (◌== 13) p) req ≡ HttpParse.ok r1)
      × (walk_headers fuel (drop (length (before (◌== 13) p) + 2) p) r1 ≡ HttpParse.ok r)
unfolding walk_headers
walk_round fuel p req r long cr e =
    let more : leb (length p) 2 ≡ false = ground arith in
    step (take_header (before (◌== 13) p) req) refl (rw (more, cr) at e)
  where
    step :
        (h : HttpParse)
        → take_header (before (◌== 13) p) req ≡ h
        → (elim h [
          | ok req1 ↦ walk_headers fuel (drop (length (before (◌== 13) p) + 2) p) req1
          | incomplete ↦ HttpParse.incomplete
          | bad ↦ HttpParse.bad
          | too_large ↦ HttpParse.too_large
        ])
          ≡ HttpParse.ok r
        → (r1 : HttpRequest) × (take_header (before (◌== 13) p) req ≡ HttpParse.ok r1)
          × (walk_headers fuel (drop (length (before (◌== 13) p) + 2) p) r1 ≡ HttpParse.ok r)
    step (ok r1) same e = (r1, same, e)
    step incomplete same e = absurd (apart e)
      where
        apart : HttpParse.incomplete ≢ HttpParse.ok r
        apart e = cc
    step bad same e = absurd (bad_ok e)
    step too_large same e = absurd (large_ok e)

walk_ends :
    (fuel : ℕ) (p : Bytes) (req r : HttpRequest)
    → (length p ≤ 2) ⊎ (contains 13 p ≡ false)
    → walk_headers fuel p req ≡ HttpParse.ok r
    → req ≡ r
unfolding walk_headers
walk_ends zero p req r over e = ok_inj e
walk_ends (suc fuel) p req r (inl short) e =
    let out : leb (length p) 2 ≡ true = ground arith in ok_inj (rw out at e)
walk_ends (suc fuel) p req r (inr none_left) e = elim (Bool-cases (leb (length p) 2)) [
  | inl short ↦ ok_inj (rw short at e)
  | inr long ↦ ok_inj (rw (long, none_left) at e)
]

abbrev pub Walked : Bytes → HttpRequest → HttpRequest → Type 0
Walked p req r =
    (r.path ≡ req.path)
    × (r.header_len ≡ req.header_len)
    × (r.content_length ≤ 512)
    × ((line : Bytes) → Line line p → ¬ HasEncoding line)

-- Nothing is left to read.
over-Walked :
    (fuel : ℕ) (p : Bytes) (req r : HttpRequest)
    → (length p ≤ 2) ⊎ (contains 13 p ≡ false)
    → req.content_length ≤ 512
    → walk_headers fuel p req ≡ HttpParse.ok r
    → Walked p req r
over-Walked fuel p req r over small e =
    subst (λ r. Walked p req r) (walk_ends fuel p req r over e)
      (refl, refl, small, λ line l. absurd (no_line over l))
  where
    no_line : {line : Bytes} → (length p ≤ 2) ⊎ (contains 13 p ≡ false) → ¬ Line line p
    no_line over (here _ long cr same) = ground arith
    no_line over (later _ long cr l) = ground arith

abbrev pub next_line : Bytes → Bytes
next_line p = drop (length (before (◌== 13) p) + 2) p

-- A line that is taken before the others.
line-Walked :
    (p : Bytes) (req r1 r : HttpRequest)
    → req.content_length ≤ 512
    → Kept (before (◌== 13) p) req r1
    → Walked (next_line p) r1 r
    → Walked p req r
line-Walked p req r1 r small kept (path, len, body, plain) =
    (path ∙ kept.same_path, len ∙ kept.same_len, body, λ line l. lines l)
  where
    lines : {line : Bytes} → Line line p → ¬ HasEncoding line
    lines (here _ _ _ same) enc = kept.no_encoding (rw same enc)
    lines (later _ _ _ l) enc = plain _ l enc

pub walk_headers-Walked :
    (fuel : ℕ) (p : Bytes) (req r : HttpRequest)
    → length p ≤ fuel
    → req.content_length ≤ 512
    → walk_headers fuel p req ≡ HttpParse.ok r
    → Walked p req r
walk_headers-Walked zero p req r enough small e =
    over-Walked zero p req r (inl (omega arith)) small e
walk_headers-Walked (suc fuel) p req r enough small e = elim (Bool-cases (leb (length p) 2)) [
  | inl short ↦ over-Walked (suc fuel) p req r (inl (ground arith)) small e
  | inr long ↦ elim (Bool-cases (contains 13 p)) [
    | inr last ↦ over-Walked (suc fuel) p req r (inr last) small e
    | inl cr ↦
        let (r1, one, more) = walk_round fuel p req r (ground arith) cr e in
        let kept = take_header-Kept (before (◌== 13) p) req r1 one in
        line-Walked p req r1 r small kept
          (walk_headers-Walked fuel (next_line p) r1 r (shorter long) (kept.bounded small) more)
  ]
]
  where
    shorter : leb (length p) 2 ≡ false → length (next_line p) ≤ fuel
    shorter long = ground (arith, length-drop (length (before (◌== 13) p) + 2) p)
