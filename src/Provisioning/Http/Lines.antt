-- ===== src/Provisioning/Http/Lines.antt =====
-- The header lines of a head, as a text has them: between one CR LF and the next.
use roosterwake.Prelude.{
  ℕ, suc, ◌+◌, ◌-◌, ◌≤◌, ◌<◌, ◌≡◌, ◌≢◌, refl, sym, ap, subst, ◌⊎◌, inl, inr, true, false, [], ◌∷◌,
  ◌++◌, ◌==◌, length, length-append, drop, All, arith,
}
use roosterwake.Prelude.Bytes.{Bytes}
use roosterwake.Net.Url.{before, contains}
use roosterwake.Provisioning.Http.{lower, starts_with_ci}
use roosterwake.Provisioning.Http.Headers.{Line, here, later, next_line}

-- A text in which every CR is followed by its LF
pub data IsCrlf : Bytes → Type 0 where
  over : IsCrlf []
  other : (c : ℕ) (text : Bytes) → c ≢ 13 → IsCrlf text → IsCrlf (c ∷ text)
  line_end : (text : Bytes) → IsCrlf text → IsCrlf (13 ∷ 10 ∷ text)

-- A line without a CR that stands between two CR LF
pub data HeaderLine : Bytes → Bytes → Type 0 where
  between :
      (front line rest : Bytes)
      → All (◌≢ 13) line
      → HeaderLine line (front ++ (13 ∷ 10 ∷ (line ++ (13 ∷ 10 ∷ rest))))

-- A text that begins with a name, each of whose letters may be a capital
pub data Named : Bytes → Bytes → Type 0 where
  named : (text : Bytes) → Named [] text
  same : (c : ℕ) (name text : Bytes) → Named name text → Named (c ∷ name) (c ∷ text)
  capital :
      (c : ℕ) (name text : Bytes)
      → 97 ≤ c
      → c ≤ 122
      → Named name text
      → Named (c ∷ name) ((c - 32) ∷ text)

pub Named-starts_with_ci : (name text : Bytes) → Named name text → starts_with_ci text name ≡ true
unfolding starts_with_ci lower
Named-starts_with_ci _ _ (named []) = refl
Named-starts_with_ci _ _ (named (c ∷ text)) = refl
Named-starts_with_ci _ _ (same c name text more) =
    let rest = Named-starts_with_ci name text more in ground arith
Named-starts_with_ci _ _ (capital c name text low high more) =
    let rest = Named-starts_with_ci name text more in ground arith

crlf_cases :
    (c : ℕ) (text : Bytes)
    → IsCrlf (c ∷ text)
    → ((c ≢ 13) × IsCrlf text) ⊎ ((c ≡ 13) × (rest : Bytes) × (text ≡ 10 ∷ rest) × IsCrlf rest)
crlf_cases _ _ (other c text ne more) = inl (ne, more)
crlf_cases _ _ (line_end text more) = inr (refl, text, refl, more)

before_cr :
    (line rest : Bytes)
    → All (◌≢ 13) line
    → (before (◌== 13) (line ++ (13 ∷ rest)) ≡ line) × (contains 13 (line ++ (13 ∷ rest)) ≡ true)
unfolding before contains
before_cr [] rest h = (refl, refl)
before_cr (c ∷ line) rest (ne, h) =
    let (same_line, found) = before_cr line rest h in
    let apart : (c == 13) ≡ false = ground arith in
    (rw (apart, same_line) refl, rw (apart, found) refl)

contains_later : (front rest : Bytes) → contains 13 (front ++ (13 ∷ rest)) ≡ true
unfolding contains
contains_later [] rest = refl
contains_later (c ∷ front) rest = let found = contains_later front rest in ground arith

next_line_on : (c : ℕ) (text : Bytes) → c ≢ 13 → next_line (c ∷ text) ≡ next_line text
unfolding before
next_line_on c text ne =
    let apart : (c == 13) ≡ false = ground arith in
    let more : suc (length (before (◌== 13) text)) + 2 ≡ suc (length (before (◌== 13) text) + 2) =
      omega arith in
    rw (apart, more) refl

next_line_cr : (c : ℕ) (text : Bytes) → next_line (13 ∷ c ∷ text) ≡ text
unfolding before
next_line_cr c text = refl

start-Line :
    (line rest : Bytes) → All (◌≢ 13) line → 0 < length line → Line line (line ++ (13 ∷ 10 ∷ rest))
start-Line line rest h some_text =
    let (same_line, found) = before_cr line (10 ∷ rest) h in
    here (line ++ (13 ∷ 10 ∷ rest)) (omega (arith, length-append line (13 ∷ 10 ∷ rest))) found
      same_line

-- The walk comes to every header line of a text whose CRs are all followed by LF.
front-Line :
    (front line rest : Bytes)
    → IsCrlf (front ++ (13 ∷ 10 ∷ (line ++ (13 ∷ 10 ∷ rest))))
    → All (◌≢ 13) line
    → 0 < length line
    → Line line (next_line (front ++ (13 ∷ 10 ∷ (line ++ (13 ∷ 10 ∷ rest)))))
front-Line [] line rest crlf h some_text =
    subst (Line line) (sym (next_line_cr 10 (line ++ (13 ∷ 10 ∷ rest))))
      (start-Line line rest h some_text)
front-Line (c ∷ []) line rest crlf h some_text =
    elim (crlf_cases c (13 ∷ 10 ∷ (line ++ (13 ∷ 10 ∷ rest))) crlf) [
      | inl (ne, more) ↦
          subst (Line line) (sym (next_line_on c (13 ∷ 10 ∷ (line ++ (13 ∷ 10 ∷ rest))) ne))
            (front-Line [] line rest more h some_text)
      | inr (_, after, bad_end, _) ↦ absurd (ground arith)
    ]
front-Line (c ∷ d ∷ front) line rest crlf h some_text =
    let tail = front ++ (13 ∷ 10 ∷ (line ++ (13 ∷ 10 ∷ rest))) in
    elim (crlf_cases c (d ∷ tail) crlf) [
      | inl (ne, more) ↦
          subst (Line line) (sym (next_line_on c (d ∷ tail) ne))
            (front-Line (d ∷ front) line rest more h some_text)
      | inr (is_cr, after, lf, more) ↦
          let same_tail : after ≡ tail = sym (cons_tail lf) in
          let further = front-Line front line rest (subst IsCrlf same_tail more) h some_text in
          let long : 2 < length tail = omega (
            arith,
            length-append front (13 ∷ 10 ∷ (line ++ (13 ∷ 10 ∷ rest))),
            length-append line (13 ∷ 10 ∷ rest),
          ) in
          rw is_cr (
            subst (Line line) (sym (next_line_cr d tail))
              (later tail long (contains_later front (10 ∷ (line ++ (13 ∷ 10 ∷ rest)))) further))
    ]
  where
    cons_tail : {x y : ℕ} {xs ys : Bytes} → x ∷ xs ≡ y ∷ ys → xs ≡ ys
    cons_tail e = ap (drop 1) e

pub HeaderLine-Line :
    (line head : Bytes)
    → IsCrlf head
    → HeaderLine line head
    → 0 < length line
    → Line line (next_line head)
HeaderLine-Line _ _ crlf (between front line rest h) some_text =
    front-Line front line rest crlf h some_text
