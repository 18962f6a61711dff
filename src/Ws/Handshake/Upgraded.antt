-- ===== src/Ws/Handshake/Upgraded.antt =====
-- What an accepted upgrade has shown.
use roosterwake.Prelude.{
  ℕ, zero, suc, ◌+◌, ◌≡◌, refl, sym, ap, subst, ◌∙◌, ◌⊎◌, inl, inr, Bool, true, false, Option, none,
  some, leb, ◌==◌, if◌then◌else◌, length, take, drop, length-take, arith, Bool-cases,
}
use roosterwake.Prelude.Bytes.{Bytes, eq_bytes}
use roosterwake.Prelude.Text.{codes}
use roosterwake.Provisioning.Http.{starts_with_ci, find_end}
use roosterwake.Provisioning.Http.Accepted.{length-find_end}
use roosterwake.Ws.Handshake.{
  need_more, upgraded, response_too_large, Seen, nothing_seen, ci_contains, line_of, value_of,
  named, see_line, see_lines, judge, answer_head, parse_response,
}

-- The lines of a head
pub data HeadLine (line : Bytes) : Bytes → Type 0 where
  this : (p : Bytes) → line_of p ≡ line → HeadLine line p
  next : (p : Bytes) → HeadLine line (drop (length (line_of p) + 2) p) → HeadLine line p

-- A line of the head has the name, and its value meets the test.
pub record Shown (p name : Bytes) (test : Bytes → Bool) : Type 0 where
  pub line : Bytes
  pub there : HeadLine line p
  pub has_name : named line name ≡ true
  pub meets : test (value_of line) ≡ true

module _ (expected_accept expected_protocol : Bytes) where
  -- What is marked as seen was seen before, or is shown by a line.
  record Backed (p : Bytes) (old new : Seen) : Type 0 where
    upgrade_by :
        new.upgrade ≡ true
        → (old.upgrade ≡ true) ⊎ Shown p (codes "upgrade") (λ v. ci_contains v (codes "websocket"))
    connection_by :
        new.connection ≡ true
        → (old.connection ≡ true)
          ⊎ Shown p (codes "connection") (λ v. ci_contains v (codes "upgrade"))
    accept_by :
        new.accept ≡ true
        → (old.accept ≡ true)
          ⊎ Shown p (codes "sec-websocket-accept") (λ v. eq_bytes v expected_accept)
    protocol_by :
        new.protocol ≡ true
        → (old.protocol ≡ true)
          ⊎ Shown p (codes "sec-websocket-protocol") (λ v. eq_bytes v expected_protocol)

  seen_now :
      (line : Bytes) (old : Seen)
      → ((see_line expected_accept expected_protocol line old).upgrade ≡ true
          → (old.upgrade ≡ true)
            ⊎ ((named line (codes "upgrade") ≡ true)
                × (ci_contains (value_of line) (codes "websocket") ≡ true)))
        × ((see_line expected_accept expected_protocol line old).connection ≡ true
            → (old.connection ≡ true)
              ⊎ ((named line (codes "connection") ≡ true)
                  × (ci_contains (value_of line) (codes "upgrade") ≡ true)))
        × ((see_line expected_accept expected_protocol line old).accept ≡ true
            → (old.accept ≡ true)
              ⊎ ((named line (codes "sec-websocket-accept") ≡ true)
                  × (eq_bytes (value_of line) expected_accept ≡ true)))
        × ((see_line expected_accept expected_protocol line old).protocol ≡ true
            → (old.protocol ≡ true)
              ⊎ ((named line (codes "sec-websocket-protocol") ≡ true)
                  × (eq_bytes (value_of line) expected_protocol ≡ true)))
  unfolding see_line
  seen_now line old = ground arith

  -- Evidence from one line of the head, and then from those behind it.
  further :
      {p name : Bytes} {test : Bytes → Bool} {was : Type 0}
      → was ⊎ ((named (line_of p) name ≡ true) × (test (value_of (line_of p)) ≡ true))
      → was ⊎ Shown p name test
  further (inl h) = inl h
  further (inr (n, t)) =
      inr (record { line = line_of _; there = this _ refl; has_name = n; meets = t })

  behind :
      {p name : Bytes} {test : Bytes → Bool} {was : Type 0}
      → (was ⊎ Shown p name test) ⊎ Shown (drop (length (line_of p) + 2) p) name test
      → was ⊎ Shown p name test
  behind (inl h) = h
  behind (inr s) =
      inr (record { line = s.line; there = next _ s.there; has_name = s.has_name; meets = s.meets })

  chained :
      {p name : Bytes} {test : Bytes → Bool} {was now_seen : Type 0}
      → now_seen ⊎ Shown (drop (length (line_of p) + 2) p) name test
      → (now_seen → was ⊎ ((named (line_of p) name ≡ true) × (test (value_of (line_of p)) ≡ true)))
      → was ⊎ Shown p name test
  chained (inl h) f = further (f h)
  chained (inr s) f = behind (inr s)

  see_lines-Backed :
      (fuel : ℕ) (p : Bytes) (old : Seen)
      → Backed p old (see_lines expected_accept expected_protocol fuel p old)
  unfolding see_lines
  see_lines-Backed zero p old = record {
    upgrade_by = inl;
    connection_by = inl;
    accept_by = inl;
    protocol_by = inl;
  }
  see_lines-Backed (suc fuel) p old = elim (Bool-cases (length (line_of p) == 0)) [
    | inl over ↦
        rw over
          (record { upgrade_by = inl; connection_by = inl; accept_by = inl; protocol_by = inl })
    | inr more ↦
        let now = see_line expected_accept expected_protocol (line_of p) old in
        let (u, c, a, r) = seen_now (line_of p) old in
        let rest = see_lines-Backed fuel (drop (length (line_of p) + 2) p) now in
        rw more (record {
          upgrade_by = λ e. chained (rest.upgrade_by e) u;
          connection_by = λ e. chained (rest.connection_by e) c;
          accept_by = λ e. chained (rest.accept_by e) a;
          protocol_by = λ e. chained (rest.protocol_by e) r;
        })
  ]

  -- What the head of an accepted upgrade holds.
  pub record IsUpgrade (head : Bytes) : Type 0 where
    pub status :
        (starts_with_ci head (codes "HTTP/1.1 101") ≡ true)
        ⊎ (starts_with_ci head (codes "HTTP/1.0 101") ≡ true)
    pub upgrade : Shown head (codes "upgrade") (λ v. ci_contains v (codes "websocket"))
    pub connection : Shown head (codes "connection") (λ v. ci_contains v (codes "upgrade"))
    pub accept : Shown head (codes "sec-websocket-accept") (λ v. eq_bytes v expected_accept)
    pub protocol : Shown head (codes "sec-websocket-protocol") (λ v. eq_bytes v expected_protocol)

  judge_all :
      (k n : ℕ) (s : Seen)
      → judge k s ≡ upgraded n
      → (k ≡ n)
        × (s.upgrade ≡ true)
        × (s.connection ≡ true)
        × (s.accept ≡ true)
        × (s.protocol ≡ true)
  unfolding judge
  judge_all k n s e = ground arith

  shown_by : {s : Type 0} → (false ≡ true) ⊎ s → s
  shown_by (inl e) = absurd (ground arith)
  shown_by (inr s) = s

  answer_split :
      (head : Bytes) (n : ℕ)
      → answer_head expected_accept expected_protocol head ≡ upgraded n
      → ((starts_with_ci head (codes "HTTP/1.1 101") ≡ true)
          ⊎ (starts_with_ci head (codes "HTTP/1.0 101") ≡ true))
        × (judge
              (length head)
              (see_lines expected_accept expected_protocol (length head) head nothing_seen)
            ≡ upgraded n)
  unfolding answer_head
  answer_split head n e = ground arith

  answer_head-IsUpgrade :
      (head : Bytes) (n : ℕ)
      → answer_head expected_accept expected_protocol head ≡ upgraded n
      → (length head ≡ n) × IsUpgrade head
  answer_head-IsUpgrade head n e =
      let (status, e1) = answer_split head n e in
      let (same, u, c, a, r) =
        judge_all (length head) n
          (see_lines expected_accept expected_protocol (length head) head nothing_seen) e1 in
      let found = see_lines-Backed (length head) head nothing_seen in
      (
        same,
        record {
          status = status;
          upgrade = shown_by (found.upgrade_by u);
          connection = shown_by (found.connection_by c);
          accept = shown_by (found.accept_by a);
          protocol = shown_by (found.protocol_by r);
        },
      )

  ends_somewhere :
      (buf : Bytes) (n : ℕ)
      → parse_response buf expected_accept expected_protocol ≡ upgraded n
      → (m : ℕ) × (find_end buf ≡ some m)
        × (answer_head expected_accept expected_protocol (take m buf) ≡ upgraded n)
  unfolding parse_response
  ends_somewhere buf n e = by_end (find_end buf) refl e
    where
      by_end :
          (f : Option ℕ)
          → find_end buf ≡ f
          → (elim f [
            | none ↦ if leb 1024 (length buf) then response_too_large else need_more
            | some m ↦ answer_head expected_accept expected_protocol (take m buf)
          ])
            ≡ upgraded n
          → (m : ℕ) × (find_end buf ≡ some m)
            × (answer_head expected_accept expected_protocol (take m buf) ≡ upgraded n)
      by_end none same e = absurd (ground arith)
      by_end (some m) same e = (m, same, e)

  -- A response is taken for an upgrade only with a complete head that begins with the status 101, asks for
  -- a websocket in its Upgrade and Connection headers, and has headers with exactly the accept value and
  -- the subprotocol that were expected; what is consumed is that head.
  pub parse_response-IsUpgrade :
      (buf : Bytes) (n : ℕ)
      → parse_response buf expected_accept expected_protocol ≡ upgraded n
      → (find_end buf ≡ some n) × IsUpgrade (take n buf)
  parse_response-IsUpgrade buf n e =
      let (m, found, e1) = ends_somewhere buf n e in
      let (size, shown) = answer_head-IsUpgrade (take m buf) n e1 in
      let same : m ≡ n = sym (whole m found) ∙ size in
      (found ∙ ap some same, subst (λ k. IsUpgrade (take k buf)) same shown)
    where
      whole : (m : ℕ) → find_end buf ≡ some m → length (take m buf) ≡ m
      whole m found = ground (arith, length-take m buf, length-find_end buf m found)
