-- ===== src/Provisioning/Dns/Question.antt =====
-- Which queries are answered.
use roosterwake.Prelude.{
  ℕ, zero, suc, ◌+◌, ◌-◌, ◌/◌, ◌%◌, ◌^◌, ◌≤◌, ◌<◌, ◌≡◌, ◌≢◌, ◌↔◌, refl, sym, ap, subst, ◌∙◌, ◌⊎◌,
  inl, inr, not, some, ◌==◌, length, arith,
}
use roosterwake.Prelude.Bytes.{Bytes, byte_at}
use roosterwake.Prelude.Options.{◌>>=◌, >>=-eq-some}
use roosterwake.Provisioning.Network.{be16}
use roosterwake.Provisioning.Dns.{DnsQuery, walk_labels, read_question, parse_query}

-- From `i` to `j` the message holds labels of 1 to 63 bytes and the root.
pub data Name (buf : Bytes) (j : ℕ) : ℕ → Type 0 where
  root : (i : ℕ) → i < length buf → byte_at buf i ≡ 0 → i + 1 ≡ j → Name buf j i
  label :
      (i : ℕ)
      → 1 ≤ byte_at buf i
      → byte_at buf i ≤ 63
      → i + 1 + byte_at buf i ≤ length buf
      → Name buf j (i + 1 + byte_at buf i)
      → Name buf j i

walk_step :
    (fuel : ℕ) (buf : Bytes) (i total j : ℕ)
    → walk_labels (suc fuel) buf i total ≡ some j
    → ((i < length buf) × (byte_at buf i ≡ 0) × (i + 1 ≡ j))
      ⊎ ((1 ≤ byte_at buf i)
          × (byte_at buf i ≤ 63)
          × (i + 1 + byte_at buf i ≤ length buf)
          × (total + (byte_at buf i + 1) ≤ 255)
          × (walk_labels fuel buf (i + 1 + byte_at buf i) (total + (byte_at buf i + 1)) ≡ some j))
unfolding walk_labels
walk_step fuel buf i total j e = ground arith

walk_sound :
    (fuel : ℕ) (buf : Bytes) (i total j : ℕ)
    → total ≤ 255
    → walk_labels fuel buf i total ≡ some j
    → Name buf j i × (i < j) × (total + j ≤ 255 + (i + 1))
walk_sound zero buf i total j h e = absurd (no_fuel e)
  where
    no_fuel : walk_labels zero buf i total ≢ some j
    no_fuel e = unfold walk_labels in ground arith
walk_sound (suc fuel) buf i total j h e = elim (walk_step fuel buf i total j e) [
  | inl (inside, zero_label, last) ↦ (root i inside zero_label last, omega arith, omega arith)
  | inr (low, high, fits, short, more) ↦
      let (name, on, size) = walk_sound fuel buf (i + 1 + byte_at buf i) _ j short more in
      (label i low high fits name, omega arith, omega arith)
]

walk_root :
    (fuel : ℕ) (buf : Bytes) (i total : ℕ)
    → i < length buf
    → byte_at buf i ≡ 0
    → walk_labels (suc fuel) buf i total ≡ some (i + 1)
unfolding walk_labels
walk_root fuel buf i total inside e = rw e (ground arith)

walk_label :
    (fuel : ℕ) (buf : Bytes) (i total : ℕ)
    → 1 ≤ byte_at buf i
    → byte_at buf i ≤ 63
    → i + 1 + byte_at buf i ≤ length buf
    → total + (byte_at buf i + 1) ≤ 255
    → walk_labels (suc fuel) buf i total
      ≡ walk_labels fuel buf (i + 1 + byte_at buf i) (total + (byte_at buf i + 1))
unfolding walk_labels
walk_label fuel buf i total low high fits short = ground arith

chain_grows : (buf : Bytes) (j i : ℕ) → Name buf j i → i < j
chain_grows buf j i (root _ inside e last) = omega arith
chain_grows buf j i (label _ low high fits name) = omega (arith, chain_grows buf j _ name)

-- Rounds enough for the rest of the message read every name whose length is allowed.
walk_complete :
    (fuel : ℕ) (buf : Bytes) (i total j : ℕ)
    → length buf ≤ i + fuel
    → Name buf j i
    → total + j ≤ 255 + (i + 1)
    → walk_labels fuel buf i total ≡ some j
walk_complete zero buf i total j enough (root _ inside e last) size = absurd (omega arith)
walk_complete zero buf i total j enough (label _ low high fits name) size = absurd (omega arith)
walk_complete (suc fuel) buf i total j enough (root _ inside e last) size =
    walk_root fuel buf i total inside e ∙ ap some last
walk_complete (suc fuel) buf i total j enough (label _ low high fits name) size =
    let on = chain_grows buf j _ name in
    walk_label fuel buf i total low high fits (omega arith)
    ∙ walk_complete fuel buf _ _ j (omega arith) name (omega arith)

-- The query that a message asks, where its name has `n` bytes.
abbrev pub query_of : Bytes → ℕ → DnsQuery
query_of buf n = record {
  id = be16 buf 0;
  qtype = be16 buf (12 + n);
  qclass = be16 buf (12 + n + 2);
  recursion_desired = not (be16 buf 2 / 2 ^ 8 % 2 == 0);
  qname_off = 12;
  qname_len = n;
  question_len = n + 4;
}

-- A message that asks: a header with the bits of a standard query, one question, and behind it a name of at
-- most 256 bytes, a type and a class.
pub record Asks (buf : Bytes) (q : DnsQuery) : Type 0 where
  pub standard : be16 buf 2 < 2 ^ 11
  pub single : be16 buf 4 ≡ 1
  pub name : Name buf (12 + q.qname_len) 12
  pub name_size : q.qname_len ≤ 256
  pub whole : 12 + q.question_len ≤ length buf
  pub fields : q ≡ query_of buf q.qname_len

be16-lt : (p : Bytes) (i : ℕ) → be16 p i < 2 ^ 16
unfolding be16
be16-lt p i = omega arith

header_read :
    (buf : Bytes) (q : DnsQuery)
    → parse_query (some buf) ≡ some q
    → (12 ≤ length buf)
      × (be16 buf 2 / 2 ^ 15 ≡ 0)
      × (be16 buf 2 / 2 ^ 11 % 2 ^ 4 ≡ 0)
      × (be16 buf 4 ≡ 1)
      × ((walk_labels (length buf) buf 12 0 >>= read_question buf) ≡ some q)
unfolding parse_query
header_read buf q e = ground arith

question_read :
    (buf : Bytes) (n : ℕ) (q : DnsQuery)
    → read_question buf (12 + n) ≡ some q
    → (12 + n + 4 ≤ length buf) × (q ≡ query_of buf n)
unfolding read_question
question_read buf n q e = let size : 12 + n - 12 ≡ n = omega arith in ground arith

parse_query_sound : (buf : Bytes) (q : DnsQuery) → parse_query (some buf) ≡ some q → Asks buf q
parse_query_sound buf q e =
    let (long, qr, opcode, single, walk) = header_read buf q e in
    let (j, walked, read) = >>=-eq-some (walk_labels (length buf) buf 12 0) _ walk in
    let (name, on, size) = walk_sound (length buf) buf 12 0 j (omega arith) walked in
    let place : j ≡ 12 + (j - 12) = omega arith in
    let (fits, same) =
      question_read buf (j - 12) q (subst (λ i. read_question buf i ≡ some q) place read) in
    let bound = be16-lt buf 2 in
    rw same (record {
      standard = omega arith;
      single = single;
      name = subst (λ i. Name buf i 12) place name;
      name_size = omega arith;
      whole = omega arith;
      fields = refl;
    })

header_passed :
    (buf : Bytes)
    → 12 ≤ length buf
    → be16 buf 2 < 2 ^ 11
    → be16 buf 4 ≡ 1
    → parse_query (some buf) ≡ (walk_labels (length buf) buf 12 0 >>= read_question buf)
unfolding parse_query
header_passed buf long standard single = ground arith

question_passed :
    (buf : Bytes) (n : ℕ)
    → 12 + n + 4 ≤ length buf
    → read_question buf (12 + n) ≡ some (query_of buf n)
unfolding read_question
question_passed buf n fits = let size : 12 + n - 12 ≡ n = omega arith in rw size (ground arith)

parse_query_complete : (buf : Bytes) (q : DnsQuery) → Asks buf q → parse_query (some buf) ≡ some q
parse_query_complete buf q a =
    let whole = a.whole in
    let n = q.qname_len in
    let small = a.name_size in
    let len : q.question_len ≡ n + 4 = ap (λ x. x.question_len) a.fields in
    header_passed buf (omega arith) a.standard a.single
    ∙ ap (λ w. w >>= read_question buf)
        (walk_complete (length buf) buf 12 0 (12 + n) (omega arith) a.name (omega arith))
    ∙ question_passed buf n (omega arith)
    ∙ ap some (sym a.fields)

-- A message is taken for a query exactly where it asks: a standard query with one question, whose name is
-- a chain of labels of 1 to 63 bytes and a root, at most 256 bytes in all and inside the message with
-- its type and class. The query is then what stands there, and the walk never runs out of rounds.
pub parse_query_iff : (buf : Bytes) (q : DnsQuery) → (parse_query (some buf) ≡ some q) ↔ Asks buf q
parse_query_iff buf q = (parse_query_sound buf q, parse_query_complete buf q)
