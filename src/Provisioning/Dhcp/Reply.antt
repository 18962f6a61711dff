-- ===== src/Provisioning/Dhcp/Reply.antt =====
-- Which replies are built, and how long they are.
use roosterwake.Prelude.{
  ℕ, ◌+◌, ◌-◌, ◌≤◌, ◌<◌, ◌≡◌, ◌≢◌, refl, ap, subst, ◌∙◌, ◌⊎◌, inl, inr, true, false, not, ◌&&◌,
  Option, none, some, [], ◌∷◌, ltb, ◌==◌, if◌then◌else◌, length, take, length-take, replicate,
  length-replicate, arith, Bool-cases,
}
use roosterwake.Prelude.Bytes.{Bytes, blit, length-blit}
use roosterwake.Prelude.Options.{◌>>=◌}
use roosterwake.Provisioning.Network.{net32}
use roosterwake.Provisioning.Dhcp.{
  DhcpRequest, ReplyCfg, ReplyBuffer, put_opt, put_opt32, reply_head, lease_options, end_reply,
  build_reply,
}

length-reply_head :
    (req : DhcpRequest) (cfg : ReplyCfg) (type out_len : ℕ)
    → length (reply_head req cfg type out_len) ≡ out_len
unfolding reply_head
length-reply_head req cfg type out_len = elim (Bool-cases (type == 6)) [
  | inl e ↦ rw e (simp (length-blit, length-replicate))
  | inr e ↦ rw e (simp (length-blit, length-replicate))
]

-- An option that fits is put, and moves the place on.
put_opt_fits :
    (code : ℕ) (val : Bytes) (r : ReplyBuffer)
    → r.pos + 2 + length val ≤ length r.out
    → (q : ReplyBuffer) × (put_opt code val r ≡ some q)
      × (q.pos ≡ r.pos + 2 + length val)
      × (length q.out ≡ length r.out)
unfolding put_opt
put_opt_fits code val r fits =
    let roomy : ltb (length r.out) (r.pos + 2 + length val) ≡ false = ground arith in
    (
      record {
        out =
            blit (blit (blit r.out r.pos (code ∷ [])) (r.pos + 1) (length val ∷ [])) (r.pos + 2)
              val;
        pos = r.pos + 2 + length val;
      },
      rw roomy refl,
      refl,
      simp length-blit,
    )

put_opt_full :
    (code : ℕ) (val : Bytes) (r : ReplyBuffer)
    → length r.out < r.pos + 2 + length val
    → put_opt code val r ≡ none
unfolding put_opt
put_opt_full code val r full = ground arith

put32_fits :
    (code v : ℕ) (r : ReplyBuffer)
    → r.pos + 6 ≤ length r.out
    → (q : ReplyBuffer) × (put_opt32 code v r ≡ some q)
      × (q.pos ≡ r.pos + 6)
      × (length q.out ≡ length r.out)
unfolding put_opt32 net32
put32_fits code v r fits =
    let (q, e, place, size) = put_opt_fits code (net32 v) r (omega arith) in
    (q, e, omega arith, size)

put32_full : (code v : ℕ) (r : ReplyBuffer) → length r.out < r.pos + 6 → put_opt32 code v r ≡ none
unfolding put_opt32 net32
put32_full code v r full = put_opt_full code (net32 v) r (omega arith)

lease_fits :
    (cfg : ReplyCfg) (type : ℕ) (r : ReplyBuffer)
    → (type == 6) ≡ false
    → r.pos + 24 ≤ length r.out
    → (q : ReplyBuffer) × (lease_options cfg type r ≡ some q)
      × (q.pos ≡ r.pos + 24)
      × (length q.out ≡ length r.out)
unfolding lease_options
lease_fits cfg type r offer fits =
    let (r1, e1, p1, s1) = put32_fits 1 cfg.subnet_mask r (omega arith) in
    let (r2, e2, p2, s2) = put32_fits 3 cfg.server_ip r1 (omega arith) in
    let (r3, e3, p3, s3) = put32_fits 6 cfg.server_ip r2 (omega arith) in
    let (r4, e4, p4, s4) = put32_fits 51 cfg.lease_secs r3 (omega arith) in
    (r4, rw (offer, e1, e2, e3) e4, omega arith, omega arith)

-- The last of the lease's options is the first that may not fit.
lease_full :
    (cfg : ReplyCfg) (type : ℕ) (r : ReplyBuffer)
    → (type == 6) ≡ false
    → r.pos + 18 ≤ length r.out
    → length r.out < r.pos + 24
    → lease_options cfg type r ≡ none
unfolding lease_options
lease_full cfg type r offer fits full =
    let (r1, e1, p1, s1) = put32_fits 1 cfg.subnet_mask r (omega arith) in
    let (r2, e2, p2, s2) = put32_fits 3 cfg.server_ip r1 (omega arith) in
    let (r3, e3, p3, s3) = put32_fits 6 cfg.server_ip r2 (omega arith) in
    rw (offer, e1, e2, e3) (put32_full 51 cfg.lease_secs r3 (omega arith))

lease_refused :
    (cfg : ReplyCfg) (type : ℕ) (r : ReplyBuffer)
    → (type == 6) ≡ true
    → lease_options cfg type r ≡ some r
unfolding lease_options
lease_refused cfg type r e = rw e refl

-- Padded to 300 bytes, or as far as the buffer goes.
abbrev padded_size : ℕ → ℕ
padded_size out_len = if ltb out_len 300 then out_len else 300

end_fits :
    (r : ReplyBuffer)
    → r.pos + 1 ≤ length r.out
    → r.pos + 1 < 300
    → (reply : Bytes) × (end_reply r ≡ some reply) × (length reply ≡ padded_size (length r.out))
unfolding end_reply
end_fits r fits short =
    let roomy : ltb (length r.out) (r.pos + 1) ≡ false = ground arith in
    let pad : ltb (r.pos + 1) 300 ≡ true = ground arith in
    let size = padded_size (length r.out) in
    let out = blit (blit r.out r.pos (255 ∷ [])) (r.pos + 1) (replicate (size - (r.pos + 1)) 0) in
    let same : length out ≡ length r.out = simp length-blit in
    (take size out, rw (roomy, pad) refl, length-take size out ∙ rw same (ground arith))

end_full : (r : ReplyBuffer) → length r.out < r.pos + 1 → end_reply r ≡ none
unfolding end_reply
end_full r full = ground arith

-- What follows the two options that every reply has.
with_two_options :
    (req : DhcpRequest) (cfg : ReplyCfg) (type out_len : ℕ)
    → (type ≡ 2) ⊎ (type ≡ 5) ⊎ (type ≡ 6)
    → 272 ≤ out_len
    → (r : ReplyBuffer) × (build_reply req cfg type out_len
        ≡ (lease_options cfg type r >>= end_reply))
      × (r.pos ≡ 249)
      × (length r.out ≡ out_len)
unfolding build_reply
with_two_options req cfg type out_len kind long =
    let head : ReplyBuffer = record { out = reply_head req cfg type out_len; pos = 240 } in
    let size = length-reply_head req cfg type out_len in
    let (r1, e1, p1, s1) = put_opt_fits 53 (type ∷ []) head (omega arith) in
    let (r2, e2, p2, s2) = put32_fits 54 cfg.server_ip r1 (omega arith) in
    let known : (not (type == 2) && not (type == 5) && not (type == 6)) ≡ false = ground arith in
    let roomy : ltb out_len 272 ≡ false = ground arith in
    (r2, rw (known, roomy, e1, e2) refl, omega arith, omega arith)

-- The least buffer that a reply is built in: a refusal carries no lease.
abbrev pub reply_needs : ℕ → ℕ
reply_needs type = if type == 6 then 272 else 274

abbrev Sent : ℕ → Option Bytes → Type 0
Sent out_len built = (reply : Bytes) × (built ≡ some reply) × (length reply ≡ padded_size out_len)

-- A refusal ends after the two options.
refusal_ends :
    (cfg : ReplyCfg) (type : ℕ) (r : ReplyBuffer)
    → (type == 6) ≡ true
    → r.pos ≡ 249
    → 272 ≤ length r.out
    → Sent (length r.out) (lease_options cfg type r >>= end_reply)
refusal_ends cfg type r refusal pos long =
    let (reply, e, l) = end_fits r (omega arith) (omega arith) in
    (reply, rw (lease_refused cfg type r refusal) e, l)

lease_ends :
    (cfg : ReplyCfg) (type : ℕ) (r : ReplyBuffer)
    → (type == 6) ≡ false
    → r.pos ≡ 249
    → 274 ≤ length r.out
    → Sent (length r.out) (lease_options cfg type r >>= end_reply)
lease_ends cfg type r offer pos long =
    let (q, e1, place, size) = lease_fits cfg type r offer (omega arith) in
    let (reply, e, l) = end_fits q (omega arith) (omega arith) in
    (reply, rw e1 e, l ∙ ap padded_size size)

-- With 272 bytes the last option does not fit, and with 273 the end does not.
lease_has_no_room :
    (cfg : ReplyCfg) (type : ℕ) (r : ReplyBuffer)
    → (type == 6) ≡ false
    → r.pos ≡ 249
    → 272 ≤ length r.out
    → length r.out < 274
    → (lease_options cfg type r >>= end_reply) ≡ none
lease_has_no_room cfg type r offer pos long tight = elim (Bool-cases (ltb (length r.out) 273)) [
  | inl e ↦ rw (lease_full cfg type r offer (ground arith) (ground arith)) refl
  | inr e ↦
      let (q, e1, place, size) = lease_fits cfg type r offer (ground arith) in
      rw e1 (end_full q (ground arith))
]

not_built :
    (req : DhcpRequest) (cfg : ReplyCfg) (type out_len : ℕ)
    → ((type ≢ 2) × (type ≢ 5) × (type ≢ 6)) ⊎ (out_len < 272)
    → build_reply req cfg type out_len ≡ none
unfolding build_reply
not_built req cfg type out_len why = ground arith

kinds : (type : ℕ) → ((type ≢ 2) × (type ≢ 5) × (type ≢ 6)) ⊎ ((type ≡ 2) ⊎ (type ≡ 5) ⊎ (type ≡ 6))
kinds type = ground arith

-- A message of one of the three types
known_exactly :
    (req : DhcpRequest) (cfg : ReplyCfg) (type out_len : ℕ)
    → (type ≡ 2) ⊎ (type ≡ 5) ⊎ (type ≡ 6)
    → 272 ≤ out_len
    → ((out_len < reply_needs type) × (build_reply req cfg type out_len ≡ none))
      ⊎ ((reply_needs type ≤ out_len) × Sent out_len (build_reply req cfg type out_len))
known_exactly req cfg type out_len kind long =
    let (r, same, pos, size) = with_two_options req cfg type out_len kind long in
    elim (Bool-cases (type == 6)) [
      | inl refusal ↦ inr (
        ground arith,
        rw same (
            subst (λ n. Sent n (lease_options cfg type r >>= end_reply)) size
              (refusal_ends cfg type r refusal pos (omega arith))),
      )
      | inr offer ↦ elim (Bool-cases (ltb out_len 274)) [
        | inl tight ↦ inl (
          ground arith,
          same ∙ lease_has_no_room cfg type r offer pos (ground arith) (ground arith),
        )
        | inr roomy ↦ inr (
          ground arith,
          rw same (
              subst (λ n. Sent n (lease_options cfg type r >>= end_reply)) size
                (lease_ends cfg type r offer pos (ground arith))),
        )
      ]
    ]

-- An offer, an acknowledgement or a refusal is built exactly where the buffer has 274 bytes, or 272 for a
-- refusal; it then has 300 bytes, or as many as the buffer where that is less. Nothing else is built.
pub build_reply_exactly :
    (req : DhcpRequest) (cfg : ReplyCfg) (type out_len : ℕ)
    → ((type ≢ 2) × (type ≢ 5) × (type ≢ 6) × (build_reply req cfg type out_len ≡ none))
      ⊎ ((out_len < reply_needs type) × (build_reply req cfg type out_len ≡ none))
      ⊎ ((reply_needs type ≤ out_len)
          × (reply : Bytes) × (build_reply req cfg type out_len ≡ some reply)
          × (length reply ≡ (if ltb out_len 300 then out_len else 300)))
build_reply_exactly req cfg type out_len = elim (kinds type) [
  | inl (a, b, c) ↦ inl (a, b, c, not_built req cfg type out_len (inl (a, b, c)))
  | inr kind ↦ elim (Bool-cases (ltb out_len 272)) [
    | inl small ↦ inr (inl (ground arith, not_built req cfg type out_len (inr (ground arith))))
    | inr big ↦ elim (known_exactly req cfg type out_len kind (ground arith)) [
      | inl short ↦ inr (inl short)
      | inr (fits, (reply, e, l)) ↦ inr (inr (fits, reply, e, l))
    ]
  ]
]
