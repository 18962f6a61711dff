-- ===== src/Provisioning/Dns.antt =====
-- The captive portal's DNS codec, firmware/src/provisioning/dns_msg.c. A NULL message is `none`.
pub mod Question
use roosterwake.Prelude.{
  ℕ, zero, suc, ◌+◌, ◌-◌, ◌*◌, ◌/◌, ◌%◌, ◌^◌, Bool, true, false, not, ◌&&◌, ◌||◌, Option, none,
  some, [], ◌∷◌, ◌++◌, ltb, leb, ◌==◌, if◌then◌else◌, length, take,
}
use roosterwake.Prelude.Bytes.{Bytes, byte_at, blit}
use roosterwake.Prelude.Options.{◌>>=◌}
use roosterwake.Provisioning.Network.{be16, net16, net32}

-- `rw_dns_query_t`
pub record DnsQuery : Type 0 where
  pub id : ℕ
  pub qtype : ℕ
  pub qclass : ℕ
  pub recursion_desired : Bool
  pub qname_off : ℕ
  pub qname_len : ℕ
  pub question_len : ℕ

-- The walk over the labels from `i` on, with the length so far: where the name ends. A round goes at least a
-- byte on.
unfoldable pub walk_labels : ℕ → Bytes → ℕ → ℕ → Option ℕ
walk_labels zero buf i total = none
walk_labels (suc fuel) buf i total =
    let label = byte_at buf i in
    let rest = walk_labels fuel buf (i + 1 + label) (total + (label + 1)) in
    if leb (length buf) i
    then none
    else if label / 2 ^ 6 == 3
    then none
    else if ltb 63 label
    then none
    else if label == 0
    then some (i + 1)
    else if ltb (length buf) (i + 1 + label)
    then none
    else if ltb 255 (total + (label + 1))
    then none
    else rest

-- What follows the name.
unfoldable pub read_question : Bytes → ℕ → Option DnsQuery
read_question buf i =
    if ltb (length buf) (i + 4)
    then none
    else some (record {
      id = be16 buf 0;
      qtype = be16 buf i;
      qclass = be16 buf (i + 2);
      recursion_desired = not (be16 buf 2 / 2 ^ 8 % 2 == 0);
      qname_off = 12;
      qname_len = i - 12;
      question_len = i - 12 + 4;
    })

-- `rw_dns_parse_query`: the QR bit is bit 15 of the flags, the opcode bits 11 to 14.
unfoldable pub parse_query : Option Bytes → Option DnsQuery
parse_query none = none
parse_query (some buf) =
    if ltb (length buf) 12
    then none
    else if not (be16 buf 2 / 2 ^ 15 == 0)
    then none
    else if not (be16 buf 2 / 2 ^ 11 % 2 ^ 4 == 0)
    then none
    else if not (be16 buf 4 == 1)
    then none
    else (walk_labels (length buf) buf 12 0 >>= read_question buf)

-- The flags of a response
unfoldable pub response_flags : Bool → ℕ
response_flags recursion_desired =
    if recursion_desired then 0x8000 + 0x0400 + 0x0100 + 0x0080 else 0x8000 + 0x0400

-- The answer record: the pointer to the question's name, type, class, TTL and address.
unfoldable pub answer_record : ℕ → ℕ → Bytes
answer_record answer_ip ttl =
    net16 0xC00C ++ net16 1 ++ net16 1 ++ net32 ttl ++ net16 4 ++ net32 answer_ip

-- `rw_dns_build_response`: the bytes of the response, or `none` for 0.
unfoldable pub build_response : Bytes → DnsQuery → ℕ → ℕ → ℕ → Option Bytes
build_response request query answer_ip ttl out_len =
    let question_end = 12 + query.question_len in
    let answer = query.qtype == 1 && query.qclass == 1 in
    if ltb (length request) question_end
    then none
    else if ltb out_len (question_end + (if answer then 16 else 0))
    then none
    else let out0 = take question_end request in
      let out1 = blit out0 2 (net16 (response_flags query.recursion_desired)) in
      let out2 = blit out1 4 (net16 1) in
      let out3 = blit out2 6 (net16 (if answer then 1 else 0)) in
      let out4 = blit out3 8 (net16 0) in
      let out5 = blit out4 10 (net16 0) in
      some (if answer then out5 ++ answer_record answer_ip ttl else out5)
