-- ===== src/Tests/Setup.antt =====
-- The setup hotspot.
use roosterwake.Prelude.{
  ℕ, ◌≤◌, ◌<◌, ◌≡◌, ◌≢◌, ◌↔◌, ◌⊎◌, refl, true, false, none, some, [], ◌∷◌, ◌++◌, ltb, if◌then◌else◌,
  length, take, replicate,
}
use roosterwake.Prelude.Bytes.{Bytes, eq_bytes}
use roosterwake.Net.Url.{before, contains, begins_with}
use roosterwake.Provisioning.Dns.{DnsQuery, parse_query}
use roosterwake.Provisioning.Dns.Question.{Asks, parse_query_iff}
use roosterwake.Provisioning.Dhcp.{DhcpRequest, ReplyCfg, build_reply}
use roosterwake.Provisioning.Dhcp.Reply.{reply_needs, build_reply_exactly}
use roosterwake.Provisioning.Http.{
  HttpRequest, get, post, ok, lower, starts_with_ci, hex_val, escaped_char, next_char,
  percent_chars, percent_decode, method_of, length_digits, parse_length, is_blank, skip_blanks,
  drop_blanks, take_header, walk_headers, find_end, fresh_request, parse_head, http_parse, redirect,
  inline, not_probe, probe_among, probe_kind,
}
use roosterwake.Provisioning.Http.Accepted.{Encoded, http_parse_accepted}
use roosterwake.Tests.Samples.{codes}

-- An address query for "a.io" with recursion desired
abbrev question : Bytes
question =
    0x12 ∷ 0x34 ∷ 1 ∷ 0 ∷ 0 ∷ 1 ∷ 0 ∷ 0 ∷ 0 ∷ 0 ∷ 0 ∷ 0 ∷ 1 ∷ 97 ∷ 2 ∷ 105 ∷ 111 ∷ 0 ∷ 0 ∷ 1 ∷ 0 ∷ 1
    ∷ []

abbrev asked_for : DnsQuery
asked_for = record {
  id = 0x1234;
  qtype = 1;
  qclass = 1;
  recursion_desired = true;
  qname_off = 12;
  qname_len = 6;
  question_len = 10;
}

parse_query_iff_example : (parse_query (some question) ≡ some asked_for) ↔ Asks question asked_for
parse_query_iff_example = parse_query_iff question asked_for

abbrev discover : DhcpRequest
discover = record {
  type = 1;
  xid = 7;
  flags = 0;
  chaddr = replicate 16 2;
  hlen = 6;
  ciaddr = 0;
  requested_ip = 0;
  server_id = 0;
  broadcast = false;
}

abbrev hotspot : ReplyCfg
hotspot = record {
  server_ip = 0xC0A8_0401;
  subnet_mask = 0xFFFF_FF00;
  offered_ip = 0xC0A8_0402;
  lease_secs = 3600;
}

abbrev offer : ℕ
offer = 2

build_reply_exactly_example :
    ((offer ≢ 2) × (offer ≢ 5) × (offer ≢ 6) × (build_reply discover hotspot offer 548 ≡ none))
    ⊎ ((548 < reply_needs offer) × (build_reply discover hotspot offer 548 ≡ none))
    ⊎ ((reply_needs offer ≤ 548)
        × (reply : Bytes) × (build_reply discover hotspot offer 548 ≡ some reply)
        × (length reply ≡ (if ltb 548 300 then 548 else 300)))
build_reply_exactly_example = build_reply_exactly discover hotspot offer 548

abbrev crlf : Bytes
crlf = 13 ∷ 10 ∷ []

abbrev posted : Bytes
posted =
    codes "POST /a%20b?x HTTP/1.1"
    ++ crlf
    ++ codes "Content-Length: 2"
    ++ crlf
    ++ crlf
    ++ codes "{}"

abbrev posted_request : HttpRequest
posted_request = record {
  method = post;
  path = codes "/a b";
  header_len = 45;
  content_length = 2;
  expects_continue = false;
  accepts_gzip = false;
}

posted_parsed : http_parse (some posted) ≡ ok posted_request
unfolding http_parse find_end parse_head eq_bytes before contains begins_with percent_decode
    percent_chars next_char escaped_char hex_val walk_headers take_header starts_with_ci lower
    parse_length length_digits drop_blanks skip_blanks is_blank method_of fresh_request
posted_parsed = refl

http_parse_accepted_example :
    (find_end posted ≡ some 45)
    × (begins_with 47 (codes "/a b") ≡ true)
    × (4 < 128)
    × (2 ≤ 512)
    × ¬ Encoded (take 45 posted)
http_parse_accepted_example = http_parse_accepted posted posted_request posted_parsed

-- A second CR hides the header line behind it from the walk.
abbrev smuggled : Bytes
smuggled =
    codes "GET / HTTP/1.1"
    ++ crlf
    ++ codes "X: a"
    ++ (13 ∷ crlf)
    ++ codes "Transfer-Encoding: chunked"
    ++ crlf
    ++ crlf

abbrev smuggled_request : HttpRequest
smuggled_request = record {
  method = get;
  path = codes "/";
  header_len = 53;
  content_length = 0;
  expects_continue = false;
  accepts_gzip = false;
}

smuggled_accepted : http_parse (some smuggled) ≡ ok smuggled_request
unfolding http_parse find_end parse_head eq_bytes before contains begins_with percent_decode
    percent_chars next_char escaped_char hex_val walk_headers take_header starts_with_ci lower
    parse_length length_digits drop_blanks skip_blanks is_blank method_of fresh_request
smuggled_accepted = refl

probes :
    (probe_kind (codes "/generate_204") ≡ redirect)
    × (probe_kind (codes "/hotspot-detect.html") ≡ inline)
    × (probe_kind (codes "/setup") ≡ not_probe)
unfolding probe_kind probe_among eq_bytes
probes = (refl, refl, refl)
