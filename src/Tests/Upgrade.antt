-- ===== src/Tests/Upgrade.antt =====
-- The opening handshake.
use roosterwake.Prelude.{◌≡◌, refl, false, none, some, [], ◌∷◌, ◌++◌, take, length}
use roosterwake.Prelude.Bytes.{Bytes, eq_bytes}
use roosterwake.Prelude.Decimal.{decimal, digits_before}
use roosterwake.Net.Url.{before, contains}
use roosterwake.Provisioning.Http.{
  lower, starts_with_ci, is_blank, skip_blanks, drop_blanks, find_end,
}
use roosterwake.Ws.Handshake.{
  upgraded, bad_accept, ci_contains, line_of, value_of, named, see_line, see_lines, judge,
  answer_head, parse_response, host_header, request_text, build_request,
}
use roosterwake.Ws.Handshake.Upgraded.{IsUpgrade, parse_response-IsUpgrade}
use roosterwake.Tests.Samples.{codes}

abbrev crlf : Bytes
crlf = 13 ∷ 10 ∷ []

abbrev accept_value : Bytes
accept_value = codes "s3pPLMBiTxaQ9kYGzzhZRbK+xOo="

abbrev response : Bytes
response =
    codes "HTTP/1.1 101 Switching Protocols"
    ++ crlf
    ++ codes "Upgrade: WebSocket"
    ++ crlf
    ++ codes "Connection: keep-alive, Upgrade"
    ++ crlf
    ++ codes "Sec-WebSocket-Accept: "
    ++ accept_value
    ++ crlf
    ++ codes "sec-websocket-protocol: roosterwake.v1 "
    ++ crlf
    ++ crlf

response_accepted :
    parse_response (response ++ (129 ∷ 0 ∷ [])) accept_value (codes "roosterwake.v1")
    ≡ upgraded (length response)
unfolding parse_response find_end eq_bytes answer_head starts_with_ci lower see_lines line_of
    see_line named before contains value_of drop_blanks skip_blanks is_blank ci_contains judge
response_accepted = refl

response_refused : parse_response response (codes "other") (codes "roosterwake.v1") ≡ bad_accept
unfolding parse_response find_end eq_bytes answer_head starts_with_ci lower see_lines line_of
    see_line named before contains value_of drop_blanks skip_blanks is_blank ci_contains judge
response_refused = refl

parse_response-IsUpgrade_example :
    (find_end (response ++ (129 ∷ 0 ∷ [])) ≡ some (length response))
    × IsUpgrade accept_value
        (codes "roosterwake.v1")
        (take (length response) (response ++ (129 ∷ 0 ∷ [])))
parse_response-IsUpgrade_example =
    parse_response-IsUpgrade accept_value (codes "roosterwake.v1") (response ++ (129 ∷ 0 ∷ []))
      (length response) response_accepted

short_buffer :
    build_request 40 (codes "relay") 443 false (codes "/") (codes "key") (codes "v1") ≡ none
unfolding build_request host_header request_text decimal digits_before
short_buffer = refl
