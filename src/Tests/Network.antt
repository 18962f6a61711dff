-- ===== src/Tests/Network.antt =====
-- URLs and Wake-on-LAN.
use roosterwake.Prelude.{
  ℕ, ◌+◌, ◌*◌, ◌≤◌, ◌≡◌, ◌⊎◌, refl, Bool, true, false, Option, some, none, List, [], ◌∷◌, ◌++◌, map,
  length, All, arith,
}
use roosterwake.Prelude.Bytes.{Bytes, IsByte, eq_bytes}
use roosterwake.Net.Url.{
  Url, copy_bounded, read_digits, parse_u16, after_prefix, ends_authority, before, contains,
  begins_with, request_path, read_port, parse_rest, url_parse, read_octets, parse_ipv4, local_range,
  localhost, plaintext_permitted,
}
use roosterwake.Net.Url.Parsed.{IsUrl, url_parse-IsUrl}
use roosterwake.Net.Url.Plaintext.{Dotted, IsLocal, plaintext_permitted-IsLocal}
use roosterwake.Wol.{
  Endpoint, Netif, wol_ok, err_send_failed, no_result, build_magic, clamp_bursts, wol_send,
  send_bursts,
}
use roosterwake.Wol.Counted.{wol_send_counted}

-- "10.0.0.2"
abbrev ten : Bytes
ten = 49 ∷ 48 ∷ 46 ∷ 48 ∷ 46 ∷ 48 ∷ 46 ∷ 50 ∷ []

-- "ws://10.0.0.2:81/d"
abbrev local_url : Bytes
local_url = 119 ∷ 115 ∷ 58 ∷ 47 ∷ 47 ∷ (ten ++ (58 ∷ 56 ∷ 49 ∷ 47 ∷ 100 ∷ []))

abbrev local_parsed : Url
local_parsed = record { tls = false; host = ten; port = 81; path = 47 ∷ 100 ∷ [] }

local_url_parsed : url_parse (some local_url) ≡ some local_parsed
unfolding url_parse after_prefix parse_rest before ends_authority contains begins_with read_port
    parse_u16 read_digits copy_bounded request_path
local_url_parsed = refl

url_parse-IsUrl_example : IsUrl local_parsed
url_parse-IsUrl_example = url_parse-IsUrl local_url local_parsed local_url_parsed

ten_permitted : plaintext_permitted (some ten) ≡ true
unfolding plaintext_permitted parse_ipv4 read_octets local_range eq_bytes
ten_permitted = refl

plaintext_permitted-IsLocal_example :
    (ten ≡ localhost)
    ⊎ ((ip : Bytes) × Dotted ten ip × IsLocal ip × All IsByte ip × (parse_ipv4 ten ≡ some ip))
plaintext_permitted-IsLocal_example = plaintext_permitted-IsLocal ten ten_permitted

-- "8.8.8.8"
public_refused : plaintext_permitted (some (56 ∷ 46 ∷ 56 ∷ 46 ∷ 56 ∷ 46 ∷ 56 ∷ [])) ≡ false
unfolding plaintext_permitted parse_ipv4 read_octets local_range eq_bytes
public_refused = refl

abbrev target_mac : Bytes
target_mac = 1 ∷ 2 ∷ 3 ∷ 4 ∷ 5 ∷ 6 ∷ []

-- A stack whose state counts the datagrams, and which takes all of them.
abbrev taking : ℕ → Bool × ℕ
taking w = (true, w)

abbrev sending : ℕ → Bytes → Endpoint → Bool × ℕ
sending w payload ep = (true, w + 1)

abbrev same : ℕ → ℕ
same w = w

abbrev pumped : ℕ → ℕ → ℕ
pumped ms w = w

abbrev port_text : Endpoint → Bytes
port_text ep = ep.port ∷ []

abbrev unseen : Bytes → Option ℕ
unseen mac = none

abbrev lan : Netif
lan = record { up = true; link_up = true; ip = 0x0A000002; mask = 0xFFFFFF00 }

wol_send_counted_example :
    (eps : List Endpoint) × (2 ≤ length eps)
    × (length eps ≤ 6)
    × (1 ≤ clamp_bursts 3)
    × (clamp_bursts 3 ≤ 5)
    × (((wol_send taking sending same pumped taking same port_text unseen 0
            (some lan)
            target_mac
            3
            true).0
          ≡ (wol_ok, record { sent = clamp_bursts 3 * length eps; ifaces = map port_text eps }))
        ⊎ (((taking 0).0 ≡ false)
            × ((wol_send taking sending same pumped taking same port_text unseen 0
                  (some lan)
                  target_mac
                  3
                  true).0
                ≡ (err_send_failed, no_result)))
        ⊎ (((send_bursts taking sending same pumped
                (clamp_bursts 3)
                true
                (taking 0).1
                (build_magic target_mac)
                eps
                0).0
              ≡ none)
            × ((wol_send taking sending same pumped taking same port_text unseen 0
                  (some lan)
                  target_mac
                  3
                  true).0
                ≡ (err_send_failed, no_result))))
wol_send_counted_example =
    wol_send_counted taking sending same pumped taking same port_text unseen 0 lan target_mac 3 true
      refl refl (omega arith)
