-- ===== src/Tests/Hosts.antt =====
-- The host list of a scan.
use roosterwake.Prelude.{[], ◌∷◌, ◌≡◌, refl}
use roosterwake.Config.Mac.{mac_format}
use roosterwake.Proto.Json.{jw_init, put, jw_raw, escape, jw_chars, jw_str, jw_key}
use roosterwake.Proto.Scan.{
  ScanHost, write_host, try_host, wants, consider, select_pass, candidates, write_kept,
  scan_json_hosts,
}
use roosterwake.Tests.Samples.{codes}

abbrev nameless : ScanHost
nameless = record { ip = codes "10.0.0.1"; mac = 2 ∷ 0 ∷ 0 ∷ 0 ∷ 0 ∷ 1 ∷ []; name = [] }

abbrev named : ScanHost
named = record { ip = codes "10.0.0.2"; mac = 2 ∷ 0 ∷ 0 ∷ 0 ∷ 0 ∷ 2 ∷ []; name = codes "nas" }

-- Where there is room for one host, the one with a name is kept.
named_first :
    (scan_json_hosts (jw_init 80) (nameless ∷ named ∷ []) 10).1.text
    ≡ codes "\"hosts\":[{\"ip\":\"10.0.0.2\",\"mac\":\"02:00:00:00:00:02\",\"name\":\"nas\"}]"
unfolding scan_json_hosts select_pass consider wants try_host write_host write_kept candidates
    jw_raw jw_key jw_str jw_chars escape put mac_format
named_first = refl
