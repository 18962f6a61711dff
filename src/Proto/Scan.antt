-- ===== src/Proto/Scan.antt =====
-- The hosts of a `scan_result`, firmware/src/proto/scan_json.c.
use roosterwake.Prelude.{
  ℕ, ◌+◌, Bool, true, false, not, ◌||◌, List, [], ◌∷◌, leb, ◌==◌, if◌then◌else◌, length, take,
}
use roosterwake.Prelude.Bytes.{Bytes}
use roosterwake.Prelude.Text.{codes}
use roosterwake.Config.Mac.{mac_format}
use roosterwake.Proto.Json.{JsonWriter, jw_raw, jw_key, jw_str}

-- `rw_scan_host_t`
pub record ScanHost : Type 0 where
  pub ip : Bytes
  pub mac : Bytes
  pub name : Bytes

-- `write_host`
unfoldable pub write_host : JsonWriter → ScanHost → Bool → JsonWriter
write_host w h first =
    let w1 = jw_raw (if first then w else jw_raw w (codes ",")) (codes "{") in
    let w2 = jw_raw (jw_str (jw_key w1 (codes "ip")) h.ip) (codes ",") in
    let w3 = jw_str (jw_key w2 (codes "mac")) (mac_format h.mac) in
    let w4 = jw_str (jw_key (jw_raw w3 (codes ",")) (codes "name")) h.name in
    jw_raw (if length h.name == 0 then w3 else w4) (codes "}")

-- `try_host`; the writer is given back as it was when the host does not fit.
unfoldable pub try_host : JsonWriter → ScanHost → Bool → ℕ → Bool × JsonWriter
try_host w h first reserve =
    let w1 = write_host w h first in
    if not w1.ok || leb w.cap (length w1.text + reserve) then (false, w) else (true, w1)

-- What a pass carries from host to host
pub record Selection : Type 0 where
  pub writer : JsonWriter
  pub first : Bool
  pub dropped : Bool

-- A host with its entry of `keep`
abbrev pub Candidate : Type 0
Candidate = ScanHost × Bool

-- A pass takes the hosts that have a name, or those that have none.
unfoldable pub wants : Bool → ScanHost → Bool
wants true h = not (length h.name == 0)
wants false h = length h.name == 0

-- The body of the inner loop
unfoldable pub consider : Bool → ℕ → Candidate → Selection → Candidate × Selection
consider want_named reserve c s =
    let (fits, w1) = try_host s.writer c.0 s.first reserve in
    if not (wants want_named c.0)
    then (c, s)
    else if fits
    then ((c.0, true), record s { writer = w1; first = false })
    else (c, record s { dropped = true })

-- A pass
unfoldable pub select_pass : Bool → ℕ → List Candidate → Selection → List Candidate × Selection
select_pass want_named reserve [] s = ([], s)
select_pass want_named reserve (c ∷ cs) s =
    let (c1, s1) = consider want_named reserve c s in
    let (rest, s2) = select_pass want_named reserve cs s1 in (c1 ∷ rest, s2)

-- `keep`, all false, for at most RW_SCAN_JSON_MAX hosts
unfoldable pub candidates : List ScanHost → List Candidate
candidates [] = []
candidates (h ∷ hs) = (h, false) ∷ candidates hs

-- The last loop
unfoldable pub write_kept : JsonWriter → List Candidate → Bool → JsonWriter
write_kept w [] first = w
write_kept w (c ∷ cs) first =
    if c.1 then write_kept (write_host w c.0 first) cs false else write_kept w cs first

-- `rw_scan_json_hosts`: whether no host was dropped.
unfoldable pub scan_json_hosts : JsonWriter → List ScanHost → ℕ → Bool × JsonWriter
scan_json_hosts w hosts reserve =
    let start = jw_raw (jw_key w (codes "hosts")) (codes "[") in
    let (named, s1) =
      select_pass true reserve (candidates (take 24 hosts))
        (record { writer = start; first = true; dropped = false }) in
    let (chosen, s2) = select_pass false reserve named s1 in
    (not s2.dropped, jw_raw (write_kept start chosen true) (codes "]"))
