-- ===== src/Wol.antt =====
-- Wake-on-LAN, firmware/src/wol/magic.c and firmware/src/wol/wol.c.
--
-- lwIP is a parameter: what its state is, its allocation of a buffer and of a control block, its
-- sending of a datagram, and the ARP table. IPv4 addresses are words of 32 bits.
pub mod Packet
pub mod Counted
use Prim.Native.Nat.{bit_or}
use roosterwake.Prelude.{
  ℕ, zero, suc, ◌+◌, ◌-◌, ◌*◌, ◌^◌, Bool, true, false, not, ◌&&◌, ◌||◌, Option, none, some, List,
  [], ◌∷◌, ◌++◌, map, ltb, ◌==◌, if◌then◌else◌, length, take, replicate,
}
use roosterwake.Prelude.Bytes.{Bytes}

-- The loop of `rw_wol_build_magic`
unfoldable pub copies : ℕ → Bytes → Bytes
copies zero mac = []
copies (suc n) mac = mac ++ copies n mac

-- `rw_wol_build_magic`
unfoldable pub build_magic : Bytes → Bytes
build_magic mac = replicate 6 0xFF ++ copies 16 mac

-- `wol_endpoint_t`
pub record Endpoint : Type 0 where
  pub addr : ℕ
  pub port : ℕ

-- What the code reads of `netif_default`.
pub record Netif : Type 0 where
  pub up : Bool
  pub link_up : Bool
  pub ip : ℕ
  pub mask : ℕ

-- `rw_wol_status_t`
pub data WolStatus : Type 0 where
  wol_ok err_no_link err_send_failed : WolStatus

-- `rw_wol_result_t`, its texts as a list
pub record WolResult : Type 0 where
  pub sent : ℕ
  pub ifaces : List Bytes

abbrev pub no_result : WolResult
no_result = record { sent = 0; ifaces = [] }

-- `if (n < max) out[n++] = ...`
unfoldable pub push : ℕ → List Endpoint → ℕ → ℕ → List Endpoint
push max out a p = if ltb (length out) max then out ++ (record { addr = a; port = p } ∷ []) else out

unfoldable pub push_some : ℕ → List Endpoint → Option ℕ → ℕ → List Endpoint
push_some max out none p = out
push_some max out (some a) p = push max out a p

-- The subnet-directed broadcast address, `ip | ~mask`.
unfoldable pub subnet_bcast : Netif → Option ℕ
subnet_bcast nif =
    if nif.mask == 0 || nif.mask == 2 ^ 32 - 1
    then none
    else some (bit_or nif.ip (2 ^ 32 - 1 - nif.mask))

-- `build_endpoints`, with what `rw_arp_lookup` says where unicast is wanted
unfoldable pub build_endpoints : Netif → Option ℕ → ℕ → List Endpoint
build_endpoints nif unicast max =
    let out1 = push max [] (2 ^ 32 - 1) 9 in
    let out2 = push_some max out1 (subnet_bcast nif) 9 in
    let out3 = push max out2 (2 ^ 32 - 1) 7 in
    let out4 = push_some max out3 (subnet_bcast nif) 7 in
    let out5 = push_some max out4 unicast 9 in push_some max out5 unicast 7

-- RW_WOL_BURSTS_MIN and RW_WOL_BURSTS_MAX; a negative count is below the least.
unfoldable pub clamp_bursts : ℕ → ℕ
clamp_bursts bursts = if ltb bursts 1 then 1 else if ltb 5 bursts then 5 else bursts

module _ {World : Type 0} (pbuf_alloc : World → Bool × World)
    (udp_sendto : World → Bytes → Endpoint → Bool × World) (pbuf_free : World → World)
    (pump_ms : ℕ → World → World) where
  -- `send_one`: whether the stack took the datagram.
  unfoldable pub send_one : World → Bytes → Endpoint → Bool × World
  send_one w payload ep =
      let (p, w1) = pbuf_alloc w in
      let (sent, w2) = udp_sendto w1 payload ep in
      if not p then (false, w1) else (sent, pbuf_free w2)

  -- One destination of a burst, with the second attempt.
  unfoldable pub send_twice : World → Bytes → Endpoint → Bool × World
  send_twice w payload ep =
      let (first, w1) = send_one w payload ep in
      if first then (true, w1) else send_one (pump_ms 5 w1) payload ep

  -- The inner loop: `res->sent`, or `none` where the wake is abandoned.
  unfoldable pub send_burst : World → Bytes → List Endpoint → ℕ → Option ℕ × World
  send_burst w payload [] sent = (some sent, w)
  send_burst w payload (ep ∷ eps) sent =
      let (taken, w1) = send_twice w payload ep in
      let rest = send_burst w1 payload eps (sent + 1) in if taken then rest else (none, w1)

  -- The outer loop, with the bursts that are left and whether this is the first.
  unfoldable pub send_bursts : ℕ → Bool → World → Bytes → List Endpoint → ℕ → Option ℕ × World
  send_bursts zero first w payload eps sent = (some sent, w)
  send_bursts (suc n) first w payload eps sent =
      let w0 = if first then w else pump_ms 100 w in
      let (count, w1) = send_burst w0 payload eps sent in
      elim count [ none ↦ (none, w1) | some sent1 ↦ send_bursts n false w1 payload eps sent1 ]

  module _ (udp_new : World → Bool × World) (udp_remove : World → World)
      (endpoint_text : Endpoint → Bytes) (arp_lookup : Bytes → Option ℕ) where
    -- The report, and the check of what `PROTOCOL.md` says of it.
    unfoldable pub report : ℕ → List Endpoint → ℕ → WolStatus × WolResult
    report bursts eps sent =
        let ifaces = map endpoint_text (take 6 eps) in
        if sent == length ifaces * bursts
        then (wol_ok, record { sent = sent; ifaces = ifaces })
        else (err_send_failed, no_result)

    -- The sending, once the link and the destinations are known.
    unfoldable pub send_to : World → Bytes → ℕ → List Endpoint → (WolStatus × WolResult) × World
    send_to w mac bursts eps =
        let (pcb, w1) = udp_new w in
        let (count, w2) = send_bursts bursts true w1 (build_magic mac) eps 0 in
        let w3 = udp_remove w2 in
        if not pcb then ((err_send_failed, no_result), w1) else (
          elim count [ none ↦ (err_send_failed, no_result) | some sent ↦ report bursts eps sent ],
          w3,
        )

    -- `rw_wol_send`; no default interface is `none`.
    unfoldable pub wol_send :
        World → Option Netif → Bytes → ℕ → Bool → (WolStatus × WolResult) × World
    wol_send w none mac bursts unicast_too = ((err_no_link, no_result), w)
    wol_send w (some nif) mac bursts unicast_too =
        let eps = build_endpoints nif (if unicast_too then arp_lookup mac else none) 6 in
        if not nif.up || not nif.link_up || nif.ip == 0
        then ((err_no_link, no_result), w)
        else if length eps == 0
        then ((err_no_link, no_result), w)
        else send_to w mac (clamp_bursts bursts) eps
