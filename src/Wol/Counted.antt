-- ===== src/Wol/Counted.antt =====
-- What a wake reports.
use roosterwake.Prelude.{
  ℕ, zero, suc, ◌+◌, ◌-◌, ◌*◌, ◌^◌, ◌≤◌, ◌≡◌, ◌≢◌, refl, ap, ◌∙◌, ◌⊎◌, inl, inr, Bool, true, false,
  Option, none, some, List, [], ◌∷◌, map, if◌then◌else◌, length, length-append, take_all, arith,
  Bool-cases,
}
use roosterwake.Prelude.Bytes.{Bytes}
use roosterwake.Wol.{
  Endpoint, Netif, WolStatus, wol_ok, err_send_failed, WolResult, no_result, push, push_some,
  subnet_bcast, build_endpoints, clamp_bursts, send_twice, send_burst, send_bursts, report, send_to,
  wol_send, build_magic,
}

length-push :
    (max : ℕ) (out : List Endpoint) (a p : ℕ)
    → length out ≤ max
    → (length out ≤ length (push max out a p))
      × (length (push max out a p) ≤ max)
      × (length (push max out a p) ≤ length out + 1)
unfolding push
length-push max out a p h = ground (arith, length-append out (record { addr = a; port = p } ∷ []))

length-push_some :
    (max : ℕ) (out : List Endpoint) (a : Option ℕ) (p : ℕ)
    → length out ≤ max
    → (length out ≤ length (push_some max out a p)) × (length (push_some max out a p) ≤ max)
unfolding push_some
length-push_some max out none p h = (omega arith, h)
length-push_some max out (some a) p h = let (x, y, z) = length-push max out a p h in (x, y)

listed : Option ℕ → Option ℕ → List Endpoint
listed subnet unicast =
    push_some 6
      (push_some 6
        (push_some 6 (push 6 (push_some 6 (push 6 [] (2 ^ 32 - 1) 9) subnet 9) (2 ^ 32 - 1) 7)
          subnet 7)
        unicast 9)
      unicast 7

size :
    (subnet unicast : Option ℕ)
    → (2 ≤ length (listed subnet unicast)) × (length (listed subnet unicast) ≤ 6)
unfolding push push_some listed
size none none = (omega arith, omega arith)
size none (some u) = (omega arith, omega arith)
size (some s) none = (omega arith, omega arith)
size (some s) (some u) = (omega arith, omega arith)

endpoints_size :
    (nif : Netif) (unicast : Option ℕ)
    → (2 ≤ length (build_endpoints nif unicast 6)) × (length (build_endpoints nif unicast 6) ≤ 6)
unfolding build_endpoints listed
endpoints_size nif unicast = size (subnet_bcast nif) unicast

length-map : (f : Endpoint → Bytes) (xs : List Endpoint) → length (map f xs) ≡ length xs
length-map f [] = refl
length-map f (x ∷ xs) = ap suc (length-map f xs)

count_cases : (c : Option ℕ) → (c ≡ none) ⊎ ((s : ℕ) × (c ≡ some s))
count_cases none = inl refl
count_cases (some s) = inr (s, refl)

clamped : (n : ℕ) → (1 ≤ clamp_bursts n) × (clamp_bursts n ≤ 5)
unfolding clamp_bursts
clamped n = ground arith

module _ {World : Type 0} (pbuf_alloc : World → Bool × World)
    (udp_sendto : World → Bytes → Endpoint → Bool × World) (pbuf_free : World → World)
    (pump_ms : ℕ → World → World) where
  abbrev burst : World → Bytes → List Endpoint → ℕ → Option ℕ × World
  burst = send_burst pbuf_alloc udp_sendto pbuf_free pump_ms

  abbrev bursts : ℕ → Bool → World → Bytes → List Endpoint → ℕ → Option ℕ × World
  bursts = send_bursts pbuf_alloc udp_sendto pbuf_free pump_ms

  burst_count :
      (w : World) (payload : Bytes) (eps : List Endpoint) (sent n : ℕ)
      → (burst w payload eps sent).0 ≡ some n
      → n ≡ sent + length eps
  unfolding send_burst
  burst_count w payload [] sent n e = ground arith
  burst_count w payload (ep ∷ eps) sent n e = ground (
    arith,
    burst_count (send_twice pbuf_alloc udp_sendto pbuf_free pump_ms w payload ep).1 payload eps
        (sent + 1) n,
  )

  bursts_step :
      (k : ℕ) (first : Bool) (w : World) (payload : Bytes) (eps : List Endpoint) (sent n : ℕ)
      → (bursts (suc k) first w payload eps sent).0 ≡ some n
      → (s : ℕ) × ((burst (if first then w else pump_ms 100 w) payload eps sent).0 ≡ some s)
        × ((bursts k false
              (burst (if first then w else pump_ms 100 w) payload eps sent).1
              payload
              eps
              s).0
            ≡ some n)
  unfolding send_bursts
  bursts_step k first w payload eps sent n e = go _ refl e
    where
      tried : Option ℕ × World
      tried = burst (if first then w else pump_ms 100 w) payload eps sent

      go :
          (c : Option ℕ)
          → tried.0 ≡ c
          → (elim c as (λ _. Option ℕ × World) [
            | none ↦ (none, tried.1)
            | some s ↦ bursts k false tried.1 payload eps s
          ]).0
            ≡ some n
          → (s : ℕ) × (tried.0 ≡ some s) × ((bursts k false tried.1 payload eps s).0 ≡ some n)
      go none f g = absurd (ground arith)
      go (some s) f g = (s, f, g)

  bursts_count :
      (k : ℕ) (first : Bool) (w : World) (payload : Bytes) (eps : List Endpoint) (sent n : ℕ)
      → (bursts k first w payload eps sent).0 ≡ some n
      → n ≡ sent + k * length eps
  unfolding send_bursts
  bursts_count zero first w payload eps sent n e = ground arith
  bursts_count (suc k) first w payload eps sent n e =
      let (s, one, rest) = bursts_step k first w payload eps sent n e in
      let first_sent = burst_count _ payload eps sent s one in
      let others = bursts_count k false _ payload eps s n rest in grind arith

  module _ (udp_new : World → Bool × World) (udp_remove : World → World)
      (endpoint_text : Endpoint → Bytes) (arp_lookup : Bytes → Option ℕ) where
    abbrev to : World → Bytes → ℕ → List Endpoint → (WolStatus × WolResult) × World
    to = send_to pbuf_alloc udp_sendto pbuf_free pump_ms udp_new udp_remove endpoint_text arp_lookup

    abbrev wake : World → Option Netif → Bytes → ℕ → Bool → (WolStatus × WolResult) × World
    wake =
        wol_send pbuf_alloc udp_sendto pbuf_free pump_ms udp_new udp_remove endpoint_text arp_lookup

    abbrev summary : ℕ → List Endpoint → ℕ → WolStatus × WolResult
    summary =
        report pbuf_alloc udp_sendto pbuf_free pump_ms udp_new udp_remove endpoint_text arp_lookup

    report_ok :
        (n : ℕ) (eps : List Endpoint) (s : ℕ)
        → length eps ≤ 6
        → s ≡ n * length eps
        → summary n eps s ≡ (wol_ok, record { sent = s; ifaces = map endpoint_text eps })
    unfolding report
    report_ok n eps s h e =
        let all = take_all 6 eps h in
        let size = length-map endpoint_text eps in
        let same : s ≡ length (map endpoint_text eps) * n = grind arith in rw all (ground arith)

    wake_link :
        (w : World) (nif : Netif) (mac : Bytes) (n : ℕ) (unicast : Bool)
        → nif.up ≡ true
        → nif.link_up ≡ true
        → nif.ip ≢ 0
        → wake w (some nif) mac n unicast
          ≡ to w mac
              (clamp_bursts n)
              (build_endpoints nif (if unicast then arp_lookup mac else none) 6)
    unfolding wol_send
    wake_link w nif mac n unicast up link ip =
        let (two, six) = endpoints_size nif (if unicast then arp_lookup mac else none) in
        ground arith

    to_cases :
        (w : World) (mac : Bytes) (n : ℕ) (eps : List Endpoint)
        → length eps ≤ 6
        → ((to w mac n eps).0
            ≡ (wol_ok, record { sent = n * length eps; ifaces = map endpoint_text eps }))
          ⊎ (((udp_new w).0 ≡ false) × ((to w mac n eps).0 ≡ (err_send_failed, no_result)))
          ⊎ (((bursts n true (udp_new w).1 (build_magic mac) eps 0).0 ≡ none)
              × ((to w mac n eps).0 ≡ (err_send_failed, no_result)))
    unfolding send_to
    to_cases w mac n eps h = elim (Bool-cases (udp_new w).0) [
      | inr no_pcb ↦ inr (inl (no_pcb, rw no_pcb refl))
      | inl pcb ↦ elim (count_cases (bursts n true (udp_new w).1 (build_magic mac) eps 0).0) [
        | inl gone ↦ inr (inr (gone, rw (pcb, gone) refl))
        | inr (s, e) ↦
            let all : s ≡ n * length eps = bursts_count n true _ _ eps 0 s e ∙ omega arith in
            inl (
              rw (pcb, e)
                (report_ok n eps s h all
                  ∙ ap (λ k. (wol_ok, record { sent = k; ifaces = map endpoint_text eps })) all))
      ]
    ]

    -- With a link and an address, a wake reports each of 2 to 6 destinations with exactly as many
    -- datagrams as destinations times bursts, between 1 and 5, and fails only where the stack has no
    -- control block or a burst is abandoned, with nothing reported: the accounting error never happens.
    pub wol_send_counted :
        (w : World) (nif : Netif) (mac : Bytes) (n : ℕ) (unicast : Bool)
        → nif.up ≡ true
        → nif.link_up ≡ true
        → nif.ip ≢ 0
        → (eps : List Endpoint) × (2 ≤ length eps)
          × (length eps ≤ 6)
          × (1 ≤ clamp_bursts n)
          × (clamp_bursts n ≤ 5)
          × (((wake w (some nif) mac n unicast).0 ≡ (
            wol_ok,
            record { sent = clamp_bursts n * length eps; ifaces = map endpoint_text eps },
          ))
              ⊎ (((udp_new w).0 ≡ false)
                  × ((wake w (some nif) mac n unicast).0 ≡ (err_send_failed, no_result)))
              ⊎ (((bursts (clamp_bursts n) true (udp_new w).1 (build_magic mac) eps 0).0 ≡ none)
                  × ((wake w (some nif) mac n unicast).0 ≡ (err_send_failed, no_result))))
    wol_send_counted w nif mac n unicast up link ip =
        let eps = build_endpoints nif (if unicast then arp_lookup mac else none) 6 in
        let (two, six) = endpoints_size nif (if unicast then arp_lookup mac else none) in
        let (low, high) = clamped n in
        (
          eps,
          two,
          six,
          low,
          high,
          rw (wake_link w nif mac n unicast up link ip) (to_cases w mac (clamp_bursts n) eps six),
        )
