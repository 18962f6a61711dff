-- ===== src/Net/Url/Plaintext.antt =====
-- Which hosts may be spoken to without TLS.
use roosterwake.Prelude.{
  ℕ, ◌+◌, ◌-◌, ◌*◌, ◌≤◌, ◌<◌, ◌≡◌, sym, ◌∙◌, subst, append_nil, append_assoc, ◌⊎◌, inl, inr, true,
  some, [], ◌∷◌, ◌++◌, length, length-append, All, arith,
}
use roosterwake.Prelude.Bytes.{Bytes, IsByte, eq_bytes, eq_bytes_iff}
use roosterwake.Net.Url.{read_octets, parse_ipv4, local_range, localhost, plaintext_permitted}

All-append : (xs : Bytes) (x : ℕ) → All IsByte xs → x < 256 → All IsByte (xs ++ (x ∷ []))
All-append [] x h l = (l, tt)
All-append (y ∷ ys) x (h, hs) l = (h, All-append ys x hs l)

octet_step :
    (c : ℕ) (cs octets : Bytes) (digits value : ℕ) (ip : Bytes)
    → read_octets (c ∷ cs) octets digits value ≡ some ip
    → ((48 ≤ c)
        × (c ≤ 57)
        × (digits + 1 ≤ 3)
        × (value * 10 + (c - 48) ≤ 255)
        × (read_octets cs octets (digits + 1) (value * 10 + (c - 48)) ≡ some ip))
      ⊎ ((c ≡ b'.') × (0 < digits) × (read_octets cs (octets ++ (value ∷ [])) 0 0 ≡ some ip))
unfolding read_octets
octet_step c cs octets digits value ip e = ground arith

octet_end :
    (octets : Bytes) (digits value : ℕ) (ip : Bytes)
    → read_octets [] octets digits value ≡ some ip
    → (length octets ≡ 3) × (octets ++ (value ∷ []) ≡ ip) × (0 < digits)
unfolding read_octets
octet_end octets digits value ip e = ground arith

read_octets_shape :
    (s octets : Bytes) (digits value : ℕ) (ip : Bytes)
    → All IsByte octets
    → value ≤ 255
    → read_octets s octets digits value ≡ some ip
    → (length ip ≡ 4) × All IsByte ip
read_octets_shape [] octets digits value ip h l e =
    let (three, same, _) = octet_end octets digits value ip e in
    rw (sym same)
      (omega (arith, length-append octets (value ∷ [])), All-append octets value h (omega arith))
read_octets_shape (c ∷ cs) octets digits value ip h l e =
    elim (octet_step c cs octets digits value ip e) [
      | inl (_, _, _, small, more) ↦ read_octets_shape cs octets _ _ ip h small more
      | inr (_, _, next) ↦
          read_octets_shape cs (octets ++ (value ∷ [])) 0 0 ip
            (All-append octets value h (omega arith)) (omega arith) next
    ]

-- One to three decimal digits, and their value where it is at most 255
pub data Octet : Bytes → ℕ → Type 0 where
  one : (c : ℕ) → 48 ≤ c → c ≤ 57 → Octet (c ∷ []) (c - 48)
  two :
      (c d : ℕ) → 48 ≤ c → c ≤ 57 → 48 ≤ d → d ≤ 57 → Octet (c ∷ d ∷ []) ((c - 48) * 10 + (d - 48))
  three :
      (c d e : ℕ)
      → 48 ≤ c
      → c ≤ 57
      → 48 ≤ d
      → d ≤ 57
      → 48 ≤ e
      → e ≤ 57
      → ((c - 48) * 10 + (d - 48)) * 10 + (e - 48) ≤ 255
      → Octet (c ∷ d ∷ e ∷ []) (((c - 48) * 10 + (d - 48)) * 10 + (e - 48))

-- Octets in decimal, with dots between them and nothing else
pub data Dotted : Bytes → Bytes → Type 0 where
  last : (t : Bytes) (v : ℕ) → Octet t v → Dotted t (v ∷ [])
  dot :
      (t rest : Bytes) (v : ℕ) (vs : Bytes)
      → Octet t v
      → Dotted rest vs
      → Dotted (t ++ (b'.' ∷ rest)) (v ∷ vs)

-- An octet that is being read
data Part : Bytes → ℕ → Type 0 where
  nothing_yet : Part [] 0
  some_digits : (t : Bytes) (v : ℕ) → Octet t v → Part t v

next_digit :
    (t : Bytes) (v c : ℕ)
    → Part t v
    → 48 ≤ c
    → c ≤ 57
    → length t + 1 ≤ 3
    → v * 10 + (c - 48) ≤ 255
    → Part (t ++ (c ∷ [])) (v * 10 + (c - 48))
next_digit _ _ c nothing_yet low high room small =
    let same : c - 48 ≡ 0 * 10 + (c - 48) = omega arith in
    subst (Part (c ∷ [])) same (some_digits _ _ (one c low high))
next_digit _ _ c (some_digits _ _ (one a la ha)) low high room small =
    some_digits _ _ (two a c la ha low high)
next_digit _ _ c (some_digits _ _ (two a b la ha lb hb)) low high room small =
    some_digits _ _ (three a b c la ha lb hb low high small)
next_digit _ _ c (some_digits _ _ (three a b d la ha lb hb ld hd s)) low high room small =
    absurd (omega arith)

Part-Octet : (t : Bytes) (v : ℕ) → Part t v → 0 < length t → Octet t v
Part-Octet _ _ nothing_yet h = absurd (omega arith)
Part-Octet _ _ (some_digits t v o) h = o

read_octets-Dotted :
    (s octets t : Bytes) (v : ℕ) (ip : Bytes)
    → Part t v
    → read_octets s octets (length t) v ≡ some ip
    → (vs : Bytes) × Dotted (t ++ s) vs × (octets ++ vs ≡ ip)
read_octets-Dotted [] octets t v ip part e =
    let (_, same, some_read) = octet_end octets (length t) v ip e in
    let o = last t v (Part-Octet t v part some_read) in
    (v ∷ [], subst (λ u. Dotted u (v ∷ [])) (sym (append_nil t)) o, same)
read_octets-Dotted (c ∷ cs) octets t v ip part e = elim (octet_step c cs octets (length t) v ip e) [
  | inl (low, high, room, small, more) ↦
      let count : length t + 1 ≡ length (t ++ (c ∷ [])) = sym (length-append t (c ∷ [])) in
      let (vs, dotted, same) =
        read_octets-Dotted cs octets (t ++ (c ∷ [])) (v * 10 + (c - 48)) ip
          (next_digit t v c part low high room small)
          (subst (λ n. read_octets cs octets n (v * 10 + (c - 48)) ≡ some ip) count more) in
      (vs, subst (λ u. Dotted u vs) (append_assoc t (c ∷ []) cs) dotted, same)
  | inr (is_dot, some_read, next) ↦
      let (vs, dotted, same) =
        read_octets-Dotted cs (octets ++ (v ∷ [])) [] 0 ip nothing_yet next in
      (
        v ∷ vs,
        rw is_dot (dot t cs v vs (Part-Octet t v part some_read) dotted),
        sym (append_assoc octets (v ∷ []) vs) ∙ same,
      )
]

permitted_cases :
    (host : Bytes)
    → plaintext_permitted (some host) ≡ true
    → (eq_bytes host localhost ≡ true)
      ⊎ ((ip : Bytes) × (parse_ipv4 host ≡ some ip) × (local_range ip ≡ true))
unfolding plaintext_permitted
permitted_cases host e = ground arith

-- The loopback, private and link-local addresses of RFC 1122, RFC 1918 and RFC 3927
pub data IsLocal : Bytes → Type 0 where
  loopback : (b c d : ℕ) → IsLocal (127 ∷ b ∷ c ∷ d ∷ [])
  private_10 : (b c d : ℕ) → IsLocal (10 ∷ b ∷ c ∷ d ∷ [])
  private_172 : (b c d : ℕ) → 16 ≤ b → b ≤ 31 → IsLocal (172 ∷ b ∷ c ∷ d ∷ [])
  private_192 : (c d : ℕ) → IsLocal (192 ∷ 168 ∷ c ∷ d ∷ [])
  link_local : (c d : ℕ) → IsLocal (169 ∷ 254 ∷ c ∷ d ∷ [])

range_cases :
    (a b : ℕ) (ip : Bytes)
    → local_range (a ∷ b ∷ ip) ≡ true
    → (a ≡ 127)
      ⊎ (a ≡ 10)
      ⊎ ((a ≡ 172) × (16 ≤ b) × (b ≤ 31))
      ⊎ ((a ≡ 192) × (b ≡ 168))
      ⊎ ((a ≡ 169) × (b ≡ 254))
unfolding local_range
range_cases a b ip e = ground arith

range-IsLocal : (ip : Bytes) → length ip ≡ 4 → local_range ip ≡ true → IsLocal ip
range-IsLocal (a ∷ b ∷ c ∷ d ∷ []) l e = elim (range_cases a b _ e) [
  | inl x ↦ rw x (loopback b c d)
  | inr (inl x) ↦ rw x (private_10 b c d)
  | inr (inr (inl (x, y, z))) ↦ rw x (private_172 b c d y z)
  | inr (inr (inr (inl (x, y)))) ↦ rw (x, y) (private_192 c d)
  | inr (inr (inr (inr (x, y)))) ↦ rw (x, y) (link_local c d)
]
range-IsLocal [] l e = absurd (omega arith)
range-IsLocal (a ∷ []) l e = absurd (omega arith)
range-IsLocal (a ∷ b ∷ []) l e = absurd (omega arith)
range-IsLocal (a ∷ b ∷ c ∷ []) l e = absurd (omega arith)
range-IsLocal (a ∷ b ∷ c ∷ d ∷ x ∷ ip) l e = absurd (omega arith)

-- A host to which plain text is permitted is "localhost", or it is four octets in decimal, with dots between
-- them and nothing else, of a loopback, private or link-local address: no other name and no public
-- address is permitted.
pub plaintext_permitted-IsLocal :
    (host : Bytes)
    → plaintext_permitted (some host) ≡ true
    → (host ≡ localhost)
      ⊎ ((ip : Bytes) × Dotted host ip × IsLocal ip × All IsByte ip × (parse_ipv4 host ≡ some ip))
unfolding parse_ipv4
plaintext_permitted-IsLocal host e = elim (permitted_cases host e) [
  | inl same ↦ inl ((eq_bytes_iff host localhost).0 same)
  | inr (ip, read, local) ↦
      let (four, bytes) = read_octets_shape host [] 0 0 ip tt (omega arith) read in
      let (vs, dotted, same) = read_octets-Dotted host [] [] 0 ip nothing_yet read in
      inr (ip, subst (Dotted host) same dotted, range-IsLocal ip four local, bytes, read)
]
