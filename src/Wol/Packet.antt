-- ===== src/Wol/Packet.antt =====
-- The magic packet.
use roosterwake.Prelude.{
  ℕ, zero, suc, ◌+◌, ◌*◌, ◌<◌, ◌≡◌, refl, ap, ◌∙◌, [], ◌∷◌, ◌++◌, length, length-append, arith,
  replicate,
}
use roosterwake.Prelude.Bytes.{Bytes, byte_at}
use roosterwake.Wol.{copies, build_magic}

byte_at-front : (xs ys : Bytes) (i : ℕ) → i < length xs → byte_at (xs ++ ys) i ≡ byte_at xs i
byte_at-front [] ys i h = absurd (omega arith)
byte_at-front (x ∷ xs) ys zero h = refl
byte_at-front (x ∷ xs) ys (suc i) h = byte_at-front xs ys i (omega arith)

byte_at-back : (xs ys : Bytes) (i : ℕ) → byte_at (xs ++ ys) (length xs + i) ≡ byte_at ys i
byte_at-back [] ys i = let same : 0 + i ≡ i = omega arith in ap (byte_at ys) same
byte_at-back (x ∷ xs) ys i =
    let next : suc (length xs) + i ≡ suc (length xs + i) = omega arith in
    ap (byte_at (x ∷ (xs ++ ys))) next ∙ byte_at-back xs ys i

byte_at-replicate : (n b i : ℕ) → i < n → byte_at (replicate n b) i ≡ b
byte_at-replicate zero b i h = absurd (omega arith)
byte_at-replicate (suc n) b zero h = refl
byte_at-replicate (suc n) b (suc i) h = byte_at-replicate n b i (omega arith)

length-copies : (n : ℕ) (mac : Bytes) → length (copies n mac) ≡ n * length mac
unfolding copies
length-copies zero mac = omega arith
length-copies (suc n) mac = omega (arith, length-append mac (copies n mac), length-copies n mac)

byte_at-copies :
    (n k j : ℕ) (mac : Bytes)
    → k < n
    → j < length mac
    → byte_at (copies n mac) (k * length mac + j) ≡ byte_at mac j
unfolding copies
byte_at-copies zero k j mac h l = absurd (omega arith)
byte_at-copies (suc n) zero j mac h l =
    ap (byte_at (mac ++ copies n mac)) (omega arith) ∙ byte_at-front mac (copies n mac) j l
byte_at-copies (suc n) (suc k) j mac h l =
    ap (byte_at (mac ++ copies n mac)) (omega arith)
    ∙ byte_at-back mac (copies n mac) (k * length mac + j)
    ∙ byte_at-copies n k j mac (omega arith) l

-- The magic packet of a six-byte address has 102 bytes: six of 0xFF, and then the address 16 times.
pub build_magic_layout :
    (mac : Bytes) (k j : ℕ)
    → length mac ≡ 6
    → k < 16
    → j < 6
    → (length (build_magic mac) ≡ 102)
      × (byte_at (build_magic mac) j ≡ 0xFF)
      × (byte_at (build_magic mac) (6 + k * 6 + j) ≡ byte_at mac j)
unfolding build_magic
build_magic_layout mac k j six hk hj =
    let place : 6 + k * 6 + j ≡ 6 + (k * length mac + j) = rw six (omega arith) in
    (
      omega (arith, length-append (replicate 6 0xFF) (copies 16 mac), length-copies 16 mac),
      byte_at-front (replicate 6 0xFF) (copies 16 mac) j hj ∙ byte_at-replicate 6 0xFF j hj,
      ap (byte_at (replicate 6 0xFF ++ copies 16 mac)) place
          ∙ byte_at-back (replicate 6 0xFF) (copies 16 mac) (k * length mac + j)
          ∙ byte_at-copies 16 k j mac hk (omega arith),
    )
