-- ===== src/Config/Token.antt =====
-- Minting a device's token, `rw_config_ensure_token` of firmware/src/config/config_flash.c. The platform's random
-- numbers are a parameter.
use roosterwake.Prelude.{
  ℕ, zero, suc, ◌*◌, ◌/◌, ◌%◌, ◌^◌, subst, ◌∷◌, ◌<◌, ◌≡◌, refl, sym, ap, ◌∙◌, ◌⊎◌, inl, inr, Bool,
  true, false, not, ◌==◌, if◌then◌else◌, some, [], ◌++◌, length, All, arith, Bool-cases,
}
use roosterwake.Prelude.Bytes.{Bytes, IsByte, bytes32}
use roosterwake.Proto.Hex.{hex_encode, hex_decode, hex_decode-hex_encode, length-hex_encode}
use roosterwake.Config.Record.{Config}

module _ {World : Type 0} (get_rand_32 : World → ℕ × World) where
  -- The loop, with the words that are left.
  unfoldable pub random_words : ℕ → World → Bytes × World
  random_words zero w = ([], w)
  random_words (suc n) w =
      let (word, w1) = get_rand_32 w in
      let (rest, w2) = random_words n w1 in (bytes32 word ++ rest, w2)

  -- `rw_config_ensure_token`: whether a token was made.
  unfoldable pub ensure_token : Config → World → Bool × Config × World
  ensure_token cfg w =
      let (raw, w1) = random_words 8 w in
      if not (length cfg.token == 0)
      then (false, cfg, w)
      else (true, record cfg { token = hex_encode raw }, w1)

  -- So many bytes as four for each word, the low byte of a word first, are drawn one word after another.
  pub data Drawn : ℕ → World → Bytes → World → Type 0 where
    no_more : (w : World) → Drawn 0 w [] w
    word :
        (n : ℕ) (w : World) (rest : Bytes) (last : World)
        → Drawn n (get_rand_32 w).1 rest last
        → Drawn
            (suc n)
            w
            ((get_rand_32 w).0 % 2 ^ 8
              ∷ (get_rand_32 w).0 / 2 ^ 8 % 2 ^ 8
              ∷ (get_rand_32 w).0 / 2 ^ 16 % 2 ^ 8
              ∷ (get_rand_32 w).0 / 2 ^ 24 % 2 ^ 8
              ∷ rest)
            last

  random_words-Drawn : (n : ℕ) (w : World) → Drawn n w (random_words n w).0 (random_words n w).1
  unfolding random_words bytes32
  random_words-Drawn zero w = no_more w
  random_words-Drawn (suc n) w = word n w _ _ (random_words-Drawn n (get_rand_32 w).1)

  words_are_bytes :
      (n : ℕ) (w : World) → (length (random_words n w).0 ≡ n * 4) × All IsByte (random_words n w).0
  unfolding random_words bytes32
  words_are_bytes zero w = (omega arith, tt)
  words_are_bytes (suc n) w =
      let (size, bytes) = words_are_bytes n (get_rand_32 w).1 in
      (omega (arith, size), (omega arith, (omega arith, (omega arith, (omega arith, bytes)))))

  made :
      (cfg : Config) (w : World)
      → (length cfg.token == 0) ≡ true
      → ensure_token cfg w
        ≡ (true, record cfg { token = hex_encode (random_words 8 w).0 }, (random_words 8 w).1)
  unfolding ensure_token
  made cfg w e = rw e refl

  kept :
      (cfg : Config) (w : World)
      → (length cfg.token == 0) ≡ false
      → ensure_token cfg w ≡ (false, cfg, w)
  unfolding ensure_token
  kept cfg w e = rw e refl

  -- A device that has a token keeps it and draws nothing. One without gets 64 hexadecimal characters that
  -- `rw_hex_decode` reads as the 32 bytes of the next eight words of the generator, is told that it has a new token, and
  -- keeps every other setting.
  pub ensure_token_usable :
      (cfg : Config) (w : World)
      → ((length cfg.token ≡ 0)
          × (raw : Bytes) × Drawn 8 w raw (ensure_token cfg w).2
          × (length raw ≡ 32)
          × ((ensure_token cfg w).0 ≡ true)
          × (hex_decode (some (ensure_token cfg w).1.token) 32 ≡ some raw)
          × (length (ensure_token cfg w).1.token ≡ 64)
          × ((ensure_token cfg w).1 ≡ record cfg { token = hex_encode raw }))
        ⊎ ((0 < length cfg.token) × (ensure_token cfg w ≡ (false, cfg, w)))
  ensure_token_usable cfg w = elim (Bool-cases (length cfg.token == 0)) [
    | inl empty ↦
        let raw = (random_words 8 w).0 in
        let (size, bytes) = words_are_bytes 8 w in
        let same = made cfg w empty in
        let token : (ensure_token cfg w).1.token ≡ hex_encode raw = ap (λ r. r.1.token) same in
        inl (
          ground arith,
          raw,
          subst (Drawn 8 w raw) (sym (ap (λ r. r.2) same)) (random_words-Drawn 8 w),
          size,
          ap (λ r. r.0) same,
          ap (λ t. hex_decode (some t) 32) token
              ∙ ap (hex_decode (some (hex_encode raw))) (sym size)
              ∙ hex_decode-hex_encode raw bytes,
          ap length token ∙ length-hex_encode raw ∙ ap (λ n. n * 2) size,
          ap (λ r. r.1) same,
        )
    | inr full ↦ inr (ground arith, kept cfg w full)
  ]
