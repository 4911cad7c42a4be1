-- ===== src/Crypto/RoundTrip.antt =====
-- Encrypt and Decrypt of crypto/aes_cbc.go, against each other.
use readium_lcp_server.Prelude.{
  ℕ, ◌+◌, ◌-◌, ◌*◌, ◌/◌, ◌%◌, ◌≤◌, Bool, true, false, ◌==◌, ◌&&◌, ◌≡◌, sym, ap, ◌∙◌, Option, some,
  List, [], ◌∷◌, ◌++◌, length, take, drop, leb, length-append, ==_true, leb-true, if◌then◌else◌,
  arith, take-length, drop-length, length-take, take-append, drop-append,
}
use readium_lcp_server.Crypto.{Source, padded_reader}
use readium_lcp_server.Crypto.Cbc.{
  block_size, Block, encrypt_blocks, encrypt_with, encrypt, read_error, encrypted, decrypt_blocks,
  panics, writes, last_of, unpadded, decrypt_with, decrypt,
}
use readium_lcp_server.Crypto.Blocks.{IsCipher, Ciphered, encrypt_blocks-Ciphered}
use readium_lcp_server.Crypto.Reading.{stream}
use readium_lcp_server.Crypto.Whole.{padded_reader-Padded, Padded, last_of-append}

last_of-nonempty : (xs : List ℕ) → 1 ≤ last_of xs → 1 ≤ length xs
last_of-nonempty [] h = absurd (omega arith)
last_of-nonempty (x ∷ xs) h = omega arith

both : {a b : Bool} → a ≡ true → b ≡ true → (a && b) ≡ true
both {a} {b} h k = ap (λ x. x && b) h ∙ k

module _ (s : Source) (st iv : List ℕ) (k : ℕ) where
  unpadded_lem : Padded 16 s.bytes st → length st ≡ k * 16 → unpadded iv st ≡ writes s.bytes
  unfolding unpadded
  unpadded_lem p len =
      let some_bytes = last_of-nonempty st p.last_pos in
      let last : last_of (iv ++ st) ≡ last_of st = last_of-append iv st some_bytes in
      let fits : leb (last_of st) (length st) ≡ true =
        leb-true (last_of st) (length st) (omega (arith, len, some_bytes, p.last_small)) in
      ap (λ n. if leb n (length st) then writes (take (length st - n) st) else panics) last
      ∙ ap (λ t. if t then writes (take (length st - last_of st) st) else panics) fits
      ∙ ap writes p.inverse

module _ (new_cipher : List ℕ → Option Block) (iv key : List ℕ) where
  decrypt_lem :
      (b : Block) (k : ℕ) (st blocks : List ℕ) (is_end : Bool)
      → new_cipher key ≡ some b
      → length iv ≡ 16
      → Ciphered b k iv st (blocks, is_end)
      → decrypt new_cipher key (iv ++ blocks) ≡ unpadded iv st
  unfolding decrypt unpadded
  decrypt_lem b k st blocks is_end is_b hi f =
      let buf = iv ++ blocks in
      let front : take 16 buf ≡ iv =
        take-append 16 iv blocks (omega (arith, hi)) ∙ take-length 16 iv (omega (arith, hi)) in
      let behind : drop 16 buf ≡ blocks =
        drop-append 16 iv blocks (omega (arith, hi))
        ∙ ap (λ xs. xs ++ blocks) (drop-length 16 iv (omega (arith, hi))) in
      let test : (leb 16 (length buf) && length blocks % 16 == 0) ≡ true =
        both (leb-true 16 (length buf) (omega (arith, length-append iv blocks, hi)))
          (==_true (length blocks % 16) 0 (omega (arith, f.whole))) in
      let plain : decrypt_blocks b (length blocks / 16) iv blocks ≡ st =
        ap (λ n. decrypt_blocks b n iv blocks) (omega (arith, f.whole)) ∙ f.inverse in
      ap (λ c. decrypt_with c (take 16 buf) (drop 16 buf) buf) is_b
      ∙ ap (λ xs. decrypt_with (some b) xs (drop 16 buf) buf) front
      ∙ ap (λ xs. decrypt_with (some b) iv xs buf) behind
      ∙ ap
          (λ t. if t then unpadded iv (decrypt_blocks b (length blocks / 16) iv blocks) else panics)
          test
      ∙ ap (λ xs. unpadded iv xs) plain

module _ (new_cipher : List ℕ → Option Block) (random : ℕ → ℕ) (iv key : List ℕ) (s : Source) where
  -- If the key gives a block cipher, and the initialization vector has the length of a block, then
  -- Encrypt succeeds, and Decrypt with the same key gives the input back, however the reader delivers
  -- it and whatever the random bytes of the padding are.
  pub decrypt-encrypt :
      (b : Block)
      → new_cipher key ≡ some b
      → IsCipher b
      → length iv ≡ block_size
      → (out : List ℕ) × (encrypt new_cipher random iv key s ≡ encrypted out)
        × (decrypt new_cipher key out ≡ writes s.bytes)
  unfolding encrypt encrypt_with
  decrypt-encrypt b is_b ok hi =
      let r = padded_reader s 16 false in
      let st = stream random r in
      let p = padded_reader-Padded random s 16 false (omega arith) in
      let k = length st / 16 in
      let len : length st ≡ k * 16 = omega (arith, p.whole) in
      let kept : length st - last_of st ≡ length s.bytes =
        sym (length-take (length st - last_of st) st (omega arith)) ∙ ap length p.inverse in
      let f =
        encrypt_blocks-Ciphered random b ok k (2 + length s.bytes) iv r (omega arith) hi len
          (omega (arith, len, kept, p.last_small)) in
      let o = encrypt_blocks random b (2 + length s.bytes) iv r in
      (
        iv ++ o.0,
        ap (λ c. encrypt_with random iv s c) is_b
            ∙ ap (λ e. if e then encrypted (iv ++ o.0) else read_error (iv ++ o.0)) f.ended,
        decrypt_lem new_cipher iv key b k st o.0 o.1 is_b hi f ∙ unpadded_lem s st iv k p len,
      )
