-- ===== src/Crypto/Blocks.antt =====
-- The loops of Encrypt and Decrypt of crypto/aes_cbc.go, against each other.
use readium_lcp_server.Prelude.{
  ℕ, zero, suc, ◌+◌, ◌-◌, ◌*◌, ◌/◌, ◌%◌, ◌≤◌, ◌<◌, Bool, true, false, ◌==◌, ◌||◌, ◌≡◌, refl, sym,
  ap, ◌∙◌, List, [], ◌∷◌, ◌++◌, length, take, drop, is_empty, length-append, ==_true, ==_false,
  subst, if◌then◌else◌, arith, take-length, drop-length, length-drop, length-take, take-drop,
  take-append, drop-append,
}
use readium_lcp_server.Crypto.{PaddedReader, padded_read}
use readium_lcp_server.Crypto.Cbc.{
  xor, xor_bytes, block_size, Block, read_full, encrypt_blocks, decrypt_blocks,
}
use readium_lcp_server.Crypto.Reading.{stream, padded_read-Reads}

xor-xor : (w a b : ℕ) → xor w a (xor w a b) ≡ b
unfolding xor
xor-xor zero a b = refl
xor-xor (suc w) a b =
    let q = xor w (a / 2) (b / 2) in
    let d = (a % 2 + b % 2) % 2 in
    let high : (q * 2 + d) / 2 ≡ q = omega arith in
    let halves : xor w (a / 2) ((q * 2 + d) / 2) ≡ b / 2 =
      ap (λ k. xor w (a / 2) k) high ∙ xor-xor w (a / 2) (b / 2) in
    omega (arith, halves)

pub xor_bytes-xor_bytes :
    (xs ys : List ℕ) → length xs ≡ length ys → xor_bytes xs (xor_bytes xs ys) ≡ ys
unfolding xor_bytes
xor_bytes-xor_bytes [] [] h = refl
xor_bytes-xor_bytes [] (y ∷ ys) h = absurd (omega (arith, h))
xor_bytes-xor_bytes (x ∷ xs) [] h = refl
xor_bytes-xor_bytes (x ∷ xs) (y ∷ ys) h =
    ap (λ k. k ∷ xor_bytes xs (xor_bytes xs ys)) (xor-xor 8 x y)
    ∙ ap (λ ks. y ∷ ks) (xor_bytes-xor_bytes xs ys (omega (arith, h)))

pub length-xor_bytes :
    (xs ys : List ℕ) → length xs ≡ length ys → length (xor_bytes xs ys) ≡ length ys
unfolding xor_bytes
length-xor_bytes [] [] h = refl
length-xor_bytes [] (y ∷ ys) h = absurd (omega (arith, h))
length-xor_bytes (x ∷ xs) [] h = refl
length-xor_bytes (x ∷ xs) (y ∷ ys) h = ap suc (length-xor_bytes xs ys (omega (arith, h)))

-- What a block cipher with its key promises
pub record IsCipher (b : Block) : Type 0 where
  pub whole : (xs : List ℕ) → length xs ≡ block_size → length (b.encrypt xs) ≡ block_size
  pub inverse : (xs : List ℕ) → length xs ≡ block_size → b.decrypt (b.encrypt xs) ≡ xs

-- A full buffer
record Full (random : ℕ → ℕ) (m : ℕ) (r : PaddedReader) (o : List ℕ × Bool × PaddedReader)
    : Type 0 where
  given : o.0 ≡ take m (stream random r)
  full : o.1 ≡ true
  later : stream random o.2 ≡ drop m (stream random r)
  same_size : o.2.size ≡ r.size

module _ (random : ℕ → ℕ) (fuel m : ℕ) (r : PaddedReader) (pos : 0 < r.size) where
  read_full-Full : m ≤ length (stream random r) → Full random m r (read_full random (suc fuel) m r)
  unfolding read_full
  read_full-Full h =
      let o = padded_read random m r in
      let rest = read_full random fuel (m - length o.0) o.2 in
      let f = padded_read-Reads random m r pos in
      let len : length o.0 ≡ m = ap length f.given ∙ length-take m (stream random r) h in
      let eq : (length o.0 == m) ≡ true = ==_true (length o.0) m len in
      subst (λ q. Full random m r q)
        (sym (ap (λ c. if c || o.1 then (o.0, c, o.2) else (o.0 ++ rest.0, rest.1, rest.2)) eq))
        (record { given = f.given; full = refl; later = f.later; same_size = f.same_size })

  read_full-end :
      length (stream random r) < m
      → length (stream random r) ≡ 0
      → (r' : PaddedReader) × (read_full random (suc fuel) m r ≡ ([], false, r'))
  unfolding read_full
  read_full-end short h =
      let o = padded_read random m r in
      let rest = read_full random fuel (m - length o.0) o.2 in
      let f = padded_read-Reads random m r pos in
      let within : length (stream random r) ≤ m = omega arith in
      let gone = drop-length m (stream random r) within in
      let given : length o.0 ≡ length (stream random r) =
        ap length (f.given ∙ take-length m (stream random r) within) in
      let eof : o.1 ≡ true = f.at_end ∙ ap is_empty gone in
      let eq : (length o.0 == m) ≡ false = ==_false (length o.0) m (λ e. omega (arith, given, e)) in
      (
        o.2,
        ap (λ c. if c || o.1 then (o.0, c, o.2) else (o.0 ++ rest.0, rest.1, rest.2)) eq
            ∙ ap (λ e. if e then (o.0, false, o.2) else (o.0 ++ rest.0, rest.1, rest.2)) eof
            ∙ ap (λ xs. (xs, false, o.2)) (drop-length 0 o.0 (omega (arith, given, h))),
      )

-- What the loop of Encrypt writes, for k blocks of plain text
pub record Ciphered (b : Block) (k : ℕ) (chain plain : List ℕ) (out : List ℕ × Bool) : Type 0 where
  pub ended : out.1 ≡ true
  pub whole : length out.0 ≡ k * 16
  pub inverse : decrypt_blocks b k chain out.0 ≡ plain

module _ (random : ℕ → ℕ) (b : Block) (ok : IsCipher b) where
  one_more :
      (k : ℕ) (chain buffer later rest : List ℕ) (is_end : Bool)
      → length chain ≡ 16
      → length buffer ≡ 16
      → Ciphered b k (b.encrypt (xor_bytes chain buffer)) later (rest, is_end)
      → Ciphered b
          (suc k)
          chain
          (buffer ++ later)
          (b.encrypt (xor_bytes chain buffer) ++ rest, is_end)
  unfolding decrypt_blocks
  one_more k chain buffer later rest is_end hc hb f =
      let mixed = xor_bytes chain buffer in
      let mixed_len : length mixed ≡ 16 = length-xor_bytes chain buffer (hc ∙ sym hb) ∙ hb in
      let c = b.encrypt mixed in
      let len : length c ≡ 16 = ok.whole mixed mixed_len in
      let first : take 16 (c ++ rest) ≡ c =
        take-append 16 c rest (omega (arith, len)) ∙ take-length 16 c (omega (arith, len)) in
      let behind : drop 16 (c ++ rest) ≡ rest =
        drop-append 16 c rest (omega (arith, len))
        ∙ ap (λ xs. xs ++ rest) (drop-length 16 c (omega (arith, len))) in
      let plain : xor_bytes chain (b.decrypt c) ≡ buffer =
        ap (λ xs. xor_bytes chain xs) (ok.inverse mixed mixed_len)
        ∙ xor_bytes-xor_bytes chain buffer (hc ∙ sym hb) in
      record {
        ended = f.ended;
        whole = omega (arith, length-append c rest, len, f.whole);
        inverse =
            ap (λ xs. xor_bytes chain (b.decrypt xs) ++ decrypt_blocks b k xs (drop 16 (c ++ rest)))
              first
            ∙ ap (λ xs. xor_bytes chain (b.decrypt c) ++ decrypt_blocks b k c xs) behind
            ∙ ap (λ xs. xs ++ decrypt_blocks b k c rest) plain
            ∙ ap (λ xs. buffer ++ xs) f.inverse;
      }

  pub encrypt_blocks-Ciphered :
      (k fuel : ℕ) (chain : List ℕ) (r : PaddedReader)
      → 0 < r.size
      → length chain ≡ 16
      → length (stream random r) ≡ k * 16
      → k < fuel
      → Ciphered b k chain (stream random r) (encrypt_blocks random b fuel chain r)
  unfolding encrypt_blocks decrypt_blocks
  encrypt_blocks-Ciphered k zero chain r pos hc h enough = absurd (omega arith)
  encrypt_blocks-Ciphered zero (suc fuel) chain r pos hc h enough =
      let o = read_full random 17 16 r in
      let c = b.encrypt (xor_bytes chain o.0) in
      let rest = encrypt_blocks random b fuel c o.2 in
      let last = read_full-end random 16 16 r pos (omega (arith, h)) h in
      subst
        (λ q.
          Ciphered b 0 chain (stream random r)
            (if q.1 then (c ++ rest.0, rest.1) else ([], is_empty q.0)))
        (sym last.1)
        (record {
          ended = refl;
          whole = refl;
          inverse = sym (drop-length 0 (stream random r) (omega (arith, h)));
        })
  encrypt_blocks-Ciphered (suc k) (suc fuel) chain r pos hc h enough =
      let o = read_full random 17 16 r in
      let st = stream random r in
      let long : 16 ≤ length st = omega (arith, h) in
      let f = read_full-Full random 16 16 r pos long in
      let buffer_len : length o.0 ≡ 16 = ap length f.given ∙ length-take 16 st long in
      let c = b.encrypt (xor_bytes chain o.0) in
      let rest = encrypt_blocks random b fuel c o.2 in
      let later =
        encrypt_blocks-Ciphered k fuel c o.2 (omega (arith, f.same_size))
          (ok.whole _ (length-xor_bytes chain o.0 (hc ∙ sym buffer_len) ∙ buffer_len))
          (ap length f.later ∙ omega (arith, length-drop 16 st, h)) (omega arith) in
      let joined : o.0 ++ stream random o.2 ≡ st =
        ap (λ xs. xs ++ stream random o.2) f.given
        ∙ ap (λ xs. take 16 st ++ xs) f.later
        ∙ take-drop 16 st in
      subst
        (λ xs.
          Ciphered b (suc k) chain xs (if o.1 then (c ++ rest.0, rest.1) else ([], is_empty o.0)))
        joined
        (subst
          (λ e.
            Ciphered b (suc k) chain (o.0 ++ stream random o.2)
              (if e then (c ++ rest.0, rest.1) else ([], is_empty o.0)))
          (sym f.full) (one_more k chain o.0 (stream random o.2) rest.0 rest.1 hc buffer_len later))
