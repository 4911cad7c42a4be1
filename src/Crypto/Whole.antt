-- ===== src/Crypto/Whole.antt =====
-- The whole output of the padded reader of crypto/pad.go, however it is read.
use native.Mathlib.Nat.{mod-lt, mod_self, mod-add-mod}
use readium_lcp_server.Prelude.{
  ℕ, zero, suc, ◌+◌, ◌-◌, ◌%◌, ◌≤◌, ◌<◌, Bool, true, false, ◌==◌, ◌||◌, ◌≡◌, refl, sym, ap, ◌∙◌,
  List, [], ◌∷◌, ◌++◌, length, take, length-append, if◌then◌else◌, arith, take-+, take-length,
  length-take, take-append, subst,
}
use readium_lcp_server.Crypto.{Source, PaddedReader, padded_read, padded_reader}
use readium_lcp_server.Crypto.Cbc.{last_of}
use readium_lcp_server.Crypto.Stream.{padding, length-padding}
use readium_lcp_server.Crypto.Reading.{stream, padded_read-Reads}

-- The output of several calls of Read, for buffers of these sizes
unfoldable pub read_all : (ℕ → ℕ) → List ℕ → PaddedReader → List ℕ
read_all random [] r = []
read_all random (m ∷ ms) r = let o = padded_read random m r in o.0 ++ read_all random ms o.2

abbrev pub sum : List ℕ → ℕ
sum [] = 0
sum (m ∷ ms) = m + sum ms

-- For a positive size of the blocks, the buffers of the calls, one behind the other, hold the next
-- bytes of the input and its padding, as many as the buffers have together.
pub read_all-take :
    (random : ℕ → ℕ) (ms : List ℕ) (r : PaddedReader)
    → 0 < r.size
    → read_all random ms r ≡ take (sum ms) (stream random r)
unfolding read_all
read_all-take random [] r pos = refl
read_all-take random (m ∷ ms) r pos =
    let o = padded_read random m r in
    let f = padded_read-Reads random m r pos in
    ap (λ xs. xs ++ read_all random ms o.2) f.given
    ∙ ap (λ xs. take m (stream random r) ++ xs)
        (read_all-take random ms o.2 (omega (arith, f.same_size))
          ∙ ap (λ xs. take (sum ms) xs) f.later)
    ∙ sym (take-+ m (sum ms) (stream random r))

zero_right : (n : ℕ) → n + 0 ≡ n
zero_right n = omega arith

pub last_of-append : (xs ys : List ℕ) → 1 ≤ length ys → last_of (xs ++ ys) ≡ last_of ys
last_of-append [] ys h = refl
last_of-append (x ∷ []) [] h = absurd (omega arith)
last_of-append (x ∷ []) (y ∷ ys) h = refl
last_of-append (x ∷ x' ∷ xs) ys h = last_of-append (x' ∷ xs) ys h

module _ (random : ℕ → ℕ) (all : Bool) (count : ℕ) where
  one : (any : Bool) → (if any || 0 == 0 then count else random 0) ≡ count
  one true = refl
  one false = refl

  last_of-padding : (left : ℕ) → 1 ≤ left → last_of (padding random all count left) ≡ count
  unfolding padding
  last_of-padding zero h = absurd (omega arith)
  last_of-padding (suc zero) h = one all
  last_of-padding (suc (suc left)) h =
      last_of-append ((if all || suc left == 0 then count else random (suc left)) ∷ [])
        (padding random all count (suc left))
        (omega (arith, length-padding random all count (suc left)))
      ∙ last_of-padding (suc left) (omega arith)

-- The whole output: whole blocks, of which the last byte says how long the padding is.
pub record Padded (size : ℕ) (input out : List ℕ) : Type 0 where
  pub whole : length out % size ≡ 0
  pub last_small : last_of out ≤ size
  pub last_pos : 1 ≤ last_of out
  pub inverse : take (length out - last_of out) out ≡ input

module _ (random : ℕ → ℕ) (s : Source) (size : ℕ) (all : Bool) where
  pub padded_reader-Padded :
      0 < size → Padded size s.bytes (stream random (padded_reader s size all))
  unfolding stream
  padded_reader-Padded pos =
      let n = length s.bytes in
      let pads = size - (n + 0) % size in
      let p = padding random all pads pads in
      let len : length (s.bytes ++ p) ≡ n + pads =
        omega (arith, length-append s.bytes p, length-padding random all pads pads) in
      let full : n % size + pads ≡ size =
        omega (arith, mod-lt n pos, ap (λ k. k % size) (zero_right n)) in
      let left : 1 ≤ pads = omega (arith, mod-lt (n + 0) pos) in
      let last : last_of (s.bytes ++ p) ≡ pads =
        last_of-append s.bytes p (omega (arith, length-padding random all pads pads))
        ∙ last_of-padding random all pads pads left in
      let before : length (s.bytes ++ p) - last_of (s.bytes ++ p) ≡ n = omega (arith, len, last) in
      record {
        whole =
            ap (λ k. k % size) len
            ∙ sym (mod-add-mod n size pads)
            ∙ ap (λ k. k % size) full
            ∙ mod_self size;
        last_small = omega (arith, last);
        last_pos = omega (arith, last, left);
        inverse =
            ap (λ k. take k (s.bytes ++ p)) before
            ∙ take-append n s.bytes p (omega arith)
            ∙ take-length n s.bytes (omega arith);
      }

  -- Reading the padded reader with buffers that have room for the input and one more block gives
  -- whole blocks, whose last byte is the length of the padding, between 1 and the size of a block;
  -- without that many bytes at the end it is the input. It holds for every positive size of a block,
  -- however the input comes.
  pub read_all-Padded :
      (ms : List ℕ)
      → 0 < size
      → length s.bytes + size ≤ sum ms
      → Padded size s.bytes (read_all random ms (padded_reader s size all))
  read_all-Padded ms pos room =
      let r = padded_reader s size all in
      let st = stream random r in
      let p = padded_reader-Padded pos in
      let kept : length st - last_of st ≡ length s.bytes =
        sym (length-take (length st - last_of st) st (omega arith)) ∙ ap length p.inverse in
      subst (λ out. Padded size s.bytes out)
        (sym (
          read_all-take random ms r pos
          ∙ take-length (sum ms) st (omega (arith, kept, p.last_small))))
        p
