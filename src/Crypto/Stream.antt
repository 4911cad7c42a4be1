-- ===== src/Crypto/Stream.antt =====
-- The padding of crypto/pad.go as one list, and what the loop of Read comes to.
use native.Mathlib.Nat.{add-mod-mod}
use readium_lcp_server.Prelude.{
  ℕ, zero, suc, ◌+◌, ◌-◌, ◌%◌, ◌≤◌, ◌<◌, Bool, true, false, ◌==◌, ◌&&◌, ◌||◌, ◌≡◌, refl, sym, ap,
  ◌∙◌, List, [], ◌∷◌, ◌++◌, length, take, drop, is_empty, length-append, if◌then◌else◌, arith,
  take-nil, drop-nil, take-length, drop-length, length-drop, Bool-cases, inl, inr, ◌⊎◌,
}
use readium_lcp_server.Crypto.{Source, quota, later_quotas, source_read, fill, pad_bytes}

-- All the padding that is left, by the number of its bytes
unfoldable pub padding : (ℕ → ℕ) → Bool → ℕ → ℕ → List ℕ
padding random all count zero = []
padding random all count (suc left) =
    (if all || left == 0 then count else random left) ∷ padding random all count left

module _ (random : ℕ → ℕ) (all : Bool) (count : ℕ) where
  pub length-padding : (left : ℕ) → length (padding random all count left) ≡ left
  unfolding padding
  length-padding zero = refl
  length-padding (suc left) = ap suc (length-padding left)

  pub pad_bytes-take :
      (m left : ℕ) → pad_bytes random all count m left ≡ take m (padding random all count left)
  unfolding padding pad_bytes
  pad_bytes-take m zero = sym (take-nil m)
  pad_bytes-take zero (suc left) = refl
  pad_bytes-take (suc m) (suc left) =
      ap (λ bs. (if all || left == 0 then count else random left) ∷ bs) (pad_bytes-take m left)

  pub padding-drop :
      (m left : ℕ)
      → padding random all count (left - length (pad_bytes random all count m left))
        ≡ drop m (padding random all count left)
  unfolding padding pad_bytes
  padding-drop m zero = sym (drop-nil m)
  padding-drop zero (suc left) =
      let same : suc left - 0 ≡ suc left = omega arith in ap (λ k. padding random all count k) same
  padding-drop (suc m) (suc left) =
      let k = length (pad_bytes random all count m left) in
      let next : suc left - suc k ≡ left - k = omega arith in
      ap (λ j. padding random all count j) next ∙ padding-drop m left

module _ (bs : List ℕ) (n m : ℕ) where
  all_taken : n ≤ m → drop n bs ≡ [] → (take n bs ≡ take m bs) × (drop m bs ≡ [])
  all_taken h e =
      let short : length bs ≤ n = omega (arith, length-drop n bs, ap length e) in
      (
        take-length n bs short ∙ sym (take-length m bs (omega arith)),
        drop-length m bs (omega arith),
      )

quota-le : (qs : List ℕ) (m : ℕ) → quota qs m ≤ m
quota-le [] m = omega arith
quota-le (q ∷ qs) m = omega arith

quota_positive : (qs : List ℕ) (m : ℕ) → 1 ≤ m → 1 ≤ quota qs m
quota_positive [] m h = h
quota_positive (q ∷ qs) m h = omega arith

-- What the calls of the underlying Read come to
pub record Filled (m size count : ℕ) (s : Source) (r : List ℕ × Bool × ℕ × Source) : Type 0 where
  pub bytes : r.0 ≡ take m s.bytes
  pub rest : r.3.bytes ≡ drop m s.bytes
  pub counter : r.2 ≡ (length r.0 + count) % size
  pub ending : (r.1 ≡ false) ⊎ (r.3.bytes ≡ [])
  pub full : (r.1 ≡ true) ⊎ (m ≤ length s.bytes)

is_empty-eq : (bs : List ℕ) → is_empty bs ≡ true → bs ≡ []
is_empty-eq [] h = refl
is_empty-eq (b ∷ bs) h = cc

-- A call that gives io.EOF has given the last byte.
eof_rest :
    (bs : List ℕ) (n : ℕ) (eager : Bool)
    → (is_empty bs || eager && is_empty (drop n bs)) ≡ true
    → drop n bs ≡ []
eof_rest [] n eager h = drop-nil n
eof_rest (b ∷ bs) n true h = is_empty-eq (drop n (b ∷ bs)) h
eof_rest (b ∷ bs) n false h = cc

length-take_le : (n : ℕ) (bs : List ℕ) → length (take n bs) ≤ n
length-take_le zero bs = omega arith
length-take_le (suc n) [] = omega arith
length-take_le (suc n) (b ∷ bs) = omega (arith, length-take_le n bs)

length-take_within : (n : ℕ) (bs : List ℕ) → length (take n bs) ≤ length bs
length-take_within zero bs = omega arith
length-take_within (suc n) [] = omega arith
length-take_within (suc n) (b ∷ bs) = omega (arith, length-take_within n bs)

-- A part in two steps, where the first may come short
split_take :
    (n m : ℕ) (bs : List ℕ)
    → n ≤ m
    → take m bs ≡ take n bs ++ take (m - length (take n bs)) (drop n bs)
split_take zero m bs h = ap (λ k. take k bs) (omega arith)
split_take (suc n) m [] h = take-nil m ∙ sym (take-nil (m - 0))
split_take (suc n) zero (b ∷ bs) h = absurd (omega arith)
split_take (suc n) (suc m) (b ∷ bs) h =
    let k = length (take n bs) in
    let next : m - k ≡ suc m - suc k = omega arith in
    ap (λ xs. b ∷ xs)
      (split_take n m bs (omega arith) ∙ ap (λ j. take n bs ++ take j (drop n bs)) next)

split_drop : (n m : ℕ) (bs : List ℕ) → n ≤ m → drop m bs ≡ drop (m - length (take n bs)) (drop n bs)
split_drop zero m bs h = ap (λ k. drop k bs) (omega arith)
split_drop (suc n) m [] h = drop-nil m ∙ sym (drop-nil (m - 0))
split_drop (suc n) zero (b ∷ bs) h = absurd (omega arith)
split_drop (suc n) (suc m) (b ∷ bs) h =
    let k = length (take n bs) in
    let next : m - k ≡ suc m - suc k = omega arith in
    split_drop n m bs (omega arith) ∙ ap (λ j. drop j (drop n bs)) next

split_length : (n : ℕ) (bs : List ℕ) → length bs ≡ length (take n bs) + length (drop n bs)
split_length zero bs = omega arith
split_length (suc n) [] = refl
split_length (suc n) (b ∷ bs) = omega (arith, split_length n bs)

module _ (m size count : ℕ) (s : Source) where
  -- The first call ends the loop
  one_call :
      (n : ℕ)
      → n ≤ m
      → (is_empty s.bytes || s.eager && is_empty (drop n s.bytes) || length (take n s.bytes) == m)
        ≡ true
      → Filled m size count s (
        take n s.bytes,
        is_empty s.bytes || s.eager && is_empty (drop n s.bytes),
        (length (take n s.bytes) + count) % size,
        record s { bytes = drop n s.bytes; quotas = later_quotas s.quotas },
      )
  one_call n le h = elim (Bool-cases (is_empty s.bytes || s.eager && is_empty (drop n s.bytes))) [
    | inl eof ↦
        let gone = eof_rest s.bytes n s.eager eof in
        record {
          bytes = (all_taken s.bytes n m le gone).0;
          rest = gone ∙ sym ((all_taken s.bytes n m le gone).1);
          counter = refl;
          ending = inr gone;
          full = inl eof;
        }
    | inr more ↦
        let all_of : length (take n s.bytes) ≡ m = ground arith in
        let same : n ≡ m = omega (arith, length-take_le n s.bytes) in
        record {
          bytes = ap (λ k. take k s.bytes) same;
          rest = ap (λ k. drop k s.bytes) same;
          counter = refl;
          ending = inl more;
          full = inr (omega (arith, length-take_within n s.bytes, all_of));
        }
  ]

  -- The loop goes on after the first call
  more_calls :
      (n : ℕ) (r : List ℕ × Bool × ℕ × Source) (s' : Source)
      → n ≤ m
      → s'.bytes ≡ drop n s.bytes
      → Filled (m - length (take n s.bytes)) size ((length (take n s.bytes) + count) % size) s' r
      → Filled m size count s (take n s.bytes ++ r.0, r.1, r.2, r.3)
  more_calls n r s' le eq f =
      let a = length (take n s.bytes) in
      record {
        bytes =
            ap (λ xs. take n s.bytes ++ xs) (f.bytes ∙ ap (λ bs. take (m - a) bs) eq)
            ∙ sym (split_take n m s.bytes le);
        rest = f.rest ∙ ap (λ bs. drop (m - a) bs) eq ∙ sym (split_drop n m s.bytes le);
        counter =
            f.counter
            ∙ add-mod-mod (length r.0) (a + count) size
            ∙ ap (λ k. k % size) (omega (arith, length-append (take n s.bytes) r.0));
        ending = f.ending;
        full = elim f.full [
          | inl e ↦ inl e
          | inr k ↦ inr (omega (arith, split_length n s.bytes, ap length eq))
        ];
      }

-- A call that neither ends the input nor fills the buffer has given a byte.
given :
    (n m : ℕ) (bs : List ℕ) (eof : Bool)
    → n ≤ m
    → (1 ≤ m → 1 ≤ n)
    → (is_empty bs || eof || length (take n bs) == m) ≡ false
    → 1 ≤ length (take n bs) × (1 ≤ m)
given n m [] eof le pos h = ground arith
given zero zero (b ∷ bs) eof le pos h = ground arith
given zero (suc m) (b ∷ bs) eof le pos h = absurd (omega (arith, pos (omega arith)))
given (suc n) zero (b ∷ bs) eof le pos h = absurd (omega arith)
given (suc n) (suc m) (b ∷ bs) eof le pos h = (omega arith, omega arith)

-- Whatever the quotas are, the loop gives the next m bytes, or all that are left.
pub fill-Filled :
    (fuel m size count : ℕ) (s : Source)
    → 0 < size
    → m < fuel
    → Filled m size count s (fill fuel m size count s)
unfolding fill source_read
fill-Filled zero m size count s pos le = absurd (omega arith)
fill-Filled (suc fuel) m size count s pos le =
    let n = quota s.quotas m in
    let n-le : n ≤ m = quota-le s.quotas m in
    elim (Bool-cases
      (is_empty s.bytes || s.eager && is_empty (drop n s.bytes) || length (take n s.bytes) == m)) [
        | inl last ↦ rw last (one_call m size count s n n-le last)
        | inr more ↦
            let g = given n m s.bytes _ n-le (quota_positive s.quotas m) more in
            rw more (
              more_calls m size count s n _ _ n-le refl
                (fill-Filled fuel _ size _ _ pos (omega (arith, g.0, g.1))))
      ]
