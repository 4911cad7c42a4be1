-- ===== src/Crypto/Reading.antt =====
-- What the padded reader of crypto/pad.go still has to give, as one list of bytes, and each Read as
-- a part of it: it does not matter how the input comes.
use native.Mathlib.Nat.{mod-lt, add-mod-mod}
use readium_lcp_server.Prelude.{
  ℕ, suc, ◌+◌, ◌-◌, ◌%◌, ◌≤◌, ◌<◌, Bool, true, false, ◌==◌, ◌≡◌, refl, sym, ap, ◌∙◌, List, [], ◌∷◌,
  ◌++◌, length, take, drop, is_empty, if◌then◌else◌, arith, take-length, length-drop, length-take,
  take-append, drop-append, take-append_past, drop-append_past, inl, inr,
}
use readium_lcp_server.Crypto.{Source, PaddedReader, fill, pad_bytes, pad, ended, padded_read}
use readium_lcp_server.Crypto.Stream.{
  padding, length-padding, pad_bytes-take, padding-drop, Filled, fill-Filled,
}

-- The input that is left, and the padding that fills the last block
unfoldable pub stream : (ℕ → ℕ) → PaddedReader → List ℕ
unfolding padding
stream random r =
    let pads = r.size - (length r.source.bytes + r.count) % r.size in
    if r.is_done
    then padding random r.insert_pad_length_all r.count r.left
    else r.source.bytes ++ padding random r.insert_pad_length_all pads pads

-- A Read, for a buffer of m bytes, as a part of the stream
pub record Reads (random : ℕ → ℕ) (m : ℕ) (r : PaddedReader) (o : List ℕ × Bool × PaddedReader)
    : Type 0 where
  pub given : o.0 ≡ take m (stream random r)
  pub later : stream random o.2 ≡ drop m (stream random r)
  pub at_end : o.1 ≡ is_empty (drop m (stream random r))
  pub same_size : o.2.size ≡ r.size

is_empty-length : (bs : List ℕ) → (length bs == 0) ≡ is_empty bs
is_empty-length [] = refl
is_empty-length (b ∷ bs) = ground arith

-- The three ways through a Read
cases :
    {A : Type 0} (P : A → Type 0) (done eof : Bool) {a b c : A}
    → (done ≡ true → P a)
    → (done ≡ false → eof ≡ true → P b)
    → (done ≡ false → eof ≡ false → P c)
    → P (if done then a else if eof then b else c)
cases P true eof f g h = f refl
cases P false true f g h = g refl refl
cases P false false f g h = h refl refl

nonempty : (xs ys : List ℕ) → 1 ≤ length ys → false ≡ is_empty (xs ++ ys)
nonempty [] [] h = absurd (omega arith)
nonempty [] (y ∷ ys) h = refl
nonempty (x ∷ xs) ys h = refl

module _ (random : ℕ → ℕ) (r : PaddedReader) where
  stream-is_done :
      r.is_done ≡ true → stream random r ≡ padding random r.insert_pad_length_all r.count r.left
  unfolding stream
  stream-is_done h = rw h refl

  stream-reading :
      (pads : ℕ)
      → r.is_done ≡ false
      → pads ≡ r.size - (length r.source.bytes + r.count) % r.size
      → stream random r ≡ r.source.bytes ++ padding random r.insert_pad_length_all pads pads
  unfolding stream
  stream-reading pads h e = rw (h, e) refl

module _ (random : ℕ → ℕ) (m : ℕ) (r : PaddedReader) where
  -- Once the input has ended, a Read is a part of the padding.
  pad-Reads : r.is_done ≡ true → Reads random m r (pad random m r)
  unfolding pad
  pad-Reads h =
      let all = r.insert_pad_length_all in
      let rest = padding-drop random all r.count m r.left in
      let left = r.left - length (pad_bytes random all r.count m r.left) in
      let whole = stream-is_done random r h in
      record {
        given = pad_bytes-take random all r.count m r.left ∙ ap (λ bs. take m bs) (sym whole);
        later = stream-is_done random _ h ∙ rest ∙ ap (λ bs. drop m bs) (sym whole);
        at_end =
            ap (λ k. k == 0) (sym (length-padding random all r.count left))
            ∙ is_empty-length (padding random all r.count left)
            ∙ ap is_empty (rest ∙ ap (λ bs. drop m bs) (sym whole));
        same_size = refl;
      }

-- A Read of a source that ends with it
module _ (random : ℕ → ℕ) (m : ℕ) (r : PaddedReader) (o : List ℕ × Bool × ℕ × Source) where
  reading_end :
      r.is_done ≡ false
      → o.3.bytes ≡ []
      → Filled m r.size r.count r.source o
      → (let p = pad random (m - length o.0) (ended r o.2 o.3) in
          Reads random m r (o.0 ++ p.0, p.1, p.2))
  unfolding pad
  reading_end h gone f =
      let e = ended r o.2 o.3 in
      let bs = r.source.bytes in
      let p = pad-Reads random (m - length o.0) e refl in
      let short : length bs ≤ m = omega (arith, length-drop m bs, ap length (sym f.rest ∙ gone)) in
      let all_of : o.0 ≡ bs = f.bytes ∙ take-length m bs short in
      let within : length o.0 ≤ m = omega (arith, ap length all_of) in
      let count : o.2 ≡ (length bs + r.count) % r.size =
        f.counter ∙ ap (λ xs. (length xs + r.count) % r.size) all_of in
      let whole : stream random r ≡ o.0 ++ stream random e =
        stream-reading random r (r.size - o.2) h (ap (λ k. r.size - k) count)
        ∙ ap (λ xs. xs ++ padding random r.insert_pad_length_all (r.size - o.2) (r.size - o.2))
            (sym all_of)
        ∙ ap (λ xs. o.0 ++ xs) (sym (stream-is_done random e refl)) in
      let after : drop (m - length o.0) (stream random e) ≡ drop m (stream random r) =
        sym (drop-append_past m o.0 (stream random e) within) ∙ ap (λ xs. drop m xs) (sym whole) in
      record {
        given =
            ap (λ xs. o.0 ++ xs) p.given
            ∙ sym (take-append_past m o.0 (stream random e) within)
            ∙ ap (λ xs. take m xs) (sym whole);
        later = p.later ∙ after;
        at_end = p.at_end ∙ ap is_empty after;
        same_size = p.same_size;
      }

  -- A Read of a source that goes on
  reading_on :
      r.is_done ≡ false
      → 0 < r.size
      → m ≤ length r.source.bytes
      → Filled m r.size r.count r.source o
      → Reads random m r (o.0, false, record r { source = o.3; count = o.2 })
  reading_on h pos long f =
      let bs = r.source.bytes in
      let all = r.insert_pad_length_all in
      let r' = record r { source = o.3; count = o.2 } in
      let pads = r.size - (length bs + r.count) % r.size in
      let some_left : 1 ≤ pads = omega (arith, mod-lt (length bs + r.count) pos) in
      let whole = stream-reading random r pads h refl in
      let len : length o.3.bytes + (length o.0 + r.count) ≡ length bs + r.count =
        omega
          (arith, ap length f.rest, ap length f.bytes, length-drop m bs, length-take m bs long) in
      let count : (length o.3.bytes + o.2) % r.size ≡ (length bs + r.count) % r.size =
        ap (λ k. (length o.3.bytes + k) % r.size) f.counter
        ∙ add-mod-mod (length o.3.bytes) (length o.0 + r.count) r.size
        ∙ ap (λ k. k % r.size) len in
      let after : drop m bs ++ padding random all pads pads ≡ drop m (stream random r) =
        sym (drop-append m bs (padding random all pads pads) long)
        ∙ ap (λ xs. drop m xs) (sym whole) in
      record {
        given =
            f.bytes
            ∙ sym (take-append m bs (padding random all pads pads) long)
            ∙ ap (λ xs. take m xs) (sym whole);
        later =
            stream-reading random r' pads h (ap (λ k. r.size - k) (sym count))
            ∙ ap (λ xs. xs ++ padding random all pads pads) f.rest
            ∙ after;
        at_end =
            nonempty (drop m bs) (padding random all pads pads)
              (omega (arith, length-padding random all pads pads))
            ∙ ap is_empty after;
        same_size = refl;
      }

module _ (random : ℕ → ℕ) (m : ℕ) (r : PaddedReader) where
  -- A Read of m bytes
  pub padded_read-Reads : 0 < r.size → Reads random m r (padded_read random m r)
  unfolding padded_read
  padded_read-Reads pos =
      let o = fill (suc m) m r.size r.count r.source in
      let f = fill-Filled (suc m) m r.size r.count r.source pos (omega arith) in
      cases (λ read. Reads random m r read) r.is_done o.1 (pad-Reads random m r)
        (λ h e.
          reading_end random m r o h (elim f.ending [ inl k ↦ absurd (cc) | inr gone ↦ gone ]) f)
        (λ h e.
          reading_on random m r o h pos (elim f.full [ inl k ↦ absurd (cc) | inr long ↦ long ]) f)
