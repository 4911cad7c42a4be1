-- ===== src/Crypto.antt =====
-- crypto/pad.go: the reader that pads its input to whole blocks.
pub mod Stream
pub mod Reading
pub mod Whole
pub mod Cbc
pub mod Blocks
pub mod RoundTrip
use readium_lcp_server.Prelude.{
  ℕ, zero, suc, ◌+◌, ◌-◌, ◌%◌, min, Bool, true, false, ◌==◌, ◌&&◌, ◌||◌, List, [], ◌∷◌, ◌++◌,
  length, take, drop, is_empty, if◌then◌else◌,
}

-- An io.Reader that does not fail: the bytes to come; how many of them the coming calls of Read give,
-- each at most its quota plus one, so that a call gives a byte as long as there are any; and whether
-- io.EOF comes with the last bytes or with the call after them.
pub record Source : Type 0 where
  pub bytes : List ℕ
  pub quotas : List ℕ
  pub eager : Bool

abbrev pub quota : List ℕ → ℕ → ℕ
quota [] m = m
quota (q ∷ qs) m = min m (suc q)

abbrev pub later_quotas : List ℕ → List ℕ
later_quotas [] = []
later_quotas (q ∷ qs) = qs

-- r.Reader.Read(buf), for a buffer of m bytes: what it gives, and whether with io.EOF
unfoldable pub source_read : ℕ → Source → List ℕ × Bool × Source
source_read m s =
    let n = quota s.quotas m in
    (
      take n s.bytes,
      is_empty s.bytes || s.eager && is_empty (drop n s.bytes),
      record s { bytes = drop n s.bytes; quotas = later_quotas s.quotas },
    )

-- paddedReader
pub record PaddedReader : Type 0 where
  pub source : Source
  pub size : ℕ
  pub count : ℕ
  pub left : ℕ
  pub is_done : Bool
  pub insert_pad_length_all : Bool

-- PaddedReader
abbrev pub padded_reader : Source → ℕ → Bool → PaddedReader
padded_reader source block_size all = record {
  source = source;
  size = block_size;
  count = 0;
  left = 0;
  is_done = false;
  insert_pad_length_all = all;
}

-- The calls of the underlying Read until the buffer is full or the input has ended, and the counter;
-- the first call is made for an empty buffer, too, and each call without io.EOF gives a byte, so that
-- one call more than the buffer has bytes is enough.
unfoldable pub fill : ℕ → ℕ → ℕ → ℕ → Source → List ℕ × Bool × ℕ × Source
unfolding source_read
fill zero m size count s = ([], false, count, s)
fill (suc fuel) m size count s =
    let (out, eof, s') = source_read m s in
    let count' = (length out + count) % size in
    let (more, eof', count'', s'') = fill fuel (m - length out) size count' s' in
    if eof || length out == m then (out, eof, count', s') else (out ++ more, eof', count'', s'')

-- The loop of `pad`, for a buffer of m bytes, whose capacity is its length. A random byte is a
-- function of the number of slots that are left.
unfoldable pub pad_bytes : (ℕ → ℕ) → Bool → ℕ → ℕ → ℕ → List ℕ
pad_bytes random all count m zero = []
pad_bytes random all count zero (suc left) = []
pad_bytes random all count (suc m) (suc left) =
    (if all || left == 0 then count else random left) ∷ pad_bytes random all count m left

unfoldable pub pad : (ℕ → ℕ) → ℕ → PaddedReader → List ℕ × Bool × PaddedReader
unfolding pad_bytes
pad random m r =
    let out = pad_bytes random r.insert_pad_length_all r.count m r.left in
    let left = r.left - length out in (out, left == 0, record r { left = left })

-- At the end of the input, the number of bytes that are left to pad is set.
abbrev pub ended : PaddedReader → ℕ → Source → PaddedReader
ended r count s = record r {
  source = s;
  is_done = true;
  left = r.size - count;
  count = r.size - count;
}

-- Read, for a buffer of m bytes
unfoldable pub padded_read : (ℕ → ℕ) → ℕ → PaddedReader → List ℕ × Bool × PaddedReader
unfolding fill pad
padded_read random m r =
    let (out, eof, count, s) = fill (suc m) m r.size r.count r.source in
    let (padding, all_left, r') = pad random (m - length out) (ended r count s) in
    if r.is_done
    then pad random m r
    else if eof
    then (out ++ padding, all_left, r')
    else (out, false, record r { source = s; count = count })
