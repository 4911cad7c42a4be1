-- ===== src/Crypto/Cbc.antt =====
-- crypto/aes_cbc.go: encryption of a stream and its decryption, in the standard library's mode CBC.
use readium_lcp_server.Prelude.{
  ℕ, zero, suc, ◌+◌, ◌-◌, ◌*◌, ◌/◌, ◌%◌, Bool, false, ◌==◌, ◌&&◌, ◌||◌, Option, none, some, List,
  [], ◌∷◌, ◌++◌, length, is_empty, take, drop, leb, if◌then◌else◌,
}
use readium_lcp_server.Crypto.{Source, PaddedReader, padded_read, padded_reader}

-- Exclusive or of two numbers of w bits
unfoldable pub xor : ℕ → ℕ → ℕ → ℕ
xor zero a b = b
xor (suc w) a b = xor w (a / 2) (b / 2) * 2 + (a % 2 + b % 2) % 2

-- Exclusive or of the bytes of two slices of one length
unfoldable pub xor_bytes : List ℕ → List ℕ → List ℕ
xor_bytes [] ys = []
xor_bytes (x ∷ xs) [] = []
xor_bytes (x ∷ xs) (y ∷ ys) = xor 8 x y ∷ xor_bytes xs ys

-- aes.BlockSize
abbrev pub block_size : ℕ
block_size = 16

-- A block cipher with its key, as aes.NewCipher gives it: it is a parameter
pub record Block : Type 0 where
  pub encrypt : List ℕ → List ℕ
  pub decrypt : List ℕ → List ℕ

-- io.ReadFull: Reads until the buffer of m bytes is full or the input has ended. The error is none
-- if the buffer is full.
unfoldable pub read_full : (ℕ → ℕ) → ℕ → ℕ → PaddedReader → List ℕ × Bool × PaddedReader
unfolding padded_read
read_full random zero m r = ([], m == 0, r)
read_full random (suc fuel) m r =
    let (out, eof, r') = padded_read random m r in
    let (more, full, r'') = read_full random fuel (m - length out) r' in
    if length out == m || eof then (out, length out == m, r') else (out ++ more, full, r'')

-- The loop of Encrypt: the blocks that it writes, and whether it ends with io.EOF, and not within a
-- block
unfoldable pub encrypt_blocks : (ℕ → ℕ) → Block → ℕ → List ℕ → PaddedReader → List ℕ × Bool
unfolding read_full xor_bytes
encrypt_blocks random b zero chain r = ([], false)
encrypt_blocks random b (suc fuel) chain r =
    let (buffer, full, r') = read_full random (suc block_size) block_size r in
    let cipher_text = b.encrypt (xor_bytes chain buffer) in
    let (rest, is_end) = encrypt_blocks random b fuel cipher_text r' in
    if full then (cipher_text ++ rest, is_end) else ([], is_empty buffer)

-- What Encrypt returns, with what it has written: the error of aes.NewCipher, of the reader, or nil
pub data Encrypted : Type 0 where
  no_cipher : Encrypted
  read_error : List ℕ → Encrypted
  encrypted : List ℕ → Encrypted

-- Encrypt after aes.NewCipher. Every block but the last holds input, so that one round more than the
-- input has bytes, and one for the end, are enough.
unfoldable pub encrypt_with : (ℕ → ℕ) → List ℕ → Source → Option Block → Encrypted
unfolding encrypt_blocks
encrypt_with random iv s none = no_cipher
encrypt_with random iv s (some b) =
    let r = padded_reader s block_size false in
    let (blocks, is_end) = encrypt_blocks random b (2 + length s.bytes) iv r in
    if is_end then encrypted (iv ++ blocks) else read_error (iv ++ blocks)

-- Encrypt, with the initialization vector that rand.Reader gives, to a writer that does not fail
unfoldable pub encrypt : (List ℕ → Option Block) → (ℕ → ℕ) → List ℕ → List ℕ → Source → Encrypted
unfolding encrypt_with
encrypt new_cipher random iv key s = encrypt_with random iv s (new_cipher key)

-- mode.CryptBlocks of a CBC decrypter, for a number of blocks
unfoldable pub decrypt_blocks : Block → ℕ → List ℕ → List ℕ → List ℕ
unfolding xor_bytes
decrypt_blocks b zero chain bs = []
decrypt_blocks b (suc n) chain bs =
    let block = take block_size bs in
    xor_bytes chain (b.decrypt block) ++ decrypt_blocks b n block (drop block_size bs)

pub data Decrypted : Type 0 where
  bad_key : Decrypted
  panics : Decrypted
  writes : List ℕ → Decrypted

abbrev pub last_of : List ℕ → ℕ
last_of [] = 0
last_of (x ∷ []) = x
last_of (x ∷ y ∷ ys) = last_of (y ∷ ys)

-- The part of the buffer behind the initialization vector that is written
unfoldable pub unpadded : List ℕ → List ℕ → Decrypted
unpadded iv plain =
    let padding = last_of (iv ++ plain) in
    if leb padding (length plain) then writes (take (length plain - padding) plain) else panics

-- Decrypt after aes.NewCipher, with the parts of the buffer: a buffer shorter than the
-- initialization vector, a part of a block, and a padding longer than the blocks make it panic.
unfoldable pub decrypt_with : Option Block → List ℕ → List ℕ → List ℕ → Decrypted
unfolding decrypt_blocks unpadded
decrypt_with none iv rest buf = bad_key
decrypt_with (some b) iv rest buf =
    let n = length rest / block_size in
    if leb block_size (length buf) && length rest % block_size == 0
    then unpadded iv (decrypt_blocks b n iv rest)
    else panics

-- Decrypt, for an input that does not fail
unfoldable pub decrypt : (List ℕ → Option Block) → List ℕ → List ℕ → Decrypted
unfolding decrypt_with
decrypt new_cipher key buf =
    decrypt_with (new_cipher key) (take block_size buf) (drop block_size buf) buf
