-- ===== src/Scenarios/Ciphers.antt =====
-- The theorems on the padded reader and on Encrypt, applied to the sample data.
use readium_lcp_server.Prelude.{
  ℕ, ◌≡◌, refl, sym, ◌∙◌, true, false, Option, some, List, [], ◌∷◌, take, arith,
}
use readium_lcp_server.Crypto.{Source, padded_reader, padded_read}
use readium_lcp_server.Crypto.Cbc.{xor_bytes, Block, encrypt, encrypted, decrypt, writes}
use readium_lcp_server.Crypto.Reading.{stream}
use readium_lcp_server.Crypto.Whole.{read_all, read_all-take, Padded, read_all-Padded}
use readium_lcp_server.Crypto.Blocks.{IsCipher, xor_bytes-xor_bytes, length-xor_bytes}
use readium_lcp_server.Crypto.RoundTrip.{decrypt-encrypt}

-- An input that comes in pieces of at most 2 and 1 bytes and then in one, with io.EOF
abbrev sample_source : Source
sample_source = record { bytes = 10 ∷ 20 ∷ 30 ∷ 40 ∷ 50 ∷ []; quotas = 1 ∷ 0 ∷ []; eager = true }

abbrev sample_key : List ℕ
sample_key = 1 ∷ 2 ∷ 3 ∷ 4 ∷ 5 ∷ 6 ∷ 7 ∷ 8 ∷ 9 ∷ 10 ∷ 11 ∷ 12 ∷ 13 ∷ 14 ∷ 15 ∷ 16 ∷ []

abbrev xor_cipher : List ℕ → Block
xor_cipher key = record { encrypt = λ xs. xor_bytes key xs; decrypt = λ xs. xor_bytes key xs }

xor_cipher-IsCipher : IsCipher (xor_cipher sample_key)
xor_cipher-IsCipher = record {
  whole = λ xs h. length-xor_bytes sample_key xs (sym h) ∙ h;
  inverse = λ xs h. xor_bytes-xor_bytes sample_key xs (sym h);
}

abbrev sample_cipher : List ℕ → Option Block
sample_cipher key = some (xor_cipher key)

-- What two calls of Read give, and all that there is to read
two_reads :
    read_all (λ left. left) (3 ∷ 4 ∷ []) (padded_reader sample_source 4 true)
    ≡ 10 ∷ 20 ∷ 30 ∷ 40 ∷ 50 ∷ 3 ∷ 3 ∷ []
unfolding read_all padded_read
two_reads = refl

read_all-take_example :
    read_all (λ left. left) (3 ∷ 4 ∷ []) (padded_reader sample_source 4 false)
    ≡ take 7 (stream (λ left. left) (padded_reader sample_source 4 false))
read_all-take_example =
    read_all-take (λ left. left) (3 ∷ 4 ∷ []) (padded_reader sample_source 4 false) (omega arith)

read_all-Padded_example :
    Padded 4
      (10 ∷ 20 ∷ 30 ∷ 40 ∷ 50 ∷ [])
      (read_all (λ left. left) (3 ∷ 6 ∷ 1 ∷ []) (padded_reader sample_source 4 false))
read_all-Padded_example =
    read_all-Padded (λ left. left) sample_source 4 false (3 ∷ 6 ∷ 1 ∷ []) (omega arith)
      (omega arith)

decrypt-encrypt_example :
    (out : List ℕ) × (encrypt sample_cipher (λ left. left) sample_key sample_key sample_source
      ≡ encrypted out)
    × (decrypt sample_cipher sample_key out ≡ writes (10 ∷ 20 ∷ 30 ∷ 40 ∷ 50 ∷ []))
decrypt-encrypt_example =
    decrypt-encrypt sample_cipher (λ left. left) sample_key sample_key sample_source
      (xor_cipher sample_key) refl xor_cipher-IsCipher refl
