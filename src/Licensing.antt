-- ===== src/Licensing.antt =====
-- What the License Server promises of the licenses that it builds.
pub mod Fields
pub mod Built
pub mod Inputs
pub mod Links
pub mod Unknown
pub mod Answers
pub mod Generated
pub mod Fresh
use readium_lcp_server.Prelude.{ℕ, ◌≡◌, List, length, Option, none, some}
use readium_lcp_server.Crypto.Cbc.{Block, decrypt, writes}
use readium_lcp_server.Crypto.Blocks.{IsCipher}
use readium_lcp_server.License.{License}
use readium_lcp_server.Index.{Content}
use readium_lcp_server.Server.{Env, Reply, license}

-- What crypto/aes and crypto/rand document: a key of 32 bytes gives a block cipher that decrypts what
-- it has encrypted, and an initialization vector has 16 bytes.
pub record IsSound (e : Env) : Type 0 where
  pub iv_size : (n : ℕ) → length (e.random_iv n) ≡ 16
  pub is_key : (key : List ℕ) → length key ≡ 32 → (b : Block) × (e.new_cipher key ≡ some b)
  pub is_cipher : (key : List ℕ) (b : Block) → e.new_cipher key ≡ some b → IsCipher b

-- The hashed passphrase opens the content key, and the key check gives the id of the license.
pub record Opens (e : Env) (passphrase : List ℕ) (c : Content) (l : License) : Type 0 where
  pub content_key :
      decrypt e.new_cipher passphrase l.encryption.content_key.value ≡ writes c.encryption_key
  pub key_check : decrypt e.new_cipher passphrase l.encryption.user_key.check ≡ writes (e.utf8 l.id)

-- A license built from another, for a content
pub record IsBuilt (e : Env) (lic : License) (c : Content) (l : License) : Type 0 where
  pub id : l.id ≡ lic.id
  pub provider : l.provider ≡ lic.provider
  pub issued : l.issued ≡ lic.issued
  pub rights : l.rights ≡ lic.rights
  pub content_id : l.content_id ≡ lic.content_id
  pub no_value : l.encryption.user_key.value ≡ none
  pub no_hex_value : l.encryption.user_key.hex_value ≡ ""
  pub opens :
      IsSound e
      → (passphrase : List ℕ) → lic.encryption.user_key.value ≡ some passphrase
      → length passphrase ≡ 32
      → Opens e passphrase c l

-- What holds of an answer with a license, and what holds of the others
abbrev pub OnLicense : (ℕ → License → Type 0) → Type 0 → Reply → Type 0
OnLicense P Q (license status l) = P status l
OnLicense P Q _ = Q

pub OnLicense-map :
    (P P' : ℕ → License → Type 0) (Q : Type 0)
    → ((status : ℕ) (l : License) → P status l → P' status l)
    → (r : Reply) → OnLicense P Q r
    → OnLicense P' Q r
OnLicense-map P P' Q f (license status l) h = f status l h
OnLicense-map P P' Q f _ h = h

-- A license in an answer does not show the hashed passphrase.
abbrev pub Hidden : License → Type 0
Hidden l = (l.encryption.user_key.value ≡ none) × (l.encryption.user_key.hex_value ≡ "")
