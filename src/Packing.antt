-- ===== src/Packing.antt =====
-- pack/pack.go, with xmlenc/encryption.go: `Do`, which encrypts the resources of an EPUB. A text is the
-- list of its code points. What the standard library does with texts, keys and bytes is a record of
-- functions; the order in which random bytes are drawn is a counter.
pub mod Texts
pub mod Cleartext
pub mod Sorted
pub mod Refusals
pub mod Opening
pub mod Pipeline
pub mod Stored
use readium_lcp_server.Prelude.{
  ℕ, suc, ◌+◌, ◌==◌, Bool, true, false, not, ◌&&◌, ◌||◌, Option, none, some, List, [], ◌∷◌, ◌++◌,
  map, find, is_empty, if◌then◌else◌,
}
use readium_lcp_server.Crypto.{Source}
use readium_lcp_server.Crypto.Cbc.{Block, Encrypted, no_cipher, read_error, encrypted, encrypt}
use readium_lcp_server.Packing.Texts.{Text, same_text, starts_with, split, join, leb_text, text}

pub record Tools : Type 0 where
  pub path_escape : Text → Text
  pub decode_key : Text → Option (List ℕ)
  pub new_key : Option (List ℕ)
  pub deflate : List ℕ → List ℕ
  pub new_cipher : List ℕ → Option Block
  pub random_iv : ℕ → List ℕ
  pub random_pad : ℕ → ℕ → ℕ

-- epub.Resource
pub record Resource : Type 0 where
  pub path : Text
  pub content_type : Text
  pub original_size : ℕ
  pub storage_method : ℕ
  pub contents : List ℕ

pub record Compression : Type 0 where
  pub method : ℕ
  pub original_length : ℕ

-- xmlenc.Data
pub record Data : Type 0 where
  pub algorithm : Text
  pub key_uri : Text
  pub key_type : Text
  pub uri : Text
  pub properties : List Compression

-- ResourcePathEscape
unfoldable pub resource_path_escape : (Text → Text) → Text → Text
resource_path_escape escape path = join b'/' (map escape (split b'/' path))

-- Manifest.DataForFile
unfoldable pub data_for_file : Tools → List Data → Text → Option Data
unfolding resource_path_escape
data_for_file t items path =
    find (λ d. same_text d.uri (resource_path_escape t.path_escape path)) items

-- Epub; `none` where it has no encryption manifest
pub record Epub : Type 0 where
  pub encryption : Option (List Data)
  pub resources : List Resource
  pub cleartext_resources : List Text

-- getOrSetContentKey
unfoldable pub get_or_set_content_key : Tools → Text → Option (List ℕ)
get_or_set_content_key t content_key =
    if is_empty content_key then t.new_key else t.decode_key content_key

-- mustCompressBeforeEncryption
unfoldable pub must_compress : Resource → Bool
must_compress r =
    is_empty r.content_type
    || (not (starts_with (text "image") r.content_type)
        && (not (starts_with (text "video") r.content_type)
            && (not (starts_with (text "audio") r.content_type)
                && not (same_text r.content_type (text "application/pdf")))))

-- sort.SearchStrings on a sorted list: the first text that is not less
unfoldable pub search_texts : List Text → Text → Option Text
search_texts names file = find (λ name. leb_text file name) names

-- Epub.CanEncrypt
unfoldable pub can_encrypt : List Text → Text → Bool
unfolding search_texts
can_encrypt names file = elim (search_texts names file) [
  | none ↦ true
  | some name ↦ not (same_text name file)
]

-- NoCompression, Deflate
abbrev pub no_compression : ℕ
no_compression = 0

abbrev pub deflate_method : ℕ
deflate_method = 8

-- An entry of the archive that is written
pub record Entry : Type 0 where
  pub path : Text
  pub method : ℕ
  pub contents : List ℕ

-- The data that encryptEPUBResource adds to the manifest
unfoldable pub data_of : Tools → Resource → Data
unfolding resource_path_escape must_compress
data_of t r = record {
  algorithm = text "http://www.w3.org/2001/04/xmlenc#aes256-cbc";
  key_uri = text "license.lcpl#/encryption/content_key";
  key_type = text "http://readium.org/2014/01/lcp#EncryptedContentKey";
  uri = resource_path_escape t.path_escape r.path;
  properties =
      record {
        method = if must_compress r then deflate_method else no_compression;
        original_length = r.original_size;
      }
      ∷ [];
}

abbrev pub reader_of : List ℕ → Source
reader_of bytes = record { bytes = bytes; quotas = []; eager = false }

abbrev pub entry_or_error : Text → Encrypted → Option Entry
entry_or_error path no_cipher = none
entry_or_error path (read_error bytes) = none
entry_or_error path (encrypted bytes) =
    some (record { path = path; method = no_compression; contents = bytes })

-- encryptEPUBResource, with the draw n of random bytes; `none` is an error
unfoldable pub encrypt_resource : Tools → ℕ → List ℕ → Resource → Option Entry
unfolding must_compress
encrypt_resource t n key r =
    let input = if must_compress r then t.deflate r.contents else r.contents in
    entry_or_error r.path
      (encrypt t.new_cipher (t.random_pad n) (t.random_iv n) key (reader_of input))

-- Writer.Copy
abbrev pub copied : Resource → Entry
copied r = record { path = r.path; method = r.storage_method; contents = r.contents }

abbrev pub add_entry : Entry → Option (List Entry × List Data) → Option (List Entry × List Data)
add_entry entry none = none
add_entry entry (some (entries, items)) = some (entry ∷ entries, items)

abbrev pub is_some {ℓ} : {A : Type ℓ} → Option A → Bool
is_some none = false
is_some (some a) = true

-- The loop over the resources: the entries written, and the manifest behind it
unfoldable pub pack_resources :
    Tools → ℕ → List ℕ → List Text → List Data → List Resource → Option (List Entry × List Data)
unfolding encrypt_resource data_of data_for_file can_encrypt
pack_resources t n key cleartext items [] = some ([], items)
pack_resources t n key cleartext items (r ∷ rest) =
    if not (is_some (data_for_file t items r.path)) && can_encrypt cleartext r.path
    then elim (encrypt_resource t n key r) [
      | none ↦ none
      | some entry ↦
          add_entry entry (pack_resources t (suc n) key cleartext (items ++ data_of t r ∷ []) rest)
    ]
    else add_entry (copied r) (pack_resources t n key cleartext items rest)

-- What is written: the entries behind the mimetype, and the manifest
pub record Package : Type 0 where
  pub entries : List Entry
  pub manifest : List Data
  pub key : List ℕ

abbrev pub manifest_of : Option (List Data) → List Data
manifest_of none = []
manifest_of (some items) = items

-- Do; `none` is an error
unfoldable pub do_pack : Tools → Text → Epub → Option Package
unfolding get_or_set_content_key pack_resources
do_pack t content_key ep = elim (get_or_set_content_key t content_key) [
  | none ↦ none
  | some key ↦
      elim (pack_resources t 0 key ep.cleartext_resources (manifest_of ep.encryption)
        ep.resources) [
          | none ↦ none
          | some out ↦ some (record { entries = out.0; manifest = out.1; key = key })
        ]
]
