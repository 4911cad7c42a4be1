-- ===== src/License/Fields.antt =====
-- The encrypted parts of a license: `EncryptLicenseFields` of license/license.go and `GenerateUserKey`
-- of license/user_key.go.
use readium_lcp_server.Prelude.{
  ℕ, zero, suc, ◌-◌, String, str_eq, false, Option, none, some, List, [], ◌∷◌, length, take,
  if◌then◌else◌,
}
use readium_lcp_server.License.{License, UserKey, UserInfo}
use readium_lcp_server.Index.{Content}
use readium_lcp_server.Crypto.{Source}
use readium_lcp_server.Crypto.Cbc.{Encrypted, no_cipher, read_error, encrypted, encrypt}
use readium_lcp_server.Server.{panic}
use readium_lcp_server.Server.Exec.{Exec, pure, reply, ask, draw, ◌>>=◌}

-- Signature() of the encrypter that NewAESEncrypter_CONTENT_KEY gives
abbrev pub aes256_cbc : String
aes256_cbc = "http://www.w3.org/2001/04/xmlenc#aes256-cbc"

-- GenerateUserKey
unfoldable pub generate_user_key : String → UserKey → Option (List ℕ)
generate_user_key profile key = if str_eq profile "basic" then key.value else none

-- bytes.NewReader, bytes.NewBufferString
abbrev pub reader : List ℕ → Source
reader bytes = record { bytes = bytes; quotas = []; eager = false }

-- Encrypt, with the next draw of random bytes
unfoldable pub encrypt_bytes : List ℕ → List ℕ → Exec Encrypted
encrypt_bytes key bytes = do
  e ← ask
  n ← draw
  pure (encrypt e.new_cipher (e.random_pad n) (e.random_iv n) key (reader bytes))

-- What Encrypt has written to a buffer, error or not
abbrev pub written : Encrypted → List ℕ
written no_cipher = []
written (read_error bytes) = bytes
written (encrypted bytes) = bytes

abbrev pub no_error : Encrypted → Option (List ℕ)
no_error no_cipher = none
no_error (read_error bytes) = none
no_error (encrypted bytes) = some bytes

-- encryptKey; the error of Encrypt is dropped.
unfoldable pub encrypt_key : List ℕ → List ℕ → Exec (List ℕ)
unfolding encrypt_bytes
encrypt_key key kek = do result ← encrypt_bytes kek key; pure (written result)

-- The fields of UserInfo
pub data Field : Type 0 where
  id_field email_field name_field encrypted_field : Field

-- FieldByName; `none` is the value that is not valid.
unfoldable pub field_by_name : String → Option Field
field_by_name name =
    if str_eq name "ID"
    then some id_field
    else if str_eq name "Email"
    then some email_field
    else if str_eq name "Name"
    then some name_field
    else if str_eq name "Encrypted"
    then some encrypted_field
    else none

-- field.String(), for the fields that are texts
abbrev pub field_text : UserInfo → Field → String
field_text u id_field = u.id
field_text u email_field = u.email
field_text u name_field = u.name
field_text u encrypted_field = "<[]string Value>"

-- field.Set of a text: it panics for the field that is none.
unfoldable pub set_field : Field → String → UserInfo → Exec UserInfo
set_field id_field s u = pure (record u { id = s })
set_field email_field s u = pure (record u { email = s })
set_field name_field s u = pure (record u { name = s })
set_field encrypted_field s u = reply panic

abbrev pub last_text : List String → String
last_text [] = ""
last_text (s ∷ []) = s
last_text (s ∷ s' ∷ rest) = last_text (s' ∷ rest)

abbrev pub set_text : List String → ℕ → String → List String
set_text [] i v = []
set_text (s ∷ rest) zero v = v ∷ rest
set_text (s ∷ rest) (suc i) v = s ∷ set_text rest i v

-- remove: the last one takes the place of the i-th.
unfoldable pub remove : List String → ℕ → List String
remove texts i = take (length texts - 1) (set_text texts i (last_text texts))

-- encryptFields, from the i-th on; `none` is an error. A name that is no field is removed from the
-- list, and ends the loop.
unfoldable pub encrypt_fields : List ℕ → ℕ → List String → UserInfo → Exec (Option UserInfo)
unfolding encrypt_bytes field_by_name set_field remove
encrypt_fields key i [] u = pure (some u)
encrypt_fields key i (to_encrypt ∷ rest) u = do
  e ← ask
  elim (field_by_name (e.title to_encrypt)) [
    | none ↦ pure (some (record u { encrypted = remove u.encrypted i }))
    | some field ↦ do
      result ← encrypt_bytes key (e.utf8 (field_text u field))
      elim (no_error result) [
        | none ↦ pure none
        | some bytes ↦ do
          u' ← set_field field (e.base64 bytes) u
          encrypt_fields key (suc i) rest u'
      ]
  ]

-- buildKeyCheck
unfoldable pub build_key_check : String → List ℕ → Exec (Option (List ℕ))
unfolding encrypt_bytes
build_key_check license_id key = do
  e ← ask
  result ← encrypt_bytes key (e.utf8 license_id)
  pure (no_error result)

-- The license with the user key emptied, and with the content key
abbrev pub with_content_key : List ℕ → License → License
with_content_key value l = record l {
  encryption = record l.encryption {
    user_key = record l.encryption.user_key { value = none; hex_value = "" };
    content_key = record { algorithm = aes256_cbc; value = value };
  };
}

abbrev pub with_key_check : List ℕ → License → License
with_key_check check l = record l {
  encryption = record l.encryption { user_key = record l.encryption.user_key { check = check } };
}

-- EncryptLicenseFields; `none` is an error
unfoldable pub encrypt_license_fields : License → Content → Exec (Option License)
unfolding generate_user_key encrypt_key encrypt_fields build_key_check
encrypt_license_fields l c = do
  e ← ask
  elim (generate_user_key e.config.profile l.encryption.user_key) [
    | none ↦ pure none
    | some key ↦ do
      content_key ← encrypt_key c.encryption_key key
      fields ← encrypt_fields key 0 l.user.encrypted l.user
      elim fields [
        | none ↦ pure none
        | some user ↦ do
          key_check ← build_key_check l.id key
          elim key_check [
            | none ↦ pure none
            | some check ↦ pure (
                some
                  (with_key_check check (with_content_key content_key (record l { user = user }))))
          ]
      ]
  ]
