-- ===== src/Licensing/Fields.antt =====
-- `EncryptLicenseFields` hides the passphrase, and encrypts the content key and the key check with it.
use readium_lcp_server.Prelude.{
  ℕ, suc, String, ◌≡◌, refl, ap, ◌∙◌, subst, none, some, List, [], ◌∷◌, length, arith,
}
use readium_lcp_server.License.{License, UserInfo, UserKey}
use readium_lcp_server.License.Fields.{
  Field, id_field, email_field, name_field, encrypted_field, field_text, generate_user_key,
  encrypt_bytes, encrypt_key, encrypt_fields, set_field, field_by_name, build_key_check,
  encrypt_license_fields, written, no_error, reader, with_content_key, with_key_check,
}
use readium_lcp_server.Index.{Content}
use readium_lcp_server.Crypto.Cbc.{
  Encrypted, no_cipher, read_error, encrypted, encrypt, decrypt, writes,
}
use readium_lcp_server.Crypto.RoundTrip.{decrypt-encrypt}
use readium_lcp_server.Server.{Env, Tables, Reply, panic}
use readium_lcp_server.Server.Triple.{
  Triple, Triple-pure, Triple-reply, Triple-bind, Triple-draw, Triple-option, ask_bind,
}
use readium_lcp_server.Server.Views.{with_fact}
use readium_lcp_server.Licensing.{IsSound}

-- What comes of an encryption
abbrev Sealed : Env → List ℕ → List ℕ → Encrypted → Type 0
Sealed e key bytes r =
    IsSound e
    → length key ≡ 32
    → (out : List ℕ) × (r ≡ encrypted out) × (decrypt e.new_cipher key out ≡ writes bytes)

encrypt-Sealed :
    (e : Env) (n : ℕ) (key bytes : List ℕ)
    → Sealed e key bytes (encrypt e.new_cipher (e.random_pad n) (e.random_iv n) key (reader bytes))
encrypt-Sealed e n key bytes sound size =
    let (b, is_b) = sound.is_key key size in
    decrypt-encrypt e.new_cipher (e.random_pad n) (e.random_iv n) key (reader bytes) b is_b
      (sound.is_cipher key b is_b) (sound.iv_size n)

abbrev pub Written : Env → List ℕ → List ℕ → List ℕ → Type 0
Written e key bytes out = IsSound e → length key ≡ 32 → decrypt e.new_cipher key out ≡ writes bytes

written-Written :
    (e : Env) (key bytes : List ℕ) (r : Encrypted)
    → Sealed e key bytes r
    → Written e key bytes (written r)
written-Written e key bytes r s sound size =
    let (out, is_out, opens) = s sound size in
    ap (λ q. decrypt e.new_cipher key (written q)) is_out ∙ opens

no_error-Written :
    (e : Env) (key bytes : List ℕ) (r : Encrypted) (out : List ℕ)
    → no_error r ≡ some out
    → Sealed e key bytes r
    → Written e key bytes out
no_error-Written e key bytes no_cipher out h s = cc
no_error-Written e key bytes (read_error bs) out h s = cc
no_error-Written e key bytes (encrypted bs) out h s =
    let same : bs ≡ out = cc in
    subst (λ xs. Written e key bytes xs) same (written-Written e key bytes (encrypted bs) s)

module _ {e : Env} {R : Reply → Tables → Type 0} {P : Tables → Type 0} where
  encrypt_bytes-Sealed :
      (key bytes : List ℕ)
      → Triple e R P (encrypt_bytes key bytes) (λ r t. P t × Sealed e key bytes r)
  unfolding encrypt_bytes
  encrypt_bytes-Sealed key bytes =
      ask_bind _
        (Triple-bind Triple-draw λ n. Triple-pure _ (λ t p. (p, encrypt-Sealed e n key bytes)))

  encrypt_bytes-kept : (key bytes : List ℕ) → Triple e R P (encrypt_bytes key bytes) (λ _ t. P t)
  unfolding encrypt_bytes
  encrypt_bytes-kept key bytes = ask_bind _ (Triple-bind Triple-draw λ n. Triple-pure _ (λ t p. p))

  encrypt_key-Written :
      (key kek : List ℕ) → Triple e R P (encrypt_key key kek) (λ out t. P t × Written e kek key out)
  unfolding encrypt_key
  encrypt_key-Written key kek =
      Triple-bind (encrypt_bytes-Sealed kek key)
        λ r. Triple-pure _ (λ t p. (p.0, written-Written e kek key r p.1))

  build_key_check-Written :
      (id : String) (key : List ℕ)
      → Triple e R P
          (build_key_check id key)
          (λ r t. P t × ((out : List ℕ) → r ≡ some out → Written e key (e.utf8 id) out))
  unfolding build_key_check
  build_key_check-Written id key = ask_bind _ (
      Triple-bind (encrypt_bytes-Sealed key (e.utf8 id))
        λ r. Triple-pure _ (λ t p. (p.0, λ out h. no_error-Written e key (e.utf8 id) r out h p.1)))

-- The loop over the fields may panic, and changes no table.
module _ {e : Env} {R : Reply → Tables → Type 0} {P : Tables → Type 0}
    (on_panic : (t : Tables) → P t → R panic t) where
  set_field-kept :
      (f : Field) (s : String) (u : UserInfo) → Triple e R P (set_field f s u) (λ _ t. P t)
  unfolding set_field
  set_field-kept id_field s u = Triple-pure _ (λ t p. p)
  set_field-kept email_field s u = Triple-pure _ (λ t p. p)
  set_field-kept name_field s u = Triple-pure _ (λ t p. p)
  set_field-kept encrypted_field s u = Triple-reply _ on_panic

  encrypt_fields-kept :
      (key : List ℕ) (i : ℕ) (fs : List String) (u : UserInfo)
      → Triple e R P (encrypt_fields key i fs u) (λ _ t. P t)
  unfolding encrypt_fields
  encrypt_fields-kept key i [] u = Triple-pure _ (λ t p. p)
  encrypt_fields-kept key i (f ∷ fs) u = ask_bind _ (
      Triple-option (field_by_name (e.title f)) (λ h. Triple-pure _ (λ t p. p))
        λ field h.
          Triple-bind {Q = λ _ t. P t} (encrypt_bytes-kept key (e.utf8 (field_text u field))) λ r.
            Triple-option (no_error r) (λ _. Triple-pure _ (λ t p. p))
              λ bytes _.
                Triple-bind (set_field-kept field (e.base64 bytes) u)
                  λ u'. encrypt_fields-kept key (suc i) fs u')

-- What EncryptLicenseFields keeps of a license, and what it encrypts
pub record IsEncrypted (e : Env) (lic : License) (c : Content) (l : License) : Type 0 where
  pub id : l.id ≡ lic.id
  pub provider : l.provider ≡ lic.provider
  pub issued : l.issued ≡ lic.issued
  pub rights : l.rights ≡ lic.rights
  pub content_id : l.content_id ≡ lic.content_id
  pub no_value : l.encryption.user_key.value ≡ none
  pub no_hex_value : l.encryption.user_key.hex_value ≡ ""
  pub content_key :
      (key : List ℕ)
      → lic.encryption.user_key.value ≡ some key
      → Written e key c.encryption_key l.encryption.content_key.value
  pub key_check :
      (key : List ℕ)
      → lic.encryption.user_key.value ≡ some key
      → Written e key (e.utf8 lic.id) l.encryption.user_key.check

user_key-value :
    (profile : String) (k : UserKey) (key key' : List ℕ)
    → generate_user_key profile k ≡ some key
    → k.value ≡ some key'
    → key ≡ key'
unfolding generate_user_key
user_key-value profile k key key' h g = ground arith

sealed-IsEncrypted :
    (e : Env) (l : License) (c : Content) (key out check : List ℕ) (user : UserInfo)
    → generate_user_key e.config.profile l.encryption.user_key ≡ some key
    → Written e key c.encryption_key out
    → Written e key (e.utf8 l.id) check
    → IsEncrypted e l c (with_key_check check (with_content_key out (record l { user = user })))
sealed-IsEncrypted e l c key out check user h wo wc = record {
  id = refl;
  provider = refl;
  issued = refl;
  rights = refl;
  content_id = refl;
  no_value = refl;
  no_hex_value = refl;
  content_key = λ key' g.
      subst (λ k. Written e k c.encryption_key out)
        (user_key-value e.config.profile l.encryption.user_key key key' h g) wo;
  key_check = λ key' g.
      subst (λ k. Written e k (e.utf8 l.id) check)
        (user_key-value e.config.profile l.encryption.user_key key key' h g) wc;
}

module _ {e : Env} {R : Reply → Tables → Type 0} {P : Tables → Type 0}
    (on_panic : (t : Tables) → P t → R panic t) where
  pub encrypt_license_fields-IsEncrypted :
      (l : License) (c : Content)
      → Triple e R P
          (encrypt_license_fields l c)
          (λ r t. P t × ((l' : License) → r ≡ some l' → IsEncrypted e l c l'))
  unfolding encrypt_license_fields
  encrypt_license_fields-IsEncrypted l c = ask_bind _ (
      Triple-option (generate_user_key e.config.profile l.encryption.user_key)
        (λ h. Triple-pure _ (λ t p. (p, λ l' k. cc)))
        λ key h. Triple-bind (encrypt_key-Written c.encryption_key key) λ out. with_fact λ wo.
          Triple-bind (encrypt_fields-kept on_panic key 0 l.user.encrypted l.user) λ fields.
            Triple-option fields (λ _. Triple-pure _ (λ t p. (p, λ l' k. cc)))
              λ user _. Triple-bind (build_key_check-Written l.id key) λ check. with_fact λ wc.
                Triple-option check (λ _. Triple-pure _ (λ t p. (p, λ l' k. cc)))
                  λ bytes is_bytes. Triple-pure _ (λ t p. (
                    p,
                    λ l' k.
                        let same : with_key_check bytes
                              (with_content_key out (record l { user = user }))
                            ≡ l' =
                          cc in
                        subst (λ q. IsEncrypted e l c q) same
                          (sealed-IsEncrypted e l c key out bytes user h wo (wc bytes is_bytes)),
                  )))
