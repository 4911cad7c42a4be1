-- ===== src/Licensing/Inputs.antt =====
-- What a partial license brings that the checks accept.
use readium_lcp_server.Prelude.{
  ℕ, not, ◌==◌, ◌≡◌, refl, Option, none, some, List, length, codes, str_eq, if◌then◌else◌,
  Bool-cases, inl, inr, ==→eq,
}
use readium_lcp_server.License.{License, UserKey}
use readium_lcp_server.LicenseServer.Input.{
  Checked, valid, invalid, with_value, hex_decode, check_size, check_value, check_get_license_input,
  check_generate_license_input, bad_hex_value, mandatory_info_missing,
}

-- The hashed passphrase that a user key brings: in hexadecimal code, or else as it is
abbrev pub passphrase : UserKey → Option (List ℕ)
passphrase key =
    if not (str_eq key.hex_value "") then hex_decode (codes key.hex_value) else key.value

-- A license that was accepted holds the passphrase of the input, of 32 bytes.
abbrev pub Accepted : License → License → Type 0
Accepted l l' =
    (v : List ℕ) × (passphrase l.encryption.user_key ≡ some v)
    × (length v ≡ 32)
    × (l' ≡ with_value v l)

abbrev IfValid : License → Option (List ℕ) → Checked → Type 0
IfValid l o (valid l') = (v : List ℕ) × (o ≡ some v) × (length v ≡ 32) × (l' ≡ with_value v l)
IfValid l o (invalid err) = Unit {0}

check_size-IfValid : (v : List ℕ) (l : License) → IfValid l (some v) (check_size v l)
unfolding check_size
check_size-IfValid v l = elim (Bool-cases (length v == 32)) [
  | inl fits ↦ rw fits (v, refl, ==→eq (length v) 32 fits, refl)
  | inr wrong ↦ rw wrong tt
]

option-IfValid :
    (l : License) (o : Option (List ℕ)) (m : Checked)
    → IfValid l o m
    → IfValid l o (elim o [ none ↦ m | some v ↦ check_size v l ])
option-IfValid l none m h = h
option-IfValid l (some v) m h = check_size-IfValid v l

check_value-IfValid : (l : License) → IfValid l (passphrase l.encryption.user_key) (check_value l)
unfolding check_value
check_value-IfValid l = elim (Bool-cases (not (str_eq l.encryption.user_key.hex_value ""))) [
  | inl coded ↦ rw coded (
      option-IfValid l (hex_decode (codes l.encryption.user_key.hex_value)) (invalid bad_hex_value)
        tt)
  | inr plain ↦
      rw plain (option-IfValid l l.encryption.user_key.value (invalid mandatory_info_missing) tt)
]

check_get-IfValid :
    (l : License) → IfValid l (passphrase l.encryption.user_key) (check_get_license_input l)
unfolding check_get_license_input
check_get-IfValid l = elim (Bool-cases (str_eq l.encryption.user_key.hint "")) [
  | inl missing ↦ rw missing tt
  | inr given ↦ rw given (check_value-IfValid l)
]

valid-Accepted :
    (l l' : License) (c : Checked)
    → IfValid l (passphrase l.encryption.user_key) c
    → c ≡ valid l'
    → Accepted l l'
valid-Accepted l l' (invalid err) s h = cc
valid-Accepted l l' (valid k) (v, found, size, same) h =
    let e : k ≡ l' = cc in (v, found, size, cc (e, same))

pub check_get-Accepted : (l l' : License) → check_get_license_input l ≡ valid l' → Accepted l l'
check_get-Accepted l l' h = valid-Accepted l l' _ (check_get-IfValid l) h

check_generate-IfValid :
    (l : License) → IfValid l (passphrase l.encryption.user_key) (check_generate_license_input l)
unfolding check_generate_license_input
check_generate-IfValid l = elim (Bool-cases (str_eq l.user.id "")) [
  | inl missing ↦ rw missing tt
  | inr given ↦ rw given (check_get-IfValid l)
]

pub check_generate-Accepted :
    (l l' : License) → check_generate_license_input l ≡ valid l' → Accepted l l'
check_generate-Accepted l l' h = valid-Accepted l l' _ (check_generate-IfValid l) h
