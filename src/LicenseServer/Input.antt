-- ===== src/LicenseServer/Input.antt =====
-- The checks and the copying of a partial license that a request brings: `checkGetLicenseInput`,
-- `checkGenerateLicenseInput`, `copyInputToLicense` and `setRights` of lcpserver/api/license.go.
use readium_lcp_server.Prelude.{
  codes, ℕ, ◌+◌, ◌-◌, ◌*◌, ◌/◌, str_eq, ◌&&◌, not, ◌==◌, leb, pos, negsuc, Option, none, some, List,
  [], ◌∷◌, length, if◌then◌else◌,
}
use readium_lcp_server.Time.{Time, second, truncate}
use readium_lcp_server.License.{License, UserRights, no_rights}

-- fromHexChar
abbrev pub hex_digit : ℕ → Option ℕ
hex_digit c =
    if leb b'0' c && leb c b'9'
    then some (c - b'0')
    else if leb b'a' c && leb c b'f'
    then some (c - b'a' + 10)
    else if leb b'A' c && leb c b'F'
    then some (c - b'A' + 10)
    else none

abbrev pub hex_byte : Option ℕ → Option ℕ → Option ℕ
hex_byte none low = none
hex_byte (some h) none = none
hex_byte (some h) (some l) = some (h * 16 + l)

abbrev pub push : Option ℕ → Option (List ℕ) → Option (List ℕ)
push none bytes = none
push (some b) none = none
push (some b) (some bytes) = some (b ∷ bytes)

-- hex.DecodeString
unfoldable pub hex_decode : List ℕ → Option (List ℕ)
hex_decode [] = some []
hex_decode (c ∷ []) = none
hex_decode (c ∷ d ∷ s) = push (hex_byte (hex_digit c) (hex_digit d)) (hex_decode s)

-- ErrMandatoryInfoMissing, ErrBadHexValue, ErrBadValue
pub data InputError : Type 0 where
  mandatory_info_missing bad_hex_value bad_value : InputError

pub data Checked : Type 0 where
  valid : License → Checked
  invalid : InputError → Checked

-- The license with the value of its user key
abbrev pub with_value : List ℕ → License → License
with_value value l = record l {
  encryption = record l.encryption {
    user_key = record l.encryption.user_key { value = some value };
  };
}

-- The check of the size of the value
unfoldable pub check_size : List ℕ → License → Checked
check_size value l = if length value == 32 then valid (with_value value l) else invalid bad_value

-- The value, from its hexadecimal code if there is one
unfoldable pub check_value : License → Checked
unfolding check_size hex_decode
check_value l =
    let key = l.encryption.user_key in
    if not (str_eq key.hex_value "")
    then (elim (hex_decode (codes key.hex_value)) [
      | none ↦ invalid bad_hex_value
      | some value ↦ check_size value l
    ])
    else elim key.value [ none ↦ invalid mandatory_info_missing | some value ↦ check_size value l ]

-- checkGetLicenseInput
unfoldable pub check_get_license_input : License → Checked
unfolding check_value
check_get_license_input l =
    if str_eq l.encryption.user_key.hint "" then invalid mandatory_info_missing else check_value l

-- checkGenerateLicenseInput
unfoldable pub check_generate_license_input : License → Checked
unfolding check_get_license_input
check_generate_license_input l =
    if str_eq l.user.id "" then invalid mandatory_info_missing else check_get_license_input l

-- copyInputToLicense
unfoldable pub copy_input_to_license : License → License → License
copy_input_to_license lic_in lic_out = record lic_out {
  encryption = record lic_out.encryption {
    user_key = record lic_out.encryption.user_key {
      hint = lic_in.encryption.user_key.hint;
      value = lic_in.encryption.user_key.value;
      hex_value = lic_in.encryption.user_key.hex_value;
    };
  };
  user = record lic_out.user {
    email = lic_in.user.email;
    name = lic_in.user.name;
    encrypted = lic_in.user.encrypted;
  };
  links = lic_in.links;
}

-- UTC().Truncate(time.Second), downwards also before the year 1
unfoldable pub truncate_time : Time → Time
truncate_time (pos n) = pos (truncate n)
truncate_time (negsuc n) = negsuc ((n + second) / second * second - 1)

abbrev pub truncate_option : Option Time → Option Time
truncate_option none = none
truncate_option (some t) = some (truncate_time t)

abbrev pub rights_of : Option UserRights → UserRights
rights_of none = no_rights
rights_of (some r) = r

-- setRights
unfoldable pub set_rights : License → License
unfolding truncate_time
set_rights l =
    let r = rights_of l.rights in
    record l {
      rights = some (record r { start = truncate_option r.start; end = truncate_option r.end });
    }
