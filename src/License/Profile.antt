-- ===== src/License/Profile.antt =====
-- `SetLicenseProfile` of license/license.go.
use Prim.Native.String
use readium_lcp_server.Prelude.{
  codes, ℕ, String, Bool, false, ◌&&◌, ◌==◌, leb, str_eq, Option, none, some, List, [], ◌∷◌,
  if◌then◌else◌,
}
use readium_lcp_server.License.{License}

abbrev is_digit : ℕ → Bool
is_digit c = leb b'0' c && leb c b'9'

-- ^[1-9]\.\d$
unfoldable pub is_decimal : List ℕ → Bool
is_decimal (a ∷ b ∷ c ∷ []) = is_digit a && leb b'1' a && b == b'.' && is_digit c
is_decimal _ = false

-- isValidPositiveDecimal
unfoldable pub is_valid_positive_decimal : String → Bool
unfolding is_decimal
is_valid_positive_decimal s = is_decimal (codes s)

-- licenseProfileURL, for the profile of the configuration; `none` is the unknown profile
unfoldable pub license_profile_url : String → Option String
unfolding is_valid_positive_decimal
license_profile_url profile =
    if str_eq profile "basic"
    then some "http://readium.org/lcp/basic-profile"
    else if is_valid_positive_decimal profile
    then some (String.◌++◌ "http://readium.org/lcp/profile-" profile)
    else none

-- SetLicenseProfile
unfoldable pub set_license_profile : String → License → Option License
unfolding license_profile_url
set_license_profile profile l = elim (license_profile_url profile) [
  | none ↦ none
  | some url ↦ some (record l { encryption = record l.encryption { profile = url } })
]
