-- ===== src/License.antt =====
-- license/license.go and license/store.go: licenses, their rights, and the table `license` of the
-- License Server. Links, Fields, Profile and Build are about license/license.go.
pub mod Queries
pub mod Profile
pub mod Links
pub mod Fields
pub mod Build
use readium_lcp_server.Prelude.{
  ℕ, String, str_eq, Bool, false, Option, none, some, ℤ, pos, List, [], ◌∷◌, if◌then◌else◌, find,
}
use readium_lcp_server.Time.{Time}

pub record ContentKey : Type 0 where
  pub algorithm : String
  pub value : List ℕ

-- The value is the hashed passphrase; it is `none` for the nil slice.
pub record UserKey : Type 0 where
  pub algorithm : String
  pub hint : String
  pub check : List ℕ
  pub value : Option (List ℕ)
  pub hex_value : String

pub record Encryption : Type 0 where
  pub profile : String
  pub content_key : ContentKey
  pub user_key : UserKey

-- Link of a license
pub record LicenseLink : Type 0 where
  pub rel : String
  pub href : String
  pub type : String
  pub title : String
  pub profile : String
  pub templated : Bool
  pub length : ℤ
  pub checksum : String

-- sign.Signature
pub record Signature : Type 0 where
  pub certificate : List ℕ
  pub value : List ℕ
  pub algorithm : String

pub record UserInfo : Type 0 where
  pub id : String
  pub email : String
  pub name : String
  pub encrypted : List String

pub record UserRights : Type 0 where
  pub print : Option ℤ
  pub copy : Option ℤ
  pub start : Option Time
  pub end : Option Time

abbrev pub no_rights : UserRights
no_rights = record { print = none; copy = none; start = none; end = none }

pub record License : Type 0 where
  pub provider : String
  pub id : String
  pub issued : Time
  pub updated : Option Time
  pub encryption : Encryption
  pub links : Option (List LicenseLink)
  pub user : UserInfo
  pub rights : Option UserRights
  pub signature : Option Signature
  pub content_id : String

-- LicenseReport
pub record LicenseReport : Type 0 where
  pub provider : String
  pub id : String
  pub issued : Time
  pub updated : Option Time
  pub user : UserInfo
  pub rights : UserRights
  pub content_id : String

-- A row of the table `license`; the column lsd_status is written only by `UpdateLsdStatus`.
pub record LicenseRow : Type 0 where
  pub id : String
  pub user_id : String
  pub provider : String
  pub issued : Time
  pub updated : Option Time
  pub rights : UserRights
  pub content_fk : String
  pub lsd_status : ℤ

abbrev pub new_user : String → UserInfo
new_user id = record { id = id; email = ""; name = ""; encrypted = [] }

abbrev pub no_key : UserKey
no_key = record { algorithm = ""; hint = ""; check = []; value = none; hex_value = "" }

abbrev pub no_encryption : Encryption
no_encryption = record {
  profile = "";
  content_key = record { algorithm = ""; value = [] };
  user_key = no_key;
}

abbrev pub new_link : String → String → LicenseLink
new_link rel href = record {
  rel = rel;
  href = href;
  type = "";
  title = "";
  profile = "";
  templated = false;
  length = pos 0;
  checksum = "";
}

-- The zero value of a license
abbrev pub new_license : License
new_license = record {
  provider = "";
  id = "";
  issued = pos 0;
  updated = none;
  encryption = no_encryption;
  links = none;
  user = new_user "";
  rights = none;
  signature = none;
  content_id = "";
}

-- The license that `Get` scans from a row.
abbrev pub scan_license : LicenseRow → License
scan_license r = record new_license {
  provider = r.provider;
  id = r.id;
  issued = r.issued;
  updated = r.updated;
  user = new_user r.user_id;
  rights = some r.rights;
  content_id = r.content_fk;
}

abbrev pub rights_or : Option UserRights → UserRights
rights_or none = no_rights
rights_or (some r) = r

-- SELECT … WHERE id = ?
unfoldable pub select_license : String → List LicenseRow → Option LicenseRow
select_license id rows = find (λ r. str_eq r.id id) rows

-- The columns that UPDATE sets in a row.
abbrev pub write_license : License → Time → LicenseRow → LicenseRow
write_license l now r = record r {
  user_id = l.user.id;
  provider = l.provider;
  updated = some now;
  rights = rights_or l.rights;
  content_fk = l.content_id;
}

-- UPDATE license SET … WHERE id = ?
unfoldable pub update_licenses : License → Time → List LicenseRow → List LicenseRow
update_licenses l now [] = []
update_licenses l now (r ∷ rows) =
    (if str_eq r.id l.id then write_license l now r else r) ∷ update_licenses l now rows
