-- ===== src/LicenseStatuses.antt =====
-- license_statuses/*.go: license status documents and the table `license_status` of the License
-- Status Server.
pub mod Rows
pub mod Queries
use readium_lcp_server.Prelude.{
  ℕ, suc, max, ℤ, String, str_eq, Bool, ◌==◌, Option, none, some, List, [], ◌∷◌, ◌++◌, find,
  if◌then◌else◌,
}
use readium_lcp_server.Time.{Time, before, is_set}
use readium_lcp_server.Status.{Status, other}
use readium_lcp_server.Status.Codec.{get_status}
use readium_lcp_server.Transactions.{Event}

pub record Updated : Type 0 where
  pub license : Option Time
  pub status : Option Time

pub record Link : Type 0 where
  pub rel : String
  pub href : String
  pub type : String
  pub templated : Bool

pub record PotentialRights : Type 0 where
  pub end : Option Time

-- `updated` is a pointer that the code always sets before it reads it.
pub record LicenseStatus : Type 0 where
  pub id : ℕ
  pub license_ref : String
  pub status : Status
  pub updated : Updated
  pub message : String
  pub links : List Link
  pub device_count : Option ℤ
  pub potential_rights : Option PotentialRights
  pub events : List Event
  pub current_end_license : Option Time

-- A row of the table `license_status`, its columns as `tableDef` declares them.
pub record StatusRow : Type 0 where
  pub id : ℕ
  pub status : ℤ
  pub license_updated : Time
  pub status_updated : Time
  pub device_count : Option ℤ
  pub potential_rights_end : Option Time
  pub license_ref : String
  pub rights_end : Option Time

abbrev pub potential_of : Option Time → Option PotentialRights
potential_of t = if is_set t then some (record { end = t }) else none

-- The end of the potential rights that is written to the database.
abbrev pub potential_end : Option PotentialRights → Option Time
potential_end none = none
potential_end (some p) = if is_set p.end then p.end else none

-- The date of the certificate replaces an earlier date of update; `none` where the configuration
-- has no date that can be parsed.
abbrev fix_updated : Option Time → Time → Time
fix_updated none t = t
fix_updated (some cert_date) t = if before t cert_date then cert_date else t

-- What GetByID and GetByLicenseID scan from a row.
unfoldable pub scan_status : Option Time → StatusRow → LicenseStatus
scan_status cert_date r = record {
  id = r.id;
  license_ref = r.license_ref;
  status = get_status r.status (other "");
  updated = record {
    license = some (fix_updated cert_date r.license_updated);
    status = some r.status_updated;
  };
  message = "";
  links = [];
  device_count = r.device_count;
  potential_rights = potential_of r.potential_rights_end;
  events = [];
  current_end_license = r.rights_end;
}

-- SELECT * FROM license_status where license_ref = ?
unfoldable pub select_ref : String → List StatusRow → Option StatusRow
select_ref ref rows = find (λ r. str_eq r.license_ref ref) rows

-- SELECT * FROM license_status WHERE id = ?
unfoldable pub select_id : ℕ → List StatusRow → Option StatusRow
select_id id rows = find (λ r. r.id == id) rows

abbrev pub next_status_id : List StatusRow → ℕ
next_status_id [] = 1
next_status_id (r ∷ rows) = max (suc r.id) (next_status_id rows)

-- The columns of a row that Update sets: the two dates may not be NULL.
pub record Columns : Type 0 where
  pub status : ℤ
  pub license_updated : Time
  pub status_updated : Time
  pub device_count : Option ℤ
  pub potential_rights_end : Option Time
  pub rights_end : Option Time

abbrev pub dated : LicenseStatus → ℤ → Option Time → Option Time → Option Columns
dated ls status (some l) (some s) = some (record {
  status = status;
  license_updated = l;
  status_updated = s;
  device_count = ls.device_count;
  potential_rights_end = potential_end ls.potential_rights;
  rights_end = ls.current_end_license;
})
dated ls status none s = none
dated ls status (some l) none = none

abbrev pub write_row : Columns → StatusRow → StatusRow
write_row c r = record r {
  status = c.status;
  license_updated = c.license_updated;
  status_updated = c.status_updated;
  device_count = c.device_count;
  potential_rights_end = c.potential_rights_end;
  rights_end = c.rights_end;
}

-- UPDATE license_status SET … WHERE id=?
unfoldable pub update_rows : Columns → ℕ → List StatusRow → List StatusRow
update_rows c id [] = []
update_rows c id (r ∷ rows) = (if r.id == id then write_row c r else r) ∷ update_rows c id rows

-- INSERT INTO license_status …
unfoldable pub insert_row : Columns → String → List StatusRow → List StatusRow
insert_row c ref rows =
    rows
    ++ record {
      id = next_status_id rows;
      status = c.status;
      license_updated = c.license_updated;
      status_updated = c.status_updated;
      device_count = c.device_count;
      potential_rights_end = c.potential_rights_end;
      license_ref = ref;
      rights_end = c.rights_end;
    }
      ∷ []
