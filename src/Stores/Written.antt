-- ===== src/Stores/Written.antt =====
-- What `Update` and `Add` write of a license status, and what `Get` reads of a license.
use readium_lcp_server.Prelude.{
  String, List, [], ◌∷◌, ◌≡◌, refl, some, Option-cases, inl, inr, eq_iff, arith,
}
use readium_lcp_server.License.{License, LicenseRow, select_license, scan_license}
use readium_lcp_server.Server.Exec.{DbResult, done, not_found, failed}
use readium_lcp_server.LicenseStatuses.{LicenseStatus, Columns, potential_end}
use readium_lcp_server.Stores.{columns, found_license}

module _ (ls : LicenseStatus) (c : Columns) (h : columns ls ≡ some c) where
  pub columns-rights_end : c.rights_end ≡ ls.current_end_license
  columns-rights_end = ground arith

  pub columns-potential_rights_end : c.potential_rights_end ≡ potential_end ls.potential_rights
  columns-potential_rights_end = ground arith

  pub columns-device_count : c.device_count ≡ ls.device_count
  columns-device_count = ground arith

pub select_license_id :
    (id : String) (rows : List LicenseRow) (r : LicenseRow)
    → select_license id rows ≡ some r
    → r.id ≡ id
unfolding select_license
select_license_id id [] r h = cc
select_license_id id (q ∷ rows) r h = ground (arith, eq_iff q.id id, select_license_id id rows r)

-- What `Get` brings.
abbrev pub Read : String → DbResult License → List LicenseRow → Type 0
Read id (done l) rows = (r : LicenseRow) × (select_license id rows ≡ some r) × (l ≡ scan_license r)
Read id not_found rows = Unit {0}
Read id failed rows = Unit {0}

abbrev pub Scanned : String → License → List LicenseRow → Type 0
Scanned id l rows = (r : LicenseRow) × (select_license id rows ≡ some r) × (l ≡ scan_license r)

pub found_license-Read :
    (id : String) (rows : List LicenseRow) → Read id (found_license (select_license id rows)) rows
found_license-Read id rows = elim (Option-cases (select_license id rows)) [
  | inl absent ↦ rw absent tt
  | inr (r, found) ↦ rw found (r, found, refl)
]
