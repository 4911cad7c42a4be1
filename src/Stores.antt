-- ===== src/Stores.antt =====
-- The methods of the stores: license_statuses/license_statuses.go, transactions/transactions.go and
-- license/store.go. A method is one statement of SQL; the row iterators are read to their end.
pub mod Written
pub mod Licenses
pub mod Contents
use readium_lcp_server.Prelude.{
  ℕ, String, Option, none, some, List, map, pos, if◌then◌else◌, str_eq,
}
use readium_lcp_server.Time.{Time, truncate}
use readium_lcp_server.Status.Codec.{set_status}
use readium_lcp_server.License.{License, LicenseRow, scan_license, select_license, update_licenses}
use readium_lcp_server.Transactions.{
  Event, Device, insert_event, select_events, device_status, select_devices,
}
use readium_lcp_server.LicenseStatuses.{
  LicenseStatus, StatusRow, Columns, dated, scan_status, select_ref, select_id, update_rows,
  insert_row,
}
use readium_lcp_server.LicenseStatuses.Queries.{
  scan_listed, select_page, count_between, count_status,
}
use readium_lcp_server.Status.{Status}
use readium_lcp_server.Server.{Env, Tables}
use readium_lcp_server.Server.Exec.{
  Exec, DbResult, done, not_found, failed, db_call, ask, now, ◌>>=◌,
}

-- The configured date of the certificate, where it is set and can be parsed.
abbrev pub cert_date : Env → Option Time
cert_date e = if str_eq e.config.cert_date "" then none else e.parse_date e.config.cert_date

abbrev pub found_status : Env → Option StatusRow → DbResult LicenseStatus
found_status e none = not_found
found_status e (some r) = done (scan_status (cert_date e) r)

-- LicenseStatuses.GetByID
unfoldable pub get_by_id : ℕ → Exec (DbResult LicenseStatus)
get_by_id id = do e ← ask; db_call λ t. (found_status e (select_id id t.statuses), t)

-- LicenseStatuses.GetByLicenseID
unfoldable pub get_by_license_id : String → Exec (DbResult LicenseStatus)
get_by_license_id ref = do e ← ask; db_call λ t. (found_status e (select_ref ref t.statuses), t)

-- The statement of Update; it affects no row where none has the id.
abbrev pub run_update : ℕ → Option Columns → Tables → DbResult (Unit {0}) × Tables
run_update id none t = (failed, t)
run_update id (some c) t = (
  elim (select_id id t.statuses) [ none ↦ not_found | some r ↦ done tt ],
  record t { statuses = update_rows c id t.statuses },
)

-- The columns that Update and Add write; `none` where SetStatus fails or a date is missing.
abbrev pub columns : LicenseStatus → Option Columns
columns ls = elim (set_status ls.status) [
  | none ↦ none
  | some n ↦ dated ls (pos n) ls.updated.license ls.updated.status
]

-- LicenseStatuses.Update
unfoldable pub update : LicenseStatus → Exec (DbResult (Unit {0}))
update ls = db_call λ t. run_update ls.id (columns ls) t

abbrev pub run_add : String → Option Columns → Tables → DbResult (Unit {0}) × Tables
run_add ref none t = (failed, t)
run_add ref (some c) t = (done tt, record t { statuses = insert_row c ref t.statuses })

-- LicenseStatuses.Add
unfoldable pub add_status : LicenseStatus → Exec (DbResult (Unit {0}))
add_status ls = db_call λ t. run_add ls.license_ref (columns ls) t

-- Transactions.Add
unfoldable pub add_event : Event → ℕ → Exec (DbResult (Unit {0}))
add_event ev event_type =
    db_call λ t. (done tt, record t { events = insert_event ev event_type t.events })

-- Transactions.CheckDeviceStatus
unfoldable pub check_device_status : ℕ → String → Exec (DbResult String)
check_device_status fk device = db_call λ t. (done (device_status fk device t.events), t)

-- Transactions.GetByLicenseStatusId, read to the end
unfoldable pub events_of : ℕ → Exec (DbResult (List Event))
events_of fk = db_call λ t. (done (select_events fk t.events), t)

-- Transactions.ListRegisteredDevices, read to the end
unfoldable pub devices_of : ℕ → Exec (DbResult (List Device))
devices_of fk = db_call λ t. (done (select_devices fk t.events), t)

abbrev pub found_license : Option LicenseRow → DbResult License
found_license none = not_found
found_license (some r) = done (scan_license r)

-- Store.Get
unfoldable pub get_license : String → Exec (DbResult License)
get_license id = db_call λ t. (found_license (select_license id t.licenses), t)

-- Store.Update; it does not ask how many rows were affected.
unfoldable pub update_license_row : License → Exec (DbResult (Unit {0}))
update_license_row l = do
  n ← now
  db_call λ t. (done tt, record t { licenses = update_licenses l (pos (truncate n)) t.licenses })

-- LicenseStatuses.List, read to the end
unfoldable pub list_statuses : ℕ → ℕ → ℕ → Exec (DbResult (List LicenseStatus))
list_statuses devices limit offset =
    db_call λ t. (done (map scan_listed (select_page devices limit offset t.statuses)), t)

-- LicenseStatuses.Count
unfoldable pub count_statuses : Time → Time → Exec (DbResult ℕ)
count_statuses from to = db_call λ t. (done (count_between from to t.statuses), t)

abbrev pub run_count : Option ℕ → Time → Time → Tables → DbResult ℕ × Tables
run_count none from to t = (failed, t)
run_count (some n) from to t = (done (count_status (pos n) from to t.statuses), t)

-- LicenseStatuses.CountWithStatus
unfoldable pub count_with_status : Status → Time → Time → Exec (DbResult ℕ)
count_with_status status from to = db_call λ t. run_count (set_status status) from to t
