-- ===== src/Stores/Licenses.antt =====
-- The methods of the store of licenses, license/store.go, beside Get and Update.
use readium_lcp_server.Prelude.{ℕ, ℤ, String, Option, none, some, List, map, pos, ◌++◌, ◌∷◌, []}
use readium_lcp_server.Time.{Time, truncate}
use readium_lcp_server.License.{License, LicenseRow, LicenseReport, select_license}
use readium_lcp_server.License.Queries.{
  license_row, update_lsd_statuses, touch_licenses, scan_report, select_licenses, select_by_content,
  count_issued,
}
use readium_lcp_server.Server.{Tables}
use readium_lcp_server.Server.Exec.{Exec, DbResult, done, failed, db_call, now, ◌>>=◌}

-- The id is the primary key.
abbrev pub run_add_license : License → Option LicenseRow → Tables → DbResult (Unit {0}) × Tables
run_add_license l (some r) t = (failed, t)
run_add_license l none t = (done tt, record t { licenses = t.licenses ++ license_row l ∷ [] })

-- Store.Add
unfoldable pub add_license : License → Exec (DbResult (Unit {0}))
add_license l = db_call λ t. run_add_license l (select_license l.id t.licenses) t

-- Store.UpdateLsdStatus
unfoldable pub update_lsd_status : String → ℤ → Exec (DbResult (Unit {0}))
update_lsd_status id status =
    db_call λ t. (done tt, record t { licenses = update_lsd_statuses id status t.licenses })

-- Store.TouchByContentID
unfoldable pub touch_by_content_id : String → Exec (DbResult (Unit {0}))
touch_by_content_id content = do
  n ← now
  db_call
      λ t. (done tt, record t { licenses = touch_licenses content (pos (truncate n)) t.licenses })

-- Store.ListAll, read to the end
unfoldable pub list_all : ℤ → ℕ → Exec (DbResult (List LicenseReport))
list_all per_page page =
    db_call λ t. (done (map scan_report (select_licenses per_page page t.licenses)), t)

-- Store.ListByContentID, read to the end
unfoldable pub list_by_content_id : String → ℤ → ℕ → Exec (DbResult (List LicenseReport))
list_by_content_id content per_page page =
    db_call λ t. (done (map scan_report (select_by_content content per_page page t.licenses)), t)

-- Store.Count
unfoldable pub count_licenses_issued : Time → Time → Exec (DbResult ℕ)
count_licenses_issued from to = db_call λ t. (done (count_issued from to t.licenses), t)
