-- ===== src/License/Queries.antt =====
-- license/store.go: the statements of SQL on the table `license` that the handlers of the License
-- Server use beside Get and Update.
use readium_lcp_server.Prelude.{
  ℕ, ◌*◌, ℤ, pos, negsuc, String, str_eq, ◌&&◌, none, some, List, [], ◌∷◌, if◌then◌else◌, take,
  drop, filter, count, leb_ℤ,
}
use readium_lcp_server.Time.{Time}
use readium_lcp_server.License.{License, LicenseRow, LicenseReport, new_user, rights_or}

-- The columns of INSERT
abbrev pub license_row : License → LicenseRow
license_row l = record {
  id = l.id;
  user_id = l.user.id;
  provider = l.provider;
  issued = l.issued;
  updated = none;
  rights = rights_or l.rights;
  content_fk = l.content_id;
  lsd_status = pos 0;
}

-- UPDATE license SET lsd_status = ? WHERE id = ?
unfoldable pub update_lsd_statuses : String → ℤ → List LicenseRow → List LicenseRow
update_lsd_statuses id status [] = []
update_lsd_statuses id status (r ∷ rows) =
    (if str_eq r.id id then record r { lsd_status = status } else r)
    ∷ update_lsd_statuses id status rows

-- UPDATE license SET updated = ? WHERE content_fk = ?
unfoldable pub touch_licenses : String → Time → List LicenseRow → List LicenseRow
touch_licenses content now [] = []
touch_licenses content now (r ∷ rows) =
    (if str_eq r.content_fk content then record r { updated = some now } else r)
    ∷ touch_licenses content now rows

abbrev pub scan_report : LicenseRow → LicenseReport
scan_report r = record {
  provider = r.provider;
  id = r.id;
  issued = r.issued;
  updated = r.updated;
  user = new_user r.user_id;
  rights = r.rights;
  content_id = r.content_fk;
}

-- ORDER BY issued DESC
unfoldable pub insert_latest : LicenseRow → List LicenseRow → List LicenseRow
insert_latest r [] = r ∷ []
insert_latest r (q ∷ rows) =
    let rest = insert_latest r rows in if leb_ℤ q.issued r.issued then r ∷ q ∷ rows else q ∷ rest

unfoldable pub sort_latest : List LicenseRow → List LicenseRow
unfolding insert_latest
sort_latest [] = []
sort_latest (r ∷ rows) = insert_latest r (sort_latest rows)

-- LIMIT, where a negative number is no limit, as SQLite has it
abbrev pub limited : ℤ → List LicenseRow → List LicenseRow
limited (pos n) rows = take n rows
limited (negsuc n) rows = rows

-- OFFSET of a page, where a negative number is none
abbrev pub offset_of : ℕ → ℤ → ℕ
offset_of page (pos n) = page * n
offset_of page (negsuc n) = 0

-- ORDER BY issued DESC LIMIT ? OFFSET ?, for a page counted from 0
unfoldable pub select_licenses : ℤ → ℕ → List LicenseRow → List LicenseRow
unfolding sort_latest
select_licenses per_page page rows =
    limited per_page (drop (offset_of page per_page) (sort_latest rows))

-- WHERE content_fk = ?
unfoldable pub select_by_content : String → ℤ → ℕ → List LicenseRow → List LicenseRow
unfolding select_licenses
select_by_content content per_page page rows =
    select_licenses per_page page (filter (λ r. str_eq r.content_fk content) rows)

-- SELECT COUNT(*) FROM license WHERE issued BETWEEN ? AND ?
unfoldable pub count_issued : Time → Time → List LicenseRow → ℕ
count_issued from to rows = count (λ r. leb_ℤ from r.issued && leb_ℤ r.issued to) rows
