-- ===== src/LicenseStatuses/Queries.antt =====
-- The queries on several rows of license_statuses/license_statuses.go: List, Count, CountWithStatus.
use readium_lcp_server.Prelude.{
  negsuc, ℕ, ℤ, pos, Bool, false, ◌==◌, ◌&&◌, ltb, leb_ℤ, Option, none, some, List, [], ◌∷◌, filter,
  take, drop, count, if◌then◌else◌,
}
use readium_lcp_server.Time.{Time}
use readium_lcp_server.Status.{other}
use readium_lcp_server.Status.Codec.{get_status}
use readium_lcp_server.LicenseStatuses.{LicenseStatus, StatusRow}

-- device_count >= ?, where a NULL count is not
abbrev pub at_least : ℕ → Option ℤ → Bool
at_least limit none = false
at_least limit (some n) = leb_ℤ (pos limit) n

-- ORDER BY id DESC
unfoldable pub insert_desc : StatusRow → List StatusRow → List StatusRow
insert_desc r [] = r ∷ []
insert_desc r (q ∷ rows) =
    let rest = insert_desc r rows in if ltb q.id r.id then r ∷ q ∷ rows else q ∷ rest

unfoldable pub sort_desc : List StatusRow → List StatusRow
unfolding insert_desc
sort_desc [] = []
sort_desc (r ∷ rows) = insert_desc r (sort_desc rows)

-- SELECT … WHERE device_count >= ? ORDER BY id DESC LIMIT ? OFFSET ?
unfoldable pub select_page : ℕ → ℕ → ℕ → List StatusRow → List StatusRow
unfolding sort_desc
select_page devices limit offset rows =
    take limit (drop offset (sort_desc (filter (λ r. at_least devices r.device_count) rows)))

-- What List scans from a row: the other columns are not selected.
unfoldable pub scan_listed : StatusRow → LicenseStatus
scan_listed r = record {
  id = r.id;
  license_ref = r.license_ref;
  status = get_status r.status (other "");
  updated = record { license = some r.license_updated; status = some r.status_updated };
  message = "";
  links = [];
  device_count = r.device_count;
  potential_rights = none;
  events = [];
  current_end_license = none;
}

abbrev pub is_between : Time → Time → Time → Bool
is_between from to t = leb_ℤ from t && leb_ℤ t to

abbrev pub same_int : ℤ → ℤ → Bool
same_int (pos a) (pos b) = a == b
same_int (negsuc a) (negsuc b) = a == b
same_int (pos a) (negsuc b) = false
same_int (negsuc a) (pos b) = false

-- SELECT COUNT(*) … WHERE license_updated BETWEEN ? AND ?
unfoldable pub count_between : Time → Time → List StatusRow → ℕ
count_between from to rows = count (λ (r : StatusRow). is_between from to r.license_updated) rows

-- … WHERE status = ? AND license_updated BETWEEN ? AND ?
unfoldable pub count_status : ℤ → Time → Time → List StatusRow → ℕ
count_status status from to rows =
    count (λ (r : StatusRow). same_int r.status status && is_between from to r.license_updated) rows
