-- ===== src/LicenseServer/Lists.antt =====
-- `ListLicenses`, `ListLicensesForContent` and `LicenseCount` of lcpserver/api/license.go. Form values
-- are lists of code points.
use readium_lcp_server.Prelude.{
  ℕ, ◌+◌, ◌-◌, ℤ, pos, negsuc, String, Option, none, some, List, [], ◌∷◌, ltb, if◌then◌else◌,
}
use readium_lcp_server.Time.{truncate}
use readium_lcp_server.License.{LicenseReport}
use readium_lcp_server.Index.{Content}
use readium_lcp_server.Server.{Reply, ListLink, reports, total, problem_error, untyped}
use readium_lcp_server.Server.Exec.{
  Exec, DbResult, done, not_found, failed, pure, reply, or_500, ask, now, ◌>>=◌, ◌>>◌,
}
use readium_lcp_server.Stores.Licenses.{list_all, list_by_content_id, count_licenses_issued}
use readium_lcp_server.Stores.Contents.{get_content}
use readium_lcp_server.LsdServer.Filter.{parse_int32}
use readium_lcp_server.LsdServer.Count.{date_or}

-- A form value that is a number, or the default for none
unfoldable pub form_number : List ℕ → ℤ → Exec ℤ
form_number [] default = pure default
form_number (c ∷ s) default = elim (parse_int32 (c ∷ s)) [
  | none ↦ reply (problem_error untyped 400)
  | some n ↦ pure n
]

-- The page, counted from 0; the form counts from 1, and takes 0 for 1.
unfoldable pub page_index : ℤ → Exec ℕ
page_index (pos n) = pure (n - 1)
page_index (negsuc n) = reply (problem_error untyped 400)

-- An error of the query ends the loop over the rows like the last row does.
abbrev pub reports_read : DbResult (List LicenseReport) → List LicenseReport
reports_read (done ls) = ls
reports_read not_found = []
reports_read failed = []

abbrev pub next_page : ℕ → List LicenseReport → List ListLink
next_page page [] = []
next_page page (l ∷ ls) = record { rel = "next"; page = page + 1 } ∷ []

-- The header `Link`: a link to the previous page takes the place of the link to the next.
unfoldable pub list_links : ℕ → List LicenseReport → List ListLink
list_links page found =
    if ltb 1 page then record { rel = "previous"; page = page - 1 } ∷ [] else next_page page found

-- ListLicenses
unfoldable pub list_licenses : List ℕ → List ℕ → Exec Reply
unfolding form_number page_index list_links
list_licenses page_text per_page_text = do
  number ← form_number page_text (pos 1)
  per_page ← form_number per_page_text (pos 30)
  page ← page_index number
  result ← list_all per_page page
  let found = reports_read result
  pure (reports found (list_links page found))

abbrev pub known_or_404 : Option Content → Exec (Unit {0})
known_or_404 none = reply (problem_error untyped 404)
known_or_404 (some c) = pure tt

-- ListLicensesForContent
unfoldable pub list_licenses_for_content : String → List ℕ → List ℕ → Exec Reply
unfolding form_number page_index list_links
list_licenses_for_content content_id page_text per_page_text = do
  content ← get_content content_id
  known_or_404 content
  number ← form_number page_text (pos 1)
  per_page ← form_number per_page_text (pos 30)
  page ← page_index number
  result ← list_by_content_id content_id per_page page
  let found = reports_read result
  pure (reports found (list_links page found))

-- LicenseCount: by default, the last year
unfoldable pub count_issued_licenses : String → String → Exec Reply
count_issued_licenses from_text to_text = do
  e ← ask
  t ← now
  u ← now
  let from = date_or e from_text (pos (truncate (e.year_before t)))
  let to = date_or e to_text (pos (truncate u))
  result ← count_licenses_issued from to
  n ← or_500 result
  pure (total n from to)
