-- ===== src/LsdServer/Filter.antt =====
-- `FilterLicenseStatuses`. Form values are lists of code points.
use readium_lcp_server.Prelude.{
  ℕ, zero, suc, ◌+◌, ◌-◌, ◌*◌, ◌^◌, ℤ, pos, negsuc, pos_part, not, ◌==◌, ◌&&◌, ◌||◌, ltb, leb,
  ltb_ℤ, Option, none, some, List, [], ◌∷◌, ◌++◌, if◌then◌else◌,
}
use readium_lcp_server.LicenseStatuses.{LicenseStatus}
use readium_lcp_server.Server.{Reply, PageLink, status_list, problem_error, filter_bad_request}
use readium_lcp_server.Server.Exec.{
  Exec, DbResult, done, not_found, failed, pure, reply, guard, ◌>>=◌, ◌>>◌,
}
use readium_lcp_server.Stores.{list_statuses}

-- The form values `devices`, `page` and `per_page`
pub record Filter : Type 0 where
  pub devices : List ℕ
  pub page : List ℕ
  pub per_page : List ℕ

-- strconv.ParseInt(s, 10, 32): decimal digits after an optional sign
unfoldable pub decimal : ℕ → List ℕ → Option ℕ
decimal acc [] = some acc
decimal acc (c ∷ s) =
    let rest = decimal (acc * 10 + (c - 48)) s in if leb 48 c && leb c 57 then rest else none

abbrev pub unsigned : List ℕ → Option ℕ
unsigned [] = none
unsigned (c ∷ s) = decimal 0 (c ∷ s)

abbrev pub positive : Option ℕ → Option ℤ
positive none = none
positive (some n) = if ltb n (2 ^ 31) then some (pos n) else none

abbrev pub negative : Option ℕ → Option ℤ
negative none = none
negative (some zero) = some (pos 0)
negative (some (suc n)) = if ltb n (2 ^ 31) then some (negsuc n) else none

unfoldable pub parse_int32 : List ℕ → Option ℤ
unfolding decimal
parse_int32 [] = none
parse_int32 (c ∷ s) =
    if c == b'-'
    then negative (unsigned s)
    else if c == b'+'
    then positive (unsigned s)
    else positive (unsigned (c ∷ s))

-- `if value == "" { value = default }`
abbrev pub or_default : List ℕ → List ℕ → List ℕ
or_default [] default = default
or_default (c ∷ s) default = c ∷ s

unfoldable pub number : Option ℤ → Exec ℤ
number none = reply (problem_error filter_bad_request 400)
number (some n) = pure n

-- An error of the query ends the loop over the rows like the last row does.
abbrev pub statuses_read : DbResult (List LicenseStatus) → List LicenseStatus
statuses_read (done ls) = ls
statuses_read not_found = []
statuses_read failed = []

-- The header `Link`, for the number of the page counted from 0
abbrev pub next_link : ℕ → ℕ → ℕ → List LicenseStatus → List PageLink
next_link devices page per_page [] = []
next_link devices page per_page (ls ∷ rest) =
    record { rel = "next"; devices = devices; page = page + 1; per_page = per_page + 1 } ∷ []

abbrev pub previous_link : ℕ → ℕ → ℕ → List PageLink
previous_link devices zero per_page = []
previous_link devices (suc page) per_page =
    record { rel = "previous"; devices = devices; page = page; per_page = per_page + 1 } ∷ []

unfoldable pub page_links : ℕ → ℕ → ℕ → List LicenseStatus → List PageLink
page_links devices page per_page found =
    next_link devices page per_page found ++ previous_link devices page per_page

-- The page, once the numbers are valid
unfoldable pub list_page : ℕ → ℕ → ℕ → Exec Reply
list_page devices page per_page = do
  result ← list_statuses devices per_page (page * per_page)
  let found = statuses_read result
  pure (status_list found (page_links devices page per_page found))

-- FilterLicenseStatuses
unfoldable pub filter_license_statuses : Filter → Exec Reply
filter_license_statuses r = do
  devices ← number (parse_int32 (or_default r.devices (b'0' ∷ [])))
  page ← number (parse_int32 (or_default r.page (b'1' ∷ [])))
  per_page ← number (parse_int32 (or_default r.per_page (b'1' ∷ b'0' ∷ [])))
  guard (not (ltb_ℤ page (pos 1) || ltb_ℤ per_page (pos 1) || ltb_ℤ devices (pos 0)))
      filter_bad_request 400
  list_page (pos_part devices) (pos_part page - 1) (pos_part per_page)
