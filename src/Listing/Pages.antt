-- ===== src/Listing/Pages.antt =====
-- `List` by pages: which rows a page has, and what all pages have together.
use readium_lcp_server.Prelude.{
  ℕ, suc, ◌*◌, ◌≤◌, Bool, ◌≡◌, List, [], ◌∷◌, ◌++◌, filter, zero, ltb, not, Option, none, some, ℤ,
  pos, negsuc, false,
}
use readium_lcp_server.LicenseStatuses.{StatusRow}
use readium_lcp_server.LicenseStatuses.Queries.{at_least, select_page}

-- The row has at least that many devices; a count that is NULL is none.
abbrev pub HasDevices : ℕ → StatusRow → Type 0
HasDevices n r = (k : ℕ) × (r.device_count ≡ some (pos k)) × (n ≤ k)

-- The same as a test
abbrev pub enough : ℕ → Option ℤ → Bool
enough n none = false
enough n (some (negsuc k)) = false
enough n (some (pos k)) = not (ltb k n)

abbrev pub AllHaveDevices : ℕ → List StatusRow → Type 0
AllHaveDevices n [] = Unit {0}
AllHaveDevices n (r ∷ rows) = HasDevices n r × AllHaveDevices n rows

matching : ℕ → List StatusRow → List StatusRow
matching n rows = filter (λ (r : StatusRow). at_least n r.device_count) rows

-- The rows of the first pages, of n rows each, one after the other
abbrev pub pages : ℕ → ℕ → ℕ → List StatusRow → List StatusRow
pages devices n zero rows = []
pages devices n (suc m) rows = pages devices n m rows ++ select_page devices n (m * n) rows
