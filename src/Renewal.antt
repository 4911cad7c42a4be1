-- ===== src/Renewal.antt =====
-- The bounds of a renewal: whatever a request to prolong a license comes to, the end of the license
-- does not get earlier, and does not pass the end of its potential rights.
pub mod Rows
pub mod Steps
pub mod Within
use readium_lcp_server.Prelude.{String, ◌≡◌, refl, false, some, List}
use readium_lcp_server.Time.{Time, before, after}
use readium_lcp_server.Status.{active}
use readium_lcp_server.LicenseStatuses.{StatusRow, select_ref}
use readium_lcp_server.Lifecycle.{row_status}

-- The row of a license, before and after: it stays, or it becomes active, with an end that is not
-- before the old one and not after the potential end, which stays.
pub data Prolonged (s : StatusRow) : StatusRow → Type 0 where
  unchanged : Prolonged s s
  prolonged :
      {s' : StatusRow} {old limit end : Time}
      → s.rights_end ≡ some old
      → s.potential_rights_end ≡ some limit
      → s'.rights_end ≡ some end
      → before end old ≡ false
      → after end limit ≡ false
      → row_status s' ≡ active
      → s'.potential_rights_end ≡ s.potential_rights_end
      → Prolonged s s'

-- The license has such a row.
abbrev pub Kept : String → StatusRow → List StatusRow → Type 0
Kept ref s rows = (s' : StatusRow) × (select_ref ref rows ≡ some s') × Prolonged s s'

abbrev pub Orig : String → StatusRow → List StatusRow → Type 0
Orig ref s rows = select_ref ref rows ≡ some s

pub Orig-Kept :
    (ref : String) (s : StatusRow) (rows : List StatusRow) → Orig ref s rows → Kept ref s rows
Orig-Kept ref s rows h = (s, h, unchanged)
