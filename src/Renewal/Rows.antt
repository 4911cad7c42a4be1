-- ===== src/Renewal/Rows.antt =====
-- The write of a renewal to the table.
use readium_lcp_server.Prelude.{String, ◌≡◌, refl, ◌∙◌, false, Option, none, some, arith}
use readium_lcp_server.Time.{Time, before, after}
use readium_lcp_server.LicenseStatuses.{
  StatusRow, Columns, potential_of, potential_end, scan_status, write_row,
}
use readium_lcp_server.LicenseStatuses.Rows.{select_ref-update_rows}
use readium_lcp_server.Server.{Tables}
use readium_lcp_server.Stores.{run_update, columns}
use readium_lcp_server.Stores.Written.{columns-rights_end, columns-potential_rights_end}
use readium_lcp_server.Lifecycle.Save.{columns_status}
use readium_lcp_server.LsdServer.Renew.{extend_until, end_of_rights}
use readium_lcp_server.Renewal.{Prolonged, prolonged, Kept, Orig, Orig-Kept}

-- A potential end that is read as set is written back as it is.
potential_kept :
    (t : Option Time) (limit : Time)
    → end_of_rights (potential_of t) ≡ some limit
    → (t ≡ some limit) × (potential_end (potential_of t) ≡ t)
potential_kept none limit h = cc
potential_kept (some u) limit h = ground arith

-- The new row is within the bounds.
written_Prolonged :
    (cert : Option Time) (s : StatusRow) (c : Columns) (old limit end now : Time)
    → s.rights_end ≡ some old
    → end_of_rights (potential_of s.potential_rights_end) ≡ some limit
    → before end old ≡ false
    → after end limit ≡ false
    → columns (extend_until (scan_status cert s) end now) ≡ some c
    → Prolonged s (write_row c s)
unfolding scan_status
written_Prolonged cert s c old limit end now has_end has_limit ge le h =
    let ls = extend_until (scan_status cert s) end now in
    let (lim, back) = potential_kept s.potential_rights_end limit has_limit in
    prolonged has_end lim (columns-rights_end ls c h) ge le (columns_status ls c refl h)
      (columns-potential_rights_end ls c h ∙ back)

pub run_update-Kept :
    (ref : String) (cert : Option Time) (s : StatusRow) (old limit end now : Time) (u : Tables)
    → s.rights_end ≡ some old
    → end_of_rights (potential_of s.potential_rights_end) ≡ some limit
    → before end old ≡ false
    → after end limit ≡ false
    → Orig ref s u.statuses
    → Kept ref s
        (run_update s.id (columns (extend_until (scan_status cert s) end now)) u).1.statuses
run_update-Kept ref cert s old limit end now u has_end has_limit ge le found =
    go (columns (extend_until (scan_status cert s) end now)) refl
  where
    go :
        (c : Option Columns)
        → columns (extend_until (scan_status cert s) end now) ≡ c
        → Kept ref s (run_update s.id c u).1.statuses
    go none h = Orig-Kept ref s u.statuses found
    go (some c) h = (
      write_row c s,
      ground (arith, select_ref-update_rows c s.id ref u.statuses),
      written_Prolonged cert s c old limit end now has_end has_limit ge le h,
    )
