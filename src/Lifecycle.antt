-- ===== src/Lifecycle.antt =====
-- The life of a license, as the License Status Server lets it change: the diagram of its status, and
-- what one version of the table `license_status` says of the next.
pub mod Save
pub mod Steps
pub mod Rules
pub mod Edges
pub mod Handlers
pub mod Runs
use readium_lcp_server.Prelude.{ℕ, String, ◌≡◌, true, some, List, ltb}
use readium_lcp_server.Status.{
  Status, ready, active, revoked, returned, cancelled, expired, other, status_int,
}
use readium_lcp_server.Status.Codec.{get_status}
use readium_lcp_server.LicenseStatuses.{StatusRow, LicenseStatus, select_id}
use readium_lcp_server.LicenseStatuses.Rows.{IsKeyed}

-- A stored integer that is none of the six values reads as an unknown status; the extension of a
-- subscription makes it active.
infix 40 ◌⟶◌
pub data ◌⟶◌ : Status → Status → Type 0 where
  activate : ready ⟶ active
  cancel : ready ⟶ cancelled
  give_back : active ⟶ returned
  give_back_late : expired ⟶ returned
  revoke : active ⟶ revoked
  expire_unused : ready ⟶ expired
  expire : active ⟶ expired
  prolong : active ⟶ active
  reactivate : expired ⟶ active
  repair : {s : String} → other s ⟶ active

-- The status that a row stands for.
abbrev pub row_status : StatusRow → Status
row_status r = get_status r.status (other "")

-- The writes to a row: each keeps its key and its license, and takes its status along an edge.
pub data Writes (r : StatusRow) : StatusRow → Type 0 where
  untouched : Writes r r
  written :
      {t u : StatusRow}
      → Writes r t
      → row_status t ⟶ row_status u
      → u.id ≡ t.id
      → u.license_ref ≡ t.license_ref
      → Writes r u

-- Every row of the old table is still there, under its key, as such writes have left it.
pub record Evolution (old new : List StatusRow) : Type 0 where
  pub keyed : IsKeyed new
  pub rows :
      (i : ℕ) (r : StatusRow)
      → select_id i old ≡ some r
      → (r' : StatusRow) × (select_id i new ≡ some r') × Writes r r'

pub Evolution-refl : (rows : List StatusRow) → IsKeyed rows → Evolution rows rows
Evolution-refl rows k = record { keyed = k; rows = λ i r h. (r, h, untouched) }

-- A license status that was read from the table, and whose row has not changed since.
abbrev pub Held : LicenseStatus → List StatusRow → Type 0
Held ls rows = (r : StatusRow) × (select_id ls.id rows ≡ some r) × (row_status r ≡ ls.status)

-- One of the six values.
abbrev pub IsNamed : Status → Type 0
IsNamed s = ltb (status_int s) 6 ≡ true
