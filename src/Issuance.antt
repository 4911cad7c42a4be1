-- ===== src/Issuance.antt =====
-- The License Server over all its steps: which properties of its licenses and contents stay.
pub mod Handlers
pub mod Steps
pub mod Unique
pub mod Kept
pub mod Notified
use readium_lcp_server.Prelude.{ℤ, String, ◌≡◌, none, List, [], ◌∷◌, ◌++◌}
use readium_lcp_server.Time.{Time}
use readium_lcp_server.License.{License, LicenseRow, select_license, update_licenses}
use readium_lcp_server.License.Queries.{license_row, update_lsd_statuses, touch_licenses}
use readium_lcp_server.Index.{
  Content, select_content, insert_content, update_contents, delete_content_rows,
}

-- A property of the two tables that every statement which writes to them preserves
pub record IsInvariant (I : List LicenseRow → List Content → Type 0) : Type 0 where
  pub license_added :
      (l : License) (rows : List LicenseRow) (cs : List Content)
      → select_license l.id rows ≡ none
      → I rows cs
      → I (rows ++ license_row l ∷ []) cs
  pub licenses_updated :
      (l : License) (now : Time) (rows : List LicenseRow) (cs : List Content)
      → I rows cs
      → I (update_licenses l now rows) cs
  pub status_noted :
      (id : String) (status : ℤ) (rows : List LicenseRow) (cs : List Content)
      → I rows cs
      → I (update_lsd_statuses id status rows) cs
  pub licenses_touched :
      (content : String) (now : Time) (rows : List LicenseRow) (cs : List Content)
      → I rows cs
      → I (touch_licenses content now rows) cs
  pub content_inserted :
      (c : Content) (rows : List LicenseRow) (cs : List Content)
      → select_content c.id cs ≡ none
      → I rows cs
      → I rows (insert_content c cs)
  pub contents_updated :
      (c : Content) (rows : List LicenseRow) (cs : List Content)
      → I rows cs
      → I rows (update_contents c cs)
  pub content_deleted :
      (id : String) (rows : List LicenseRow) (cs : List Content)
      → I rows cs
      → I rows (delete_content_rows id cs)
