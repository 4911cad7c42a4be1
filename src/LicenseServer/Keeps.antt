-- ===== src/LicenseServer/Keeps.antt =====
-- The handler of the License Server changes its own table alone.
pub mod Building
pub mod Queries
use readium_lcp_server.Prelude.{◌≡◌, refl, String, Option, none, some, List}
use readium_lcp_server.License.{License, LicenseRow, UserRights}
use readium_lcp_server.Server.{Tables}
use readium_lcp_server.Server.Exec.{DbResult, done, not_found, failed}
use readium_lcp_server.Server.Keeps.{
  Keeps, Keeps-pure, Keeps-reply, Keeps-db_call, Keeps-bind, Keeps-or_500, Keeps-now,
}
use readium_lcp_server.Stores.{get_license, update_license_row}
use readium_lcp_server.LicenseServer.{update_license, found_or_error, given_rights}

module _ {X : Type 0} {view : Tables → X} where
  pub Keeps-get_license : (id : String) → Keeps view (get_license id)
  unfolding get_license
  Keeps-get_license id = Keeps-db_call _ (λ t. refl)

  pub Keeps-license_found : (r : DbResult License) → Keeps view (found_or_error r)
  Keeps-license_found (done l) = Keeps-pure l
  Keeps-license_found not_found = Keeps-reply _
  Keeps-license_found failed = Keeps-reply _

  pub Keeps-given_rights : (r : Option UserRights) → Keeps view (given_rights r)
  Keeps-given_rights none = Keeps-reply _
  Keeps-given_rights (some r) = Keeps-pure r

-- A view that does not look at the licenses
module _ {X : Type 0} {view : Tables → X}
    (h : (t : Tables) (rows : List LicenseRow) → view (record t { licenses = rows }) ≡ view t) where
  Keeps-update_license_row : (l : License) → Keeps view (update_license_row l)
  unfolding update_license_row
  Keeps-update_license_row l = Keeps-bind Keeps-now (λ n. Keeps-db_call _ (λ t. h t _))

  pub Keeps-update_license : (id : String) (l : License) → Keeps view (update_license id l)
  unfolding update_license
  Keeps-update_license id l = Keeps-bind (Keeps-get_license id) λ r.
      Keeps-bind (Keeps-license_found r) λ l'. Keeps-bind (Keeps-given_rights l.rights) λ g.
        Keeps-bind (Keeps-update_license_row _) λ s. Keeps-bind (Keeps-or_500 s) λ _. Keeps-pure _
