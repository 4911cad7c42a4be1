-- ===== src/Issuance/Kept.antt =====
-- A license stays in the table, with its date.
use readium_lcp_server.Prelude.{
  ℤ, String, ◌≡◌, refl, ◌∙◌, Option, none, some, List, [], ◌∷◌, ◌++◌, arith,
}
use readium_lcp_server.Time.{Time}
use readium_lcp_server.License.{License, LicenseRow, select_license, update_licenses}
use readium_lcp_server.License.Queries.{license_row, update_lsd_statuses, touch_licenses}
use readium_lcp_server.Index.{Content}
use readium_lcp_server.Server.{Env, World}
use readium_lcp_server.LicenseServer.Routes.{LcpSteps}
use readium_lcp_server.Issuance.{IsInvariant}
use readium_lcp_server.Issuance.Steps.{steps-At}

-- The date of the license with an id
abbrev pub issued_at : Option LicenseRow → Option Time
issued_at none = none
issued_at (some r) = some r.issued

updated-issued :
    (id : String) (l : License) (now : Time) (rows : List LicenseRow)
    → issued_at (select_license id (update_licenses l now rows))
      ≡ issued_at (select_license id rows)
unfolding update_licenses select_license
updated-issued id l now [] = refl
updated-issued id l now (r ∷ rows) = ground (arith, updated-issued id l now rows)

noted-issued :
    (id ref : String) (status : ℤ) (rows : List LicenseRow)
    → issued_at (select_license id (update_lsd_statuses ref status rows))
      ≡ issued_at (select_license id rows)
unfolding update_lsd_statuses select_license
noted-issued id ref status [] = refl
noted-issued id ref status (r ∷ rows) = ground (arith, noted-issued id ref status rows)

touched-issued :
    (id content : String) (now : Time) (rows : List LicenseRow)
    → issued_at (select_license id (touch_licenses content now rows))
      ≡ issued_at (select_license id rows)
unfolding touch_licenses select_license
touched-issued id content now [] = refl
touched-issued id content now (r ∷ rows) = ground (arith, touched-issued id content now rows)

added-issued :
    (id : String) (t : Time) (l : License) (rows : List LicenseRow)
    → issued_at (select_license id rows) ≡ some t
    → issued_at (select_license id (rows ++ license_row l ∷ [])) ≡ some t
unfolding select_license
added-issued id t l [] h = cc
added-issued id t l (r ∷ rows) h = ground (arith, added-issued id t l rows)

module _ (id : String) (t : Time) where
  IssuedAt : List LicenseRow → List Content → Type 0
  IssuedAt rows cs = issued_at (select_license id rows) ≡ some t

  IssuedAt-IsInvariant : IsInvariant IssuedAt
  unfolding IssuedAt
  IssuedAt-IsInvariant = record {
    license_added = λ l rows cs absent h. added-issued id t l rows h;
    licenses_updated = λ l now rows cs h. updated-issued id l now rows ∙ h;
    status_noted = λ ref status rows cs h. noted-issued id ref status rows ∙ h;
    licenses_touched = λ content now rows cs h. touched-issued id content now rows ∙ h;
    content_inserted = λ c rows cs absent h. h;
    contents_updated = λ c rows cs h. h;
    content_deleted = λ ref rows cs h. h;
  }

-- A license of the License Server is never lost and never gets another date of issue, whatever
-- requests and notifications come, in any order, and whatever fails: the license that its id selects
-- has the same date.
pub license_kept :
    (e : Env) (id : String) (t : Time) {w w' : World}
    → LcpSteps e w w'
    → issued_at (select_license id w.tables.licenses) ≡ some t
    → issued_at (select_license id w'.tables.licenses) ≡ some t
unfolding IssuedAt
license_kept e id t steps h = steps-At (IssuedAt-IsInvariant id t) steps h
