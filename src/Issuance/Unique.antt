-- ===== src/Issuance/Unique.antt =====
-- The ids of licenses and of contents are unique.
use readium_lcp_server.Prelude.{
  ℕ, ℤ, ◌≤◌, String, str_eq, eq_iff, ◌≡◌, refl, sym, ap, ◌∙◌, Bool-cases, inl, inr, none, List, [],
  ◌∷◌, ◌++◌, count, count-append, arith,
}
use readium_lcp_server.Time.{Time}
use readium_lcp_server.License.{License, LicenseRow, select_license, update_licenses}
use readium_lcp_server.License.Queries.{license_row, update_lsd_statuses, touch_licenses}
use readium_lcp_server.Index.{
  Content, select_content, insert_content, update_contents, delete_content_rows,
}
use readium_lcp_server.Server.{Env, World}
use readium_lcp_server.LicenseServer.Routes.{LcpSteps}
use readium_lcp_server.Issuance.{IsInvariant}
use readium_lcp_server.Issuance.Steps.{steps-At}

-- How many licenses, and how many contents, have an id
abbrev pub licenses_with : String → List LicenseRow → ℕ
licenses_with id rows = count (λ (r : LicenseRow). str_eq r.id id) rows

abbrev pub contents_with : String → List Content → ℕ
contents_with id cs = count (λ (c : Content). str_eq c.id id) cs

-- Changes of rows that keep the ids
updated-ids :
    (id : String) (l : License) (now : Time) (rows : List LicenseRow)
    → licenses_with id (update_licenses l now rows) ≡ licenses_with id rows
unfolding update_licenses
updated-ids id l now [] = refl
updated-ids id l now (r ∷ rows) = ground (arith, updated-ids id l now rows)

noted-ids :
    (id ref : String) (status : ℤ) (rows : List LicenseRow)
    → licenses_with id (update_lsd_statuses ref status rows) ≡ licenses_with id rows
unfolding update_lsd_statuses
noted-ids id ref status [] = refl
noted-ids id ref status (r ∷ rows) = ground (arith, noted-ids id ref status rows)

touched-ids :
    (id content : String) (now : Time) (rows : List LicenseRow)
    → licenses_with id (touch_licenses content now rows) ≡ licenses_with id rows
unfolding touch_licenses
touched-ids id content now [] = refl
touched-ids id content now (r ∷ rows) = ground (arith, touched-ids id content now rows)

rewritten-ids :
    (id : String) (c : Content) (cs : List Content)
    → contents_with id (update_contents c cs) ≡ contents_with id cs
unfolding update_contents
rewritten-ids id c [] = refl
rewritten-ids id c (d ∷ cs) = ground (arith, rewritten-ids id c cs)

deleted-ids :
    (id ref : String) (cs : List Content)
    → contents_with id (delete_content_rows ref cs) ≤ contents_with id cs
unfolding delete_content_rows
deleted-ids id ref [] = omega arith
deleted-ids id ref (d ∷ cs) = ground (arith, deleted-ids id ref cs)

-- No row is selected where none has the id.
absent-license :
    (id : String) (rows : List LicenseRow)
    → select_license id rows ≡ none
    → licenses_with id rows ≡ 0
unfolding select_license
absent-license id [] h = refl
absent-license id (r ∷ rows) h = ground (arith, absent-license id rows)

absent-content :
    (id : String) (cs : List Content) → select_content id cs ≡ none → contents_with id cs ≡ 0
unfolding select_content
absent-content id [] h = refl
absent-content id (d ∷ cs) h = ground (arith, absent-content id cs)

module _ (id : String) where
  AtMostOne : List LicenseRow → List Content → Type 0
  AtMostOne rows cs = (licenses_with id rows ≤ 1) × (contents_with id cs ≤ 1)

  added-AtMostOne :
      (l : License) (rows : List LicenseRow)
      → select_license l.id rows ≡ none
      → licenses_with id rows ≤ 1
      → licenses_with id (rows ++ license_row l ∷ []) ≤ 1
  added-AtMostOne l rows absent h = elim (Bool-cases (str_eq l.id id)) [
    | inl same ↦
        let key : l.id ≡ id = ground (arith, eq_iff l.id id) in
        let none_yet =
          absent-license id rows (ap (λ i. select_license i rows) (sym key) ∙ absent) in
        ground (
          arith,
          none_yet,
          count-append (λ (r : LicenseRow). str_eq r.id id) rows (license_row l ∷ []),
        )
    | inr other ↦
        ground (arith, count-append (λ (r : LicenseRow). str_eq r.id id) rows (license_row l ∷ []))
  ]

  inserted-AtMostOne :
      (c : Content) (cs : List Content)
      → select_content c.id cs ≡ none
      → contents_with id cs ≤ 1
      → contents_with id (insert_content c cs) ≤ 1
  inserted-AtMostOne c cs absent h = elim (Bool-cases (str_eq c.id id)) [
    | inl same ↦
        let key : c.id ≡ id = ground (arith, eq_iff c.id id) in
        let none_yet = absent-content id cs (ap (λ i. select_content i cs) (sym key) ∙ absent) in
        ground (arith, none_yet, count-append (λ (r : Content). str_eq r.id id) cs (c ∷ []))
    | inr other ↦ ground (arith, count-append (λ (r : Content). str_eq r.id id) cs (c ∷ []))
  ]

  AtMostOne-IsInvariant : IsInvariant AtMostOne
  unfolding AtMostOne
  AtMostOne-IsInvariant = record {
    license_added = λ l rows cs absent h. (added-AtMostOne l rows absent h.0, h.1);
    licenses_updated = λ l now rows cs h. (omega (arith, h.0, updated-ids id l now rows), h.1);
    status_noted = λ ref status rows cs h. (omega (arith, h.0, noted-ids id ref status rows), h.1);
    licenses_touched =
        λ content now rows cs h. (omega (arith, h.0, touched-ids id content now rows), h.1);
    content_inserted = λ c rows cs absent h. (h.0, inserted-AtMostOne c cs absent h.1);
    contents_updated = λ c rows cs h. (h.0, omega (arith, h.1, rewritten-ids id c cs));
    content_deleted = λ ref rows cs h. (h.0, omega (arith, h.1, deleted-ids id ref cs));
  }

-- No two licenses and no two contents of the License Server share an id, after any number of requests
-- and notifications, in any order and whatever fails, if none did before.
pub ids_unique :
    (e : Env) (id : String) {w w' : World}
    → LcpSteps e w w'
    → licenses_with id w.tables.licenses ≤ 1
    → contents_with id w.tables.contents ≤ 1
    → (licenses_with id w'.tables.licenses ≤ 1) × (contents_with id w'.tables.contents ≤ 1)
unfolding AtMostOne
ids_unique e id steps h h' = steps-At (AtMostOne-IsInvariant id) steps (h, h')
