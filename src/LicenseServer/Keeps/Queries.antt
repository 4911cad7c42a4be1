-- ===== src/LicenseServer/Keeps/Queries.antt =====
-- The handlers of the License Server that only read.
use readium_lcp_server.Prelude.{
  ℕ, ℤ, pos, negsuc, String, Bool, refl, Option, none, some, List, [], ◌∷◌,
}
use readium_lcp_server.License.{License}
use readium_lcp_server.License.Build.{Built, built, no_content, build_error}
use readium_lcp_server.License.Links.{is_url}
use readium_lcp_server.Index.{Content}
use readium_lcp_server.Server.{Tables}
use readium_lcp_server.Server.Exec.{DbResult, done, not_found, failed}
use readium_lcp_server.Server.Keeps.{
  Keeps, Keeps-pure, Keeps-reply, Keeps-db_call, Keeps-bind, Keeps-or_500, Keeps-ask, Keeps-now,
  Keeps-option,
}
use readium_lcp_server.Stores.Contents.{get_from_license, get_file, list_index}
use readium_lcp_server.Stores.Licenses.{list_all, list_by_content_id, count_licenses_issued}
use readium_lcp_server.LsdServer.Filter.{parse_int32}
use readium_lcp_server.LicenseServer.Input.{Checked, valid, invalid, check_get_license_input}
use readium_lcp_server.LicenseServer.Licenses.{
  Body, decoded, empty_body, malformed, payload, or_400, built_or, body_or_400, get_license_request,
}
use readium_lcp_server.LicenseServer.Publications.{
  stored_or_error, or_error_500, build_protected_publication, send_publication,
  get_protected_publication,
}
use readium_lcp_server.LicenseServer.Lists.{
  form_number, page_index, known_or_404, list_licenses, list_licenses_for_content,
  count_issued_licenses,
}
use readium_lcp_server.LicenseServer.Contents.{
  content_or_404, list_contents, get_content_info, get_content_info_from_license, file_or_error,
  parsed_or_500, get_content_file,
}
use readium_lcp_server.LicenseServer.Keeps.{Keeps-get_license, Keeps-license_found}
use readium_lcp_server.LicenseServer.Keeps.Building.{Keeps-get_content, Keeps-build_license}

module _ {X : Type 0} {view : Tables → X} where
  Keeps-payload : (l : License) (b : Body) → Keeps view (payload l b)
  unfolding payload
  Keeps-payload l (decoded p) = Keeps-pure p
  Keeps-payload l empty_body = Keeps-reply _
  Keeps-payload l malformed = Keeps-reply _

  pub Keeps-body_or_400 : (b : Body) → Keeps view (body_or_400 b)
  Keeps-body_or_400 (decoded p) = Keeps-pure p
  Keeps-body_or_400 empty_body = Keeps-reply _
  Keeps-body_or_400 malformed = Keeps-reply _

  pub Keeps-or_400 : (c : Checked) → Keeps view (or_400 c)
  Keeps-or_400 (valid l) = Keeps-pure l
  Keeps-or_400 (invalid err) = Keeps-reply _

  pub Keeps-built_or : (missing : ℕ) (b : Built) → Keeps view (built_or missing b)
  Keeps-built_or missing (built l) = Keeps-pure l
  Keeps-built_or missing no_content = Keeps-reply _
  Keeps-built_or missing build_error = Keeps-reply _

  pub Keeps-get_license_request : (id : String) (b : Body) → Keeps view (get_license_request id b)
  unfolding get_license_request
  Keeps-get_license_request id b = Keeps-bind (Keeps-get_license id) λ r.
      Keeps-bind (Keeps-license_found r) λ stored. Keeps-bind (Keeps-payload stored b) λ partial.
        Keeps-bind (Keeps-or_400 (check_get_license_input partial)) λ lic_in.
          Keeps-bind (Keeps-build_license _ _)
            λ o. Keeps-bind (Keeps-built_or 500 o) λ l. Keeps-pure _

  Keeps-stored_or_error : (r : DbResult (List ℕ)) → Keeps view (stored_or_error r)
  Keeps-stored_or_error (done bytes) = Keeps-pure bytes
  Keeps-stored_or_error not_found = Keeps-reply _
  Keeps-stored_or_error failed = Keeps-reply _

  Keeps-or_error_500 : {A : Type 0} (o : Option A) → Keeps view (or_error_500 o)
  Keeps-or_error_500 none = Keeps-reply _
  Keeps-or_error_500 (some a) = Keeps-pure a

  Keeps-get_file : (id : String) → Keeps view (get_file id)
  unfolding get_file
  Keeps-get_file id = Keeps-db_call _ (λ t. refl)

  pub Keeps-send_publication : (l : License) → Keeps view (send_publication l)
  unfolding send_publication build_protected_publication
  Keeps-send_publication l =
      Keeps-bind
        (Keeps-bind Keeps-ask λ e. Keeps-bind (Keeps-get_file l.content_id) λ r.
          Keeps-bind (Keeps-stored_or_error r)
            λ bytes. Keeps-bind (Keeps-or_error_500 (e.unzip bytes)) λ entries. Keeps-pure _)
        λ p.
          Keeps-bind (Keeps-get_content l.content_id)
            λ content. Keeps-bind (Keeps-or_error_500 content) λ c. Keeps-pure _

  pub Keeps-get_protected_publication :
      (id : String) (b : Body) → Keeps view (get_protected_publication id b)
  unfolding get_protected_publication
  Keeps-get_protected_publication id b = Keeps-bind (Keeps-body_or_400 b) λ partial.
      Keeps-bind (Keeps-or_400 (check_get_license_input partial)) λ lic_in.
        Keeps-bind (Keeps-get_license id) λ r. Keeps-bind (Keeps-license_found r) λ stored.
          Keeps-bind (Keeps-build_license _ _)
            λ o. Keeps-bind (Keeps-built_or 500 o) λ l. Keeps-send_publication l

  Keeps-form_number : (s : List ℕ) (n : ℤ) → Keeps view (form_number s n)
  unfolding form_number
  Keeps-form_number [] n = Keeps-pure n
  Keeps-form_number (c ∷ s) n =
      Keeps-option (parse_int32 (c ∷ s)) (Keeps-reply _) (λ m. Keeps-pure m)

  Keeps-page_index : (n : ℤ) → Keeps view (page_index n)
  unfolding page_index
  Keeps-page_index (pos n) = Keeps-pure _
  Keeps-page_index (negsuc n) = Keeps-reply _

  pub Keeps-list_licenses : (page per_page : List ℕ) → Keeps view (list_licenses page per_page)
  unfolding list_licenses list_all
  Keeps-list_licenses page per_page = Keeps-bind (Keeps-form_number page _) λ n.
      Keeps-bind (Keeps-form_number per_page _) λ m.
        Keeps-bind (Keeps-page_index n)
          λ i. Keeps-bind (Keeps-db_call _ (λ t. refl)) λ r. Keeps-pure _

  Keeps-known_or_404 : (o : Option Content) → Keeps view (known_or_404 o)
  Keeps-known_or_404 none = Keeps-reply _
  Keeps-known_or_404 (some c) = Keeps-pure tt

  pub Keeps-list_licenses_for_content :
      (id : String) (page per_page : List ℕ)
      → Keeps view (list_licenses_for_content id page per_page)
  unfolding list_licenses_for_content list_by_content_id
  Keeps-list_licenses_for_content id page per_page = Keeps-bind (Keeps-get_content id) λ content.
      Keeps-bind (Keeps-known_or_404 content) λ u. Keeps-bind (Keeps-form_number page _) λ n.
        Keeps-bind (Keeps-form_number per_page _) λ m.
          Keeps-bind (Keeps-page_index n)
            λ i. Keeps-bind (Keeps-db_call _ (λ t. refl)) λ r. Keeps-pure _

  pub Keeps-count_issued_licenses : (from to : String) → Keeps view (count_issued_licenses from to)
  unfolding count_issued_licenses count_licenses_issued
  Keeps-count_issued_licenses from to = Keeps-bind Keeps-ask λ e. Keeps-bind Keeps-now λ t.
      Keeps-bind Keeps-now λ u.
        Keeps-bind (Keeps-db_call _ (λ t. refl)) λ r. Keeps-bind (Keeps-or_500 r) λ n. Keeps-pure _

  Keeps-content_or_404 : (o : Option Content) → Keeps view (content_or_404 o)
  Keeps-content_or_404 none = Keeps-reply _
  Keeps-content_or_404 (some c) = Keeps-pure c

  pub Keeps-list_contents : Keeps view list_contents
  unfolding list_contents list_index
  Keeps-list_contents = Keeps-bind (Keeps-db_call _ (λ t. refl)) λ r. Keeps-pure _

  pub Keeps-get_content_info : (id : String) → Keeps view (get_content_info id)
  unfolding get_content_info
  Keeps-get_content_info id =
      Keeps-bind (Keeps-get_content id) λ o. Keeps-bind (Keeps-content_or_404 o) λ c. Keeps-pure _

  pub Keeps-get_content_info_from_license :
      (id : String) → Keeps view (get_content_info_from_license id)
  unfolding get_content_info_from_license get_from_license
  Keeps-get_content_info_from_license id =
      Keeps-bind (Keeps-bind (Keeps-db_call _ (λ t. refl)) λ r. Keeps-pure _)
        λ o. Keeps-bind (Keeps-content_or_404 o) λ c. Keeps-pure _

  Keeps-file_or_error : (r : DbResult (List ℕ)) → Keeps view (file_or_error r)
  Keeps-file_or_error (done bytes) = Keeps-pure bytes
  Keeps-file_or_error not_found = Keeps-reply _
  Keeps-file_or_error failed = Keeps-reply _

  Keeps-parsed_or_500 : (o : Option Bool) → Keeps view (parsed_or_500 o)
  Keeps-parsed_or_500 none = Keeps-reply _
  Keeps-parsed_or_500 (some b) = Keeps-pure b

  pub Keeps-get_content_file : (id : String) → Keeps view (get_content_file id)
  unfolding get_content_file
  Keeps-get_content_file id = Keeps-bind (Keeps-get_content id) λ o.
      Keeps-bind (Keeps-content_or_404 o) λ c. Keeps-bind (Keeps-get_file id) λ r.
        Keeps-bind (Keeps-file_or_error r) λ bytes.
          Keeps-bind Keeps-ask
            λ e. Keeps-bind (Keeps-parsed_or_500 (is_url e c.location)) λ b. Keeps-pure _
