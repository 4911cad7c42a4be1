-- ===== src/LicenseServer/Keeps/Building.antt =====
-- Building a license changes no table.
use readium_lcp_server.Prelude.{ℕ, String, Bool, refl, Option, none, some, List, [], ◌∷◌}
use readium_lcp_server.License.{License, UserInfo}
use readium_lcp_server.License.Profile.{set_license_profile}
use readium_lcp_server.License.Links.{set_license_links}
use readium_lcp_server.License.Fields.{
  encrypt_bytes, encrypt_key, encrypt_fields, build_key_check, encrypt_license_fields,
  generate_user_key, set_field, Field, id_field, email_field, name_field, encrypted_field,
  field_by_name, no_error,
}
use readium_lcp_server.License.Build.{
  initialize, build_license, Built, or_error, or_no_content, fix_update, sign_license,
  with_algorithm,
}
use readium_lcp_server.Index.{Content}
use readium_lcp_server.Server.{Tables}
use readium_lcp_server.Server.Exec.{Exec}
use readium_lcp_server.Server.Keeps.{
  Keeps, Keeps-pure, Keeps-reply, Keeps-db_call, Keeps-bind, Keeps-ask, Keeps-now, Keeps-draw,
  Keeps-option,
}
use readium_lcp_server.Stores.Contents.{get_content}

module _ {X : Type 0} {view : Tables → X} where
  pub Keeps-get_content : (id : String) → Keeps view (get_content id)
  unfolding get_content
  Keeps-get_content id = Keeps-bind (Keeps-db_call _ (λ t. refl)) (λ r. Keeps-pure _)

  Keeps-encrypt_bytes : (key bytes : List ℕ) → Keeps view (encrypt_bytes key bytes)
  unfolding encrypt_bytes
  Keeps-encrypt_bytes key bytes = Keeps-bind Keeps-ask λ e. Keeps-bind Keeps-draw λ n. Keeps-pure _

  Keeps-set_field : (f : Field) (s : String) (u : UserInfo) → Keeps view (set_field f s u)
  unfolding set_field
  Keeps-set_field id_field s u = Keeps-pure _
  Keeps-set_field email_field s u = Keeps-pure _
  Keeps-set_field name_field s u = Keeps-pure _
  Keeps-set_field encrypted_field s u = Keeps-reply _

  Keeps-encrypt_fields :
      (key : List ℕ) (i : ℕ) (names : List String) (u : UserInfo)
      → Keeps view (encrypt_fields key i names u)
  unfolding encrypt_fields
  Keeps-encrypt_fields key i [] u = Keeps-pure _
  Keeps-encrypt_fields key i (name ∷ names) u = Keeps-bind Keeps-ask λ e.
      Keeps-option (field_by_name (e.title name)) (Keeps-pure _) λ f.
        Keeps-bind (Keeps-encrypt_bytes _ _) λ result.
          Keeps-option (no_error result) (Keeps-pure _)
            λ bytes. Keeps-bind (Keeps-set_field f _ u) λ u'. Keeps-encrypt_fields key _ names u'

  Keeps-encrypt_license_fields :
      (l : License) (c : Content) → Keeps view (encrypt_license_fields l c)
  unfolding encrypt_license_fields encrypt_key build_key_check
  Keeps-encrypt_license_fields l c = Keeps-bind Keeps-ask λ e.
      Keeps-option (generate_user_key e.config.profile l.encryption.user_key) (Keeps-pure _) λ key.
        Keeps-bind (Keeps-bind (Keeps-encrypt_bytes _ _) λ r. Keeps-pure _) λ content_key.
          Keeps-bind (Keeps-encrypt_fields key 0 l.user.encrypted l.user) λ fields.
            Keeps-option fields (Keeps-pure _) λ u.
              Keeps-bind
                (Keeps-bind Keeps-ask λ e'. Keeps-bind (Keeps-encrypt_bytes _ _) λ r. Keeps-pure _)
                λ check. Keeps-option check (Keeps-pure _) λ bytes. Keeps-pure _

  Keeps-or_error :
      {A : Type 0} (o : Option A) {k : A → Exec Built}
      → ((a : A) → Keeps view (k a))
      → Keeps view (or_error o k)
  Keeps-or_error none h = Keeps-pure _
  Keeps-or_error (some a) h = h a

  Keeps-or_no_content :
      {A : Type 0} (o : Option A) {k : A → Exec Built}
      → ((a : A) → Keeps view (k a))
      → Keeps view (or_no_content o k)
  Keeps-or_no_content none h = Keeps-pure _
  Keeps-or_no_content (some a) h = h a

  pub Keeps-build_license :
      (updatefix : Bool) (l : License) → Keeps view (build_license updatefix l)
  unfolding build_license
  Keeps-build_license updatefix l = Keeps-bind Keeps-ask λ e.
      Keeps-or_error (set_license_profile e.config.profile l) λ l1.
        Keeps-bind (Keeps-get_content l1.content_id) λ content. Keeps-or_no_content content λ c.
          Keeps-or_error (set_license_links e (with_algorithm l1) c) λ l2.
            Keeps-bind (Keeps-encrypt_license_fields l2 c) λ fields. Keeps-or_error fields λ l3.
              Keeps-or_error (fix_update e updatefix l3)
                λ l4. Keeps-or_error (sign_license e l4) λ l5. Keeps-pure _

  pub Keeps-initialize : (content_id : String) (l : License) → Keeps view (initialize content_id l)
  unfolding initialize
  Keeps-initialize content_id l =
      Keeps-bind Keeps-ask λ e. Keeps-bind Keeps-draw λ n. Keeps-bind Keeps-now λ t. Keeps-pure _
