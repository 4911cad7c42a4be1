-- ===== src/Issuance/Handlers.antt =====
-- The handlers of the License Server that write.
use readium_lcp_server.Prelude.{
  ℕ, String, str_eq, Bool, true, false, Option, none, some, List, ◌==◌, Option-cases, inl, inr,
}
use readium_lcp_server.License.{License, LicenseRow, select_license}
use readium_lcp_server.Index.{Content, select_content}
use readium_lcp_server.Server.{Env, Tables}
use readium_lcp_server.Server.Exec.{DbResult, done, not_found, failed}
use readium_lcp_server.Server.Keeps.{Keeps-ask, Keeps-now}
use readium_lcp_server.Server.Preserves.{
  Preserves, Preserves-quiet, Preserves-pure, Preserves-reply, Preserves-if, Preserves-db_call,
  Preserves-or_500, Preserves-bind, serve-Preserves,
}
use readium_lcp_server.Stores.{update_license_row}
use readium_lcp_server.Stores.Licenses.{add_license, run_add_license, touch_by_content_id}
use readium_lcp_server.Stores.Contents.{
  run_add_content, add_index, update_index, delete_index, store_file,
}
use readium_lcp_server.LicenseServer.{update_license}
use readium_lcp_server.LicenseServer.Input.{check_generate_license_input}
use readium_lcp_server.LicenseServer.Licenses.{Body, generate, generate_license}
use readium_lcp_server.LicenseServer.Publications.{generate_protected_publication}
use readium_lcp_server.LicenseServer.Contents.{
  Packaged, storage_none, opened_or_400, stored_or_400, keep_file, index_content, add_decoded,
  add_content, delete_content,
}
use readium_lcp_server.LicenseServer.Keeps.{
  Keeps-get_license, Keeps-license_found, Keeps-given_rights,
}
use readium_lcp_server.LicenseServer.Keeps.Building.{
  Keeps-get_content, Keeps-build_license, Keeps-initialize,
}
use readium_lcp_server.LicenseServer.Keeps.Queries.{
  Keeps-body_or_400, Keeps-or_400, Keeps-built_or, Keeps-send_publication,
}
use readium_lcp_server.Issuance.{IsInvariant}

-- The property, of the tables
abbrev pub At : (List LicenseRow → List Content → Type 0) → Tables → Type 0
At I t = I t.licenses t.contents

module _ {I : List LicenseRow → List Content → Type 0} (inv : IsInvariant I) where
  run_add-At :
      (l : License) (t : Tables)
      → At I t
      → At I (run_add_license l (select_license l.id t.licenses) t).1
  run_add-At l t p = elim (Option-cases (select_license l.id t.licenses)) [
    | inl absent ↦ rw absent (inv.license_added l t.licenses t.contents absent p)
    | inr (r, taken) ↦ rw taken p
  ]

  run_add_content-At :
      (c : Content) (t : Tables)
      → At I t
      → At I (run_add_content c (select_content c.id t.contents) t).1
  run_add_content-At c t p = elim (Option-cases (select_content c.id t.contents)) [
    | inl absent ↦ rw absent (inv.content_inserted c t.licenses t.contents absent p)
    | inr (old, taken) ↦ rw taken p
  ]

module _ {e : Env} {I : List LicenseRow → List Content → Type 0} (inv : IsInvariant I) where
  generate-Preserves :
      (missing : ℕ) (id : String) (b : Body) → Preserves e (At I) (generate missing id b)
  unfolding generate add_license
  generate-Preserves missing id b =
      Preserves-bind (Preserves-quiet (Keeps-body_or_400 b)) λ partial.
        Preserves-bind (Preserves-quiet (Keeps-or_400 (check_generate_license_input partial)))
          λ lic_in. Preserves-bind (Preserves-quiet (Keeps-initialize id lic_in)) λ started.
            Preserves-bind (Preserves-quiet (Keeps-build_license _ _)) λ o.
              Preserves-bind (Preserves-quiet (Keeps-built_or missing o)) λ l.
                Preserves-bind (Preserves-db_call _ (run_add-At inv l))
                  λ saved. Preserves-bind (Preserves-or_500 saved) λ _. Preserves-pure _

  pub generate_license-Preserves :
      (id : String) (b : Body) → Preserves e (At I) (generate_license id b)
  unfolding generate_license
  generate_license-Preserves id b =
      Preserves-bind (generate-Preserves 404 id b) (λ l. Preserves-pure _)

  pub publication-Preserves :
      (id : String) (b : Body) → Preserves e (At I) (generate_protected_publication id b)
  unfolding generate_protected_publication
  publication-Preserves id b =
      Preserves-bind (generate-Preserves 500 id b) (λ l. Preserves-quiet (Keeps-send_publication l))

  pub update_license-Preserves :
      (id : String) (l : License) → Preserves e (At I) (update_license id l)
  unfolding update_license update_license_row
  update_license-Preserves id l = Preserves-bind (Preserves-quiet (Keeps-get_license id)) λ r.
      Preserves-bind (Preserves-quiet (Keeps-license_found r)) λ l'.
        Preserves-bind (Preserves-quiet (Keeps-given_rights l.rights)) λ g.
          Preserves-bind
            (Preserves-bind (Preserves-quiet Keeps-now)
              λ n. Preserves-db_call _ (λ t p. inv.licenses_updated _ _ t.licenses t.contents p))
            λ s. Preserves-bind (Preserves-or_500 s) λ _. Preserves-pure _

  keep_file-Preserves : (id : String) (p : Packaged) → Preserves e (At I) (keep_file id p)
  unfolding keep_file store_file
  keep_file-Preserves id p =
      Preserves-if (p.storage_mode == storage_none)
        (Preserves-bind (Preserves-quiet Keeps-ask) λ e'.
          Preserves-bind (opened (e'.open_file p.output))
            λ bytes. Preserves-bind (Preserves-db_call _ (λ t q. q)) kept)
        (Preserves-pure tt)
    where
      opened : (o : Option (List ℕ)) → Preserves e (At I) (opened_or_400 o)
      opened none = Preserves-reply _
      opened (some bytes) = Preserves-pure bytes

      kept : (r : DbResult (Unit {0})) → Preserves e (At I) (stored_or_400 r)
      kept (done u) = Preserves-pure u
      kept not_found = Preserves-reply _
      kept failed = Preserves-reply _

  index_content-Preserves :
      (id : String) (p : Packaged) (o : Option Content) → Preserves e (At I) (index_content id p o)
  unfolding index_content add_index update_index touch_by_content_id
  index_content-Preserves id p none =
      Preserves-bind (Preserves-db_call _ (run_add_content-At inv _))
        λ r. Preserves-bind (Preserves-or_500 r) λ _. Preserves-pure _
  index_content-Preserves id p (some c) =
      Preserves-bind (Preserves-db_call _ (λ t q. inv.contents_updated _ t.licenses t.contents q))
        λ r. Preserves-bind (Preserves-or_500 r) λ _.
          Preserves-bind
            (Preserves-bind (Preserves-quiet Keeps-now)
              λ n. Preserves-db_call _ (λ t q. inv.licenses_touched _ _ t.licenses t.contents q))
            λ r'. Preserves-bind (Preserves-or_500 r') λ _. Preserves-pure _

  add_valid-Preserves : (id : String) (p : Packaged) → Preserves e (At I) (add_content id true p)
  unfolding add_content add_decoded
  add_valid-Preserves id p = Preserves-if (str_eq id "") (Preserves-reply _) (
      Preserves-bind (keep_file-Preserves id p)
        λ _. Preserves-bind (Preserves-quiet (Keeps-get_content id)) (index_content-Preserves id p))

  -- A body that cannot be decoded changes the status code alone.
  pub add_content-Preserves :
      (id : String) (is_decoded : Bool) (p : Packaged)
      → Preserves e (At I) (add_content id is_decoded p)
  unfolding add_content
  add_content-Preserves id true p = add_valid-Preserves id p
  add_content-Preserves id false p = record {
    triple = record { at = λ w q. serve-Preserves w (add_valid-Preserves id p) q };
  }

  pub delete_content-Preserves : (id : String) → Preserves e (At I) (delete_content id)
  unfolding delete_content delete_index
  delete_content-Preserves id =
      Preserves-bind (Preserves-db_call _ (λ t q. inv.content_deleted id t.licenses t.contents q))
        λ r. Preserves-bind (Preserves-or_500 r) λ _. Preserves-pure _
