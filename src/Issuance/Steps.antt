-- ===== src/Issuance/Steps.antt =====
-- All steps of the License Server.
use readium_lcp_server.Prelude.{String, str_eq, refl, Option, some, List}
use readium_lcp_server.License.{License, LicenseRow}
use readium_lcp_server.Index.{Content}
use readium_lcp_server.Server.{Env, Tables, World, Reply, Delivery, lost, answered, answer_lost}
use readium_lcp_server.Server.Exec.{Exec, Result, ok, stop}
use readium_lcp_server.Server.Triple.{Post}
use readium_lcp_server.Server.Views.{Triple-keeps}
use readium_lcp_server.Server.Keeps.{Keeps-ask}
use readium_lcp_server.Server.Preserves.{
  Preserves, Preserves-quiet, Preserves-pure, Preserves-reply, Preserves-if, Preserves-db_call,
  Preserves-bind, serve-Preserves,
}
use readium_lcp_server.Stores.Licenses.{update_lsd_status}
use readium_lcp_server.Registry.Runs.{create-Keeps}
use readium_lcp_server.LsdServer.Common.{deliver}
use readium_lcp_server.LsdServer.Document.{create_license_status_document}
use readium_lcp_server.LsdServer.Routes.{private, writable}
use readium_lcp_server.LicenseServer.Licenses.{Body, decoded, empty_body, malformed}
use readium_lcp_server.LicenseServer.Notify.{put_license, notify_lsd_server, sent}
use readium_lcp_server.LicenseServer.Routes.{
  LcpCall, contents, file, licenses_for, info, add, delete, generate_for, publish, licenses,
  fetch_license, content_for, fetch_publication, patch, count_licenses, update_with, handle_lcp,
  LcpStep, LcpSteps, notified, no_step, step,
}
use readium_lcp_server.LicenseServer.Keeps.Queries.{
  Keeps-get_license_request, Keeps-get_protected_publication, Keeps-list_licenses,
  Keeps-list_licenses_for_content, Keeps-count_issued_licenses, Keeps-list_contents,
  Keeps-get_content_info, Keeps-get_content_info_from_license, Keeps-get_content_file,
}
use readium_lcp_server.Issuance.{IsInvariant}
use readium_lcp_server.Issuance.Handlers.{
  At, generate_license-Preserves, publication-Preserves, update_license-Preserves,
  add_content-Preserves, delete_content-Preserves,
}

module _ {e : Env} {P : Tables → Type 0} where
  private-Preserves :
      (user : String) {m : Exec Reply} → Preserves e P m → Preserves e P (private user m)
  unfolding private
  private-Preserves user h = Preserves-if (str_eq user "") (Preserves-reply _) h

  writable-Preserves :
      (absent : Reply) {m : Exec Reply} → Preserves e P m → Preserves e P (writable absent m)
  unfolding writable
  writable-Preserves absent h =
      Preserves-bind (Preserves-quiet Keeps-ask)
        λ e'. Preserves-if e'.config.readonly (Preserves-reply _) h

  pub deliver-Preserves :
      (d : Delivery) {m : Exec Reply} (w : World)
      → Preserves e P m
      → P w.tables
      → P (deliver d m e w).1.tables
  unfolding deliver
  deliver-Preserves lost w h p = p
  deliver-Preserves answered w h p = serve-Preserves w h p
  deliver-Preserves answer_lost w h p = serve-Preserves w h p

ended :
    (P : Tables → Type 0) (r : Result (Unit {0})) (t : Tables)
    → Post (λ _ u. P u) (λ _ u. P u) r t
    → P t
ended P (ok u) t p = p
ended P (stop r) t p = p

module _ {e : Env} {I : List LicenseRow → List Content → Type 0} (inv : IsInvariant I) where
  update_with-Preserves : (id : String) (b : Body) → Preserves e (At I) (update_with id b)
  unfolding update_with
  update_with-Preserves id (decoded l) = update_license-Preserves inv id l
  update_with-Preserves id empty_body = Preserves-reply _
  update_with-Preserves id malformed = Preserves-reply _

  handle_lcp-Preserves : (c : LcpCall) → Preserves e (At I) (handle_lcp c)
  unfolding handle_lcp
  handle_lcp-Preserves contents = Preserves-quiet Keeps-list_contents
  handle_lcp-Preserves (file id) = Preserves-quiet (Keeps-get_content_file id)
  handle_lcp-Preserves (licenses_for user id page per_page) =
      private-Preserves user (Preserves-quiet (Keeps-list_licenses_for_content id page per_page))
  handle_lcp-Preserves (info user id) =
      private-Preserves user (Preserves-quiet (Keeps-get_content_info id))
  handle_lcp-Preserves (add user id is_decoded p) =
      writable-Preserves _ (private-Preserves user (add_content-Preserves inv id is_decoded p))
  handle_lcp-Preserves (delete user id) =
      writable-Preserves _ (private-Preserves user (delete_content-Preserves inv id))
  handle_lcp-Preserves (generate_for user id b) =
      writable-Preserves _ (private-Preserves user (generate_license-Preserves inv id b))
  handle_lcp-Preserves (publish user id b) =
      writable-Preserves _ (private-Preserves user (publication-Preserves inv id b))
  handle_lcp-Preserves (licenses user page per_page) =
      private-Preserves user (Preserves-quiet (Keeps-list_licenses page per_page))
  handle_lcp-Preserves (fetch_license user id b) =
      private-Preserves user (Preserves-quiet (Keeps-get_license_request id b))
  handle_lcp-Preserves (content_for user id) =
      private-Preserves user (Preserves-quiet (Keeps-get_content_info_from_license id))
  handle_lcp-Preserves (fetch_publication user id b) =
      private-Preserves user (Preserves-quiet (Keeps-get_protected_publication id b))
  handle_lcp-Preserves (patch user id b) =
      writable-Preserves _ (private-Preserves user (update_with-Preserves id b))
  handle_lcp-Preserves (count_licenses user from to) =
      private-Preserves user (Preserves-quiet (Keeps-count_issued_licenses from to))

  -- The Status Server writes only to its own tables.
  create-Preserves :
      (body : Option License) → Preserves e (At I) (create_license_status_document body)
  create-Preserves body = record {
    triple =
        Triple-keeps {X = List LicenseRow × List Content} (λ (t : Tables). (t.licenses, t.contents))
          (λ v. I v.0 v.1) (λ r t p. p) (create-Keeps (λ t rows. refl) body);
  }

  put_license-Preserves : (l : License) → Preserves e (At I) (put_license l)
  unfolding put_license
  put_license-Preserves l = record {
    triple = record {
      at = λ w p. deliver-Preserves (e.network w.requests) _ (create-Preserves (some (sent l))) p;
    };
  }

  notify-Preserves : (l : License) → Preserves e (At I) (notify_lsd_server l)
  unfolding notify_lsd_server update_lsd_status
  notify-Preserves l = Preserves-bind (Preserves-quiet Keeps-ask) λ e'.
      Preserves-if (str_eq e'.config.lsd_base_url "") (Preserves-pure tt) (
        Preserves-bind (put_license-Preserves l) λ status.
          Preserves-bind
            (Preserves-db_call _ (λ t p. inv.status_noted l.id _ t.licenses t.contents p))
            λ r. Preserves-pure tt)

  -- An invariant holds after any number of steps.
  pub steps-At : {w w' : World} → LcpSteps e w w' → At I w.tables → At I w'.tables
  steps-At (no_step w) p = p
  steps-At (step (LcpStep.answered c w) rest) p =
      steps-At rest (serve-Preserves w (handle_lcp-Preserves c) p)
  steps-At (step (notified l w) rest) p =
      let (r, w') = notify_lsd_server l e w in
      steps-At rest (ended (At I) r w'.tables ((notify-Preserves l).triple.at w p))
