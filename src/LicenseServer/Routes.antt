-- ===== src/LicenseServer/Routes.antt =====
-- The routes of the License Server: `New` of lcpserver/server/server.go. A deprecated path of a handler
-- is the same request as the other one; ping, the resources and the route of tests are left out.
use readium_lcp_server.Prelude.{String, ℕ, Bool, List}
use readium_lcp_server.License.{License}
use readium_lcp_server.Server.{Env, World, Reply, problem_error, untyped}
use readium_lcp_server.Server.Exec.{Exec, reply, serve}
use readium_lcp_server.LsdServer.Routes.{private, writable, no_route, other_method}
use readium_lcp_server.LicenseServer.{update_license}
use readium_lcp_server.LicenseServer.Licenses.{
  Body, decoded, empty_body, malformed, get_license_request, generate_license,
}
use readium_lcp_server.LicenseServer.Publications.{
  get_protected_publication, generate_protected_publication,
}
use readium_lcp_server.LicenseServer.Notify.{notify_lsd_server}
use readium_lcp_server.LicenseServer.Lists.{
  list_licenses, list_licenses_for_content, count_issued_licenses,
}
use readium_lcp_server.LicenseServer.Contents.{
  Packaged, add_content, list_contents, get_content_info, get_content_info_from_license,
  get_content_file, delete_content,
}

-- A request, with the user that its credentials name where the route is private
pub data LcpCall : Type 0 where
  contents : LcpCall
  file : String → LcpCall
  licenses_for : String → String → List ℕ → List ℕ → LcpCall
  info : String → String → LcpCall
  add : String → String → Bool → Packaged → LcpCall
  delete : String → String → LcpCall
  generate_for : String → String → Body → LcpCall
  publish : String → String → Body → LcpCall
  licenses : String → List ℕ → List ℕ → LcpCall
  fetch_license : String → String → Body → LcpCall
  content_for : String → String → LcpCall
  fetch_publication : String → String → Body → LcpCall
  patch : String → String → Body → LcpCall
  count_licenses : String → String → String → LcpCall

-- UpdateLicense, with the decoding of its body
unfoldable pub update_with : String → Body → Exec Reply
update_with id (decoded l) = update_license id l
update_with id empty_body = reply (problem_error untyped 400)
update_with id malformed = reply (problem_error untyped 400)

unfoldable pub handle_lcp : LcpCall → Exec Reply
unfolding update_with
handle_lcp contents = list_contents
handle_lcp (file id) = get_content_file id
handle_lcp (licenses_for user id page per_page) =
    private user (list_licenses_for_content id page per_page)
handle_lcp (info user id) = private user (get_content_info id)
handle_lcp (add user id is_decoded p) =
    writable other_method (private user (add_content id is_decoded p))
handle_lcp (delete user id) = writable other_method (private user (delete_content id))
handle_lcp (generate_for user id body) = writable no_route (private user (generate_license id body))
handle_lcp (publish user id body) =
    writable no_route (private user (generate_protected_publication id body))
handle_lcp (licenses user page per_page) = private user (list_licenses page per_page)
handle_lcp (fetch_license user id body) = private user (get_license_request id body)
handle_lcp (content_for user id) = private user (get_content_info_from_license id)
handle_lcp (fetch_publication user id body) = private user (get_protected_publication id body)
handle_lcp (patch user id body) = writable other_method (private user (update_with id body))
handle_lcp (count_licenses user from to) = private user (count_issued_licenses from to)

-- What the License Server does: it answers a request, or it notifies the Status Server of a license,
-- which it does behind the answer to the request that generated it.
pub data LcpStep (e : Env) : World → World → Type 0 where
  answered : (c : LcpCall) (w : World) → LcpStep e w (serve (handle_lcp c) e w).1
  notified : (l : License) (w : World) → LcpStep e w (notify_lsd_server l e w).1

-- Any number of steps
pub data LcpSteps (e : Env) : World → World → Type 0 where
  no_step : (w : World) → LcpSteps e w w
  step : {w w' w'' : World} → LcpStep e w w' → LcpSteps e w' w'' → LcpSteps e w w''
