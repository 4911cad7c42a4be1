-- ===== src/LsdServer/Routes.antt =====
-- lsdserver/server/server.go: the routes of the License Status Server, and runs of it.
use readium_lcp_server.Prelude.{String, str_eq, Option, List, [], ◌∷◌, if◌then◌else◌}
use readium_lcp_server.Status.{Status}
use readium_lcp_server.License.{License}
use readium_lcp_server.Server.{Env, World, Reply, problem_error, untyped, status_only}
use readium_lcp_server.Server.Exec.{Exec, reply, ask, serve, ◌>>=◌}
use readium_lcp_server.LsdServer.Common.{Request}
use readium_lcp_server.LsdServer.Document.{
  create_license_status_document, get_license_status_document, list_registered_devices,
}
use readium_lcp_server.LsdServer.Filter.{Filter, filter_license_statuses}
use readium_lcp_server.LsdServer.Count.{license_count}
use readium_lcp_server.LsdServer.Register.{register_device}
use readium_lcp_server.LsdServer.Return.{lending_return}
use readium_lcp_server.LsdServer.Renew.{lending_renewal}
use readium_lcp_server.LsdServer.Extend.{extend_subscription}
use readium_lcp_server.LsdServer.Cancel.{lending_cancellation}

-- A request to one of the routes, with its decoded body; on a private route, with the user whom
-- the library go-http-auth makes of its credentials, the empty text if there is none.
pub data Call : Type 0 where
  create : String → Option License → Call
  get_status : Request → Call
  list_registered : String → Request → Call
  list_all : String → Filter → Call
  count_all : String → String → String → Call
  register : Request → Call
  return : Request → Call
  renew : Request → Call
  cancel : String → Request → Option Status → Call
  extend : String → Request → Call

-- api.CheckAuth, before the handler of a private route
unfoldable pub private : String → Exec Reply → Exec Reply
private user handler = if str_eq user "" then reply (problem_error untyped 401) else handler

-- What the library gorilla/mux replies where no route has the path, by the handler that
-- `CreateServerRouter` gives it, and where a route has the path with another method.
abbrev pub no_route : Reply
no_route = problem_error untyped 404

abbrev pub other_method : Reply
other_method = status_only 405

-- A route that exists only if the server is not read-only, and the reply that stands for it there
unfoldable pub writable : Reply → Exec Reply → Exec Reply
writable absent handler = do e ← ask; if e.config.readonly then reply absent else handler

unfoldable pub handle : Call → Exec Reply
handle (create user body) =
    writable other_method (private user (create_license_status_document body))
handle (get_status r) = get_license_status_document r
handle (list_registered user r) = private user (list_registered_devices r)
handle (list_all user f) = private user (filter_license_statuses f)
handle (count_all user from to) = private user (license_count from to)
handle (register r) = writable no_route (register_device r)
handle (return r) = writable no_route (lending_return r)
handle (renew r) = writable no_route (lending_renewal r)
handle (cancel user r body) = writable other_method (private user (lending_cancellation r body))
handle (extend user r) = writable no_route (private user (extend_subscription r))

-- The server after a sequence of requests, one after the other.
unfoldable pub run : Env → List Call → World → World
run e [] w = w
run e (c ∷ cs) w = run e cs (serve (handle c) e w).1
