-- ===== src/LsdServer/Common.antt =====
-- What the handlers of the License Status Server share: the request, reading and saving a license
-- status, events, the PATCH request to the License Server, and the response.
use Prim.Native.String
use readium_lcp_server.Prelude.{
  ℕ, ◌+◌, String, str_eq, ◌==◌, ◌||◌, Option, none, some, pos, if◌then◌else◌,
}
use readium_lcp_server.Time.{Time, truncate}
use readium_lcp_server.Status.{text}
use readium_lcp_server.License.{License, no_rights, new_license}
use readium_lcp_server.Transactions.{Event}
use readium_lcp_server.LicenseStatuses.{LicenseStatus}
use readium_lcp_server.Server.{
  Env, World, Delivery, Reply, lost, answered, answer_lost, problem_error, untyped, document, code,
  ProblemType,
}
use readium_lcp_server.Server.Exec.{
  Exec, ok, DbResult, done, not_found, failed, pure, reply, guard, or_500, ask, now, serve, ◌>>=◌,
}
use readium_lcp_server.Stores.{get_by_license_id, update, add_event, events_of}
use readium_lcp_server.LicenseServer.{update_license}
use readium_lcp_server.LsdServer.Links.{make_links}

-- The license's id in the URL, and the form values `id`, `name` and `end`.
pub record Request : Type 0 where
  pub license_id : String
  pub device_id : String
  pub device_name : String
  pub end : String

-- The end of a request whose license could not be read.
unfoldable pub found_or_error : DbResult LicenseStatus → Exec LicenseStatus
found_or_error (done ls) = pure ls
found_or_error not_found = reply (problem_error untyped 404)
found_or_error failed = reply (problem_error untyped 500)

-- GetByLicenseID, with the errors that the handlers give
unfoldable pub fetch : String → Exec LicenseStatus
fetch ref = do result ← get_by_license_id ref; found_or_error result

-- Update, with the error that the handlers give
unfoldable pub save : LicenseStatus → Exec (Unit {0})
save ls = do result ← update ls; or_500 result

-- makeEvent
unfoldable pub make_event : String → String → String → ℕ → Exec Event
make_event type name device fk = do
  t ← now
  pure (record {
    id = 0;
    device_name = name;
    timestamp = pos (truncate t);
    type = type;
    device_id = device;
    license_status_fk = fk;
  })

-- Transactions.Add, with the error that the handlers give
unfoldable pub record_event : Event → ℕ → Exec (Unit {0})
record_event event type = do result ← add_event event type; or_500 result

-- The license that `updateLicense` sends: the id, and rights that hold the end date alone.
abbrev pub min_license : String → Time → License
min_license id t = record new_license { id = id; rights = some (record no_rights { end = some t }) }

-- What comes of a request on the network: the status code for the client, and the new world.
unfoldable pub deliver : Delivery → Exec Reply → Env → World → Option ℕ × World
deliver lost handler e w = (none, w)
deliver answered handler e w = let (r, w') = serve handler e w in (some (code r), w')
deliver answer_lost handler e w = let (r, w') = serve handler e w in (none, w')

-- updateLicense: the status code of the License Server, or `none` on an error
unfoldable pub update_request : Time → String → Exec (Option ℕ)
update_request t id e w =
    if str_eq e.config.lcp_base_url ""
    then (ok none, w)
    else (let (status, w') =
          deliver (e.network w.requests) (update_license id (min_license id t)) e
            (record w { requests = w.requests + 1 }) in
        (ok status, w'))

-- `if httpStatusCode != 200 && httpStatusCode != 206`, and the error of the call itself
unfoldable pub accepted : ProblemType → Option ℕ → Exec (Unit {0})
accepted t none = reply (problem_error untyped 500)
accepted t (some status) = guard (status == 200 || status == 206) t status

-- fillLicenseStatus
unfoldable pub fill_license_status : LicenseStatus → Exec LicenseStatus
fill_license_status ls = do
  e ← ask
  result ← events_of ls.id
  events ← or_500 result
  pure (record ls {
    message = String.◌++◌ "The license is in " (String.◌++◌ (text ls.status) " state");
    links = make_links e ls;
    events = events;
  })

-- The document that ends a request: filled, and without the device count.
unfoldable pub respond : LicenseStatus → Exec Reply
respond ls = do
  filled ← fill_license_status ls
  pure (document (record filled { device_count = none }))
