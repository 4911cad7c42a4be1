-- ===== src/LsdServer/Return.antt =====
-- `LendingReturn`.
use Prim.Native.String.{len}
use readium_lcp_server.Prelude.{ltb, not, ◌||◌, Bool, none, some}
use readium_lcp_server.Time.{Time}
use readium_lcp_server.Status.{Status, ready, active, revoked, returned, cancelled, expired, other}
use readium_lcp_server.LicenseStatuses.{LicenseStatus}
use readium_lcp_server.Server.{Reply, problem_error, return_bad_request, return_already}
use readium_lcp_server.Server.Exec.{Exec, pure, reply, guard, ◌>>=◌, ◌>>◌}
use readium_lcp_server.LsdServer.Common.{
  Request, fetch, save, make_event, record_event, update_request, accepted, respond,
}

-- Neither text has more than 255 bytes; both may be empty.
abbrev pub short_device : Request → Bool
short_device r = not (ltb 255 (len r.device_name) || ltb 255 (len r.device_id))

-- The `switch` on the current status
unfoldable pub returned_status : Status → Exec Status
returned_status ready = pure cancelled
returned_status active = pure returned
returned_status expired = pure returned
returned_status returned = reply (problem_error return_already 403)
returned_status revoked = reply (problem_error return_bad_request 403)
returned_status cancelled = reply (problem_error return_bad_request 403)
returned_status (other s) = reply (problem_error return_bad_request 403)

-- The license status after a return at a time
abbrev pub close : LicenseStatus → Status → Time → LicenseStatus
close ls status t = record ls {
  status = status;
  updated = record { license = some t; status = some t };
  potential_rights = none;
  current_end_license = some t;
}

-- LendingReturn
unfoldable pub lending_return : Request → Exec Reply
lending_return r = do
  ls ← fetch r.license_id
  guard (short_device r) return_bad_request 400
  status ← returned_status ls.status
  event ← make_event "returned" r.device_name r.device_id ls.id
  record_event event 3
  result ← update_request event.timestamp r.license_id
  accepted return_bad_request result
  let ls' = close ls status event.timestamp
  save ls'
  respond ls'
