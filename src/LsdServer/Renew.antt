-- ===== src/LsdServer/Renew.antt =====
-- `LendingRenewal`.
use readium_lcp_server.Prelude.{
  ℕ, ◌||◌, not, Bool, true, false, Option, none, some, pos, str_eq, if◌then◌else◌, String,
}
use readium_lcp_server.Time.{Time, after, before, is_zero, days_duration, add}
use readium_lcp_server.Status.{Status, active, expired, same}
use readium_lcp_server.LicenseStatuses.{LicenseStatus, PotentialRights}
use readium_lcp_server.Server.{
  Config, Reply, ProblemType, problem_error, untyped, renew_bad_request, registration_bad_request,
}
use readium_lcp_server.Server.Exec.{Exec, pure, reply, guard, ask, now, ◌>>=◌, ◌>>◌}
use readium_lcp_server.LsdServer.Common.{
  Request, fetch, save, make_event, record_event, update_request, accepted, respond,
}
use readium_lcp_server.LsdServer.Return.{short_device}

-- An active license, or an expired one if the configuration allows it
abbrev pub is_renewable : Config → Status → Bool
is_renewable config s = if same s expired then config.renew_expired else same s active

-- The time behind a pointer that is neither nil nor the zero time; otherwise the request ends.
unfoldable pub require_time : Option Time → ProblemType → ℕ → Exec Time
require_time none t status = reply (problem_error t status)
require_time (some u) t status = if is_zero u then reply (problem_error t status) else pure u

abbrev pub end_of_rights : Option PotentialRights → Option Time
end_of_rights none = none
end_of_rights (some p) = p.end

-- time.Parse, with the error that the handlers give
unfoldable pub parsed : Option Time → Exec Time
parsed none = reply (problem_error renew_bad_request 400)
parsed (some t) = pure t

-- The default extension starts now, or at the current end.
unfoldable pub extension_start : Bool → Time → Exec Time
extension_start true current_end = do t ← now; pure (pos t)
extension_start false current_end = pure current_end

-- The extension that is configured; `status` is that of the error where none is.
unfoldable pub configured_end : Bool → ℕ → Time → Exec Time
configured_end from_now status current_end = do
  e ← ask
  guard (not (is_zero e.config.renew_days)) untyped status
  start ← extension_start from_now current_end
  pure (add start (days_duration e.config.renew_days))

-- The end date that the request asks for, or the configured extension
unfoldable pub suggested_end : Bool → ℕ → String → Time → Exec Time
suggested_end from_now status end current_end = do
  e ← ask
  if str_eq end "" then configured_end from_now status current_end else parsed (e.parse_time end)

-- The license status after a renewal until `end`, made at a time
abbrev pub extend_until : LicenseStatus → Time → Time → LicenseStatus
extend_until ls end t = record ls {
  status = active;
  updated = record { license = some t; status = some t };
  current_end_license = some end;
}

-- The event, the call of the License Server and the update of a renewal
unfoldable pub renew_until : Request → String → String → LicenseStatus → Time → Exec LicenseStatus
renew_until r name device ls end = do
  event ← make_event "renewed" name device ls.id
  record_event event 6
  result ← update_request end r.license_id
  accepted registration_bad_request result
  let ls' = extend_until ls end event.timestamp
  save ls'
  pure ls'

-- LendingRenewal; a suggestion out of bounds is not an error, and renews nothing.
unfoldable pub lending_renewal : Request → Exec Reply
lending_renewal r = do
  guard (short_device r) renew_bad_request 400
  ls ← fetch r.license_id
  e ← ask
  guard (is_renewable e.config ls.status) renew_bad_request 400
  current_end ← require_time ls.current_end_license renew_bad_request 400
  limit ← require_time (end_of_rights ls.potential_rights) renew_bad_request 400
  suggested ← suggested_end e.config.renew_from_now 400 r.end current_end
  ls' ←
      if after suggested limit || before suggested current_end
      then pure ls
      else renew_until r r.device_name r.device_id ls suggested
  respond ls'
