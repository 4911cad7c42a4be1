-- ===== src/LsdServer/Extend.antt =====
-- `ExtendSubscription`.
use readium_lcp_server.Prelude.{not, ◌||◌, Bool, false, Option, none, some}
use readium_lcp_server.Time.{Time, after, before}
use readium_lcp_server.Status.{Status, revoked, returned, cancelled, same}
use readium_lcp_server.Server.{
  Reply, problem_error, return_bad_request, renew_bad_request, renew_reject,
}
use readium_lcp_server.Server.Exec.{Exec, pure, reply, guard, ◌>>=◌, ◌>>◌}
use readium_lcp_server.LsdServer.Common.{Request, fetch, respond}
use readium_lcp_server.LsdServer.Renew.{end_of_rights, require_time, suggested_end, renew_until}

-- `licenseStatus.PotentialRights.End`, where it is not nil; it may be the zero time.
unfoldable pub max_end : Option Time → Exec Time
max_end none = reply (problem_error return_bad_request 400)
max_end (some t) = pure t

abbrev pub is_closed : Status → Bool
is_closed s = same s revoked || same s cancelled || same s returned

-- ExtendSubscription; the event has a static device.
unfoldable pub extend_subscription : Request → Exec Reply
extend_subscription r = do
  ls ← fetch r.license_id
  limit ← max_end (end_of_rights ls.potential_rights)
  guard (not (is_closed ls.status)) return_bad_request 400
  current_end ← require_time ls.current_end_license renew_bad_request 403
  suggested ← suggested_end false 500 r.end current_end
  guard (not (after suggested limit)) renew_reject 403
  guard (not (before suggested current_end)) renew_reject 403
  ls' ← renew_until r "subscription" "suscription" ls suggested
  respond ls'
