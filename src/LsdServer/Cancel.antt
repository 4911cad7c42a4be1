-- ===== src/LsdServer/Cancel.antt =====
-- `LendingCancellation`: cancels a license before use, or revokes it after use.
use readium_lcp_server.Prelude.{not, ◌&&◌, ◌||◌, Option, none, some, pos, ℕ, if◌then◌else◌, String}
use readium_lcp_server.Time.{truncate}
use readium_lcp_server.Status.{Status, ready, active, revoked, cancelled, same}
use readium_lcp_server.Server.{
  Reply, problem_error, untyped, return_bad_request, server_internal_error, status_only,
}
use readium_lcp_server.Server.Exec.{Exec, pure, reply, guard, now, ◌>>=◌, ◌>>◌}
use readium_lcp_server.LsdServer.Common.{
  Request, fetch, save, make_event, record_event, update_request, accepted,
}
use readium_lcp_server.LsdServer.Return.{close}

-- The status in the body of the request; `none` is a body that cannot be decoded.
unfoldable pub decoded : Option Status → Exec Status
decoded none = reply (problem_error untyped 500)
decoded (some s) = pure s

-- A ready license is cancelled, also where its revocation is asked for.
abbrev pub closing_status : Status → Status → Status
closing_status current asked = if same asked revoked && same current ready then cancelled else asked

-- The type of the event, as a text and as a number
abbrev pub closing_event : Status → String
closing_event s = if same s cancelled then "cancelled" else "revoked"

abbrev pub event_int : Status → ℕ
event_int s = if same s cancelled then 4 else 2

-- LendingCancellation
unfoldable pub lending_cancellation : Request → Option Status → Exec Reply
lending_cancellation r body = do
  ls ← fetch r.license_id
  asked ← decoded body
  guard (same asked revoked || same asked cancelled) return_bad_request 400
  guard (not (same asked cancelled && not (same ls.status ready))) return_bad_request 400
  guard (not (same asked revoked && not (same ls.status ready) && not (same ls.status active)))
      return_bad_request 400
  t ← now
  result ← update_request (pos (truncate t)) r.license_id
  accepted server_internal_error result
  let status = closing_status ls.status asked
  event ← make_event (closing_event status) "system" "system" ls.id
  record_event event (event_int status)
  save (close ls status (pos (truncate t)))
  pure (status_only 200)
