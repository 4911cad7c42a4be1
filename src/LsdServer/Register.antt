-- ===== src/LsdServer/Register.antt =====
-- `RegisterDevice`.
use Prim.Native.String.{len}
use readium_lcp_server.Prelude.{
  ◌==◌, ltb, str_eq, not, ◌||◌, Bool, Option, none, some, ℤ, pos, ◌+ℤ◌, wrap64, if◌then◌else◌,
}
use readium_lcp_server.Status.{ready, active, same}
use readium_lcp_server.LicenseStatuses.{LicenseStatus}
use readium_lcp_server.Server.{Reply, registration_bad_request, panic}
use readium_lcp_server.Server.Exec.{Exec, pure, reply, guard, or_500, ask, ◌>>=◌, ◌>>◌}
use readium_lcp_server.Stores.{check_device_status}
use readium_lcp_server.LsdServer.Links.{is_usable}
use readium_lcp_server.LsdServer.Common.{Request, fetch, save, make_event, record_event, respond}

-- Both texts are given, and have at most 255 bytes.
abbrev pub valid_device : Request → Bool
valid_device r = not (
    len r.device_id == 0
    || ltb 255 (len r.device_id)
    || len r.device_name == 0
    || ltb 255 (len r.device_name))

-- `*licenseStatus.DeviceCount++`, on an int of 64 bits
abbrev pub increment : ℤ → ℤ
increment n = wrap64 (n +ℤ pos 1)

-- A nil count is dereferenced.
unfoldable pub deref : Option ℤ → Exec ℤ
deref none = reply panic
deref (some n) = pure n

-- The branch for a device that has no event yet
unfoldable pub register_new : Request → LicenseStatus → Exec LicenseStatus
register_new r ls = do
  event ← make_event "active" r.device_name r.device_id ls.id
  record_event event 1
  n ← deref ls.device_count
  let ls' = record ls {
    status = if same ls.status ready then active else ls.status;
    updated = record ls.updated { status = some event.timestamp };
    device_count = some (increment n);
  }
  save ls'
  pure ls'

-- RegisterDevice
unfoldable pub register_device : Request → Exec Reply
register_device r = do
  guard (valid_device r) registration_bad_request 400
  ls ← fetch r.license_id
  e ← ask
  guard (not e.config.goofy_mode) registration_bad_request 400
  guard (is_usable ls.status) registration_bad_request 403
  result ← check_device_status ls.id r.device_id
  device_status ← or_500 result
  ls' ← if str_eq device_status "" then register_new r ls else pure ls
  respond ls'
