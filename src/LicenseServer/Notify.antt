-- ===== src/LicenseServer/Notify.antt =====
-- `notifyLsdServer` of lcpserver/api/license.go: the PUT request that tells the License Status Server
-- of a new license, after the license was sent to the client.
use readium_lcp_server.Prelude.{ℕ, ℤ, pos, negsuc, ◌+◌, str_eq, Option, none, some, if◌then◌else◌}
use readium_lcp_server.License.{License}
use readium_lcp_server.Server.Exec.{Exec, ok, pure, ask, ◌>>=◌}
use readium_lcp_server.Stores.Licenses.{update_lsd_status}
use readium_lcp_server.LsdServer.Common.{deliver}
use readium_lcp_server.LsdServer.Document.{create_license_status_document}

-- The license as JSON, which leaves out the id of the content
abbrev pub sent : License → License
sent l = record l { content_id = "" }

-- The PUT request: the status code, or `none` on an error
unfoldable pub put_license : License → Exec (Option ℕ)
unfolding deliver
put_license l e w =
    let (status, w') =
      deliver (e.network w.requests) (create_license_status_document (some (sent l))) e
        (record w { requests = w.requests + 1 }) in
    (ok status, w')

-- What is noted of the answer
abbrev pub noted : Option ℕ → ℤ
noted none = negsuc 0
noted (some status) = pos status

-- notifyLsdServer
unfoldable pub notify_lsd_server : License → Exec (Unit {0})
notify_lsd_server l = do
  e ← ask
  if str_eq e.config.lsd_base_url ""
      then pure tt
      else (do status ← put_license l; result ← update_lsd_status l.id (noted status); pure tt)
