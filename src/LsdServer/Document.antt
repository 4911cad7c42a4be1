-- ===== src/LsdServer/Document.antt =====
-- `CreateLicenseStatusDocument`, `makeLicenseStatus`, `GetLicenseStatusDocument` and
-- `ListRegisteredDevices`.
use readium_lcp_server.Prelude.{
  Bool, false, ◌&&◌, ◌||◌, Option, none, some, pos, List, [], ltb_ℤ, if◌then◌else◌,
}
use readium_lcp_server.Time.{Time, after, truncate, days_duration, add}
use readium_lcp_server.Status.{ready, active, expired, same}
use readium_lcp_server.License.{License, rights_or}
use readium_lcp_server.Transactions.{Device}
use readium_lcp_server.LicenseStatuses.{LicenseStatus, PotentialRights}
use readium_lcp_server.Server.{Config, Reply, problem_error, untyped, status_only, device_list}
use readium_lcp_server.Server.Exec.{
  Exec, DbResult, done, not_found, failed, pure, reply, or_500, ask, now, ◌>>=◌, ◌>>◌,
}
use readium_lcp_server.Stores.{add_status, devices_of}
use readium_lcp_server.LsdServer.Common.{Request, fetch, save, respond}

-- The later of the license's own end and the end that the configuration allows.
unfoldable pub potential_rights : Config → Time → Time → Option PotentialRights
potential_rights config issued end_from_license =
    if config.renew && ltb_ℤ (pos 0) config.renting_days
    then (let end_from_config = add issued (days_duration config.renting_days) in
        some (record {
          end = some (
              if after end_from_license end_from_config then end_from_license else end_from_config);
        }))
    else none

-- A license without an end has no potential rights.
abbrev pub potential_from : Config → Time → Option Time → Option PotentialRights
potential_from config issued none = none
potential_from config issued (some end) = potential_rights config issued end

abbrev pub end_of : License → Option Time
end_of lic = (rights_or lic.rights).end

-- makeLicenseStatus, at the time `current`
unfoldable pub make_license_status : Config → License → Time → LicenseStatus
make_license_status config lic current = record {
  id = 0;
  license_ref = lic.id;
  status = if config.register then ready else active;
  updated = record { license = some lic.issued; status = some current };
  message = "";
  links = [];
  device_count = some (pos 0);
  potential_rights = potential_from config lic.issued (end_of lic);
  events = [];
  current_end_license = end_of lic;
}

-- CreateLicenseStatusDocument; `none` is a body that cannot be decoded.
unfoldable pub create_license_status_document : Option License → Exec Reply
create_license_status_document none = reply (problem_error untyped 400)
create_license_status_document (some lic) = do
  e ← ask
  t ← now
  result ← add_status (make_license_status e.config lic (pos (truncate t)))
  or_500 result
  pure (status_only 201)

-- Has the rights end date of a usable license passed?
unfoldable pub has_expired : Time → LicenseStatus → Bool
has_expired current ls = elim ls.current_end_license [
  | none ↦ false
  | some end ↦ after current end && (same ls.status active || same ls.status ready)
]

-- The write that `GetLicenseStatusDocument` makes when it finds a license expired
unfoldable pub expire : LicenseStatus → Exec LicenseStatus
expire ls = do
  t ← now
  let ls' = record ls {
    status = expired;
    updated = record ls.updated { status = some (pos (truncate t)) };
  }
  save ls'
  pure ls'

-- GetLicenseStatusDocument
unfoldable pub get_license_status_document : Request → Exec Reply
get_license_status_document r = do
  ls ← fetch r.license_id
  t ← now
  ls' ← if has_expired (pos (truncate t)) ls then expire ls else pure ls
  respond ls'

-- An error of the query ends the loop over the devices like its last row does.
abbrev devices_read : DbResult (List Device) → List Device
devices_read (done ds) = ds
devices_read not_found = []
devices_read failed = []

-- ListRegisteredDevices
unfoldable pub list_registered_devices : Request → Exec Reply
list_registered_devices r = do
  ls ← fetch r.license_id
  result ← devices_of ls.id
  pure (device_list ls.license_ref (devices_read result))
