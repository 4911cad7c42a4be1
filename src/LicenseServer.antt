-- ===== src/LicenseServer.antt =====
-- lcpserver/api/license.go: the handler `UpdateLicense` of the License Server (PATCH on a license).
pub mod Keeps
pub mod Input
pub mod Licenses
pub mod Publications
pub mod Notify
pub mod Lists
pub mod Contents
pub mod Routes
use readium_lcp_server.Prelude.{ℤ, pos, negsuc, String, str_eq, Option, none, some, if◌then◌else◌}
use readium_lcp_server.Time.{Time, is_zero}
use readium_lcp_server.License.{License, UserRights, rights_or}
use readium_lcp_server.Server.{Reply, problem_error, untyped, status_only, panic}
use readium_lcp_server.Server.Exec.{
  Exec, DbResult, done, not_found, failed, pure, reply, or_500, ◌>>=◌, ◌>>◌,
}
use readium_lcp_server.Stores.{get_license, update_license_row}

-- `if in != "" { out = in }`
abbrev new_text : String → String → String
new_text given old = if str_eq given "" then old else given

-- A negative count means "unconstrained".
abbrev new_count : Option ℤ → Option ℤ → Option ℤ
new_count none old = old
new_count (some (pos n)) old = some (pos n)
new_count (some (negsuc n)) old = none

-- The zero time means "unconstrained".
abbrev pub new_time : Option Time → Option Time → Option Time
new_time none old = old
new_time (some t) old = if is_zero t then none else some t

unfoldable pub new_rights : UserRights → UserRights → UserRights
new_rights given old = record {
  print = new_count given.print old.print;
  copy = new_count given.copy old.copy;
  start = new_time given.start old.start;
  end = new_time given.end old.end;
}

-- licOut, updated with what licIn holds
unfoldable pub merge : License → UserRights → License → License
merge lic_in given lic_out = record lic_out {
  user = record lic_out.user { id = new_text lic_in.user.id lic_out.user.id };
  provider = new_text lic_in.provider lic_out.provider;
  content_id = new_text lic_in.content_id lic_out.content_id;
  rights = some (new_rights given (rights_or lic_out.rights));
}

abbrev pub found_or_error : DbResult License → Exec License
found_or_error (done l) = pure l
found_or_error not_found = reply (problem_error untyped 404)
found_or_error failed = reply (problem_error untyped 400)

-- A body without `rights` is dereferenced all the same, after the provider and the ids.
abbrev pub given_rights : Option UserRights → Exec UserRights
given_rights none = reply panic
given_rights (some r) = pure r

-- UpdateLicense, for a body that could be decoded
unfoldable pub update_license : String → License → Exec Reply
update_license id lic_in = do
  result ← get_license id
  lic_out ← found_or_error result
  given ← given_rights lic_in.rights
  saved ← update_license_row (merge lic_in given lic_out)
  or_500 saved
  pure (status_only 200)
