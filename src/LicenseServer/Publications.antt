-- ===== src/LicenseServer/Publications.antt =====
-- `GetProtectedPublication` and `GenerateProtectedPublication` of lcpserver/api/license.go: archives
-- are lists of entries, and the license is an entry of its own.
use readium_lcp_server.Prelude.{
  ℕ, String, str_eq, Bool, true, false, ◌||◌, Option, none, some, List, [], ◌∷◌, if◌then◌else◌,
}
use readium_lcp_server.License.{License}
use readium_lcp_server.License.Build.{build_license}
use readium_lcp_server.Server.{Reply, Publication, publication, problem_error, untyped}
use readium_lcp_server.Server.Exec.{
  Exec, DbResult, done, not_found, failed, pure, reply, ask, ◌>>=◌,
}
use readium_lcp_server.Stores.{get_license}
use readium_lcp_server.Stores.Contents.{get_content, get_file}
use readium_lcp_server.LicenseServer.{found_or_error}
use readium_lcp_server.LicenseServer.Input.{check_get_license_input, copy_input_to_license}
use readium_lcp_server.LicenseServer.Licenses.{Body, body_or_400, or_400, built_or, generate}

-- isWebPub
unfoldable pub is_web_pub : List (String × List ℕ) → Bool
is_web_pub [] = false
is_web_pub ((name, bytes) ∷ entries) = str_eq name "manifest.json" || is_web_pub entries

-- epub.LicenseFile
abbrev pub license_file : String
license_file = "META-INF/license.lcpl"

-- The archive that buildProtectedPublication writes: copies of the entries, and the license
unfoldable pub protect : List (String × List ℕ) → License → Publication
unfolding is_web_pub
protect entries l = record {
  entries = entries;
  license_path = if is_web_pub entries then "license.lcpl" else license_file;
  license = l;
}

-- The errors of the storage
abbrev pub stored_or_error : DbResult (List ℕ) → Exec (List ℕ)
stored_or_error (done bytes) = pure bytes
stored_or_error not_found = reply (problem_error untyped 404)
stored_or_error failed = reply (problem_error untyped 500)

abbrev pub or_error_500 : {A : Type 0} → Option A → Exec A
or_error_500 none = reply (problem_error untyped 500)
or_error_500 (some a) = pure a

-- buildProtectedPublication, with the errors that its callers give
unfoldable pub build_protected_publication : License → Exec Publication
unfolding protect
build_protected_publication l = do
  e ← ask
  result ← get_file l.content_id
  bytes ← stored_or_error result
  entries ← or_error_500 (e.unzip bytes)
  pure (protect entries l)

-- The end of both handlers: the publication, named by the location of the content
unfoldable pub send_publication : License → Exec Reply
send_publication l = do
  protected ← build_protected_publication l
  content ← get_content l.content_id
  c ← or_error_500 content
  pure (publication c.location protected)

-- GetProtectedPublication
unfoldable pub get_protected_publication : String → Body → Exec Reply
get_protected_publication license_id body = do
  partial ← body_or_400 body
  lic_in ← or_400 (check_get_license_input partial)
  result ← get_license license_id
  stored ← found_or_error result
  outcome ← build_license true (copy_input_to_license lic_in stored)
  lic_out ← built_or 500 outcome
  send_publication lic_out

-- GenerateProtectedPublication, without the notification
unfoldable pub generate_protected_publication : String → Body → Exec Reply
generate_protected_publication content_id body = do
  lic ← generate 500 content_id body
  send_publication lic
