-- ===== src/LsdServer/Fresh.antt =====
-- lsdserver/api/freshlicense.go: `GetFreshLicense`, which asks the CMS of the provider for the data of
-- the user and the License Server for the license. The CMS is not part of the repository: it is a
-- function from the id of a license to what it answers, or `none` on any error.
use readium_lcp_server.Prelude.{
  ℕ, ◌+◌, ◌==◌, String, str_eq, Option, none, some, [], ◌∷◌, if◌then◌else◌,
}
use readium_lcp_server.License.{License, new_license, no_encryption, no_key}
use readium_lcp_server.LicenseStatuses.{LicenseStatus}
use readium_lcp_server.Server.{
  Env, World, Reply, Delivery, lost, answered, answer_lost, license, problem_error, untyped,
}
use readium_lcp_server.Server.Exec.{
  Exec, DbResult, done, not_found, failed, ok, pure, ask, serve, ◌>>=◌,
}
use readium_lcp_server.Stores.{get_by_license_id}
use readium_lcp_server.LicenseServer.Licenses.{decoded, get_license_request}

-- UserData
pub record UserData : Type 0 where
  pub id : String
  pub name : String
  pub email : String
  pub passphrase_hash : String
  pub hint : String

-- getUserData: an error where the URL of the CMS is not configured
unfoldable pub get_user_data : (String → Option UserData) → Env → String → Option UserData
get_user_data cms e license_id = if str_eq e.config.user_data_url "" then none else cms license_id

abbrev pub sha256_hash : String
sha256_hash = "http://www.w3.org/2001/04/xmlenc#sha256"

-- initPartialLicense
unfoldable pub init_partial_license : String → UserData → License
init_partial_license license_id u = record new_license {
  id = license_id;
  user = record { id = u.id; name = u.name; email = u.email; encrypted = "name" ∷ "email" ∷ [] };
  encryption = record no_encryption {
    user_key = record no_key {
      algorithm = sha256_hash;
      hint = u.hint;
      hex_value = u.passphrase_hash;
    };
  };
}

-- What a request on the network brings back
unfoldable pub exchange : Delivery → Exec Reply → Env → World → Option Reply × World
exchange lost handler e w = (none, w)
exchange answered handler e w = let (r, w') = serve handler e w in (some r, w')
exchange answer_lost handler e w = let (r, w') = serve handler e w in (none, w')

-- The body of an answer with status 200
unfoldable pub fetched_license : Option Reply → Option License
fetched_license (some (license status l)) = if status == 200 then some l else none
fetched_license _ = none

-- fetchLicense
unfoldable pub fetch_license : License → Exec (Option License)
unfolding exchange fetched_license
fetch_license partial e w =
    let (answer, w') =
      exchange (e.network w.requests) (get_license_request partial.id (decoded partial)) e
        (record w { requests = w.requests + 1 }) in
    (ok (fetched_license answer), w')

-- getLicense
unfoldable pub get_fresh : (String → Option UserData) → String → Exec (Option License)
unfolding get_user_data init_partial_license
get_fresh cms license_id = do
  e ← ask
  elim (get_user_data cms e license_id) [
    | none ↦ pure none
    | some u ↦ fetch_license (init_partial_license license_id u)
  ]

-- The status of an error document, where 404 may have been sent before: the handler goes on behind it.
abbrev pub error_status : DbResult LicenseStatus → ℕ
error_status (done ls) = 500
error_status not_found = 404
error_status failed = 404

-- The license is written, with the status that was sent before if there was an error: its body then
-- stands behind the error document. If the license is not known, the status document is nil, and the
-- log line behind panics; negroni recovers, and its stack comes behind the license in the same response.
abbrev pub write_fresh : DbResult LicenseStatus → License → Exec Reply
write_fresh (done ls) l = pure (license 200 l)
write_fresh not_found l = pure (license 404 l)
write_fresh failed l = pure (license 404 l)

-- GetFreshLicense
unfoldable pub get_fresh_license : (String → Option UserData) → String → Exec Reply
get_fresh_license cms license_id = do
  found ← get_by_license_id license_id
  fresh ← get_fresh cms license_id
  elim fresh [
    | none ↦ pure (problem_error untyped (error_status found))
    | some l ↦ write_fresh found l
  ]
