-- ===== src/LicenseServer/Licenses.antt =====
-- `GetLicense` and `GenerateLicense` of lcpserver/api/license.go. The test mode is left out.
use readium_lcp_server.Prelude.{ℕ, String, true, false}
use readium_lcp_server.License.{License}
use readium_lcp_server.License.Build.{
  initialize, build_license, Built, built, no_content, build_error,
}
use readium_lcp_server.Server.{Reply, license, problem_error, untyped}
use readium_lcp_server.Server.Exec.{Exec, pure, reply, or_500, ◌>>=◌, ◌>>◌}
use readium_lcp_server.Stores.{get_license}
use readium_lcp_server.Stores.Licenses.{add_license}
use readium_lcp_server.LicenseServer.{found_or_error}
use readium_lcp_server.LicenseServer.Input.{
  Checked, valid, invalid, check_get_license_input, check_generate_license_input,
  copy_input_to_license, set_rights,
}

-- The body of a request, as DecodeJSONLicense reads it
pub data Body : Type 0 where
  decoded : License → Body
  empty_body : Body
  malformed : Body

-- The partial license of GetLicense; without a body, the license of the database is the answer.
unfoldable pub payload : License → Body → Exec License
payload lic_out (decoded l) = pure l
payload lic_out empty_body = reply (license 206 lic_out)
payload lic_out malformed = reply (problem_error untyped 500)

abbrev pub or_400 : Checked → Exec License
or_400 (valid l) = pure l
or_400 (invalid err) = reply (problem_error untyped 400)

-- The errors of buildLicense, where the content that is not found has a status code of its own
abbrev pub built_or : ℕ → Built → Exec License
built_or missing (built l) = pure l
built_or missing no_content = reply (problem_error untyped missing)
built_or missing build_error = reply (problem_error untyped 500)

-- A partial license that must be there
abbrev pub body_or_400 : Body → Exec License
body_or_400 (decoded l) = pure l
body_or_400 empty_body = reply (problem_error untyped 400)
body_or_400 malformed = reply (problem_error untyped 400)

-- GetLicense
unfoldable pub get_license_request : String → Body → Exec Reply
unfolding payload
get_license_request license_id body = do
  result ← get_license license_id
  stored ← found_or_error result
  partial ← payload stored body
  lic_in ← or_400 (check_get_license_input partial)
  outcome ← build_license true (copy_input_to_license lic_in stored)
  lic_out ← built_or 500 outcome
  pure (license 200 lic_out)

-- The steps that GenerateLicense and GenerateProtectedPublication share: the license, built and
-- added to the table
unfoldable pub generate : ℕ → String → Body → Exec License
generate missing content_id body = do
  partial ← body_or_400 body
  lic_in ← or_400 (check_generate_license_input partial)
  started ← initialize content_id lic_in
  outcome ← build_license false (set_rights started)
  lic ← built_or missing outcome
  saved ← add_license lic
  or_500 saved
  pure lic

-- GenerateLicense, up to its answer; the notification comes behind it
unfoldable pub generate_license : String → Body → Exec Reply
generate_license content_id body = do lic ← generate 404 content_id body; pure (license 201 lic)
