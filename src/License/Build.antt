-- ===== src/License/Build.antt =====
-- `Initialize` and `SignLicense` of license/license.go, and `buildLicense` of lcpserver/api/license.go.
use readium_lcp_server.Prelude.{
  String, str_eq, Bool, true, not, ◌&&◌, Option, none, some, pos, if◌then◌else◌,
}
use readium_lcp_server.Time.{Time, before, truncate}
use readium_lcp_server.License.{License}
use readium_lcp_server.License.Profile.{set_license_profile}
use readium_lcp_server.License.Links.{set_license_links}
use readium_lcp_server.License.Fields.{encrypt_license_fields}
use readium_lcp_server.Server.{Env}
use readium_lcp_server.Server.Exec.{Exec, pure, ask, now, draw, ◌>>=◌}
use readium_lcp_server.Stores.Contents.{get_content}

-- Initialize
unfoldable pub initialize : String → License → Exec License
initialize content_id l = do
  e ← ask
  n ← draw
  t ← now
  pure (record l { id = e.new_uuid n; issued = pos (truncate t); content_id = content_id })

-- SignLicense
unfoldable pub sign_license : Env → License → Option License
sign_license e l = elim (e.sign l) [
  | none ↦ none
  | some signature ↦ some (record l { signature = some signature })
]

-- What buildLicense comes to: the license, an error because the content is not in the index, or
-- another error
pub data Built : Type 0 where
  built : License → Built
  no_content : Built
  build_error : Built

abbrev pub sha256_url : String
sha256_url = "http://www.w3.org/2001/04/xmlenc#sha256"

abbrev pub with_algorithm : License → License
with_algorithm l = record l {
  encryption = record l.encryption {
    user_key = record l.encryption.user_key { algorithm = sha256_url };
  };
}

abbrev pub updated_before : Option Time → Time → Bool
updated_before none t = true
updated_before (some u) t = before u t

-- The date of the last update of a license that is older than the certificate
unfoldable pub fix_update : Env → Bool → License → Option License
fix_update e updatefix l =
    if updatefix && not (str_eq e.config.cert_date "")
    then (elim (e.parse_date e.config.cert_date) [
      | none ↦ none
      | some date ↦ some (
          if before l.issued date && updated_before l.updated date
          then record l { updated = some date }
          else l)
    ])
    else some l

-- `if err != nil { return err }`
abbrev pub or_error : {A : Type 0} → Option A → (A → Exec Built) → Exec Built
or_error none k = pure build_error
or_error (some a) k = k a

abbrev pub or_no_content : {A : Type 0} → Option A → (A → Exec Built) → Exec Built
or_no_content none k = pure no_content
or_no_content (some a) k = k a

-- buildLicense
unfoldable pub build_license : Bool → License → Exec Built
unfolding set_license_profile set_license_links encrypt_license_fields fix_update sign_license
build_license updatefix lic = do
  e ← ask
  or_error (set_license_profile e.config.profile lic) λ lic1. do
    content ← get_content lic1.content_id
    or_no_content content λ c. or_error (set_license_links e (with_algorithm lic1) c) λ lic2. do
      fields ← encrypt_license_fields lic2 c
      or_error fields λ lic3.
          or_error (fix_update e updatefix lic3)
            λ lic4. or_error (sign_license e lic4) λ lic5. pure (built lic5)
