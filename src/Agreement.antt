-- ===== src/Agreement.antt =====
-- The two servers' views of one license: when a handler of the License Status Server that sends a
-- PATCH request reports success, both tables give the license the same end.
pub mod Refusals
pub mod Patch
pub mod Saved
pub mod Handlers
pub mod Renewals
use readium_lcp_server.Prelude.{ℕ, String, Bool, false, ◌≡◌, ◌||◌, ◌==◌, Option, none, some, List}
use readium_lcp_server.Time.{Time}
use readium_lcp_server.License.{LicenseRow, select_license}
use readium_lcp_server.LicenseStatuses.{LicenseStatus, StatusRow, select_ref}
use readium_lcp_server.Server.{Tables, Reply, code}
use readium_lcp_server.LicenseServer.{new_time}

-- The codes that `updateLicense`'s callers take as a success: 200 and 206.
abbrev pub success_code : ℕ → Bool
success_code n = n == 200 || n == 206

abbrev pub is_success : Reply → Bool
is_success r = success_code (code r)

-- The outcome of a PATCH request that `accepted` lets pass
abbrev pub is_accepted : Option ℕ → Bool
is_accepted none = false
is_accepted (some n) = success_code n

-- The License Server's row has the end that a PATCH request with the end `t` gives it: the zero
-- time stands for no end.
abbrev pub Ended : String → Option Time → List LicenseRow → Type 0
Ended id t rows =
    (l : LicenseRow) × (select_license id rows ≡ some l) × (l.rights.end ≡ new_time t none)

-- Both tables have the license, with the same end.
abbrev pub Agrees : String → Tables → Type 0
Agrees id u =
    (s : StatusRow) × (select_ref id u.statuses ≡ some s) × Ended id s.rights_end u.licenses

-- A license status is that of the row that a look-up by the license's id finds.
abbrev pub At : String → LicenseStatus → List StatusRow → Type 0
At ref ls rows = (r : StatusRow) × (select_ref ref rows ≡ some r) × (r.id ≡ ls.id)
