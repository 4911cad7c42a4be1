-- ===== src/Server/Problem.antt =====
-- problem/problem.go: the types of an error document. Title, detail and instance are texts for the
-- reader, and are not modelled.
use readium_lcp_server.Prelude.{ℕ, ◌==◌, if◌then◌else◌}

pub data ProblemType : Type 0 where
  untyped license_not_found server_internal_error registration_bad_request : ProblemType
  return_bad_request return_expired return_already renew_bad_request : ProblemType
  renew_reject cancel_bad_request filter_bad_request : ProblemType

-- The type that `Error` puts in the document.
abbrev pub error_type : ProblemType → ℕ → ProblemType
error_type untyped status = if status == 500 then server_internal_error else untyped
error_type t status = t
