-- ===== src/Server.antt =====
-- What the two servers run on: their configuration, the machine's clock, the databases, the network
-- between them, and handlers as actions that may end early with a reply.
mod Problem
pub mod Exec
pub mod Keeps
pub mod Triple
pub mod Preserves
pub mod Views
pub use Problem.{
  ProblemType, untyped, license_not_found, server_internal_error, registration_bad_request,
  return_bad_request, return_expired, return_already, renew_bad_request, renew_reject,
  cancel_bad_request, filter_bad_request, error_type,
}
use readium_lcp_server.Prelude.{ℕ, String, Bool, Option, List, ℤ}
use readium_lcp_server.Time.{Time}
use readium_lcp_server.License.{License, LicenseReport, LicenseRow, Signature}
use readium_lcp_server.Index.{Content}
use readium_lcp_server.Crypto.Cbc.{Block}
use readium_lcp_server.Transactions.{Device, EventRow}
use readium_lcp_server.LicenseStatuses.{LicenseStatus, StatusRow}

-- config/config.go, as far as the handlers read it
pub record Config : Type 0 where
  pub register : Bool
  pub renew : Bool
  pub return : Bool
  pub renew_expired : Bool
  pub renew_from_now : Bool
  pub renting_days : ℤ
  pub renew_days : ℤ
  pub lsd_base_url : String
  pub license_link_url : String
  pub lcp_base_url : String
  pub renew_page_url : String
  pub renew_custom_url : String
  pub cert_date : String
  pub goofy_mode : Bool
  pub readonly : Bool
  pub profile : String
  pub license_links : List (String × String)
  pub storage_url : String
  pub user_data_url : String

-- What happens to a request that one server sends to the other: it is lost, it is answered, or it
-- is carried out and the answer is lost.
pub data Delivery : Type 0 where
  lost answered answer_lost : Delivery

-- What the library net/url does with a URL that it can parse: its scheme, and the URL with a path
-- that ends in a slash
pub record Url : Type 0 where
  pub scheme : String
  pub with_slash : String

-- The world outside of the code. The n-th call of the clock, of a database or the storage, of the
-- network and of the source of random bytes comes out as the functions say. `year_before` is
-- AddDate(-1, 0, 0), `parse_*` are time.Parse of RFC 3339 and of a date, `expand` is the library
-- uritemplates, `title` is cases.Title, `utf8` the bytes of a text, `base64` the encoding of bytes,
-- `sign` the package sign with the server's certificate, `new_cipher` is aes.NewCipher, `open_file` a
-- file by its path or URL, and `unzip` the entries of an archive by their names.
pub record Env : Type 0 where
  pub config : Config
  pub clock : ℕ → ℕ
  pub db_fails : ℕ → Bool
  pub network : ℕ → Delivery
  pub parse_time : String → Option Time
  pub parse_date : String → Option Time
  pub expand : String → String → String → Option String
  pub year_before : ℕ → ℕ
  pub parse_url : String → Option Url
  pub title : String → String
  pub utf8 : String → List ℕ
  pub base64 : List ℕ → String
  pub base64_decode : String → Option (List ℕ)
  pub new_uuid : ℕ → String
  pub random_iv : ℕ → List ℕ
  pub random_pad : ℕ → ℕ → ℕ
  pub new_cipher : List ℕ → Option Block
  pub sign : License → Option Signature
  pub open_file : String → Option (List ℕ)
  pub unzip : List ℕ → Option (List (String × List ℕ))

-- The tables of both servers, and the storage of the License Server by keys
pub record Tables : Type 0 where
  pub statuses : List StatusRow
  pub events : List EventRow
  pub licenses : List LicenseRow
  pub contents : List Content
  pub files : List (String × List ℕ)

-- The tables, and how often each part of the environment was used.
pub record World : Type 0 where
  pub tables : Tables
  pub clock_reads : ℕ
  pub db_calls : ℕ
  pub requests : ℕ
  pub draws : ℕ

-- A link of the header `Link` of a list of license statuses
pub record PageLink : Type 0 where
  pub rel : String
  pub devices : ℕ
  pub page : ℕ
  pub per_page : ℕ

pub record LicenseCount : Type 0 where
  pub total : ℕ
  pub ready : ℕ
  pub active : ℕ
  pub expired : ℕ
  pub returned : ℕ
  pub revoked : ℕ
  pub cancelled : ℕ
  pub from : Time
  pub to : Time

-- A link of the header `Link` of a list of licenses: its relation, and the page that it names
pub record ListLink : Type 0 where
  pub rel : String
  pub page : ℕ

-- A protected publication: the entries of the archive, and the entry of the license
pub record Publication : Type 0 where
  pub entries : List (String × List ℕ)
  pub license_path : String
  pub license : License

-- A response: an error document, a status code alone, or a body with status 200. `panic` stands
-- for a run-time error in the handler before anything was written: the middleware Recovery of negroni,
-- which the router of both servers installs, answers with status 500 and the stack.
pub data Reply : Type 0 where
  problem : ProblemType → ℕ → Reply
  status_only : ℕ → Reply
  document : LicenseStatus → Reply
  device_list : String → List Device → Reply
  status_list : List LicenseStatus → List PageLink → Reply
  counted : LicenseCount → Reply
  license : ℕ → License → Reply
  reports : List LicenseReport → List ListLink → Reply
  total : ℕ → Time → Time → Reply
  content_info : Content → Reply
  content_list : List Content → Reply
  content_file : String → String → ℤ → List ℕ → Reply
  publication : String → Publication → Reply
  panic : Reply

-- The status code that the client reads
abbrev pub code : Reply → ℕ
code (problem t n) = n
code (status_only n) = n
code (document ls) = 200
code (device_list ref ds) = 200
code (status_list ls links) = 200
code (counted c) = 200
code (license status l) = status
code (reports ls links) = 200
code (total n from to) = 200
code (content_info c) = 200
code (content_list cs) = 200
code (content_file name type length bytes) = 200
code (publication name p) = 201
code panic = 500

-- problem.Error
abbrev pub problem_error : ProblemType → ℕ → Reply
problem_error t status = problem (error_type t status) status
