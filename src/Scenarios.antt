-- ===== src/Scenarios.antt =====
-- Sample data and runs: a configuration, a license on loan, and requests.
mod Examples
mod Requests
mod Ciphers
mod Lending
mod Serving
mod Packages
use readium_lcp_server.Prelude.{
  ℕ, suc, ◌+◌, ◌*◌, String, Bool, true, false, Option, none, some, List, [], ◌∷◌, pos,
}
use readium_lcp_server.Time.{Time, second}
use readium_lcp_server.License.{License, LicenseRow, UserRights, no_rights, new_user, new_license}
use readium_lcp_server.Transactions.{Event, EventRow}
use readium_lcp_server.LicenseStatuses.{Columns, StatusRow, LicenseStatus}
use readium_lcp_server.Status.{Status}
use readium_lcp_server.LicenseStatuses.Rows.{new_row}
use readium_lcp_server.Server.{Config, Env, World, Tables, answered}
use readium_lcp_server.LsdServer.Common.{Request}

abbrev pub sample_config : Config
sample_config = record {
  register = true;
  renew = true;
  return = true;
  renew_expired = true;
  renew_from_now = false;
  renting_days = pos 30;
  renew_days = pos 7;
  lsd_base_url = "https://lsd";
  license_link_url = "";
  lcp_base_url = "https://lcp";
  renew_page_url = "";
  renew_custom_url = "";
  cert_date = "";
  goofy_mode = false;
  readonly = false;
  profile = "basic";
  license_links = ("status", "https://lsd/{license_id}") ∷ [];
  storage_url = "https://files";
  user_data_url = "";
}

-- Nothing fails, and a second passes between two readings of the clock.
abbrev pub sample_env : Env
sample_env = record {
  config = sample_config;
  clock = λ n. (1000 + n) * second;
  db_fails = λ n. false;
  network = λ n. answered;
  parse_time = λ s. none;
  parse_date = λ s. none;
  expand = λ template variable value. none;
  year_before = λ t. 0;
  parse_url = λ s. some (record { scheme = ""; with_slash = "https://files/" });
  title = λ s. s;
  utf8 = λ s. [];
  base64 = λ bytes. "";
  base64_decode = λ s. none;
  new_uuid = λ n. "L2";
  random_iv = λ n. [];
  random_pad = λ n left. 1;
  new_cipher = λ key. none;
  sign = λ l. none;
  open_file = λ path. none;
  unzip = λ bytes. none;
}

abbrev pub day : ℕ
day = 86_400 * second

abbrev pub loan_end : Time
loan_end = pos (2 * day)

abbrev pub loan : License
loan = record new_license {
  provider = "https://provider";
  id = "L1";
  issued = pos second;
  updated = none;
  user = new_user "U1";
  rights = some (record no_rights { end = some loan_end });
  content_id = "C1";
}

abbrev pub loan_row : LicenseRow
loan_row = record {
  id = "L1";
  user_id = "U1";
  provider = "https://provider";
  issued = pos second;
  updated = none;
  rights = record no_rights { end = some loan_end };
  content_fk = "C1";
  lsd_status = pos 0;
}

-- The columns of the loan's license status, for an encoded status
abbrev pub sample_columns : ℕ → Columns
sample_columns status = record {
  status = pos status;
  license_updated = pos second;
  status_updated = pos second;
  device_count = some (pos 0);
  potential_rights_end = some (pos (30 * day));
  rights_end = some loan_end;
}

abbrev pub sample_row : ℕ → StatusRow
sample_row status = new_row (sample_columns status) "L1" []

abbrev pub sample_world : ℕ → World
sample_world status = record {
  tables = record {
    statuses = sample_row status ∷ [];
    events = [];
    licenses = loan_row ∷ [];
    contents = [];
    files = [];
  };
  clock_reads = 0;
  db_calls = 0;
  requests = 0;
  draws = 0;
}

abbrev pub no_statuses : World
no_statuses = record {
  tables = record {
    statuses = [];
    events = [];
    licenses = loan_row ∷ [];
    contents = [];
    files = [];
  };
  clock_reads = 0;
  db_calls = 0;
  requests = 0;
  draws = 0;
}

-- A license status in memory
abbrev pub sample_status : Status → LicenseStatus
sample_status s = record {
  id = 1;
  license_ref = "L1";
  status = s;
  updated = record { license = some (pos second); status = some (pos second) };
  message = "";
  links = [];
  device_count = some (pos 0);
  potential_rights = none;
  events = [];
  current_end_license = some loan_end;
}

abbrev pub sample_request : Request
sample_request = record { license_id = "L1"; device_id = "D1"; device_name = "reader"; end = "" }
