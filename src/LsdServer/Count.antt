-- ===== src/LsdServer/Count.antt =====
-- `LicenseCount`.
use readium_lcp_server.Prelude.{String, str_eq, Option, none, some, pos, if◌then◌else◌}
use readium_lcp_server.Time.{Time, truncate}
use readium_lcp_server.Status.{ready, active, expired, returned, revoked, cancelled}
use readium_lcp_server.Server.{Env, Reply, counted}
use readium_lcp_server.Server.Exec.{Exec, pure, or_500, ask, now, ◌>>=◌}
use readium_lcp_server.Stores.{count_statuses, count_with_status}

abbrev pub parsed_or : Option Time → Time → Time
parsed_or none default = default
parsed_or (some t) default = t

-- A date of the request; a text that cannot be parsed is logged, and the default stays.
abbrev pub date_or : Env → String → Time → Time
date_or e text default = if str_eq text "" then default else parsed_or (e.parse_time text) default

-- The seven queries
unfoldable pub count_licenses : Time → Time → Exec Reply
count_licenses from to = do
  result ← count_statuses from to
  n_total ← or_500 result
  result ← count_with_status ready from to
  n_ready ← or_500 result
  result ← count_with_status active from to
  n_active ← or_500 result
  result ← count_with_status expired from to
  n_expired ← or_500 result
  result ← count_with_status returned from to
  n_returned ← or_500 result
  result ← count_with_status revoked from to
  n_revoked ← or_500 result
  result ← count_with_status cancelled from to
  n_cancelled ← or_500 result
  pure (
      counted (record {
        total = n_total;
        ready = n_ready;
        active = n_active;
        expired = n_expired;
        returned = n_returned;
        revoked = n_revoked;
        cancelled = n_cancelled;
        from = from;
        to = to;
      }))

-- LicenseCount: by default, the last year
unfoldable pub license_count : String → String → Exec Reply
license_count from_text to_text = do
  e ← ask
  t ← now
  u ← now
  let from = date_or e from_text (pos (truncate (e.year_before t)))
  let to = date_or e to_text (pos (truncate u))
  count_licenses from to
