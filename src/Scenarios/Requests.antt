-- ===== src/Scenarios/Requests.antt =====
-- The theorems on one request, applied to the sample data.
use readium_lcp_server.Prelude.{true, ◌≡◌, refl, some, wrap64, ◌+ℤ◌, ◌*ℤ◌}
use readium_lcp_server.Status.{revoked, status_values}
use readium_lcp_server.Status.Codec.{
  get_status, set_status, format_int, low_digits, pick_status, index_one, parse_int, parse_from,
}
use readium_lcp_server.Transactions.{insert_event, select_events}
use readium_lcp_server.License.{select_license, update_licenses}
use readium_lcp_server.LicenseServer.{update_license, merge, new_rights}
use readium_lcp_server.LicenseStatuses.{StatusRow, select_id, select_ref, update_rows, scan_status}
use readium_lcp_server.Server.{code}
use readium_lcp_server.Server.Exec.{pure, reply, db_call, ◌>>=◌, guard, or_500, ask, now, serve}
use readium_lcp_server.Stores.{
  get_by_license_id, update, add_status, add_event, events_of, get_license, update_license_row,
}
use readium_lcp_server.LsdServer.Common.{
  found_or_error, fetch, save, make_event, record_event, deliver, update_request, accepted,
  fill_license_status, respond,
}
use readium_lcp_server.LsdServer.Register.{register_device}
use readium_lcp_server.LsdServer.Return.{lending_return, returned_status}
use readium_lcp_server.LsdServer.Renew.{
  lending_renewal, renew_until, suggested_end, configured_end, extension_start, require_time,
  parsed,
}
use readium_lcp_server.LsdServer.Extend.{extend_subscription, max_end}
use readium_lcp_server.LsdServer.Cancel.{lending_cancellation, decoded}
use readium_lcp_server.Time.{days_duration, add}
use readium_lcp_server.Renewal.{Kept}
use readium_lcp_server.Renewal.Within.{renewal_within, extension_within}
use readium_lcp_server.Creation.{created, IsNew}
use readium_lcp_server.Registry.Refused.{is_refusal, refused_unchanged}
use readium_lcp_server.LsdServer.Document.{
  create_license_status_document, make_license_status, potential_rights,
}
use readium_lcp_server.Agreement.{is_success, Agrees}
use readium_lcp_server.Agreement.Handlers.{lending_return-Agrees, lending_cancellation-Agrees}
use readium_lcp_server.Agreement.Renewals.{extend_subscription-Agrees, lending_renewal-Agrees}
use readium_lcp_server.Scenarios.{
  sample_env, sample_world, sample_row, sample_request, loan_row, loan, no_statuses,
}

return_succeeds :
    is_success (serve (lending_return sample_request) sample_env (sample_world 2)).0 ≡ true
unfolding lending_return fetch get_by_license_id found_or_error scan_status select_ref select_id
    get_status format_int low_digits pick_status index_one status_values guard returned_status
    make_event record_event add_event insert_event update_request deliver update_license get_license
    select_license merge new_rights update_license_row update_licenses accepted save update
    set_status parse_int parse_from update_rows respond fill_license_status events_of select_events
    pure reply db_call ◌>>=◌ or_500 ask now
return_succeeds = refl

lending_return-Agrees_example :
    Agrees "L1" (serve (lending_return sample_request) sample_env (sample_world 2)).1.tables
lending_return-Agrees_example =
    lending_return-Agrees sample_env sample_request (sample_world 2) return_succeeds

cancellation_succeeds :
    is_success
      (serve (lending_cancellation sample_request (some revoked)) sample_env (sample_world 2)).0
    ≡ true
unfolding lending_cancellation decoded fetch get_by_license_id found_or_error scan_status select_ref
    select_id get_status format_int low_digits pick_status index_one status_values guard make_event
    record_event add_event insert_event update_request deliver update_license get_license
    select_license merge new_rights update_license_row update_licenses accepted save update
    set_status parse_int parse_from update_rows respond fill_license_status events_of select_events
    pure reply db_call ◌>>=◌ or_500 ask now
cancellation_succeeds = refl

lending_cancellation-Agrees_example :
    Agrees "L1"
      (serve
        (lending_cancellation sample_request (some revoked))
        sample_env
        (sample_world 2)).1.tables
lending_cancellation-Agrees_example =
    lending_cancellation-Agrees sample_env sample_request (some revoked) (sample_world 2)
      cancellation_succeeds

extension_succeeds :
    is_success (serve (extend_subscription sample_request) sample_env (sample_world 32)).0 ≡ true
unfolding extend_subscription max_end renew_until suggested_end configured_end extension_start
    require_time parsed days_duration add wrap64 ◌+ℤ◌ ◌*ℤ◌ fetch get_by_license_id found_or_error
    scan_status select_ref select_id get_status format_int low_digits pick_status index_one
    status_values guard make_event record_event add_event insert_event update_request deliver
    update_license get_license select_license merge new_rights update_license_row update_licenses
    accepted save update set_status parse_int parse_from update_rows respond fill_license_status
    events_of select_events pure reply db_call ◌>>=◌ or_500 ask now
extension_succeeds = refl

extend_subscription-Agrees_example :
    Agrees "L1" (serve (extend_subscription sample_request) sample_env (sample_world 32)).1.tables
extend_subscription-Agrees_example =
    extend_subscription-Agrees sample_env sample_request (sample_world 32) extension_succeeds

renewal_succeeds :
    is_success (serve (lending_renewal sample_request) sample_env (sample_world 2)).0 ≡ true
unfolding lending_renewal renew_until suggested_end configured_end extension_start require_time
    parsed days_duration add wrap64 ◌+ℤ◌ ◌*ℤ◌ fetch get_by_license_id found_or_error scan_status
    select_ref select_id get_status format_int low_digits pick_status index_one status_values guard
    make_event record_event add_event insert_event update_request deliver update_license get_license
    select_license merge new_rights update_license_row update_licenses accepted save update
    set_status parse_int parse_from update_rows respond fill_license_status events_of select_events
    pure reply db_call ◌>>=◌ or_500 ask now
renewal_succeeds = refl

sample-Agrees : Agrees "L1" (sample_world 2).tables
unfolding select_ref select_license
sample-Agrees = (sample_row 2, refl, (loan_row, refl, refl))

lending_renewal-Agrees_example :
    Agrees "L1" (serve (lending_renewal sample_request) sample_env (sample_world 2)).1.tables
lending_renewal-Agrees_example =
    lending_renewal-Agrees sample_env sample_request (sample_world 2) sample-Agrees renewal_succeeds

renewal_within_example :
    Kept "L1"
      (sample_row 2)
      (serve (lending_renewal sample_request) sample_env (sample_world 2)).1.tables.statuses
unfolding select_ref
renewal_within_example =
    renewal_within sample_env sample_request (sample_world 2) (sample_row 2) refl

extension_within_example :
    Kept "L1"
      (sample_row 32)
      (serve (extend_subscription sample_request) sample_env (sample_world 32)).1.tables.statuses
unfolding select_ref
extension_within_example =
    extension_within sample_env sample_request (sample_world 32) (sample_row 32) refl

creation_succeeds :
    code (serve (create_license_status_document (some loan)) sample_env no_statuses).0 ≡ 201
unfolding create_license_status_document add_status make_license_status potential_rights
    days_duration add wrap64 ◌+ℤ◌ ◌*ℤ◌ set_status parse_int parse_from status_values pure reply
    db_call ◌>>=◌ or_500 ask now
creation_succeeds = refl

created_example :
    (s : StatusRow) × (select_ref "L1"
        (serve
          (create_license_status_document (some loan))
          sample_env
          no_statuses).1.tables.statuses
      ≡ some s)
    × IsNew sample_env.config loan s
unfolding select_ref
created_example = created sample_env loan no_statuses refl creation_succeeds

registration_refused :
    is_refusal (serve (register_device sample_request) sample_env (sample_world 8)).0 ≡ true
unfolding register_device fetch get_by_license_id found_or_error scan_status select_ref select_id
    get_status format_int low_digits pick_status index_one status_values guard make_event
    record_event add_event insert_event update_request deliver update_license get_license
    select_license merge new_rights update_license_row update_licenses accepted save update
    set_status parse_int parse_from update_rows respond fill_license_status events_of select_events
    pure reply db_call ◌>>=◌ or_500 ask now
registration_refused = refl

refused_unchanged_example :
    (serve (register_device sample_request) sample_env (sample_world 8)).1.tables
    ≡ (sample_world 8).tables
refused_unchanged_example =
    refused_unchanged sample_env sample_request (sample_world 8) registration_refused
