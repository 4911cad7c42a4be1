-- ===== src/Scenarios/Examples.antt =====
-- The theorems applied to the sample data, and tests of the handlers.
use readium_lcp_server.Prelude.{
  ℕ, ◌≤◌, true, ◌≡◌, refl, some, List, [], ◌∷◌, ◌++◌, map, ◌⊎◌, pos, negsuc, arith,
}
use readium_lcp_server.Status.{Status, ready, active, revoked, status_values}
use readium_lcp_server.Status.Codec.{
  get_status, set_status, format_int, low_digits, pick_status, index_one, parse_int, parse_from,
}
use readium_lcp_server.Status.Codec.Bits.{get_status-eq-decode, get-set_status, decode}
use readium_lcp_server.Transactions.{EventRow}
use readium_lcp_server.LicenseStatuses.{StatusRow, Link, select_id, insert_row}
use readium_lcp_server.LicenseStatuses.Rows.{IsKeyed, IsKeyed-empty, IsKeyed-insert_row}
use readium_lcp_server.Server.Exec.{pure, reply, db_call, ◌>>=◌, or_500, ask, now, serve}
use readium_lcp_server.LsdServer.Return.{returned_status}
use readium_lcp_server.LsdServer.Renew.{is_renewable}
use readium_lcp_server.LsdServer.Routes.{Call, register, return, renew, run}
use readium_lcp_server.Lifecycle.{Writes, ◌⟶◌}
use readium_lcp_server.Lifecycle.Runs.{diagram_followed, closed_final}
use readium_lcp_server.Offers.{return_offer_kept, renew_offer_kept, closed_offers}
use readium_lcp_server.LsdServer.Links.{make_links, license_link, renew_link}
use readium_lcp_server.Registry.Appended.{events_only_appended}
use readium_lcp_server.Registry.Once.{registered_once, registrations, IsRegister}
use readium_lcp_server.LicenseStatuses.Queries.{count_between, count_status}
use readium_lcp_server.Server.{LicenseCount, counted}
use readium_lcp_server.Stores.{count_statuses, count_with_status}
use readium_lcp_server.LsdServer.Count.{license_count, count_licenses}
use readium_lcp_server.Listing.Counts.{counts_add_up}
use readium_lcp_server.Time.{second}
use readium_lcp_server.Prelude.{◌+◌, ◌*◌}
use readium_lcp_server.Scenarios.{
  sample_env, sample_world, sample_row, sample_columns, sample_request, sample_status,
}

sample-IsKeyed : (status : ℕ) → IsKeyed (sample_world status).tables.statuses
unfolding insert_row
sample-IsKeyed status = IsKeyed-insert_row (sample_columns status) "L1" [] IsKeyed-empty

abbrev sample_calls : List Call
sample_calls = register sample_request ∷ renew sample_request ∷ return sample_request ∷ []

closed_final_example :
    select_id 1 (run sample_env sample_calls (sample_world 8)).tables.statuses ≡ some (sample_row 8)
unfolding select_id get_status format_int low_digits pick_status index_one status_values
closed_final_example =
    closed_final sample_env sample_calls (sample_world 8) 1 (sample_row 8) (sample-IsKeyed 8) refl
      refl

diagram_followed_example :
    (r : StatusRow) × (select_id 1 (run sample_env sample_calls (sample_world 1)).tables.statuses
      ≡ some r)
    × Writes (sample_row 1) r
unfolding select_id
diagram_followed_example =
    diagram_followed sample_env sample_calls (sample_world 1) 1 (sample_row 1) (sample-IsKeyed 1)
      refl

events_only_appended_example :
    (added : List EventRow) × ((run sample_env sample_calls (sample_world 1)).tables.events
      ≡ [] ++ added)
events_only_appended_example = events_only_appended sample_env sample_calls (sample_world 1)

no_events : IsRegister []
no_events = record { named = tt; once = λ fk device. omega arith }

registered_once_example :
    registrations 1 "D1" (run sample_env sample_calls (sample_world 0)).tables.events ≤ 1
registered_once_example = registered_once sample_env sample_calls (sample_world 0) no_events 1 "D1"

get_status-eq-decode_example : get_status (negsuc 7) active ≡ decode 8 active
get_status-eq-decode_example = get_status-eq-decode (negsuc 7) active (omega arith)

get-set_status_example :
    (n : ℕ) × (set_status revoked ≡ some n) × (get_status (pos n) active ≡ revoked)
get-set_status_example = get-set_status revoked active

return_offer_kept_example : (s : Status) × (returned_status active ≡ pure s) × (active ⟶ s)
unfolding make_links license_link renew_link
return_offer_kept_example = return_offer_kept sample_env (sample_status active) refl

renew_offer_kept_example : (is_renewable sample_env.config active ≡ true) ⊎ (active ≡ ready)
unfolding make_links license_link renew_link
renew_offer_kept_example = renew_offer_kept sample_env (sample_status active) refl

closed_offers_example :
    map (λ (l : Link). l.rel) (make_links sample_env (sample_status revoked))
    ≡ "self" ∷ "license" ∷ []
closed_offers_example = closed_offers sample_env (sample_status revoked) refl

abbrev sample_count : LicenseCount
sample_count = record {
  total = 1;
  ready = 0;
  active = 1;
  expired = 0;
  returned = 0;
  revoked = 0;
  cancelled = 0;
  from = pos 0;
  to = pos (1001 * second);
}

count_answered : (serve (license_count "" "") sample_env (sample_world 2)).0 ≡ counted sample_count
unfolding license_count count_licenses count_statuses count_with_status count_between count_status
    set_status parse_int parse_from status_values pure reply db_call ◌>>=◌ or_500 ask now
count_answered = refl

counts_add_up_example : 0 + 1 + 0 + 0 + 0 + 0 ≤ 1
counts_add_up_example = counts_add_up sample_env "" "" (sample_world 2) sample_count count_answered

-- Three rows, one of which has no device
abbrev three_rows : List StatusRow
three_rows =
    record (sample_row 1) { id = 1; device_count = some (pos 2) }
    ∷ record (sample_row 1) { id = 2 }
    ∷ record (sample_row 1) { id = 3; device_count = some (pos 1) }
    ∷ []
