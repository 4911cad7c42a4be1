-- ===== src/LsdServer/Keeps/Queries.antt =====
-- The handlers that query the whole table of license statuses change nothing.
use readium_lcp_server.Prelude.{ℕ, ℤ, String, ◌≡◌, refl, ap, Option, none, some}
use readium_lcp_server.Time.{Time}
use readium_lcp_server.Status.{Status, ready, active, revoked, returned, cancelled, expired}
use readium_lcp_server.Status.Codec.{set_status}
use readium_lcp_server.Server.{Tables}
use readium_lcp_server.Server.Exec.{Exec, or_500, ◌>>=◌}
use readium_lcp_server.Server.Keeps.{
  Keeps, Keeps-pure, Keeps-reply, Keeps-db_call, Keeps-or_500, Keeps-bind, Keeps-guard, Keeps-ask,
  Keeps-now,
}
use readium_lcp_server.Stores.{list_statuses, count_statuses, count_with_status, run_count}
use readium_lcp_server.LsdServer.Filter.{Filter, number, list_page, filter_license_statuses}
use readium_lcp_server.LsdServer.Count.{count_licenses, license_count}

run_count_tables : (n : Option ℕ) (from to : Time) (t : Tables) → (run_count n from to t).1 ≡ t
run_count_tables none from to t = refl
run_count_tables (some n) from to t = refl

module _ {X : Type 0} {view : Tables → X} where
  Keeps-number : (n : Option ℤ) → Keeps view (number n)
  unfolding number
  Keeps-number none = Keeps-reply _
  Keeps-number (some n) = Keeps-pure n

  Keeps-list_page : (devices page per_page : ℕ) → Keeps view (list_page devices page per_page)
  unfolding list_page list_statuses
  Keeps-list_page devices page per_page = Keeps-bind (Keeps-db_call _ (λ t. refl)) λ r. Keeps-pure _

  pub Keeps-filter_license_statuses : (f : Filter) → Keeps view (filter_license_statuses f)
  unfolding filter_license_statuses
  Keeps-filter_license_statuses f = Keeps-bind (Keeps-number _) λ devices.
      Keeps-bind (Keeps-number _) λ page.
        Keeps-bind (Keeps-number _)
          λ per_page. Keeps-bind (Keeps-guard _ _ _) λ _. Keeps-list_page _ _ _

  counting :
      {B : Type 0} (s : Status) (from to : Time) {f : ℕ → Exec B}
      → ((n : ℕ) → Keeps view (f n))
      → Keeps view (do result ← count_with_status s from to; n ← or_500 result; f n)
  unfolding count_with_status
  counting s from to h =
      Keeps-bind (Keeps-db_call _ (λ t. ap view (run_count_tables (set_status s) from to t)))
        λ r. Keeps-bind (Keeps-or_500 r) h

  Keeps-count_licenses : (from to : Time) → Keeps view (count_licenses from to)
  unfolding count_licenses count_statuses
  Keeps-count_licenses from to = Keeps-bind (Keeps-db_call _ (λ t. refl)) λ r.
      Keeps-bind (Keeps-or_500 r) λ _. counting ready from to λ _. counting active from to λ _.
        counting expired from to λ _.
          counting returned from to
            λ _. counting revoked from to λ _. counting cancelled from to λ _. Keeps-pure _

  pub Keeps-license_count : (from to : String) → Keeps view (license_count from to)
  unfolding license_count
  Keeps-license_count from to =
      Keeps-bind Keeps-ask
        λ e. Keeps-bind Keeps-now λ t. Keeps-bind Keeps-now λ u. Keeps-count_licenses _ _
