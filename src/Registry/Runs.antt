-- ===== src/Registry/Runs.antt =====
-- Invariants of the events, over all runs of the server.
use readium_lcp_server.Prelude.{String, ◌≡◌, refl, Option, none, some, List, [], ◌∷◌, str_eq, pos}
use readium_lcp_server.Time.{truncate}
use readium_lcp_server.License.{License}
use readium_lcp_server.Transactions.{EventRow}
use readium_lcp_server.LicenseStatuses.{LicenseStatus, StatusRow, Columns}
use readium_lcp_server.Server.{Env, World, Tables, Reply}
use readium_lcp_server.Server.Exec.{Exec, Result, ok, stop}
use readium_lcp_server.Server.Triple.{Post}
use readium_lcp_server.Server.Keeps.{
  Keeps, Keeps-pure, Keeps-reply, Keeps-if, Keeps-or_500, Keeps-bind, Keeps-ask, Keeps-now,
  Keeps-db_call,
}
use readium_lcp_server.Stores.{add_status, run_add}
use readium_lcp_server.LsdServer.Keeps.{Keeps-respond, Keeps-devices_of, Keeps-fetch, Keeps-save}
use readium_lcp_server.LsdServer.Keeps.Queries.{Keeps-filter_license_statuses, Keeps-license_count}
use readium_lcp_server.LsdServer.Common.{Request}
use readium_lcp_server.LsdServer.Document.{
  create_license_status_document, get_license_status_document, list_registered_devices, expire,
  has_expired,
}
use readium_lcp_server.LsdServer.Routes.{
  Call, list_all, count_all, create, get_status, list_registered, register, return, renew, cancel,
  extend, private, writable, handle, run,
}
use readium_lcp_server.Registry.{IsInvariant}
use readium_lcp_server.Registry.Steps.{Safe, Safe-Keeps, Safe-if, after_quiet}
use readium_lcp_server.Registry.Handlers.{
  register_device-Safe, lending_return-Safe, lending_renewal-Safe, extend_subscription-Safe,
  lending_cancellation-Safe,
}

-- The requests that write no event
module _ {X : Type 0} {view : Tables → X}
    (h : (t : Tables) (rows : List StatusRow) → view (record t { statuses = rows }) ≡ view t) where
  run_add-Keeps :
      (ref : String) (c : Option Columns) (t : Tables) → view (run_add ref c t).1 ≡ view t
  run_add-Keeps ref none t = refl
  run_add-Keeps ref (some c) t = h t _

  pub create-Keeps : (body : Option License) → Keeps view (create_license_status_document body)
  unfolding create_license_status_document add_status
  create-Keeps none = Keeps-reply _
  create-Keeps (some lic) = Keeps-bind Keeps-ask λ e. Keeps-bind Keeps-now λ t.
      Keeps-bind (Keeps-db_call _ (run_add-Keeps _ _))
        λ res. Keeps-bind (Keeps-or_500 res) λ _. Keeps-pure _

  expire-Keeps : (ls : LicenseStatus) → Keeps view (expire ls)
  unfolding expire
  expire-Keeps ls = Keeps-bind Keeps-now λ t. Keeps-bind (Keeps-save h _) λ _. Keeps-pure _

  pub get_status-Keeps : (r : Request) → Keeps view (get_license_status_document r)
  unfolding get_license_status_document
  get_status-Keeps r = Keeps-bind (Keeps-fetch _) λ ls. Keeps-bind Keeps-now λ t.
      Keeps-bind (Keeps-if (has_expired (pos (truncate t)) ls) (expire-Keeps ls) (Keeps-pure _))
        λ ls'. Keeps-respond ls'

pub list_registered-Keeps :
    {X : Type 0} {view : Tables → X} (r : Request) → Keeps view (list_registered_devices r)
unfolding list_registered_devices
list_registered-Keeps r =
    Keeps-bind (Keeps-fetch _) λ ls. Keeps-bind (Keeps-devices_of _) λ res. Keeps-pure _

module _ {e : Env} {I : List EventRow → Type 0} where
  private-Safe :
      (user : String) (handler : Exec Reply) → Safe e I handler → Safe e I (private user handler)
  unfolding private
  private-Safe user handler h = Safe-if (str_eq user "") (Safe-Keeps (Keeps-reply _)) h

  writable-Safe :
      (absent : Reply) (handler : Exec Reply)
      → Safe e I handler
      → Safe e I (writable absent handler)
  unfolding writable
  writable-Safe absent handler h =
      after_quiet Keeps-ask λ e'. Safe-if e'.config.readonly (Safe-Keeps (Keeps-reply _)) h

  handle-Safe : IsInvariant I → (c : Call) → Safe e I (handle c)
  unfolding handle
  handle-Safe inv (create user body) =
      writable-Safe _ _ (private-Safe user _ (Safe-Keeps (create-Keeps (λ t rows. refl) body)))
  handle-Safe inv (get_status r) = Safe-Keeps (get_status-Keeps (λ t rows. refl) r)
  handle-Safe inv (list_registered user r) =
      private-Safe user _ (Safe-Keeps (list_registered-Keeps r))
  handle-Safe inv (list_all user f) =
      private-Safe user _ (Safe-Keeps (Keeps-filter_license_statuses f))
  handle-Safe inv (count_all user from to) =
      private-Safe user _ (Safe-Keeps (Keeps-license_count from to))
  handle-Safe inv (register r) = writable-Safe _ _ (register_device-Safe inv r)
  handle-Safe inv (return r) = writable-Safe _ _ (lending_return-Safe inv r)
  handle-Safe inv (renew r) = writable-Safe _ _ (lending_renewal-Safe inv r)
  handle-Safe inv (cancel user r body) =
      writable-Safe _ _ (private-Safe user _ (lending_cancellation-Safe inv r body))
  handle-Safe inv (extend user r) =
      writable-Safe _ _ (private-Safe user _ (extend_subscription-Safe inv r))

served :
    (I : List EventRow → Type 0) (r : Result Reply) (w : World)
    → Post (λ _ t. I t.events) (λ _ t. I t.events) r w.tables
    → I w.tables.events
served I (ok a) w h = h
served I (stop r) w h = h

-- An invariant of the events holds after any requests.
pub run-invariant :
    {I : List EventRow → Type 0} (inv : IsInvariant I) (e : Env) (calls : List Call) (w : World)
    → I w.tables.events
    → I (run e calls w).tables.events
unfolding run
run-invariant inv e [] w h = h
run-invariant {I} inv e (c ∷ cs) w h =
    let (r, w') = handle c e w in
    run-invariant inv e cs w' (served I r w' ((handle-Safe inv c).triple.at w h))
