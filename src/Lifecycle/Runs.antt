-- ===== src/Lifecycle/Runs.antt =====
-- What holds of the table after any sequence of requests.
use readium_lcp_server.Prelude.{ℕ, ◌≡◌, refl, ap, String, true, some, List, [], ◌∷◌, str_eq, ◌∙◌}
use readium_lcp_server.Status.{Status}
use readium_lcp_server.LicenseStatuses.{StatusRow, select_id}
use readium_lcp_server.LicenseStatuses.Rows.{IsKeyed}
use readium_lcp_server.Server.{Env, World, Reply}
use readium_lcp_server.Server.Exec.{Exec, Result, ok, stop}
use readium_lcp_server.Server.Triple.{Post}
use readium_lcp_server.LsdServer.Routes.{
  Call, list_all, count_all, create, get_status, list_registered, register, return, renew, cancel,
  extend, private, writable, handle, run,
}
use readium_lcp_server.LsdServer.Extend.{is_closed}
use readium_lcp_server.Lifecycle.{
  ◌⟶◌, activate, cancel as cancel_edge, give_back, give_back_late, revoke, expire_unused, expire,
  prolong, reactivate, repair, Writes, untouched, written, Evolution, Evolution-refl, row_status,
}
use readium_lcp_server.Server.Keeps.{Keeps-ask, Keeps-reply}
use readium_lcp_server.LsdServer.Keeps.Queries.{Keeps-filter_license_statuses, Keeps-license_count}
use readium_lcp_server.Lifecycle.Steps.{Evolves}
use readium_lcp_server.Lifecycle.Rules.{Evolves-if, then_quiet, finally}
use readium_lcp_server.Lifecycle.Handlers.{
  create_license_status_document-Evolves, get_license_status_document-Evolves,
  list_registered_devices-Evolves, register_device-Evolves, lending_return-Evolves,
  lending_renewal-Evolves, lending_cancellation-Evolves, extend_subscription-Evolves,
}

module _ {e : Env} {old : List StatusRow} where
  private-Evolves :
      (user : String) (handler : Exec Reply)
      → Evolves e old (Evolution old) handler (λ _. Evolution old)
      → Evolves e old (Evolution old) (private user handler) (λ _. Evolution old)
  unfolding private
  private-Evolves user handler h =
      Evolves-if (str_eq user "") (λ _. finally (λ rows ev. ev) (Keeps-reply _)) (λ _. h)

  writable-Evolves :
      (absent : Reply) (handler : Exec Reply)
      → Evolves e old (Evolution old) handler (λ _. Evolution old)
      → Evolves e old (Evolution old) (writable absent handler) (λ _. Evolution old)
  unfolding writable
  writable-Evolves absent handler h =
      then_quiet (λ rows ev. ev) Keeps-ask
        λ e'. Evolves-if e'.config.readonly (λ _. finally (λ rows ev. ev) (Keeps-reply _)) (λ _. h)

  handle-Evolves : (c : Call) → Evolves e old (Evolution old) (handle c) (λ _. Evolution old)
  unfolding handle
  handle-Evolves (create user body) =
      writable-Evolves _ _ (private-Evolves user _ (create_license_status_document-Evolves body))
  handle-Evolves (get_status r) = get_license_status_document-Evolves r
  handle-Evolves (list_registered user r) =
      private-Evolves user _ (list_registered_devices-Evolves r)
  handle-Evolves (list_all user f) =
      private-Evolves user _ (finally (λ rows ev. ev) (Keeps-filter_license_statuses f))
  handle-Evolves (count_all user from to) =
      private-Evolves user _ (finally (λ rows ev. ev) (Keeps-license_count from to))
  handle-Evolves (register r) = writable-Evolves _ _ (register_device-Evolves r)
  handle-Evolves (return r) = writable-Evolves _ _ (lending_return-Evolves r)
  handle-Evolves (renew r) = writable-Evolves _ _ (lending_renewal-Evolves r)
  handle-Evolves (cancel user r body) =
      writable-Evolves _ _ (private-Evolves user _ (lending_cancellation-Evolves r body))
  handle-Evolves (extend user r) =
      writable-Evolves _ _ (private-Evolves user _ (extend_subscription-Evolves r))

served :
    (old : List StatusRow) (r : Result Reply) (w : World)
    → Post (λ _ t. Evolution old t.statuses) (λ _ t. Evolution old t.statuses) r w.tables
    → Evolution old w.tables.statuses
served old (ok a) w h = h
served old (stop r) w h = h

run-Evolution_from :
    (e : Env) (old : List StatusRow) (calls : List Call) (w : World)
    → Evolution old w.tables.statuses
    → Evolution old (run e calls w).tables.statuses
unfolding run
run-Evolution_from e old [] w h = h
run-Evolution_from e old (c ∷ cs) w h =
    let (r, w') = handle c e w in
    run-Evolution_from e old cs w' (served old r w' ((handle-Evolves c).triple.at w h))

run-Evolution :
    (e : Env) (calls : List Call) (w : World)
    → IsKeyed w.tables.statuses
    → Evolution w.tables.statuses (run e calls w).tables.statuses
run-Evolution e calls w k =
    run-Evolution_from e w.tables.statuses calls w (Evolution-refl w.tables.statuses k)

-- Whatever requests the License Status Server gets, and whatever the clock, the databases and the
-- network do: in a table where looking up a license finds the row that its key finds, every row
-- stays under its key and its license, and its status changes only along the edges of the diagram.
pub diagram_followed :
    (e : Env) (calls : List Call) (w : World) (i : ℕ) (r : StatusRow)
    → IsKeyed w.tables.statuses
    → select_id i w.tables.statuses ≡ some r
    → (r' : StatusRow) × (select_id i (run e calls w).tables.statuses ≡ some r') × Writes r r'
diagram_followed e calls w i r k found = (run-Evolution e calls w k).rows i r found

-- No edge leaves a revoked, returned or cancelled license.
closed_end : {s t : Status} → s ⟶ t → is_closed s ≡ true → ⊥
closed_end activate h = cc
closed_end cancel_edge h = cc
closed_end give_back h = cc
closed_end give_back_late h = cc
closed_end revoke h = cc
closed_end expire_unused h = cc
closed_end expire h = cc
closed_end prolong h = cc
closed_end reactivate h = cc
closed_end repair h = cc

Writes-closed : {r r' : StatusRow} → Writes r r' → is_closed (row_status r) ≡ true → r' ≡ r
Writes-closed untouched h = refl
Writes-closed {r} (written {t} ws edge key ref) h =
    let same : t ≡ r = Writes-closed ws h in
    absurd (closed_end edge (ap (λ (q : StatusRow). is_closed (row_status q)) same ∙ h))

-- A license that is revoked, returned or cancelled is final: whatever requests come later, and
-- whatever fails, its row stays exactly as it is, in a table where looking up a license finds the
-- row that its key finds.
pub closed_final :
    (e : Env) (calls : List Call) (w : World) (i : ℕ) (r : StatusRow)
    → IsKeyed w.tables.statuses
    → select_id i w.tables.statuses ≡ some r
    → is_closed (row_status r) ≡ true
    → select_id i (run e calls w).tables.statuses ≡ some r
closed_final e calls w i r k found closed =
    let (r', later, ws) = diagram_followed e calls w i r k found in
    later ∙ ap some (Writes-closed ws closed)
