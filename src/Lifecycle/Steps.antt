-- ===== src/Lifecycle/Steps.antt =====
-- The steps of the handlers, seen from the table `license_status`: all but reading and saving a
-- license status leave it alone.
use readium_lcp_server.Prelude.{String, ◌≡◌, refl, List, Option-cases, inl, inr}
use readium_lcp_server.LicenseStatuses.{LicenseStatus, StatusRow, select_ref, scan_status}
use readium_lcp_server.Server.{Env, Tables}
use readium_lcp_server.Server.Exec.{Exec, DbResult, done, not_found, failed}
use readium_lcp_server.Server.Triple.{
  Triple, Triple-pure, Triple-reply, Triple-db_call, Triple-or_500, Triple-bind, Triple-ask,
}
use readium_lcp_server.Stores.{
  get_by_license_id, update, run_update, run_add, add_status, columns, found_status,
}
use readium_lcp_server.Lifecycle.{Evolution, Held, IsNamed, ◌⟶◌}
use readium_lcp_server.Lifecycle.Save.{columns_status, Evolution-update_rows, Evolution-insert_row}
use readium_lcp_server.Server.Keeps.{Keeps}
use readium_lcp_server.LsdServer.Common.{fetch, save, found_or_error}

-- A predicate of the table, as one of all tables.
abbrev pub On : (List StatusRow → Type 0) → Tables → Type 0
On P t = P t.statuses

-- The view of the tables that these proofs take.
abbrev pub Leaves : {A : Type 0} → Exec A → Type 0
Leaves m = Keeps (λ t. t.statuses) m

-- The table has evolved from an old one, and a license status is held.
abbrev pub Mid : List StatusRow → LicenseStatus → List StatusRow → Type 0
Mid old ls rows = Evolution old rows × Held ls rows

-- From a table where `P` holds: an early reply leaves the table evolved from `old`, a value leaves
-- it as `Q` says.
pub record Evolves (e : Env) (old : List StatusRow) {A : Type 0} (P : List StatusRow → Type 0)
    (m : Exec A) (Q : A → List StatusRow → Type 0) : Type 0 where
  pub triple : Triple e (λ _ t. Evolution old t.statuses) (On P) m (λ a. On (Q a))

module _ (old : List StatusRow) where
  -- What a read of a license status brings.
  abbrev Found : DbResult LicenseStatus → List StatusRow → Type 0
  Found (done ls) rows = Mid old ls rows
  Found not_found rows = Evolution old rows
  Found failed rows = Evolution old rows

  found_status-Found :
      (e' : Env) (ref : String) (rows : List StatusRow)
      → Evolution old rows
      → Found (found_status e' (select_ref ref rows)) rows
  unfolding scan_status
  found_status-Found e' ref rows ev = elim (Option-cases (select_ref ref rows)) [
    | inl absent ↦ rw absent ev
    | inr (r, found) ↦ rw found (ev, (r, ev.keyed.at ref r found, refl))
  ]

  run_update-Evolution :
      (ls ls' : LicenseStatus)
      → ls'.id ≡ ls.id
      → IsNamed ls'.status
      → ls.status ⟶ ls'.status
      → (t : Tables) → Mid old ls t.statuses
      → Evolution old (run_update ls'.id (columns ls') t).1.statuses
  run_update-Evolution ls ls' key named edge t (ev, held) = elim (Option-cases (columns ls')) [
    | inl absent ↦ rw absent ev
    | inr (c, cols) ↦
        rw (cols, key)
          (Evolution-update_rows old t.statuses ls c ls'.status ev held edge
            (columns_status ls' c named cols))
  ]

module _ {e : Env} {old : List StatusRow} where
  found_or_error-Evolves :
      (r : DbResult LicenseStatus) → Evolves e old (Found old r) (found_or_error r) (Mid old)
  unfolding found_or_error
  found_or_error-Evolves (done ls) = record { triple = Triple-pure ls (λ t p. p) }
  found_or_error-Evolves not_found = record { triple = Triple-reply _ (λ t p. p) }
  found_or_error-Evolves failed = record { triple = Triple-reply _ (λ t p. p) }

  -- A license status that was read is held.
  pub fetch-Evolves : (ref : String) → Evolves e old (Evolution old) (fetch ref) (Mid old)
  unfolding fetch get_by_license_id
  fetch-Evolves ref = record {
    triple =
        Triple-bind {Q = λ r. On (Found old r)}
          (Triple-bind Triple-ask λ e'.
            Triple-db_call _ (λ t p. p.0) (λ t p. found_status-Found old e' ref t.statuses p.0))
          λ r. (found_or_error-Evolves r).triple;
  }

  -- Saving a held license status moves its row along an edge.
  pub save-Evolves :
      (ls ls' : LicenseStatus)
      → ls'.id ≡ ls.id
      → IsNamed ls'.status
      → ls.status ⟶ ls'.status
      → Evolves e old (Mid old ls) (save ls') (λ _. Evolution old)
  unfolding save update
  save-Evolves ls ls' key named edge = record {
    triple =
        Triple-bind {Q = λ _. On (Evolution old)}
          (Triple-db_call _ (λ t p. p.0) (run_update-Evolution old ls ls' key named edge))
          λ r. Triple-or_500 r (λ t p. p) (λ a _ t p. p);
  }

run_add-Evolution :
    (old : List StatusRow) (ls : LicenseStatus) (t : Tables)
    → Evolution old t.statuses
    → Evolution old (run_add ls.license_ref (columns ls) t).1.statuses
run_add-Evolution old ls t ev = elim (Option-cases (columns ls)) [
  | inl absent ↦ rw absent ev
  | inr (c, cols) ↦ rw cols (Evolution-insert_row old t.statuses ls.license_ref c ev)
]

module _ {e : Env} {old : List StatusRow} where
  -- A new license status leaves the rows of the others alone.
  pub add_status-Evolves :
      (ls : LicenseStatus) → Evolves e old (Evolution old) (add_status ls) (λ _. Evolution old)
  unfolding add_status
  add_status-Evolves ls = record { triple = Triple-db_call _ (λ t p. p) (run_add-Evolution old ls) }
