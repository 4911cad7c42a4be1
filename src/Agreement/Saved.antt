-- ===== src/Agreement/Saved.antt =====
-- The steps around a PATCH request: reading a license status, saving it with the end that was sent,
-- and the steps that keep what is known of the tables.
use readium_lcp_server.Prelude.{
  ℕ, String, Bool, true, false, ◌≡◌, refl, sym, subst, ◌∙◌, Option, none, some, str_eq, Bool-cases,
  Option-cases, inl, inr, arith,
}
use readium_lcp_server.Time.{Time}
use readium_lcp_server.LicenseStatuses.{
  LicenseStatus, StatusRow, Columns, select_ref, scan_status, write_row,
}
use readium_lcp_server.LicenseStatuses.Rows.{select_ref-update_rows}
use readium_lcp_server.Server.{Env, Tables, Reply, ProblemType}
use readium_lcp_server.Server.Exec.{
  Exec, Result, ok, stop, DbResult, done, not_found, failed, guard, ◌>>=◌, ◌>>◌,
}
use readium_lcp_server.Server.Triple.{
  Triple, Post, Triple-pure, Triple-reply, Triple-pre, Triple-db_call, Triple-or_500, Triple-bind,
  Triple-ask, Triple-and,
}
use readium_lcp_server.Server.Keeps.{Keeps}
use readium_lcp_server.Stores.{get_by_license_id, found_status, update, run_update, columns}
use readium_lcp_server.Stores.Written.{columns-rights_end}
use readium_lcp_server.LsdServer.Common.{
  fetch, save, found_or_error, update_request, accepted, respond,
}
use readium_lcp_server.LsdServer.Keeps.{Keeps-update_request, Keeps-respond, Keeps-fetch}
use readium_lcp_server.Agreement.{is_success, success_code, Ended, Agrees, At}
use readium_lcp_server.Agreement.Refusals.{Refuses, Fails, Refuses-respond, Refuses-fetch}
use readium_lcp_server.Agreement.Patch.{update_request-Answered, Answered}

-- A handler that reports success has left the license's tables in agreement.
abbrev pub Agreed : String → Reply → Tables → Type 0
Agreed ref r u = is_success r ≡ true → Agrees ref u

module _ {X : Type 0} (ref : String) (view : Tables → X) (P : X → Type 0) where
  quiet-Post :
      {A : Type 0} (r : Result A) (x : X) (u : Tables)
      → P x
      → view u ≡ x
      → Fails r
      → Post (Agreed ref) (λ _ v. P (view v)) r u
  quiet-Post (ok a) x u p same h = subst P (sym same) p
  quiet-Post (stop r) x u p same h = λ k. cc

  -- A step that keeps what is known of a view
  pub quiet :
      {e : Env} {A : Type 0} {m : Exec A}
      → Keeps view m
      → Refuses m
      → Triple e (Agreed ref) (λ u. P (view u)) m (λ _ u. P (view u))
  quiet {e} {m} keeps refuses = record {
    at = λ w p.
        quiet-Post (m e w).0 (view w.tables) (m e w).1.tables p (keeps.at e w) (refuses.at e w);
  }

  pub after_quiet :
      {e : Env} {A B : Type 0} {m : Exec A} {f : A → Exec B} {Q : B → Tables → Type 0}
      → Keeps view m
      → Refuses m
      → ((a : A) → Triple e (Agreed ref) (λ u. P (view u)) (f a) Q)
      → Triple e (Agreed ref) (λ u. P (view u)) (m >>= f) Q
  after_quiet keeps refuses hf = Triple-bind (quiet keeps refuses) hf

module _ (ref : String) where
  abbrev Read : DbResult LicenseStatus → Tables → Type 0
  Read (done ls) u = At ref ls u.statuses
  Read not_found u = Unit {0}
  Read failed u = Unit {0}

  found_status-Read : (e' : Env) (u : Tables) → Read (found_status e' (select_ref ref u.statuses)) u
  unfolding scan_status
  found_status-Read e' u = elim (Option-cases (select_ref ref u.statuses)) [
    | inl absent ↦ rw absent tt
    | inr (r, found) ↦ rw found (r, found, refl)
  ]

module _ {e : Env} (ref : String) where
  found_or_error-At :
      (r : DbResult LicenseStatus)
      → Triple e (Agreed ref) (Read ref r) (found_or_error r) (λ ls u. At ref ls u.statuses)
  unfolding found_or_error
  found_or_error-At (done ls) = Triple-pure ls (λ u p. p)
  found_or_error-At not_found = Triple-reply _ (λ u p h. cc)
  found_or_error-At failed = Triple-reply _ (λ u p h. cc)

  pub fetch-At : Triple e (Agreed ref) (λ _. Unit {0}) (fetch ref) (λ ls u. At ref ls u.statuses)
  unfolding fetch get_by_license_id
  fetch-At =
      Triple-bind
        (Triple-bind Triple-ask
          λ e'. Triple-db_call _ (λ u p. tt) (λ u p. found_status-Read ref e' u))
        found_or_error-At

  -- The same where the tables agree already
  pub fetch-Agrees :
      Triple e (Agreed ref) (Agrees ref) (fetch ref) (λ ls u. Agrees ref u × At ref ls u.statuses)
  fetch-Agrees =
      Triple-and (quiet ref (λ u. u) (Agrees ref) (Keeps-fetch ref) (Refuses-fetch ref))
        (Triple-pre (λ u p. tt) fetch-At)

run_update-Agrees :
    (ref : String) (id : ℕ) (end : Option Time) (c : Option Columns) (u : Tables) (r : StatusRow)
    → ((d : Columns) → c ≡ some d → d.rights_end ≡ end)
    → select_ref ref u.statuses ≡ some r
    → r.id ≡ id
    → Ended ref end u.licenses
    → (run_update id c u).0 ≡ done tt
    → Agrees ref (run_update id c u).1
run_update-Agrees ref id end none u r cols found mine ended h = cc
run_update-Agrees ref id end (some c) u r cols found mine ended h = (
  write_row c r,
  ground (arith, select_ref-update_rows c id ref u.statuses),
  subst (λ t. Ended ref t u.licenses) (sym (cols c refl)) ended,
)

module _ {e : Env} (ref : String) (ls : LicenseStatus) where
  -- Saving the license status with the end that the License Server has
  pub save-Agrees :
      (ls' : LicenseStatus)
      → ls'.id ≡ ls.id
      → Triple e
          (Agreed ref)
          (λ u. At ref ls u.statuses × Ended ref ls'.current_end_license u.licenses)
          (save ls')
          (λ _ u. Agrees ref u)
  unfolding save update
  save-Agrees ls' key =
      Triple-bind {Q = λ r u. r ≡ done tt → Agrees ref u}
        (Triple-db_call _ (λ u p h. cc)
          (λ u (at, ended).
            run_update-Agrees ref ls'.id ls'.current_end_license (columns ls') u at.0
              (columns-rights_end ls') at.1 (at.2 ∙ sym key) ended))
        λ r. Triple-or_500 r (λ u p h. cc) (λ a eq u p. p eq)

Refuses-update_request : (t : Time) (id : String) → Refuses (update_request t id)
unfolding update_request
Refuses-update_request t id = record {
  at = λ e w. elim (Bool-cases (str_eq e.config.lcp_base_url "")) [
    | inl unset ↦ rw unset tt
    | inr configured ↦ rw configured tt
  ];
}

module _ {e : Env} (ref : String) (ls : LicenseStatus) (t : Time) where
  accepted_guard :
      (b : Bool) (type : ProblemType) (n : ℕ)
      → b ≡ success_code n
      → Triple e
          (Agreed ref)
          (λ u. At ref ls u.statuses × Answered ref t (some n) u)
          (guard b type n)
          (λ _ u. At ref ls u.statuses × Ended ref (some t) u.licenses)
  unfolding guard
  accepted_guard true type n same = Triple-pure tt (λ u p. (p.0, p.1 (sym same)))
  accepted_guard false type n same = Triple-reply _ (λ u p h. cc)

  accepted-Ended :
      (type : ProblemType) (res : Option ℕ)
      → Triple e
          (Agreed ref)
          (λ u. At ref ls u.statuses × Answered ref t res u)
          (accepted type res)
          (λ _ u. At ref ls u.statuses × Ended ref (some t) u.licenses)
  unfolding accepted
  accepted-Ended type none = Triple-reply _ (λ u p h. cc)
  accepted-Ended type (some n) = accepted_guard _ type n refl

  -- A PATCH request that is answered with success, before other steps
  pub after_patch :
      (type : ProblemType) {B : Type 0} {n : Exec B} {Q : B → Tables → Type 0}
      → Triple e (Agreed ref) (λ u. At ref ls u.statuses × Ended ref (some t) u.licenses) n Q
      → Triple e
          (Agreed ref)
          (λ u. At ref ls u.statuses)
          (do res ← update_request t ref; accepted type res; n)
          Q
  after_patch type hn =
      Triple-bind {Q = λ res u. At ref ls u.statuses × Answered ref t res u}
        (Triple-and
          (quiet ref (λ u. u.statuses) (At ref ls) (Keeps-update_request (λ u rows. refl) t ref)
            (Refuses-update_request t ref))
          (update_request-Answered ref t))
        λ res. Triple-bind (accepted-Ended type res) λ _. hn

-- The response that ends a request
pub respond-Agrees :
    {e : Env} (ref : String) (ls : LicenseStatus)
    → Triple e (Agreed ref) (Agrees ref) (respond ls) (λ _. Agrees ref)
respond-Agrees ref ls = quiet ref (λ u. u) (Agrees ref) (Keeps-respond ls) (Refuses-respond ls)
