-- ===== src/Renewal/Steps.antt =====
-- The steps of the handlers that prolong a license, from a table where the license has a given row.
use readium_lcp_server.Prelude.{
  ℕ, String, false, ◌≡◌, refl, sym, ap, ◌∙◌, Option, none, some, List, subst,
}
use readium_lcp_server.Time.{Time, before, after, is_zero}
use readium_lcp_server.LicenseStatuses.{LicenseStatus, StatusRow, scan_status, select_ref}
use readium_lcp_server.Server.{Env, Tables, Reply, ProblemType}
use readium_lcp_server.Server.Exec.{Exec, DbResult, done, not_found, failed, ◌>>=◌}
use readium_lcp_server.Server.Triple.{
  Triple, Triple-pure, Triple-reply, Triple-db_call, Triple-or_500, Triple-bind, Triple-ask,
  Triple-if,
}
use readium_lcp_server.Server.Keeps.{Keeps}
use readium_lcp_server.Server.Views.{Triple-keeps, after_keeps, with_fact}
use readium_lcp_server.Stores.{
  get_by_license_id, found_status, cert_date, update, run_update, columns,
}
use readium_lcp_server.LsdServer.Common.{Request, fetch, found_or_error, save, respond}
use readium_lcp_server.LsdServer.Keeps.{
  Keeps-make_event, Keeps-record_event, Keeps-update_request, Keeps-accepted, Keeps-respond,
}
use readium_lcp_server.LsdServer.Renew.{require_time, renew_until, end_of_rights, extend_until}
use readium_lcp_server.Renewal.{Kept, Orig, Orig-Kept}
use readium_lcp_server.Renewal.Rows.{run_update-Kept}

module _ (ref : String) (s : StatusRow) where
  -- However the request ends, the license's row is within the bounds.
  abbrev pub Ends : Reply → Tables → Type 0
  Ends r u = Kept ref s u.statuses

  abbrev pub Start : Tables → Type 0
  Start u = Orig ref s u.statuses

  abbrev IsScan : Env → DbResult LicenseStatus → Type 0
  IsScan e r = (ls : LicenseStatus) → r ≡ done ls → ls ≡ scan_status (cert_date e) s

  found_status-IsScan :
      (e : Env) (rows : List StatusRow)
      → Orig ref s rows
      → IsScan e (found_status e (select_ref ref rows))
  found_status-IsScan e rows found ls h =
      let g : done (scan_status (cert_date e) s) ≡ done ls = sym (ap (found_status e) found) ∙ h in
      cc

  pub Start-ends : (u : Tables) → Start u → Kept ref s u.statuses
  Start-ends u p = Orig-Kept ref s u.statuses p

module _ {e : Env} (ref : String) (s : StatusRow) where
  found_or_error-IsScan :
      (r : DbResult LicenseStatus)
      → Triple e
          (Ends ref s)
          (λ u. Start ref s u × IsScan ref s e r)
          (found_or_error r)
          (λ ls u. Start ref s u × (ls ≡ scan_status (cert_date e) s))
  unfolding found_or_error
  found_or_error-IsScan (done ls) = Triple-pure ls (λ u p. (p.0, p.1 ls refl))
  found_or_error-IsScan not_found = Triple-reply _ (λ u p. Start-ends ref s u p.0)
  found_or_error-IsScan failed = Triple-reply _ (λ u p. Start-ends ref s u p.0)

  fetch-scan :
      Triple e
        (Ends ref s)
        (Start ref s)
        (fetch ref)
        (λ ls u. Start ref s u × (ls ≡ scan_status (cert_date e) s))
  unfolding fetch get_by_license_id
  fetch-scan =
      Triple-bind {Q = λ r u. Start ref s u × IsScan ref s e r}
        (Triple-bind Triple-ask λ e'. with_fact λ same.
          Triple-db_call _ (λ u p. (p, λ ls h. cc))
            (λ u p. (
              p,
              subst (λ q. IsScan ref s q (found_status e' (select_ref ref u.statuses))) same
                  (found_status-IsScan ref s e' u.statuses p),
            )))
        found_or_error-IsScan

  require_time-eq :
      (t : Option Time) (type : ProblemType) (status : ℕ)
      → Triple e
          (Ends ref s)
          (Start ref s)
          (require_time t type status)
          (λ x u. Start ref s u × (t ≡ some x))
  unfolding require_time
  require_time-eq none type status = Triple-reply _ (Start-ends ref s)
  require_time-eq (some x) type status =
      Triple-if (is_zero x) (λ _. Triple-reply _ (Start-ends ref s))
        (λ _. Triple-pure x (λ u p. (p, refl)))

module _ {e : Env} (ref : String) (s : StatusRow) {B : Type 0} {Q : B → Tables → Type 0} where
  -- A step that leaves the table alone
  pub idle :
      {A : Type 0} {m : Exec A} {f : A → Exec B}
      → Keeps (λ u. u.statuses) m
      → ((a : A) → Triple e (Ends ref s) (Start ref s) (f a) Q)
      → Triple e (Ends ref s) (Start ref s) (m >>= f) Q
  idle keeps hf =
      after_keeps (λ u. u.statuses) (Orig ref s) (λ r u p. Start-ends ref s u p) keeps hf

  pub reading :
      {f : LicenseStatus → Exec B}
      → ((ls : LicenseStatus)
          → ls ≡ scan_status (cert_date e) s
          → Triple e (Ends ref s) (Start ref s) (f ls) Q)
      → Triple e (Ends ref s) (Start ref s) (fetch ref >>= f) Q
  reading hf = Triple-bind (fetch-scan ref s) (λ ls. with_fact (hf ls))

  pub requiring :
      (t : Option Time) (type : ProblemType) (status : ℕ) {f : Time → Exec B}
      → ((x : Time) → t ≡ some x → Triple e (Ends ref s) (Start ref s) (f x) Q)
      → Triple e (Ends ref s) (Start ref s) (require_time t type status >>= f) Q
  requiring t type status hf =
      Triple-bind (require_time-eq ref s t type status) (λ x. with_fact (hf x))

saved_Kept :
    (ref : String) (cert : Option Time) (s : StatusRow) (ls : LicenseStatus)
    (old limit end now : Time) (u : Tables)
    → ls ≡ scan_status cert s
    → ls.current_end_license ≡ some old
    → end_of_rights ls.potential_rights ≡ some limit
    → before end old ≡ false
    → after end limit ≡ false
    → Orig ref s u.statuses
    → Kept ref s (run_update ls.id (columns (extend_until ls end now)) u).1.statuses
unfolding scan_status
saved_Kept ref cert s ls old limit end now u scan has_end has_limit ge le p =
    subst
      (λ (q : LicenseStatus).
        Kept ref s (run_update q.id (columns (extend_until q end now)) u).1.statuses)
      (sym scan)
      (run_update-Kept ref cert s old limit end now u
        (ap (λ (q : LicenseStatus). q.current_end_license) (sym scan) ∙ has_end)
        (ap (λ (q : LicenseStatus). end_of_rights q.potential_rights) (sym scan) ∙ has_limit) ge le
        p)

module _ {e : Env} (s : StatusRow) where
  -- The extension itself, to an end within the bounds
  pub renew_until-Kept :
      (r : Request) (name device : String) (ls : LicenseStatus) (old limit end : Time)
      → ls ≡ scan_status (cert_date e) s
      → ls.current_end_license ≡ some old
      → end_of_rights ls.potential_rights ≡ some limit
      → before end old ≡ false
      → after end limit ≡ false
      → Triple e
          (Ends r.license_id s)
          (Start r.license_id s)
          (renew_until r name device ls end)
          (λ _ u. Kept r.license_id s u.statuses)
  unfolding renew_until save update
  renew_until-Kept r name device ls old limit end scan has_end has_limit ge le =
      let ref = r.license_id in
      idle ref s (Keeps-make_event _ _ _ _) λ ev.
        idle ref s (Keeps-record_event (λ t rows. refl) _ _) λ _.
          idle ref s (Keeps-update_request (λ t rows. refl) _ _) λ res.
            idle ref s (Keeps-accepted _ res) λ _.
              Triple-bind
                (Triple-bind {Q = λ _ u. Kept ref s u.statuses}
                  (Triple-db_call _ (λ u p. Start-ends ref s u p)
                    (λ u p.
                      saved_Kept ref (cert_date e) s ls old limit end ev.timestamp u scan has_end
                        has_limit ge le p))
                  λ q. Triple-or_500 q (λ u p. p) (λ a _ u p. p))
                λ _. Triple-pure _ (λ u p. p)

  -- The response
  pub respond-Kept :
      (ref : String) (ls : LicenseStatus)
      → Triple e
          (Ends ref s)
          (λ u. Kept ref s u.statuses)
          (respond ls)
          (λ _ u. Kept ref s u.statuses)
  respond-Kept ref ls = Triple-keeps (λ u. u.statuses) (Kept ref s) (λ r u p. p) (Keeps-respond ls)
