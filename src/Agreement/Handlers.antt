-- ===== src/Agreement/Handlers.antt =====
-- Returns, cancellations and revocations.
use readium_lcp_server.Prelude.{String, true, ◌≡◌, refl, Option, some, List, pos}
use readium_lcp_server.Time.{Time, truncate}
use readium_lcp_server.Status.{Status}
use readium_lcp_server.LicenseStatuses.{LicenseStatus, StatusRow}
use readium_lcp_server.License.{LicenseRow}
use readium_lcp_server.Server.{Env, Tables, World, Reply, status_only}
use readium_lcp_server.Server.Exec.{Exec, Result, ok, stop, response, serve, pure, ◌>>=◌, ◌>>◌}
use readium_lcp_server.Server.Triple.{Triple, Post, Triple-pure, Triple-bind}
use readium_lcp_server.Server.Keeps.{Keeps, Keeps-guard, Keeps-now}
use readium_lcp_server.LsdServer.Common.{Request, make_event, record_event, save}
use readium_lcp_server.LsdServer.Return.{close, lending_return}
use readium_lcp_server.LsdServer.Cancel.{lending_cancellation, closing_event, event_int}
use readium_lcp_server.LsdServer.Keeps.{
  Keeps-make_event, Keeps-record_event, Keeps-decoded, Keeps-returned_status,
}
use readium_lcp_server.Agreement.{is_success, Agrees, At, Ended}
use readium_lcp_server.Agreement.Refusals.{
  Refuses, Refuses-guard, Refuses-now, Refuses-make_event, Refuses-record_event, Refuses-decoded,
  Refuses-returned_status,
}
use readium_lcp_server.Agreement.Saved.{
  Agreed, after_quiet, fetch-At, save-Agrees, after_patch, respond-Agrees,
}

pub Agreed-served :
    (ref : String) (r : Result Reply) (u : Tables)
    → Post (Agreed ref) (λ _. Agrees ref) r u
    → is_success (response r) ≡ true
    → Agrees ref u
Agreed-served ref (ok r) u h k = h
Agreed-served ref (stop r) u h k = h k

-- Steps while a license status was read, and nothing was written to its row
module _ {e : Env} (ref : String) (ls : LicenseStatus) {B : Type 0} {Q : B → Tables → Type 0} where
  pub while_read :
      {A : Type 0} {m : Exec A} {f : A → Exec B}
      → Keeps (λ u. u.statuses) m
      → Refuses m
      → ((a : A) → Triple e (Agreed ref) (λ u. At ref ls u.statuses) (f a) Q)
      → Triple e (Agreed ref) (λ u. At ref ls u.statuses) (m >>= f) Q
  while_read keeps refuses hf = after_quiet ref (λ u. u.statuses) (At ref ls) keeps refuses hf

module _ {e : Env} where
  lending_return-Agreed :
      (r : Request)
      → Triple e (Agreed r.license_id) (λ _. Unit {0}) (lending_return r) (λ _. Agrees r.license_id)
  unfolding lending_return
  lending_return-Agreed r =
      let ref = r.license_id in
      Triple-bind (fetch-At ref) λ ls.
        while_read ref ls (Keeps-guard _ _ _) (Refuses-guard _ _ 400 refl) λ _.
          while_read ref ls (Keeps-returned_status ls.status) (Refuses-returned_status _) λ s.
            while_read ref ls (Keeps-make_event _ _ _ _) (Refuses-make_event _ _ _ _) λ ev.
              while_read ref ls (Keeps-record_event (λ t rows. refl) _ _) (Refuses-record_event _ _)
                λ _.
                  after_patch ref ls ev.timestamp _
                    (Triple-bind (save-Agrees ref ls _ refl) λ _. respond-Agrees ref _)

-- A return that the client is told of as a success leaves both servers with the same end of the
-- license, whatever the clock, the databases and the network did.
pub lending_return-Agrees :
    (e : Env) (r : Request) (w : World)
    → is_success (serve (lending_return r) e w).0 ≡ true
    → Agrees r.license_id (serve (lending_return r) e w).1.tables
lending_return-Agrees e r w h =
    let (res, w') = lending_return r e w in
    Agreed-served r.license_id res w'.tables ((lending_return-Agreed r).at w tt) h

module _ {e : Env} where
  -- The event and the update of a cancellation
  closing-Agrees :
      (ref : String) (ls : LicenseStatus) (t : Time) (s : Status)
      → Triple e
          (Agreed ref)
          (λ u. At ref ls u.statuses × Ended ref (some t) u.licenses)
          (do
            ev ← make_event (closing_event s) "system" "system" ls.id
            record_event ev (event_int s)
            save (close ls s t)
            pure (status_only 200))
          (λ _. Agrees ref)
  closing-Agrees ref ls t s =
      let P : List StatusRow × List LicenseRow → Type 0 =
        λ (x, y). At ref ls x × Ended ref (some t) y in
      after_quiet ref (λ u. (u.statuses, u.licenses)) P (Keeps-make_event _ _ _ _)
        (Refuses-make_event _ _ _ _)
        λ ev.
          after_quiet ref (λ u. (u.statuses, u.licenses)) P
            (Keeps-record_event (λ t rows. refl) _ _) (Refuses-record_event _ _)
            λ _. Triple-bind (save-Agrees ref ls (close ls s t) refl) λ _. Triple-pure _ (λ u p. p)

module _ {e : Env} where
  lending_cancellation-Agreed :
      (r : Request) (body : Option Status)
      → Triple e
          (Agreed r.license_id)
          (λ _. Unit {0})
          (lending_cancellation r body)
          (λ _. Agrees r.license_id)
  unfolding lending_cancellation
  lending_cancellation-Agreed r body =
      let ref = r.license_id in
      Triple-bind (fetch-At ref) λ ls.
        while_read ref ls (Keeps-decoded body) (Refuses-decoded body) λ asked.
          while_read ref ls (Keeps-guard _ _ _) (Refuses-guard _ _ 400 refl) λ _.
            while_read ref ls (Keeps-guard _ _ _) (Refuses-guard _ _ 400 refl) λ _.
              while_read ref ls (Keeps-guard _ _ _) (Refuses-guard _ _ 400 refl) λ _.
                while_read ref ls Keeps-now Refuses-now λ t.
                  after_patch ref ls (pos (truncate t)) _
                    (closing-Agrees ref ls (pos (truncate t)) _)

-- A cancellation or revocation that the client is told of as a success leaves both servers with the
-- same end of the license.
pub lending_cancellation-Agrees :
    (e : Env) (r : Request) (body : Option Status) (w : World)
    → is_success (serve (lending_cancellation r body) e w).0 ≡ true
    → Agrees r.license_id (serve (lending_cancellation r body) e w).1.tables
lending_cancellation-Agrees e r body w h =
    let (res, w') = lending_cancellation r body e w in
    Agreed-served r.license_id res w'.tables ((lending_cancellation-Agreed r body).at w tt) h
