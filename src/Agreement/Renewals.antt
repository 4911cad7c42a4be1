-- ===== src/Agreement/Renewals.antt =====
-- Renewals and extensions.
use readium_lcp_server.Prelude.{String, true, ◌≡◌, refl, ◌||◌}
use readium_lcp_server.Time.{Time, after, before}
use readium_lcp_server.LicenseStatuses.{LicenseStatus}
use readium_lcp_server.Server.{Env, Tables, World}
use readium_lcp_server.Server.Exec.{serve}
use readium_lcp_server.Server.Triple.{Triple, Triple-pure, Triple-pre, Triple-bind, Triple-if}
use readium_lcp_server.Server.Keeps.{Keeps-guard, Keeps-ask}
use readium_lcp_server.LsdServer.Common.{Request}
use readium_lcp_server.LsdServer.Renew.{renew_until, lending_renewal}
use readium_lcp_server.LsdServer.Extend.{extend_subscription}
use readium_lcp_server.LsdServer.Keeps.{
  Keeps-make_event, Keeps-record_event, Keeps-max_end, Keeps-require_time, Keeps-suggested_end,
}
use readium_lcp_server.Agreement.{is_success, Agrees, At}
use readium_lcp_server.Agreement.Refusals.{
  Refuses-guard, Refuses-ask, Refuses-make_event, Refuses-record_event, Refuses-max_end,
  Refuses-require_time, Refuses-suggested_end,
}
use readium_lcp_server.Agreement.Saved.{
  Agreed, after_quiet, fetch-At, fetch-Agrees, save-Agrees, after_patch, respond-Agrees,
}
use readium_lcp_server.Agreement.Handlers.{Agreed-served, while_read}

module _ {e : Env} where
  renew_until-Agrees :
      (r : Request) (name device : String) (ls : LicenseStatus) (end : Time)
      → Triple e
          (Agreed r.license_id)
          (λ u. At r.license_id ls u.statuses)
          (renew_until r name device ls end)
          (λ _. Agrees r.license_id)
  unfolding renew_until
  renew_until-Agrees r name device ls end =
      let ref = r.license_id in
      while_read ref ls (Keeps-make_event _ _ _ _) (Refuses-make_event _ _ _ _) λ ev.
        while_read ref ls (Keeps-record_event (λ t rows. refl) _ _) (Refuses-record_event _ _) λ _.
          after_patch ref ls end _
            (Triple-bind (save-Agrees ref ls _ refl) λ _. Triple-pure _ (λ u p. p))

  extend_subscription-Agreed :
      (r : Request)
      → Triple e
          (Agreed r.license_id)
          (λ _. Unit {0})
          (extend_subscription r)
          (λ _. Agrees r.license_id)
  unfolding extend_subscription
  extend_subscription-Agreed r =
      let ref = r.license_id in
      Triple-bind (fetch-At ref) λ ls.
        while_read ref ls (Keeps-max_end _) (Refuses-max_end _) λ lim.
          while_read ref ls (Keeps-guard _ _ _) (Refuses-guard _ _ 400 refl) λ _.
            while_read ref ls (Keeps-require_time _ _ _) (Refuses-require_time _ _ 403 refl) λ cur.
              while_read ref ls (Keeps-suggested_end _ _ _ _) (Refuses-suggested_end _ 500 _ _ refl)
                λ sug. while_read ref ls (Keeps-guard _ _ _) (Refuses-guard _ _ 403 refl) λ _.
                  while_read ref ls (Keeps-guard _ _ _) (Refuses-guard _ _ 403 refl)
                    λ _. Triple-bind (renew_until-Agrees r _ _ ls sug) λ ls'. respond-Agrees ref ls'

  lending_renewal-Agreed :
      (r : Request)
      → Triple e
          (Agreed r.license_id)
          (Agrees r.license_id)
          (lending_renewal r)
          (λ _. Agrees r.license_id)
  unfolding lending_renewal
  lending_renewal-Agreed r =
      let ref = r.license_id in
      let P : LicenseStatus → Tables → Type 0 = λ ls u. Agrees ref u × At ref ls u.statuses in
      after_quiet ref (λ u. u) (Agrees ref) (Keeps-guard _ _ _) (Refuses-guard _ _ 400 refl)
        λ _. Triple-bind (fetch-Agrees ref) λ ls.
          after_quiet ref (λ u. u) (P ls) Keeps-ask Refuses-ask
            λ e'.
              after_quiet ref (λ u. u) (P ls) (Keeps-guard _ _ _) (Refuses-guard _ _ 400 refl)
                λ _.
                  after_quiet ref (λ u. u) (P ls) (Keeps-require_time _ _ _)
                    (Refuses-require_time _ _ 400 refl)
                    λ cur.
                      after_quiet ref (λ u. u) (P ls) (Keeps-require_time _ _ _)
                        (Refuses-require_time _ _ 400 refl)
                        λ lim.
                          after_quiet ref (λ u. u) (P ls) (Keeps-suggested_end _ _ _ _)
                            (Refuses-suggested_end _ 400 _ _ refl)
                            λ sug.
                              Triple-bind
                                (Triple-if (after sug lim || before sug cur)
                                  (λ _. Triple-pure ls (λ u p. p.0))
                                  (λ _. Triple-pre (λ u p. p.1) (renew_until-Agrees r _ _ ls sug)))
                                λ ls'. respond-Agrees ref ls'

-- An extension that the client is told of as a success leaves both servers with the same end of the
-- license.
pub extend_subscription-Agrees :
    (e : Env) (r : Request) (w : World)
    → is_success (serve (extend_subscription r) e w).0 ≡ true
    → Agrees r.license_id (serve (extend_subscription r) e w).1.tables
extend_subscription-Agrees e r w h =
    let (res, w') = extend_subscription r e w in
    Agreed-served r.license_id res w'.tables ((extend_subscription-Agreed r).at w tt) h

-- A renewal that the client is told of as a success keeps the servers' agreement on the end of the
-- license.
pub lending_renewal-Agrees :
    (e : Env) (r : Request) (w : World)
    → Agrees r.license_id w.tables
    → is_success (serve (lending_renewal r) e w).0 ≡ true
    → Agrees r.license_id (serve (lending_renewal r) e w).1.tables
lending_renewal-Agrees e r w agrees h =
    let (res, w') = lending_renewal r e w in
    Agreed-served r.license_id res w'.tables ((lending_renewal-Agreed r).at w agrees) h
