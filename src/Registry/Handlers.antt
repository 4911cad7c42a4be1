-- ===== src/Registry/Handlers.antt =====
-- Every handler that writes events keeps each invariant of them.
use readium_lcp_server.Prelude.{String, ◌≤◌, refl, Option, List, str_eq, eq_iff, ◌||◌, arith, ◌∙◌}
use readium_lcp_server.Time.{Time, after, before}
use readium_lcp_server.Status.{Status}
use readium_lcp_server.Transactions.{EventRow}
use readium_lcp_server.LicenseStatuses.{LicenseStatus}
use readium_lcp_server.Server.{Env}
use readium_lcp_server.Server.Triple.{Triple, Triple-bind, Triple-pre, Triple-if}
use readium_lcp_server.Server.Keeps.{Keeps-pure, Keeps-guard, Keeps-ask, Keeps-now}
use readium_lcp_server.LsdServer.Keeps.{
  Keeps-make_event, Keeps-update_request, Keeps-accepted, Keeps-respond, Keeps-deref, Keeps-decoded,
  Keeps-max_end, Keeps-require_time, Keeps-suggested_end, Keeps-fetch, Keeps-save,
  Keeps-returned_status,
}
use readium_lcp_server.LsdServer.Common.{Request}
use readium_lcp_server.LsdServer.Register.{register_device, register_new}
use readium_lcp_server.LsdServer.Return.{lending_return}
use readium_lcp_server.LsdServer.Renew.{lending_renewal, renew_until}
use readium_lcp_server.LsdServer.Extend.{extend_subscription}
use readium_lcp_server.LsdServer.Cancel.{lending_cancellation, closing_status, event_int}
use readium_lcp_server.Registry.{IsInvariant}
use readium_lcp_server.Registry.Steps.{
  Safe, Safe-Keeps, Safe-if, Safe-bind, after_quiet, record_event-Safe, look_up, registration,
  Looked,
}

event_int-known : (s : Status) → (2 ≤ event_int s) × (event_int s ≤ 6)
event_int-known s = ground arith

module _ {e : Env} {I : List EventRow → Type 0} (inv : IsInvariant I) where
  register_new-Safe :
      (r : Request) (ls : LicenseStatus)
      → Triple e
          (λ _ t. I t.events)
          (λ t. Looked I ls.id r.device_id "" t.events)
          (register_new r ls)
          (λ _ t. I t.events)
  unfolding register_new
  register_new-Safe r ls = registration inv "active" r.device_name r.device_id ls.id λ ev.
      after_quiet (Keeps-deref _)
        λ n. after_quiet (Keeps-save (λ t rows. refl) _) λ _. Safe-Keeps (Keeps-pure _)

  pub register_device-Safe : (r : Request) → Safe e I (register_device r)
  unfolding register_device
  register_device-Safe r = after_quiet (Keeps-guard _ _ _) λ _. after_quiet (Keeps-fetch _) λ ls.
      after_quiet Keeps-ask λ e'. after_quiet (Keeps-guard _ _ _) λ _.
        after_quiet (Keeps-guard _ _ _) λ _. look_up ls.id r.device_id λ status.
          Triple-bind {Q = λ _ t. I t.events}
            (Triple-if (str_eq status "")
              (λ new.
                Triple-pre (λ t p. (p.0, p.1 ∙ (eq_iff status "").0 new)) (register_new-Safe r ls))
              (λ _. Triple-pre (λ t p. p.0) (Safe-Keeps (Keeps-pure ls)).triple))
            λ ls'. (Safe-Keeps (Keeps-respond ls')).triple

  pub lending_return-Safe : (r : Request) → Safe e I (lending_return r)
  unfolding lending_return
  lending_return-Safe r = after_quiet (Keeps-fetch _) λ ls. after_quiet (Keeps-guard _ _ _) λ _.
      after_quiet (Keeps-returned_status ls.status) λ s.
        after_quiet (Keeps-make_event _ _ _ _) λ ev.
          Safe-bind (record_event-Safe inv ev 3 (omega arith) (omega arith)) λ _.
            after_quiet (Keeps-update_request (λ t rows. refl) _ _) λ res.
              after_quiet (Keeps-accepted _ res)
                λ _. after_quiet (Keeps-save (λ t rows. refl) _) λ _. Safe-Keeps (Keeps-respond _)

  renew_until-Safe :
      (r : Request) (name device : String) (ls : LicenseStatus) (end : Time)
      → Safe e I (renew_until r name device ls end)
  unfolding renew_until
  renew_until-Safe r name device ls end = after_quiet (Keeps-make_event _ _ _ _) λ ev.
      Safe-bind (record_event-Safe inv ev 6 (omega arith) (omega arith)) λ _.
        after_quiet (Keeps-update_request (λ t rows. refl) _ _) λ res.
          after_quiet (Keeps-accepted _ res)
            λ _. after_quiet (Keeps-save (λ t rows. refl) _) λ _. Safe-Keeps (Keeps-pure _)

  pub lending_renewal-Safe : (r : Request) → Safe e I (lending_renewal r)
  unfolding lending_renewal
  lending_renewal-Safe r = after_quiet (Keeps-guard _ _ _) λ _. after_quiet (Keeps-fetch _) λ ls.
      after_quiet Keeps-ask λ e'. after_quiet (Keeps-guard _ _ _) λ _.
        after_quiet (Keeps-require_time _ _ _) λ cur. after_quiet (Keeps-require_time _ _ _) λ lim.
          after_quiet (Keeps-suggested_end _ _ _ _) λ sug.
            Safe-bind
              (Safe-if (after sug lim || before sug cur) (Safe-Keeps (Keeps-pure _))
                (renew_until-Safe r _ _ ls sug))
              λ ls'. Safe-Keeps (Keeps-respond ls')

  pub extend_subscription-Safe : (r : Request) → Safe e I (extend_subscription r)
  unfolding extend_subscription
  extend_subscription-Safe r = after_quiet (Keeps-fetch _) λ ls.
      after_quiet (Keeps-max_end _) λ lim. after_quiet (Keeps-guard _ _ _) λ _.
        after_quiet (Keeps-require_time _ _ _) λ cur.
          after_quiet (Keeps-suggested_end _ _ _ _) λ sug. after_quiet (Keeps-guard _ _ _) λ _.
            after_quiet (Keeps-guard _ _ _)
              λ _. Safe-bind (renew_until-Safe r _ _ ls sug) λ ls'. Safe-Keeps (Keeps-respond ls')

  pub lending_cancellation-Safe :
      (r : Request) (body : Option Status) → Safe e I (lending_cancellation r body)
  unfolding lending_cancellation
  lending_cancellation-Safe r body = after_quiet (Keeps-fetch _) λ ls.
      after_quiet (Keeps-decoded body) λ asked. after_quiet (Keeps-guard _ _ _) λ _.
        after_quiet (Keeps-guard _ _ _) λ _. after_quiet (Keeps-guard _ _ _) λ _.
          after_quiet Keeps-now λ t. after_quiet (Keeps-update_request (λ t' rows. refl) _ _) λ res.
            after_quiet (Keeps-accepted _ res) λ _. after_quiet (Keeps-make_event _ _ _ _) λ ev.
              Safe-bind
                (record_event-Safe inv ev _ (event_int-known (closing_status ls.status asked)).0
                  (event_int-known (closing_status ls.status asked)).1)
                λ _. after_quiet (Keeps-save (λ t' rows. refl) _) λ _. Safe-Keeps (Keeps-pure _)
