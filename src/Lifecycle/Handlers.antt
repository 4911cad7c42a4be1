-- ===== src/Lifecycle/Handlers.antt =====
-- Every handler of the License Status Server lets the table evolve along the diagram, whatever the
-- clock, the databases and the network do.
use readium_lcp_server.Prelude.{
  arith, pos, String, true, ◌≡◌, refl, Option, none, some, List, ◌||◌, str_eq,
}
use readium_lcp_server.Lifecycle.Steps.{Evolves, Mid, save-Evolves, add_status-Evolves}
use readium_lcp_server.Lifecycle.Rules.{
  Evolves-bind, then_quiet, then_guard, then_fetch, then_held, guard_held, then_reply, then_pure,
  Evolves-if, finally,
}
use readium_lcp_server.Server.Keeps.{Keeps-pure, Keeps-reply, Keeps-or_500, Keeps-ask, Keeps-now}
use readium_lcp_server.LsdServer.Keeps.{
  Keeps-make_event, Keeps-record_event, Keeps-update_request, Keeps-accepted, Keeps-respond,
  Keeps-deref, Keeps-decoded, Keeps-max_end, Keeps-require_time, Keeps-suggested_end,
  Keeps-check_device_status, Keeps-devices_of,
}
use readium_lcp_server.Lifecycle.{Evolution, IsNamed, ◌⟶◌, cancel, give_back, give_back_late}
use readium_lcp_server.LicenseStatuses.{LicenseStatus, StatusRow}
use readium_lcp_server.Status.{Status, ready, active, expired, returned, revoked, cancelled, other}
use readium_lcp_server.Server.{Env}
use readium_lcp_server.Time.{Time, after, before, truncate}
use readium_lcp_server.Server.Exec.{Exec, ◌>>=◌}
use readium_lcp_server.LsdServer.Common.{Request}
use readium_lcp_server.License.{License}
use readium_lcp_server.LsdServer
use readium_lcp_server.LsdServer.Document.{
  has_expired, get_license_status_document, list_registered_devices, create_license_status_document,
}
use readium_lcp_server.LsdServer.Links.{is_usable}
use readium_lcp_server.LsdServer.Register.{register_device, register_new}
use readium_lcp_server.LsdServer.Renew.{lending_renewal, renew_until}
use readium_lcp_server.LsdServer.Extend.{extend_subscription}
use readium_lcp_server.LsdServer.Cancel.{lending_cancellation}
use readium_lcp_server.LsdServer.Return.{lending_return, returned_status}
use readium_lcp_server.Lifecycle.Edges.{
  register_edge, renew_edge, extend_edge, expire_edge, cancel_edge,
}

abbrev same_table :
    {old : List StatusRow} (rows : List StatusRow) → Evolution old rows → Evolution old rows
same_table rows ev = ev

module _ {e : Env} {old : List StatusRow} where
  then_returned_status :
      {B : Type 0} (ls : LicenseStatus) (s : Status) {f : Status → Exec B}
      {Q : B → List StatusRow → Type 0}
      → ((s' : Status) → s ⟶ s' → IsNamed s' → Evolves e old (Mid old ls) (f s') Q)
      → Evolves e old (Mid old ls) (returned_status s >>= f) Q
  unfolding returned_status
  then_returned_status ls ready h = then_pure _ _ (h cancelled cancel refl)
  then_returned_status ls active h = then_pure _ _ (h returned give_back refl)
  then_returned_status ls expired h = then_pure _ _ (h returned give_back_late refl)
  then_returned_status ls returned h = then_reply _ _ (λ rows p. p.0)
  then_returned_status ls revoked h = then_reply _ _ (λ rows p. p.0)
  then_returned_status ls cancelled h = then_reply _ _ (λ rows p. p.0)
  then_returned_status ls (other s) h = then_reply _ _ (λ rows p. p.0)

  pub lending_return-Evolves :
      (r : Request) → Evolves e old (Evolution old) (lending_return r) (λ _. Evolution old)
  unfolding lending_return
  lending_return-Evolves r =
      then_fetch r.license_id
        (λ ls. guard_held ls _ _ _ λ _. then_returned_status ls ls.status λ s edge named.
          then_held ls (Keeps-make_event _ _ _ _) λ ev.
            then_held ls (Keeps-record_event (λ t rows. refl) _ _) λ _.
              then_held ls (Keeps-update_request (λ t rows. refl) _ _) λ res.
                then_held ls (Keeps-accepted _ res) λ _.
                  Evolves-bind (save-Evolves ls _ refl named edge)
                    λ _. finally same_table (Keeps-respond _))
        same_table

  register_new-Evolves :
      (r : Request) (ls : LicenseStatus)
      → is_usable ls.status ≡ true
      → Evolves e old (Mid old ls) (register_new r ls) (λ _. Evolution old)
  unfolding register_new
  register_new-Evolves r ls usable =
      let (edge, named) = register_edge ls.status usable in
      then_held ls (Keeps-make_event _ _ _ _) λ ev.
        then_held ls (Keeps-record_event (λ t rows. refl) _ _) λ _.
          then_held ls (Keeps-deref _) λ n.
            Evolves-bind (save-Evolves ls _ refl named edge) λ _. finally same_table (Keeps-pure _)

  pub register_device-Evolves :
      (r : Request) → Evolves e old (Evolution old) (register_device r) (λ _. Evolution old)
  unfolding register_device
  register_device-Evolves r = then_guard _ _ _ same_table λ _.
      then_fetch r.license_id
        (λ ls. then_held ls Keeps-ask λ e'. guard_held ls _ _ _ λ _. guard_held ls _ _ _ λ usable.
          then_held ls (Keeps-check_device_status _ _) λ res. then_held ls (Keeps-or_500 res) λ st.
            Evolves-bind
              (Evolves-if (str_eq st "") (λ _. register_new-Evolves r ls usable)
                (λ _. finally (λ rows p. p.0) (Keeps-pure _)))
              λ ls'. finally same_table (Keeps-respond ls'))
        same_table

  renew_until-Evolves :
      (r : Request) (name device : String) (ls : LicenseStatus) (end : Time)
      → ls.status ⟶ active
      → Evolves e old (Mid old ls) (renew_until r name device ls end) (λ _. Evolution old)
  unfolding renew_until
  renew_until-Evolves r name device ls end edge = then_held ls (Keeps-make_event _ _ _ _) λ ev.
      then_held ls (Keeps-record_event (λ t rows. refl) _ _) λ _.
        then_held ls (Keeps-update_request (λ t rows. refl) _ _) λ res.
          then_held ls (Keeps-accepted _ res) λ _.
            Evolves-bind (save-Evolves ls _ refl refl edge) λ _. finally same_table (Keeps-pure _)

  pub lending_renewal-Evolves :
      (r : Request) → Evolves e old (Evolution old) (lending_renewal r) (λ _. Evolution old)
  unfolding lending_renewal
  lending_renewal-Evolves r = then_guard _ _ _ same_table λ _.
      then_fetch r.license_id
        (λ ls. then_held ls Keeps-ask λ e'. guard_held ls _ _ _ λ renewable.
          then_held ls (Keeps-require_time _ _ _) λ cur.
            then_held ls (Keeps-require_time _ _ _) λ lim.
              then_held ls (Keeps-suggested_end _ _ _ _) λ sug.
                Evolves-bind
                  (Evolves-if (after sug lim || before sug cur)
                    (λ _. finally (λ rows p. p.0) (Keeps-pure _))
                    (λ _.
                      renew_until-Evolves r _ _ ls sug (renew_edge e'.config ls.status renewable)))
                  λ ls'. finally same_table (Keeps-respond ls'))
        same_table

  pub extend_subscription-Evolves :
      (r : Request) → Evolves e old (Evolution old) (extend_subscription r) (λ _. Evolution old)
  unfolding extend_subscription
  extend_subscription-Evolves r =
      then_fetch r.license_id
        (λ ls. then_held ls (Keeps-max_end _) λ lim. guard_held ls _ _ _ λ open_.
          then_held ls (Keeps-require_time _ _ _) λ cur.
            then_held ls (Keeps-suggested_end _ _ _ _) λ sug. guard_held ls _ _ _ λ _.
              guard_held ls _ _ _ λ _.
                Evolves-bind (renew_until-Evolves r _ _ ls sug (extend_edge ls.status open_))
                  λ ls'. finally same_table (Keeps-respond ls'))
        same_table

  pub lending_cancellation-Evolves :
      (r : Request) (body : Option Status)
      → Evolves e old (Evolution old) (lending_cancellation r body) (λ _. Evolution old)
  unfolding lending_cancellation
  lending_cancellation-Evolves r body =
      then_fetch r.license_id
        (λ ls. then_held ls (Keeps-decoded body) λ asked. guard_held ls _ _ _ λ h.
          guard_held ls _ _ _ λ k. guard_held ls _ _ _ λ l.
            let (edge, named) = cancel_edge ls.status asked h k l in
            then_held ls Keeps-now λ t.
              then_held ls (Keeps-update_request (λ t rows. refl) _ _) λ res.
                then_held ls (Keeps-accepted _ res) λ _.
                  then_held ls (Keeps-make_event _ _ _ _) λ ev.
                    then_held ls (Keeps-record_event (λ t rows. refl) _ _) λ _.
                      Evolves-bind (save-Evolves ls _ refl named edge)
                        λ _. finally same_table (Keeps-pure _))
        same_table

  expire-Evolves :
      (current : Time) (ls : LicenseStatus)
      → has_expired current ls ≡ true
      → Evolves e old (Mid old ls) (LsdServer.Document.expire ls) (λ _. Evolution old)
  unfolding LsdServer.Document.expire has_expired
  expire-Evolves current ls h = then_held ls Keeps-now λ t.
      Evolves-bind (save-Evolves ls _ refl refl (expire_edge ls.status (ground arith)))
        λ _. finally same_table (Keeps-pure _)

  pub get_license_status_document-Evolves :
      (r : Request)
      → Evolves e old (Evolution old) (get_license_status_document r) (λ _. Evolution old)
  unfolding get_license_status_document
  get_license_status_document-Evolves r =
      then_fetch r.license_id
        (λ ls. then_held ls Keeps-now λ t.
          Evolves-bind
            (Evolves-if (has_expired (pos (truncate t)) ls) (expire-Evolves (pos (truncate t)) ls)
              (λ _. finally (λ rows p. p.0) (Keeps-pure _)))
            λ ls'. finally same_table (Keeps-respond ls'))
        same_table

  pub list_registered_devices-Evolves :
      (r : Request) → Evolves e old (Evolution old) (list_registered_devices r) (λ _. Evolution old)
  unfolding list_registered_devices
  list_registered_devices-Evolves r =
      then_fetch r.license_id
        (λ ls. then_held ls (Keeps-devices_of ls.id) λ res. finally (λ rows p. p.0) (Keeps-pure _))
        same_table

  pub create_license_status_document-Evolves :
      (body : Option License)
      → Evolves e old (Evolution old) (create_license_status_document body) (λ _. Evolution old)
  unfolding create_license_status_document
  create_license_status_document-Evolves none = finally same_table (Keeps-reply _)
  create_license_status_document-Evolves (some lic) = then_quiet same_table Keeps-ask λ e'.
      then_quiet same_table Keeps-now λ t.
        Evolves-bind (add_status-Evolves _)
          λ res. then_quiet same_table (Keeps-or_500 res) λ _. finally same_table (Keeps-pure _)
