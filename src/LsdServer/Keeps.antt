-- ===== src/LsdServer/Keeps.antt =====
-- The steps of the handlers keep every view of the tables that does not look at what they write.
pub mod Queries
use readium_lcp_server.Prelude.{
  ℕ, ℤ, String, Bool, true, false, ◌≡◌, refl, Option, none, some, List, Bool-cases, inl, inr,
  str_eq,
}
use readium_lcp_server.Time.{Time, is_zero}
use readium_lcp_server.Status.{Status, ready, active, revoked, returned, cancelled, expired, other}
use readium_lcp_server.License.{LicenseRow}
use readium_lcp_server.LicenseServer.Keeps.{Keeps-update_license}
use readium_lcp_server.Transactions.{Event, EventRow}
use readium_lcp_server.LicenseStatuses.{LicenseStatus, StatusRow, Columns}
use readium_lcp_server.Server.{
  Env, Tables, World, Reply, ProblemType, Delivery, lost, answered, answer_lost,
}
use readium_lcp_server.Server.Exec.{Exec, DbResult, done, not_found, failed}
use readium_lcp_server.Server.Keeps.{
  Keeps, Keeps-pure, Keeps-reply, Keeps-if, Keeps-db_call, Keeps-or_500, Keeps-bind, Keeps-guard,
  Keeps-ask, Keeps-now, keeps_rules,
}
use readium_lcp_server.Stores.{
  add_event, events_of, check_device_status, devices_of, get_by_license_id, update, columns,
  list_statuses, count_statuses, count_with_status, run_count, run_update,
}
use readium_lcp_server.LsdServer.Common.{
  make_event, record_event, update_request, deliver, accepted, fill_license_status, respond, fetch,
  save, found_or_error,
}
use readium_lcp_server.LsdServer.Register.{deref}
use readium_lcp_server.LsdServer.Return.{returned_status}
use readium_lcp_server.LsdServer.Cancel.{decoded}
use readium_lcp_server.LsdServer.Extend.{max_end}
use readium_lcp_server.LsdServer.Renew.{
  require_time, parsed, extension_start, configured_end, suggested_end,
}

module _ {X : Type 0} {view : Tables → X} where
  pub Keeps-make_event : (t n d : String) (fk : ℕ) → Keeps view (make_event t n d fk)
  unfolding make_event
  Keeps-make_event t n d fk = search keeps_rules

  pub Keeps-check_device_status : (fk : ℕ) (d : String) → Keeps view (check_device_status fk d)
  unfolding check_device_status
  Keeps-check_device_status fk d = Keeps-db_call _ (λ t. refl)

  Keeps-fill : (ls : LicenseStatus) → Keeps view (fill_license_status ls)
  unfolding fill_license_status events_of
  Keeps-fill ls = Keeps-bind Keeps-ask λ e.
      Keeps-bind (Keeps-db_call _ (λ t. refl)) λ r. Keeps-bind (Keeps-or_500 r) λ _. Keeps-pure _

  pub Keeps-respond : (ls : LicenseStatus) → Keeps view (respond ls)
  unfolding respond
  Keeps-respond ls = Keeps-bind (Keeps-fill ls) (λ _. Keeps-pure _)

  pub Keeps-accepted : (t : ProblemType) (r : Option ℕ) → Keeps view (accepted t r)
  unfolding accepted
  Keeps-accepted t none = Keeps-reply _
  Keeps-accepted t (some status) = Keeps-guard _ _ _

  pub Keeps-deref : (n : Option ℤ) → Keeps view (deref n)
  unfolding deref
  Keeps-deref none = Keeps-reply _
  Keeps-deref (some n) = Keeps-pure n

  pub Keeps-decoded : (s : Option Status) → Keeps view (decoded s)
  unfolding decoded
  Keeps-decoded none = Keeps-reply _
  Keeps-decoded (some s) = Keeps-pure s

  pub Keeps-returned_status : (s : Status) → Keeps view (returned_status s)
  unfolding returned_status
  Keeps-returned_status ready = Keeps-pure _
  Keeps-returned_status active = Keeps-pure _
  Keeps-returned_status expired = Keeps-pure _
  Keeps-returned_status returned = Keeps-reply _
  Keeps-returned_status revoked = Keeps-reply _
  Keeps-returned_status cancelled = Keeps-reply _
  Keeps-returned_status (other s) = Keeps-reply _

  pub Keeps-max_end : (t : Option Time) → Keeps view (max_end t)
  unfolding max_end
  Keeps-max_end none = Keeps-reply _
  Keeps-max_end (some t) = Keeps-pure t

  pub Keeps-require_time :
      (u : Option Time) (t : ProblemType) (status : ℕ) → Keeps view (require_time u t status)
  unfolding require_time
  Keeps-require_time none t status = Keeps-reply _
  Keeps-require_time (some u) t status = Keeps-if (is_zero u) (Keeps-reply _) (Keeps-pure u)

  Keeps-parsed : (t : Option Time) → Keeps view (parsed t)
  unfolding parsed
  Keeps-parsed none = Keeps-reply _
  Keeps-parsed (some t) = Keeps-pure t

  Keeps-extension_start : (from_now : Bool) (t : Time) → Keeps view (extension_start from_now t)
  unfolding extension_start
  Keeps-extension_start true t = Keeps-bind Keeps-now (λ n. Keeps-pure _)
  Keeps-extension_start false t = Keeps-pure t

  Keeps-configured_end :
      (from_now : Bool) (status : ℕ) (t : Time) → Keeps view (configured_end from_now status t)
  unfolding configured_end
  Keeps-configured_end from_now status t = Keeps-bind Keeps-ask λ e.
      Keeps-bind (Keeps-guard _ _ _)
        λ _. Keeps-bind (Keeps-extension_start from_now t) λ s. Keeps-pure _

  pub Keeps-suggested_end :
      (from_now : Bool) (status : ℕ) (end : String) (t : Time)
      → Keeps view (suggested_end from_now status end t)
  unfolding suggested_end
  Keeps-suggested_end from_now status end t =
      Keeps-bind Keeps-ask
        λ e. Keeps-if (str_eq end "") (Keeps-configured_end from_now status t) (Keeps-parsed _)

  pub Keeps-devices_of : (fk : ℕ) → Keeps view (devices_of fk)
  unfolding devices_of
  Keeps-devices_of fk = Keeps-db_call _ (λ t. refl)

  found_or_error-Keeps : (r : DbResult LicenseStatus) → Keeps view (found_or_error r)
  unfolding found_or_error
  found_or_error-Keeps (done ls) = Keeps-pure ls
  found_or_error-Keeps not_found = Keeps-reply _
  found_or_error-Keeps failed = Keeps-reply _

  pub Keeps-fetch : (ref : String) → Keeps view (fetch ref)
  unfolding fetch get_by_license_id
  Keeps-fetch ref =
      Keeps-bind (Keeps-bind Keeps-ask (λ e. Keeps-db_call _ (λ t. refl))) found_or_error-Keeps

module _ {X : Type 0} {view : Tables → X}
    (h : (t : Tables) (rows : List EventRow) → view (record t { events = rows }) ≡ view t) where
  pub Keeps-record_event : (ev : Event) (type : ℕ) → Keeps view (record_event ev type)
  unfolding record_event add_event
  Keeps-record_event ev type = Keeps-bind (Keeps-db_call _ (λ t. h t _)) Keeps-or_500

module _ {X : Type 0} {view : Tables → X}
    (h : (t : Tables) (rows : List StatusRow) → view (record t { statuses = rows }) ≡ view t) where
  run_update-Keeps :
      (id : ℕ) (c : Option Columns) (t : Tables) → view (run_update id c t).1 ≡ view t
  run_update-Keeps id none t = refl
  run_update-Keeps id (some c) t = h t _

  pub Keeps-save : (ls : LicenseStatus) → Keeps view (save ls)
  unfolding save update
  Keeps-save ls = Keeps-bind (Keeps-db_call _ (run_update-Keeps ls.id (columns ls))) Keeps-or_500

module _ {X : Type 0} {view : Tables → X}
    (h : (t : Tables) (rows : List LicenseRow) → view (record t { licenses = rows }) ≡ view t) where
  Keeps-deliver :
      (d : Delivery) (m : Exec Reply)
      → Keeps view m
      → (e : Env) (w : World) → view (deliver d m e w).1.tables ≡ view w.tables
  unfolding deliver
  Keeps-deliver lost m h e w = refl
  Keeps-deliver answered m h e w = h.at e w
  Keeps-deliver answer_lost m h e w = h.at e w

  pub Keeps-update_request : (t : Time) (id : String) → Keeps view (update_request t id)
  unfolding update_request
  Keeps-update_request t id = record {
    at = λ e w. elim (Bool-cases (str_eq e.config.lcp_base_url "")) [
      | inl unset ↦ rw unset
      | inr configured ↦
          rw configured (Keeps-deliver (e.network w.requests) _ (Keeps-update_license h id _) e _)
    ];
  }
