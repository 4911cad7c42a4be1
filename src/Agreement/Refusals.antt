-- ===== src/Agreement/Refusals.antt =====
-- Actions that end a request early only with a reply that is no success: one rule for each way to
-- build an action, and the steps of the handlers.
use readium_lcp_server.Prelude.{
  ℕ, String, Bool, true, false, ◌≡◌, refl, Option, none, some, str_eq, if◌then◌else◌, Bool-cases,
  inl, inr,
}
use readium_lcp_server.Time.{Time, is_zero}
use readium_lcp_server.Status.{Status, ready, active, revoked, returned, cancelled, expired, other}
use readium_lcp_server.Transactions.{Event}
use readium_lcp_server.LicenseStatuses.{LicenseStatus}
use readium_lcp_server.Server.{Env, Tables, World, Reply, ProblemType}
use readium_lcp_server.Server.Exec.{
  Exec, Result, ok, stop, DbResult, done, not_found, failed, pure, reply, db_call, guard, or_500,
  ask, now, ◌>>=◌, continue,
}
use readium_lcp_server.Stores.{add_event, events_of, get_by_license_id}
use readium_lcp_server.LsdServer.Common.{
  make_event, record_event, fetch, respond, fill_license_status, found_or_error,
}
use readium_lcp_server.LsdServer.Return.{returned_status}
use readium_lcp_server.LsdServer.Cancel.{decoded}
use readium_lcp_server.LsdServer.Extend.{max_end}
use readium_lcp_server.LsdServer.Renew.{
  require_time, parsed, extension_start, configured_end, suggested_end,
}
use readium_lcp_server.Agreement.{is_success, success_code}

-- What an outcome must be
abbrev pub Fails : {A : Type 0} → Result A → Type 0
Fails (ok a) = Unit {0}
Fails (stop r) = is_success r ≡ false

pub record Refuses {A : Type 0} (m : Exec A) : Type 0 where
  pub at : (e : Env) (w : World) → Fails (m e w).0

module _ {A : Type 0} where
  pub Refuses-pure : (a : A) → Refuses (pure a)
  unfolding pure
  Refuses-pure a = record { at = λ e w. tt }

  pub Refuses-reply : (r : Reply) → is_success r ≡ false → Refuses (reply {A = A} r)
  unfolding reply
  Refuses-reply r h = record { at = λ e w. h }

  pub Refuses-if : (b : Bool) {m n : Exec A} → Refuses m → Refuses n → Refuses (if b then m else n)
  Refuses-if true hm hn = hm
  Refuses-if false hm hn = hn

  pub Refuses-db_call : (query : Tables → DbResult A × Tables) → Refuses (db_call query)
  unfolding db_call
  Refuses-db_call query = record {
    at = λ e w. elim (Bool-cases (e.db_fails w.db_calls)) [
      | inl down ↦ rw down tt
      | inr up ↦ rw up tt
    ];
  }

  pub Refuses-or_500 : (r : DbResult A) → Refuses (or_500 r)
  unfolding or_500
  Refuses-or_500 (done a) = Refuses-pure a
  Refuses-or_500 not_found = Refuses-reply _ refl
  Refuses-or_500 failed = Refuses-reply _ refl

module _ {A B : Type 0} where
  Fails-continue :
      (f : A → Exec B) (r : Result A) (e : Env) (w : World)
      → Fails r
      → ((a : A) → Refuses (f a))
      → Fails (continue r f e w).0
  Fails-continue f (ok a) e w h hf = (hf a).at e w
  Fails-continue f (stop r) e w h hf = h

  pub Refuses-bind :
      {m : Exec A} {f : A → Exec B} → Refuses m → ((a : A) → Refuses (f a)) → Refuses (m >>= f)
  unfolding ◌>>=◌
  Refuses-bind {m} {f} hm hf = record {
    at = λ e w. let (r, w') = m e w in Fails-continue f r e w' (hm.at e w) hf;
  }

pub Refuses-guard :
    (b : Bool) (t : ProblemType) (status : ℕ)
    → success_code status ≡ false
    → Refuses (guard b t status)
unfolding guard
Refuses-guard true t status h = Refuses-pure tt
Refuses-guard false t status h = Refuses-reply _ h

pub Refuses-ask : Refuses ask
unfolding ask
Refuses-ask = record { at = λ e w. tt }

pub Refuses-now : Refuses now
unfolding now
Refuses-now = record { at = λ e w. tt }

pub Refuses-make_event : (t n d : String) (fk : ℕ) → Refuses (make_event t n d fk)
unfolding make_event
Refuses-make_event t n d fk = Refuses-bind Refuses-now (λ x. Refuses-pure _)

pub Refuses-record_event : (ev : Event) (type : ℕ) → Refuses (record_event ev type)
unfolding record_event add_event
Refuses-record_event ev type = Refuses-bind (Refuses-db_call _) Refuses-or_500

pub Refuses-decoded : (s : Option Status) → Refuses (decoded s)
unfolding decoded
Refuses-decoded none = Refuses-reply _ refl
Refuses-decoded (some s) = Refuses-pure s

pub Refuses-max_end : (t : Option Time) → Refuses (max_end t)
unfolding max_end
Refuses-max_end none = Refuses-reply _ refl
Refuses-max_end (some t) = Refuses-pure t

pub Refuses-require_time :
    (u : Option Time) (t : ProblemType) (status : ℕ)
    → success_code status ≡ false
    → Refuses (require_time u t status)
unfolding require_time
Refuses-require_time none t status h = Refuses-reply _ h
Refuses-require_time (some u) t status h =
    Refuses-if (is_zero u) (Refuses-reply _ h) (Refuses-pure u)

Refuses-parsed : (t : Option Time) → Refuses (parsed t)
unfolding parsed
Refuses-parsed none = Refuses-reply _ refl
Refuses-parsed (some t) = Refuses-pure t

Refuses-extension_start : (from_now : Bool) (t : Time) → Refuses (extension_start from_now t)
unfolding extension_start
Refuses-extension_start true t = Refuses-bind Refuses-now (λ n. Refuses-pure _)
Refuses-extension_start false t = Refuses-pure t

Refuses-configured_end :
    (from_now : Bool) (status : ℕ) (t : Time)
    → success_code status ≡ false
    → Refuses (configured_end from_now status t)
unfolding configured_end
Refuses-configured_end from_now status t h = Refuses-bind Refuses-ask λ e.
    Refuses-bind (Refuses-guard _ _ status h)
      λ _. Refuses-bind (Refuses-extension_start from_now t) λ s. Refuses-pure _

pub Refuses-suggested_end :
    (from_now : Bool) (status : ℕ) (end : String) (t : Time)
    → success_code status ≡ false
    → Refuses (suggested_end from_now status end t)
unfolding suggested_end
Refuses-suggested_end from_now status end t h =
    Refuses-bind Refuses-ask λ e.
      Refuses-if (str_eq end "") (Refuses-configured_end from_now status t h) (Refuses-parsed _)

pub Refuses-returned_status : (s : Status) → Refuses (returned_status s)
unfolding returned_status
Refuses-returned_status ready = Refuses-pure _
Refuses-returned_status active = Refuses-pure _
Refuses-returned_status expired = Refuses-pure _
Refuses-returned_status returned = Refuses-reply _ refl
Refuses-returned_status revoked = Refuses-reply _ refl
Refuses-returned_status cancelled = Refuses-reply _ refl
Refuses-returned_status (other s) = Refuses-reply _ refl

Refuses-fill : (ls : LicenseStatus) → Refuses (fill_license_status ls)
unfolding fill_license_status events_of
Refuses-fill ls =
    Refuses-bind Refuses-ask
      λ e. Refuses-bind (Refuses-db_call _) λ r. Refuses-bind (Refuses-or_500 r) λ _. Refuses-pure _

pub Refuses-respond : (ls : LicenseStatus) → Refuses (respond ls)
unfolding respond
Refuses-respond ls = Refuses-bind (Refuses-fill ls) (λ _. Refuses-pure _)

Refuses-found_or_error : (r : DbResult LicenseStatus) → Refuses (found_or_error r)
unfolding found_or_error
Refuses-found_or_error (done ls) = Refuses-pure ls
Refuses-found_or_error not_found = Refuses-reply _ refl
Refuses-found_or_error failed = Refuses-reply _ refl

pub Refuses-fetch : (ref : String) → Refuses (fetch ref)
unfolding fetch get_by_license_id
Refuses-fetch ref =
    Refuses-bind (Refuses-bind Refuses-ask (λ e. Refuses-db_call _)) Refuses-found_or_error
