-- ===== src/Registry/Steps.antt =====
-- The steps of the handlers, seen from the table `event`.
use readium_lcp_server.Prelude.{ℕ, String, Bool, true, false, ◌≡◌, ◌≤◌, List, if◌then◌else◌}
use readium_lcp_server.Transactions.{Event, EventRow, device_status}
use readium_lcp_server.Server.{Env}
use readium_lcp_server.Server.Exec.{Exec, done, ◌>>=◌, ◌>>◌, or_500}
use readium_lcp_server.Server.Triple.{
  Triple, Triple-pure, Triple-bind, Triple-db_call, Triple-or_500, Triple-now,
}
use readium_lcp_server.Server.Views.{Triple-keeps}
use readium_lcp_server.Server.Keeps.{Keeps}
use readium_lcp_server.Stores.{add_event, check_device_status}
use readium_lcp_server.LsdServer.Common.{make_event, record_event}
use readium_lcp_server.Registry.{IsInvariant}

-- However an action ends, the invariant of the events holds again.
pub record Safe (e : Env) (I : List EventRow → Type 0) {A : Type 0} (m : Exec A) : Type 0 where
  pub triple : Triple e (λ _ t. I t.events) (λ t. I t.events) m (λ _ t. I t.events)

module _ {e : Env} {I : List EventRow → Type 0} {A : Type 0} where
  pub Safe-Keeps : {m : Exec A} → Keeps (λ t. t.events) m → Safe e I m
  Safe-Keeps k = record { triple = Triple-keeps (λ t. t.events) I (λ r t p. p) k }

  pub Safe-if : (b : Bool) {m n : Exec A} → Safe e I m → Safe e I n → Safe e I (if b then m else n)
  Safe-if true hm hn = hm
  Safe-if false hm hn = hn

module _ {e : Env} {I : List EventRow → Type 0} {A B : Type 0} where
  pub Safe-bind :
      {m : Exec A} {f : A → Exec B} → Safe e I m → ((a : A) → Safe e I (f a)) → Safe e I (m >>= f)
  Safe-bind hm hf = record { triple = Triple-bind hm.triple (λ a. (hf a).triple) }

  pub after_quiet :
      {m : Exec A} {f : A → Exec B}
      → Keeps (λ t. t.events) m
      → ((a : A) → Safe e I (f a))
      → Safe e I (m >>= f)
  after_quiet k hf = Safe-bind (Safe-Keeps k) hf

module _ {e : Env} {I : List EventRow → Type 0} (inv : IsInvariant I) where
  pub record_event-Safe :
      (ev : Event) (type : ℕ) → 2 ≤ type → type ≤ 6 → Safe e I (record_event ev type)
  unfolding record_event add_event
  record_event-Safe ev type lo hi = record {
    triple =
        Triple-bind {Q = λ _ t. I t.events}
          (Triple-db_call _ (λ t p. p) (λ t p. inv.event_added t.events ev type lo hi p))
          λ r. Triple-or_500 r (λ t p. p) (λ a _ t p. p);
  }

-- What is known after a look-up of a device's status
abbrev pub Looked : (List EventRow → Type 0) → ℕ → String → String → List EventRow → Type 0
Looked I fk device status rows = I rows × (device_status fk device rows ≡ status)

module _ {e : Env} (I : List EventRow → Type 0) where
  make_event-new :
      (type name device : String) (fk : ℕ)
      → Triple e
          (λ _ t. I t.events)
          (λ t. Looked I fk device "" t.events)
          (make_event type name device fk)
          (λ ev t. Looked I ev.license_status_fk ev.device_id "" t.events)
  unfolding make_event
  make_event-new type name device fk = Triple-bind Triple-now (λ n. Triple-pure _ (λ t p. p))

module _ {e : Env} {I : List EventRow → Type 0} where
  pub look_up :
      (fk : ℕ) (device : String) {B : Type 0} {f : String → Exec B}
      → ((status : String)
          → Triple e
              (λ _ t. I t.events)
              (λ t. Looked I fk device status t.events)
              (f status)
              (λ _ t. I t.events))
      → Safe e I (do result ← check_device_status fk device; status ← or_500 result; f status)
  unfolding check_device_status
  look_up fk device hf = record {
    triple =
        Triple-bind
          {Q = λ r t.
            I t.events × ((s : String) → r ≡ done s → device_status fk device t.events ≡ s)}
          (Triple-db_call _ (λ t p. (p, λ s q. cc)) (λ t p. (p, λ s q. cc)))
          λ r.
            Triple-bind {Q = λ s t. Looked I fk device s t.events}
              (Triple-or_500 r (λ t p. p.0) (λ s q t p. (p.0, p.1 s q))) hf;
  }

  record_event-new :
      IsInvariant I
      → (ev : Event)
      → Triple e
          (λ _ t. I t.events)
          (λ t. Looked I ev.license_status_fk ev.device_id "" t.events)
          (record_event ev 1)
          (λ _ t. I t.events)
  unfolding record_event add_event
  record_event-new inv ev =
      Triple-bind {Q = λ _ t. I t.events}
        (Triple-db_call _ (λ t p. p.0) (λ t p. inv.device_added t.events ev p.1 p.0))
        λ r. Triple-or_500 r (λ t p. p) (λ a _ t p. p)

  -- The registration of a device that has no event yet
  pub registration :
      IsInvariant I
      → (type name device : String) (fk : ℕ) {B : Type 0} {f : Event → Exec B}
      → ((ev : Event) → Safe e I (f ev))
      → Triple e
          (λ _ t. I t.events)
          (λ t. Looked I fk device "" t.events)
          (do ev ← make_event type name device fk; record_event ev 1; f ev)
          (λ _ t. I t.events)
  registration inv type name device fk hf =
      Triple-bind (make_event-new I type name device fk)
        λ ev. Triple-bind (record_event-new inv ev) λ _. (hf ev).triple
