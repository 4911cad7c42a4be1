-- ===== src/Registry/Once.antt =====
-- The register of devices: no device is registered twice.
use readium_lcp_server.Prelude.{
  ℕ, zero, suc, ◌+◌, ◌≤◌, String, str_eq, eq_iff, ◌==◌, ◌&&◌, true, false, ◌≡◌, ◌≢◌, refl, sym, ap,
  ◌∙◌, Option, none, some, List, [], ◌∷◌, ◌++◌, count, count-append, arith, Bool-cases,
  Option-cases, ltb_ℤ, subst, if_true, if_false, ◌⊎◌, inl, inr,
}
use mathlib.Core.Bool.{true≢false}
use readium_lcp_server.Status.{event_types}
use readium_lcp_server.Transactions.{
  Event, EventRow, insert_event, device_status, event_text, latest_of_device, is_of_device,
  new_event, later,
}
use readium_lcp_server.Server.{Env, World}
use readium_lcp_server.LsdServer.Routes.{Call, run}
use readium_lcp_server.Registry.Runs.{run-invariant}

-- How often a device is registered under a license.
abbrev pub registrations : ℕ → String → List EventRow → ℕ
registrations fk device rows = count (λ r. is_of_device fk device r && r.type == 1) rows

-- The type of an event is one that EventTypes names.
abbrev pub IsNamedType : EventRow → Type 0
IsNamedType r = (1 ≤ r.type) × (r.type ≤ 6)

abbrev pub AllNamed : List EventRow → Type 0
AllNamed [] = Unit {0}
AllNamed (r ∷ rows) = IsNamedType r × AllNamed rows

-- No device is registered twice under a license.
pub record IsRegister (rows : List EventRow) : Type 0 where
  pub named : AllNamed rows
  pub once : (fk : ℕ) (device : String) → registrations fk device rows ≤ 1

event_types-named : (n : ℕ) → 1 ≤ n → n ≤ 6 → str_eq (event_types n) "" ≡ false
unfolding event_types
event_types-named zero lo hi = absurd (omega arith)
event_types-named (suc zero) lo hi = refl
event_types-named (suc (suc zero)) lo hi = refl
event_types-named (suc (suc (suc zero))) lo hi = refl
event_types-named (suc (suc (suc (suc zero)))) lo hi = refl
event_types-named (suc (suc (suc (suc (suc zero))))) lo hi = refl
event_types-named (suc (suc (suc (suc (suc (suc zero)))))) lo hi = refl
event_types-named (suc (suc (suc (suc (suc (suc (suc n))))))) lo hi = absurd (omega arith)

later-cases :
    (q : EventRow) (best : Option EventRow) (r : EventRow)
    → later q best ≡ some r
    → (q ≡ r) ⊎ (best ≡ some r)
later-cases q none r h = inl cc
later-cases q (some s) r h = elim (Bool-cases (ltb_ℤ q.timestamp s.timestamp)) [
  | inl t ↦ inr (sym (if_true _ _ t) ∙ h)
  | inr f ↦ (let g : some q ≡ some r = sym (if_false _ _ f) ∙ h in inl cc)
]

later-some : (q : EventRow) (best : Option EventRow) → later q best ≢ none
later-some q none h = cc
later-some q (some s) h = ground arith

latest_named :
    (fk : ℕ) (device : String) (rows : List EventRow)
    → AllNamed rows
    → (r : EventRow) → latest_of_device fk device rows ≡ some r
    → IsNamedType r
unfolding latest_of_device
latest_named fk device [] k r h = cc
latest_named fk device (q ∷ rows) k r h =
    let best = latest_of_device fk device rows in
    elim (Bool-cases (is_of_device fk device q)) [
      | inl t ↦ elim (later-cases q best r (sym (if_true _ _ t) ∙ h)) [
        | inl e ↦ subst IsNamedType e k.0
        | inr e ↦ latest_named fk device rows k.1 r e
      ]
      | inr f ↦ latest_named fk device rows k.1 r (sym (if_false _ _ f) ∙ h)
    ]

none_of_device :
    (fk : ℕ) (device : String) (rows : List EventRow)
    → latest_of_device fk device rows ≡ none
    → registrations fk device rows ≡ 0
unfolding latest_of_device
none_of_device fk device [] h = refl
none_of_device fk device (q ∷ rows) h =
    let best = latest_of_device fk device rows in
    elim (Bool-cases (is_of_device fk device q)) [
      | inl t ↦ absurd (later-some q best (sym (if_true _ _ t) ∙ h))
      | inr f ↦
          if_false _ _ (ap (λ b. b && q.type == 1) f)
          ∙ none_of_device fk device rows (sym (if_false _ _ f) ∙ h)
    ]

event_text-some : (r : EventRow) → IsNamedType r → event_text (some r) ≢ ""
event_text-some r k h =
    true≢false (sym ((eq_iff (event_types r.type) "").1 h) ∙ event_types-named r.type k.0 k.1)

-- A device without a status has no event.
unregistered :
    (fk : ℕ) (device : String) (rows : List EventRow)
    → AllNamed rows
    → device_status fk device rows ≡ ""
    → latest_of_device fk device rows ≡ none
unfolding device_status
unregistered fk device rows k h = elim (Option-cases (latest_of_device fk device rows)) [
  | inl e ↦ e
  | inr (r, e) ↦
      absurd (event_text-some r (latest_named fk device rows k r e) (sym (ap event_text e) ∙ h))
]

AllNamed-append :
    (rows : List EventRow) (r : EventRow)
    → AllNamed rows
    → IsNamedType r
    → AllNamed (rows ++ r ∷ [])
AllNamed-append [] r k h = (h, tt)
AllNamed-append (q ∷ rows) r k h = (k.0, AllNamed-append rows r k.1 h)

appended :
    (fk : ℕ) (device : String) (rows : List EventRow) (r : EventRow)
    → registrations fk device (rows ++ r ∷ [])
      ≡ registrations fk device rows + registrations fk device (r ∷ [])
appended fk device rows r =
    count-append (λ q. is_of_device fk device q && q.type == 1) rows (r ∷ [])

IsRegister-event :
    (rows : List EventRow) (ev : Event) (type : ℕ)
    → 2 ≤ type
    → type ≤ 6
    → IsRegister rows
    → IsRegister (insert_event ev type rows)
unfolding insert_event
IsRegister-event rows ev type lo hi reg = record {
  named = AllNamed-append rows _ reg.named (omega arith, hi);
  once = λ fk device.
      ground (arith, appended fk device rows (new_event ev type rows), reg.once fk device);
}

is_of_device-eq :
    (fk : ℕ) (device : String) (r : EventRow)
    → is_of_device fk device r ≡ true
    → (r.license_status_fk ≡ fk) × (r.device_id ≡ device)
is_of_device-eq fk device r h = ground (arith, eq_iff r.device_id device)

no_registration :
    (fk : ℕ) (device : String) (ev : Event) (rows : List EventRow)
    → AllNamed rows
    → device_status ev.license_status_fk ev.device_id rows ≡ ""
    → is_of_device fk device (new_event ev 1 rows) ≡ true
    → registrations fk device rows ≡ 0
no_registration fk device ev rows k new t =
    let (e1, e2) = is_of_device-eq fk device (new_event ev 1 rows) t in
    let z = none_of_device ev.license_status_fk ev.device_id rows (unregistered _ _ rows k new) in
    subst (λ x. registrations x device rows ≡ 0) e1
      (subst (λ d. registrations ev.license_status_fk d rows ≡ 0) e2 z)

IsRegister-device :
    (rows : List EventRow) (ev : Event)
    → device_status ev.license_status_fk ev.device_id rows ≡ ""
    → IsRegister rows
    → IsRegister (insert_event ev 1 rows)
unfolding insert_event
IsRegister-device rows ev new reg = record {
  named = AllNamed-append rows _ reg.named (omega arith, omega arith);
  once = λ fk device. elim (Bool-cases (is_of_device fk device (new_event ev 1 rows))) [
    | inl t ↦ ground (
      arith,
      appended fk device rows (new_event ev 1 rows),
      no_registration fk device ev rows reg.named new t,
    )
    | inr f ↦ ground (arith, appended fk device rows (new_event ev 1 rows), reg.once fk device)
  ];
}

-- However the requests are, and whatever fails: under each license every device is registered at
-- most once, when that holds of the events at the start and these have types from 1 to 6.
pub registered_once :
    (e : Env) (calls : List Call) (w : World)
    → IsRegister w.tables.events
    → (fk : ℕ) (device : String) → registrations fk device (run e calls w).tables.events ≤ 1
registered_once e calls w reg fk device =
    let reg' =
      run-invariant (record { event_added = IsRegister-event; device_added = IsRegister-device }) e
        calls w reg in
    reg'.once fk device
