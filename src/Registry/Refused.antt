-- ===== src/Registry/Refused.antt =====
-- A registration that is refused leaves no trace.
use readium_lcp_server.Prelude.{
  ℕ, ℤ, Bool, true, false, ◌≡◌, refl, sym, ◌∙◌, ◌||◌, ◌==◌, Option, none, some, str_eq,
}
use mathlib.Core.Bool.{true≢false}
use readium_lcp_server.LicenseStatuses.{LicenseStatus}
use readium_lcp_server.Transactions.{Event}
use readium_lcp_server.Server.{Env, Tables, World, Reply, code}
use readium_lcp_server.Server.Exec.{Exec, Result, ok, stop, response, serve, ◌>>=◌}
use readium_lcp_server.Server.Triple.{
  Triple, Post, Triple-pure, Triple-reply, Triple-bind, Triple-if, Triple-db_call, Triple-or_500,
  Triple-now, ask_bind,
}
use readium_lcp_server.Server.Keeps.{Keeps, Keeps-guard, Keeps-ask, Keeps-or_500}
use readium_lcp_server.Server.Views.{after_keeps}
use readium_lcp_server.Stores.{add_event, update, events_of}
use readium_lcp_server.LsdServer.Common.{
  Request, make_event, record_event, save, respond, fill_license_status,
}
use readium_lcp_server.LsdServer.Keeps.{Keeps-fetch, Keeps-check_device_status}
use readium_lcp_server.LsdServer.Register.{register_device, register_new, deref}

-- The codes of the refusals: 400, 403 and 404.
abbrev pub is_refusal : Reply → Bool
is_refusal r = code r == 400 || code r == 403 || code r == 404

-- With such a reply, the tables are those from before the request.
abbrev Traceless : Tables → Reply → Tables → Type 0
Traceless old r u = is_refusal r ≡ true → u ≡ old

unchanged_ends : (old : Tables) (r : Reply) (u : Tables) → u ≡ old → Traceless old r u
unchanged_ends old r u p h = p

module _ {e : Env} (old : Tables) {A B : Type 0} {Q : B → Tables → Type 0} where
  -- Steps before the first write
  before_write :
      {m : Exec A} {f : A → Exec B}
      → Keeps (λ u. u) m
      → ((a : A) → Triple e (Traceless old) (λ u. u ≡ old) (f a) Q)
      → Triple e (Traceless old) (λ u. u ≡ old) (m >>= f) Q
  before_write keeps hf = after_keeps (λ u. u) (λ u. u ≡ old) (unchanged_ends old) keeps hf

-- Steps after it, which reply with no refusal
module _ {e : Env} (old : Tables) where
  record_event-Traceless :
      (ev : Event) (type : ℕ)
      → Triple e (Traceless old) (λ _. Unit {0}) (record_event ev type) (λ _ _. Unit {0})
  unfolding record_event add_event
  record_event-Traceless ev type =
      Triple-bind {Q = λ _ _. Unit {0}} (Triple-db_call _ (λ u p. tt) (λ u p. tt))
        λ r. Triple-or_500 r (λ u p h. cc) (λ a _ u p. tt)

  save-Traceless :
      (ls : LicenseStatus) → Triple e (Traceless old) (λ _. Unit {0}) (save ls) (λ _ _. Unit {0})
  unfolding save update
  save-Traceless ls =
      Triple-bind {Q = λ _ _. Unit {0}} (Triple-db_call _ (λ u p. tt) (λ u p. tt))
        λ r. Triple-or_500 r (λ u p h. cc) (λ a _ u p. tt)

  deref-Traceless :
      (n : Option ℤ) → Triple e (Traceless old) (λ _. Unit {0}) (deref n) (λ _ _. Unit {0})
  unfolding deref
  deref-Traceless none = Triple-reply _ (λ u p h. cc)
  deref-Traceless (some n) = Triple-pure n (λ u p. tt)

  register_new-Traceless :
      (r : Request) (ls : LicenseStatus)
      → Triple e (Traceless old) (λ u. u ≡ old) (register_new r ls) (λ _ _. Unit {0})
  unfolding register_new make_event
  register_new-Traceless r ls =
      Triple-bind (Triple-bind Triple-now (λ n. Triple-pure _ (λ u p. tt))) λ ev.
        Triple-bind (record_event-Traceless ev 1) λ _.
          Triple-bind (deref-Traceless ls.device_count)
            λ n. Triple-bind (save-Traceless _) λ _. Triple-pure _ (λ u p. tt)

  respond-Traceless :
      (ls : LicenseStatus)
      → Triple e (Traceless old) (λ _. Unit {0}) (respond ls) (λ r _. is_refusal r ≡ false)
  unfolding respond fill_license_status events_of
  respond-Traceless ls =
      Triple-bind {Q = λ _ _. Unit {0}}
        (ask_bind _ (
          Triple-bind {Q = λ _ _. Unit {0}} (Triple-db_call _ (λ u p. tt) (λ u p. tt)) λ q.
            Triple-bind {Q = λ _ _. Unit {0}} (Triple-or_500 q (λ u p h. cc) (λ a _ u p. tt))
              λ _. Triple-pure _ (λ u p. tt)))
        λ filled. Triple-pure _ (λ u p. refl)

  register_device-Traceless :
      (r : Request)
      → Triple e
          (Traceless old)
          (λ u. u ≡ old)
          (register_device r)
          (λ reply _. is_refusal reply ≡ false)
  unfolding register_device
  register_device-Traceless r = before_write old (Keeps-guard _ _ _) λ _.
      before_write old (Keeps-fetch _) λ ls. before_write old Keeps-ask λ e'.
        before_write old (Keeps-guard _ _ _) λ _. before_write old (Keeps-guard _ _ _) λ _.
          before_write old (Keeps-check_device_status _ _) λ res.
            before_write old (Keeps-or_500 res) λ status.
              Triple-bind {Q = λ _ _. Unit {0}}
                (Triple-if (str_eq status "") (λ _. register_new-Traceless r ls)
                  (λ _. Triple-pure ls (λ u p. tt)))
                λ ls'. respond-Traceless ls'

Traceless-served :
    (old : Tables) (r : Result Reply) (u : Tables)
    → Post (Traceless old) (λ reply _. is_refusal reply ≡ false) r u
    → is_refusal (response r) ≡ true
    → u ≡ old
Traceless-served old (ok r) u h k = absurd (true≢false (sym k ∙ h))
Traceless-served old (stop r) u h k = h k

-- A registration that is refused with the code 400, 403 or 404 changes no table.
pub refused_unchanged :
    (e : Env) (r : Request) (w : World)
    → is_refusal (serve (register_device r) e w).0 ≡ true
    → (serve (register_device r) e w).1.tables ≡ w.tables
refused_unchanged e r w h =
    let (res, w') = register_device r e w in
    Traceless-served w.tables res w'.tables ((register_device-Traceless w.tables r).at w refl) h
