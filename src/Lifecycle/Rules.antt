-- ===== src/Lifecycle/Rules.antt =====
-- The rules by which the handlers are put together, seen from the table `license_status`.
use readium_lcp_server.Prelude.{
  ℕ, String, Bool, true, false, ◌≡◌, refl, List, sym, subst, if◌then◌else◌,
}
use readium_lcp_server.LicenseStatuses.{LicenseStatus, StatusRow}
use readium_lcp_server.Server.{Env, Tables, Reply, ProblemType}
use readium_lcp_server.Server.Exec.{Exec, Result, ok, stop, pure, reply, guard, ◌>>=◌, ◌>>◌}
use readium_lcp_server.Server.Triple.{Post, Triple-reply, Triple-pre, Triple-bind, Triple-guard}
use readium_lcp_server.Lifecycle.{Evolution}
use readium_lcp_server.LsdServer.Common.{fetch}
use readium_lcp_server.Lifecycle.Steps.{On, Leaves, Mid, Evolves, fetch-Evolves}

quiet-Post :
    {A : Type 0} (old : List StatusRow) (P : List StatusRow → Type 0) (r : Result A)
    {rows : List StatusRow} (t : Tables)
    → P rows
    → Evolution old rows
    → t.statuses ≡ rows
    → Post (λ _ u. Evolution old u.statuses) (λ _. On P) r t
quiet-Post old P (ok a) t p ev same = subst P (sym same) p
quiet-Post old P (stop r) t p ev same = subst (Evolution old) (sym same) ev

module _ {e : Env} {old : List StatusRow} {A : Type 0} {P : List StatusRow → Type 0} where
  -- A step that leaves the table alone keeps what is known of it.
  Evolves-quiet :
      {m : Exec A}
      → Leaves m
      → ((rows : List StatusRow) → P rows → Evolution old rows)
      → Evolves e old P m (λ _. P)
  Evolves-quiet {m} quiet h = record {
    triple = record {
      at = λ w p.
          quiet-Post old P (m e w).0 (m e w).1.tables p (h w.tables.statuses p) (quiet.at e w);
    };
  }

module _ {e : Env} {old : List StatusRow} {A : Type 0} {P : List StatusRow → Type 0} where
  -- The response that ends a request
  pub finally :
      {m : Exec A}
      → ((rows : List StatusRow) → P rows → Evolution old rows)
      → Leaves m
      → Evolves e old P m (λ _. Evolution old)
  finally h quiet = record {
    triple =
        Triple-pre (λ t p. h t.statuses p)
          (Evolves-quiet {P = Evolution old} quiet (λ rows ev. ev)).triple;
  }

module _ {e : Env} {old : List StatusRow} {A B : Type 0} {P : List StatusRow → Type 0}
    {Q : B → List StatusRow → Type 0} where
  pub Evolves-bind :
      {m : Exec A} {f : A → Exec B} {M : A → List StatusRow → Type 0}
      → Evolves e old P m M
      → ((a : A) → Evolves e old (M a) (f a) Q)
      → Evolves e old P (m >>= f) Q
  Evolves-bind hm hf = record { triple = Triple-bind hm.triple (λ a. (hf a).triple) }

  -- A step that leaves the table alone, before others.
  pub then_quiet :
      {m : Exec A} {f : A → Exec B}
      → ((rows : List StatusRow) → P rows → Evolution old rows)
      → Leaves m
      → ((a : A) → Evolves e old P (f a) Q)
      → Evolves e old P (m >>= f) Q
  then_quiet h quiet hf = Evolves-bind (Evolves-quiet quiet h) hf

module _ {e : Env} {old : List StatusRow} {B : Type 0} {P : List StatusRow → Type 0}
    {Q : B → List StatusRow → Type 0} where
  -- What follows a guard may use that its test has passed.
  pub then_guard :
      (b : Bool) (t : ProblemType) (status : ℕ) {n : Exec B}
      → ((rows : List StatusRow) → P rows → Evolution old rows)
      → (b ≡ true → Evolves e old P n Q)
      → Evolves e old P (guard b t status >> n) Q
  then_guard b t status h hf = record {
    triple =
        Triple-bind {Q = λ _ u. P u.statuses × (b ≡ true)}
          (Triple-guard b t status (λ u p. h u.statuses p))
          λ _. record { at = λ w p. (hf p.1).triple.at w p.0 };
  }

  -- A request that reads a license status first
  pub then_fetch :
      (ref : String) {f : LicenseStatus → Exec B}
      → ((ls : LicenseStatus) → Evolves e old (Mid old ls) (f ls) Q)
      → ((rows : List StatusRow) → P rows → Evolution old rows)
      → Evolves e old P (fetch ref >>= f) Q
  then_fetch ref hf h = record {
    triple =
        Triple-pre (λ t p. h t.statuses p)
          (Evolves-bind {P = Evolution old} (fetch-Evolves ref) hf).triple;
  }

  pub then_reply :
      {A : Type 0} (r : Reply) (f : A → Exec B)
      → ((rows : List StatusRow) → P rows → Evolution old rows)
      → Evolves e old P (reply r >>= f) Q
  then_reply r f h = record {
    triple =
        Triple-bind {Q = λ _ _. ⊥} (Triple-reply r (λ t p. h t.statuses p))
          λ _. record { at = λ w p. absurd p };
  }

  pub then_pure :
      {A : Type 0} (a : A) (f : A → Exec B)
      → Evolves e old P (f a) Q
      → Evolves e old P (pure a >>= f) Q
  unfolding pure ◌>>=◌
  then_pure a f h = h

  pub Evolves-if :
      (b : Bool) {m n : Exec B}
      → (b ≡ true → Evolves e old P m Q)
      → (b ≡ false → Evolves e old P n Q)
      → Evolves e old P (if b then m else n) Q
  Evolves-if true hm hn = hm refl
  Evolves-if false hm hn = hn refl

-- The same rules while a license status is held.
module _ {e : Env} {old : List StatusRow} (ls : LicenseStatus) {B : Type 0}
    {Q : B → List StatusRow → Type 0} where
  pub then_held :
      {A : Type 0} {m : Exec A} {f : A → Exec B}
      → Leaves m
      → ((a : A) → Evolves e old (Mid old ls) (f a) Q)
      → Evolves e old (Mid old ls) (m >>= f) Q
  then_held quiet hf = then_quiet (λ rows p. p.0) quiet hf

  pub guard_held :
      (b : Bool) (t : ProblemType) (status : ℕ) {n : Exec B}
      → (b ≡ true → Evolves e old (Mid old ls) n Q)
      → Evolves e old (Mid old ls) (guard b t status >> n) Q
  guard_held b t status hf = then_guard b t status (λ rows p. p.0) hf
