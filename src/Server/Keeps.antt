-- ===== src/Server/Keeps.antt =====
-- Actions that keep a view of the tables as it is, whichever way they end: one rule for each way to
-- build an action.
use readium_lcp_server.Prelude.{
  ℕ, Bool, true, false, ◌≡◌, refl, ◌∙◌, if◌then◌else◌, Bool-cases, inl, inr, Option, none, some,
}
use readium_lcp_server.Server.{Env, Tables, World, Reply, ProblemType}
use readium_lcp_server.Server.Exec.{
  Exec, Result, ok, stop, DbResult, done, not_found, failed, pure, reply, db_call, guard, or_500,
  ask, now, draw, ◌>>=◌, continue,
}

pub record Keeps {X A : Type 0} (view : Tables → X) (m : Exec A) : Type 0 where
  pub at : (e : Env) (w : World) → view (m e w).1.tables ≡ view w.tables

module _ {X A : Type 0} {view : Tables → X} where
  pub Keeps-pure : (a : A) → Keeps view (pure a)
  unfolding pure
  Keeps-pure a = record { at = λ e w. refl }

  pub Keeps-reply : (r : Reply) → Keeps view (reply {A = A} r)
  unfolding reply
  Keeps-reply r = record { at = λ e w. refl }

  pub Keeps-if :
      (b : Bool) {m n : Exec A} → Keeps view m → Keeps view n → Keeps view (if b then m else n)
  Keeps-if true hm hn = hm
  Keeps-if false hm hn = hn

  pub Keeps-db_call :
      (query : Tables → DbResult A × Tables)
      → ((t : Tables) → view (query t).1 ≡ view t)
      → Keeps view (db_call query)
  unfolding db_call
  Keeps-db_call query h = record {
    at = λ e w. elim (Bool-cases (e.db_fails w.db_calls)) [
      | inl down ↦ rw down
      | inr up ↦ rw up (h w.tables)
    ];
  }

  pub Keeps-or_500 : (r : DbResult A) → Keeps view (or_500 r)
  unfolding or_500
  Keeps-or_500 (done a) = Keeps-pure a
  Keeps-or_500 not_found = Keeps-reply _
  Keeps-or_500 failed = Keeps-reply _

module _ {X A B : Type 0} (view : Tables → X) where
  Keeps-continue :
      (f : A → Exec B) (r : Result A) (e : Env) (w : World)
      → ((a : A) → Keeps view (f a))
      → view (continue r f e w).1.tables ≡ view w.tables
  Keeps-continue f (ok a) e w h = (h a).at e w
  Keeps-continue f (stop r) e w h = refl

module _ {X A B : Type 0} {view : Tables → X} where
  pub Keeps-bind :
      {m : Exec A} {f : A → Exec B}
      → Keeps view m
      → ((a : A) → Keeps view (f a))
      → Keeps view (m >>= f)
  unfolding ◌>>=◌
  Keeps-bind {m} {f} hm hf = record {
    at = λ e w. let (r, w') = m e w in Keeps-continue view f r e w' hf ∙ hm.at e w;
  }

module _ {X A B : Type 0} {view : Tables → X} where
  pub Keeps-option :
      (o : Option B) {m : Exec A} {f : B → Exec A}
      → Keeps view m
      → ((b : B) → Keeps view (f b))
      → Keeps view (elim o as (λ _. Exec A) [ none ↦ m | some b ↦ f b ])
  Keeps-option none hm hf = hm
  Keeps-option (some b) hm hf = hf b

module _ {X : Type 0} {view : Tables → X} where
  pub Keeps-draw : Keeps view draw
  unfolding draw
  Keeps-draw = record { at = λ e w. refl }

  pub Keeps-guard : (b : Bool) (t : ProblemType) (status : ℕ) → Keeps view (guard b t status)
  unfolding guard
  Keeps-guard true t status = Keeps-pure tt
  Keeps-guard false t status = Keeps-reply _

  pub Keeps-ask : Keeps view ask
  unfolding ask
  Keeps-ask = record { at = λ e w. refl }

  pub Keeps-now : Keeps view now
  unfolding now
  Keeps-now = record { at = λ e w. refl }

pub ruleset keeps_rules =
    (Keeps-pure, Keeps-reply, Keeps-if, Keeps-or_500, Keeps-bind, Keeps-guard, Keeps-ask, Keeps-now)
