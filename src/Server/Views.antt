-- ===== src/Server/Views.antt =====
-- Triples for actions that keep a view of the tables: what is known of the view stays known.
use readium_lcp_server.Prelude.{ℕ, Bool, true, ◌≡◌, sym, subst}
use readium_lcp_server.Server.{Env, Tables, Reply, ProblemType, problem_error}
use readium_lcp_server.Server.Exec.{Exec, Result, ok, stop, guard, ◌>>=◌, ◌>>◌}
use readium_lcp_server.Server.Triple.{Triple, Post, Triple-bind, Triple-guard}
use readium_lcp_server.Server.Keeps.{Keeps}

module _ {X : Type 0} (view : Tables → X) (P : X → Type 0) {R : Reply → Tables → Type 0}
    (h : (r : Reply) (t : Tables) → P (view t) → R r t) where
  kept-Post :
      {A : Type 0} (r : Result A) (x : X) (t : Tables)
      → P x
      → view t ≡ x
      → Post R (λ _ u. P (view u)) r t
  kept-Post (ok a) x t p same = subst P (sym same) p
  kept-Post (stop r) x t p same = h r t (subst P (sym same) p)

  pub Triple-keeps :
      {e : Env} {A : Type 0} {m : Exec A}
      → Keeps view m
      → Triple e R (λ t. P (view t)) m (λ _ t. P (view t))
  Triple-keeps {e} {m} k = record {
    at = λ w p. kept-Post (m e w).0 (view w.tables) (m e w).1.tables p (k.at e w);
  }

  -- Such a step before others
  pub after_keeps :
      {e : Env} {A B : Type 0} {m : Exec A} {f : A → Exec B} {Q : B → Tables → Type 0}
      → Keeps view m
      → ((a : A) → Triple e R (λ t. P (view t)) (f a) Q)
      → Triple e R (λ t. P (view t)) (m >>= f) Q
  after_keeps k hf = Triple-bind (Triple-keeps k) hf

module _ {e : Env} {R : Reply → Tables → Type 0} {B : Type 0} {P : Tables → Type 0}
    {Q : B → Tables → Type 0} where
  -- What follows a guard may use that its test has passed.
  pub after_guard :
      (b : Bool) (t : ProblemType) (status : ℕ) {n : Exec B}
      → ((u : Tables) → P u → R (problem_error t status) u)
      → (b ≡ true → Triple e R P n Q)
      → Triple e R P (guard b t status >> n) Q
  after_guard b t status h hf =
      Triple-bind (Triple-guard b t status h) λ _. record { at = λ w p. (hf p.1).at w p.0 }

  -- What is known of the values alone can be used as a hypothesis.
  pub with_fact : {F : Type 0} {n : Exec B} → (F → Triple e R P n Q) → Triple e R (λ u. P u × F) n Q
  with_fact hf = record { at = λ w p. (hf p.1).at w p.0 }
