-- ===== src/Server/Triple.antt =====
-- Triples for actions: from tables where `P` holds, a value comes with `Q` and an early reply with
-- `R`, in a given environment. One rule for each way to build an action.
use readium_lcp_server.Prelude.{
  ℕ, Bool, true, false, ◌≡◌, refl, Bool-cases, inl, inr, if◌then◌else◌, Option, none, some,
}
use readium_lcp_server.Server.{Env, World, Tables, Reply, ProblemType, problem_error, untyped}
use readium_lcp_server.Server.Exec.{
  Exec, Result, ok, stop, DbResult, done, not_found, failed, pure, reply, db_call, guard, or_500,
  ask, now, draw, ◌>>=◌, continue, response, serve,
}

-- What holds of an outcome.
abbrev pub Post :
    {A : Type 0} → (Reply → Tables → Type 0) → (A → Tables → Type 0) → Result A → Tables → Type 0
Post R Q (ok a) t = Q a t
Post R Q (stop r) t = R r t

module _ (e : Env) (R : Reply → Tables → Type 0) where
  pub record Triple {A : Type 0} (P : Tables → Type 0) (m : Exec A) (Q : A → Tables → Type 0)
      : Type 0 where
    pub at : (w : World) → P w.tables → Post R Q (m e w).0 (m e w).1.tables

module _ {e : Env} {R : Reply → Tables → Type 0} {A : Type 0} {P : Tables → Type 0} where
  pub Triple-pure :
      (a : A) {Q : A → Tables → Type 0} → ((t : Tables) → P t → Q a t) → Triple e R P (pure a) Q
  unfolding pure
  Triple-pure a h = record { at = λ w p. h w.tables p }

  pub Triple-reply :
      (r : Reply) {Q : A → Tables → Type 0}
      → ((t : Tables) → P t → R r t)
      → Triple e R P (reply r) Q
  unfolding reply
  Triple-reply r h = record { at = λ w p. h w.tables p }

  -- A stronger precondition.
  pub Triple-pre :
      {P' : Tables → Type 0} {m : Exec A} {Q : A → Tables → Type 0}
      → ((t : Tables) → P t → P' t)
      → Triple e R P' m Q
      → Triple e R P m Q
  Triple-pre h k = record { at = λ w p. k.at w (h w.tables p) }

  -- A call of a database: a failure leaves the tables alone.
  pub Triple-db_call :
      (query : Tables → DbResult A × Tables) {Q : DbResult A → Tables → Type 0}
      → ((t : Tables) → P t → Q failed t)
      → ((t : Tables) → P t → Q (query t).0 (query t).1)
      → Triple e R P (db_call query) Q
  unfolding db_call
  Triple-db_call query hf hq = record {
    at = λ w p. elim (Bool-cases (e.db_fails w.db_calls)) [
      | inl down ↦ rw down (hf w.tables p)
      | inr up ↦ rw up (hq w.tables p)
    ];
  }

  pub Triple-if :
      (b : Bool) {m n : Exec A} {Q : A → Tables → Type 0}
      → (b ≡ true → Triple e R P m Q)
      → (b ≡ false → Triple e R P n Q)
      → Triple e R P (if b then m else n) Q
  Triple-if true hm hn = hm refl
  Triple-if false hm hn = hn refl

  pub Triple-or_500 :
      (r : DbResult A) {Q : A → Tables → Type 0}
      → ((t : Tables) → P t → R (problem_error untyped 500) t)
      → ((a : A) → r ≡ done a → (t : Tables) → P t → Q a t)
      → Triple e R P (or_500 r) Q
  unfolding or_500
  Triple-or_500 (done a) hr hd = Triple-pure a (hd a refl)
  Triple-or_500 not_found hr hd = Triple-reply _ hr
  Triple-or_500 failed hr hd = Triple-reply _ hr

module _ {e : Env} {R : Reply → Tables → Type 0} {A B : Type 0} where
  Triple-continue :
      (f : A → Exec B) {Q : A → Tables → Type 0} {S : B → Tables → Type 0} (r : Result A)
      (w : World)
      → ((a : A) → Triple e R (Q a) (f a) S)
      → Post R Q r w.tables
      → Post R S (continue r f e w).0 (continue r f e w).1.tables
  Triple-continue f (ok a) w hf h = (hf a).at w h
  Triple-continue f (stop r) w hf h = h

  pub Triple-bind :
      {P : Tables → Type 0} {m : Exec A} {f : A → Exec B} {Q : A → Tables → Type 0}
      {S : B → Tables → Type 0}
      → Triple e R P m Q
      → ((a : A) → Triple e R (Q a) (f a) S)
      → Triple e R P (m >>= f) S
  unfolding ◌>>=◌
  Triple-bind {m} {f} {Q} {S} hm hf = record {
    at = λ w p. let (r, w') = m e w in Triple-continue f r w' hf (hm.at w p);
  }

  pub pure_bind :
      {P : Tables → Type 0} {S : B → Tables → Type 0} (a : A) (f : A → Exec B)
      → Triple e R P (f a) S
      → Triple e R P (pure a >>= f) S
  unfolding pure ◌>>=◌
  pure_bind a f h = h

module _ {e : Env} {R : Reply → Tables → Type 0} {B : Type 0} where
  pub ask_bind :
      {P : Tables → Type 0} {S : B → Tables → Type 0} (f : Env → Exec B)
      → Triple e R P (f e) S
      → Triple e R P (ask >>= f) S
  unfolding ask ◌>>=◌
  ask_bind f h = record { at = λ w p. h.at w p }

-- Two facts about the outcome
module _ (R : Reply → Tables → Type 0) {A : Type 0} (Q Q' : A → Tables → Type 0) where
  Post-and :
      (r : Result A) (t : Tables)
      → Post R Q r t
      → Post R Q' r t
      → Post R (λ a u. Q a u × Q' a u) r t
  Post-and (ok a) t h h' = (h, h')
  Post-and (stop r) t h h' = h

module _ {e : Env} {R : Reply → Tables → Type 0} {A : Type 0} where
  pub Triple-and :
      {P : Tables → Type 0} {m : Exec A} {Q Q' : A → Tables → Type 0}
      → Triple e R P m Q
      → Triple e R P m Q'
      → Triple e R P m (λ a u. Q a u × Q' a u)
  Triple-and {m} {Q} {Q'} h h' = record {
    at = λ w p. let (r, w') = m e w in Post-and R Q Q' r w'.tables (h.at w p) (h'.at w p);
  }

module _ {e : Env} {R : Reply → Tables → Type 0} {P : Tables → Type 0} where
  pub Triple-guard :
      (b : Bool) (t : ProblemType) (status : ℕ)
      → ((u : Tables) → P u → R (problem_error t status) u)
      → Triple e R P (guard b t status) (λ _ u. P u × (b ≡ true))
  unfolding guard
  Triple-guard true t status h = Triple-pure tt (λ u p. (p, refl))
  Triple-guard false t status h = Triple-reply _ h

  pub Triple-ask : Triple e R P ask (λ a t. P t × (a ≡ e))
  unfolding ask
  Triple-ask = record { at = λ w p. (p, refl) }

  pub Triple-now : Triple e R P now (λ n t. P t)
  unfolding now
  Triple-now = record { at = λ w p. p }

-- A draw of random bytes, and a case split on an optional value
module _ {e : Env} {R : Reply → Tables → Type 0} {P : Tables → Type 0} where
  pub Triple-draw : Triple e R P draw (λ n t. P t)
  unfolding draw
  Triple-draw = record { at = λ w p. p }

  pub Triple-option :
      {A B : Type 0} (o : Option A) {m : Exec B} {f : A → Exec B} {Q : B → Tables → Type 0}
      → (o ≡ none → Triple e R P m Q)
      → ((a : A) → o ≡ some a → Triple e R P (f a) Q)
      → Triple e R P (elim o [ none ↦ m | some a ↦ f a ]) Q
  Triple-option none hn hs = hn refl
  Triple-option (some a) hn hs = hs a refl

-- A handler run on a request
response-Post :
    (R : Reply → Tables → Type 0) (r : Result Reply) (t : Tables) → Post R R r t → R (response r) t
response-Post R (ok a) t h = h
response-Post R (stop r) t h = h

module _ {e : Env} {R : Reply → Tables → Type 0} where
  pub serve_lem :
      {P : Tables → Type 0} {m : Exec Reply} (w : World)
      → Triple e R P m R
      → P w.tables
      → R (serve m e w).0 (serve m e w).1.tables
  serve_lem {m} w h p = let (r, w') = m e w in response-Post R r w'.tables (h.at w p)
