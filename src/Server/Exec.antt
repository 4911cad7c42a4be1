-- ===== src/Server/Exec.antt =====
-- Handlers as actions on the world: an action returns a value or ends the request with a reply, and
-- what was written before stays written.
use readium_lcp_server.Prelude.{ℕ, ◌+◌, Bool, true, false, if◌then◌else◌}
use readium_lcp_server.Server.{Env, World, Tables, Reply, ProblemType, problem_error, untyped}

pub data Result {ℓ} (A : Type ℓ) : Type ℓ where
  ok : A → Result A
  stop : Reply → Result A

abbrev pub Exec {ℓ} : Type ℓ → Type ℓ
Exec A = Env → World → Result A × World

-- The outcome of a call of a database: a value, sql.ErrNoRows (or no row affected), another error.
pub data DbResult {ℓ} (A : Type ℓ) : Type ℓ where
  done : A → DbResult A
  not_found : DbResult A
  failed : DbResult A

module _ {ℓ} {A : Type ℓ} where
  unfoldable pub pure : A → Exec A
  pure a e w = (ok a, w)

  -- `return` out of the handler, after a response was written
  unfoldable pub reply : Reply → Exec A
  reply r e w = (stop r, w)

  -- A call of a database: it fails if the environment says so, and then has no effect.
  unfoldable pub db_call : (Tables → DbResult A × Tables) → Exec (DbResult A)
  db_call query e w =
      if e.db_fails w.db_calls
      then (ok failed, record w { db_calls = w.db_calls + 1 })
      else (let (r, t) = query w.tables in
          (ok r, record w { db_calls = w.db_calls + 1; tables = t }))

module _ {ℓ κ} {A : Type ℓ} {B : Type κ} where
  abbrev pub continue : Result A → (A → Exec B) → Exec B
  continue (ok a) f e w = f a e w
  continue (stop r) f e w = (stop r, w)

  infixl 5 ◌>>=◌ ◌>>◌
  unfoldable pub ◌>>=◌ : Exec A → (A → Exec B) → Exec B
  ◌>>=◌ m f e w = let (r, w') = m e w in continue r f e w'

  abbrev pub ◌>>◌ : Exec A → Exec B → Exec B
  m >> n = m >>= λ _. n

-- `if !test { problem.Error(…); return }`
unfoldable pub guard : Bool → ProblemType → ℕ → Exec (Unit {0})
guard true t status = pure tt
guard false t status = reply (problem_error t status)

-- The result of a call whose errors all end the request with status 500.
unfoldable pub or_500 {ℓ} : {A : Type ℓ} → DbResult A → Exec A
or_500 (done a) = pure a
or_500 not_found = reply (problem_error untyped 500)
or_500 failed = reply (problem_error untyped 500)

unfoldable pub ask : Exec Env
ask e w = (ok e, w)

-- time.Now(), in nanoseconds
unfoldable pub now : Exec ℕ
now e w = (ok (e.clock w.clock_reads), record w { clock_reads = w.clock_reads + 1 })

-- A draw from the source of random bytes: the number under which it comes out
unfoldable pub draw : Exec ℕ
draw e w = (ok w.draws, record w { draws = w.draws + 1 })

-- The response of a handler, whichever way it ended.
abbrev pub response : Result Reply → Reply
response (ok r) = r
response (stop r) = r

-- A handler run on a request.
abbrev pub serve : Exec Reply → Env → World → Reply × World
serve m e w = let (r, w') = m e w in (response r, w')
