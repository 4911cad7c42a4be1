-- ===== src/Server/Preserves.antt =====
-- Actions that preserve a property of the tables, whichever way they end.
use readium_lcp_server.Prelude.{Bool, true, false, if◌then◌else◌}
use readium_lcp_server.Server.{Env, Tables, World, Reply}
use readium_lcp_server.Server.Exec.{Exec, DbResult, pure, reply, db_call, or_500, serve, ◌>>=◌}
use readium_lcp_server.Server.Triple.{
  Triple, Triple-pure, Triple-reply, Triple-bind, Triple-db_call, Triple-or_500, serve_lem,
}
use readium_lcp_server.Server.Views.{Triple-keeps}
use readium_lcp_server.Server.Keeps.{Keeps}

pub record Preserves (e : Env) (P : Tables → Type 0) {A : Type 0} (m : Exec A) : Type 0 where
  pub triple : Triple e (λ _ t. P t) P m (λ _ t. P t)

module _ {e : Env} {P : Tables → Type 0} {A : Type 0} where
  pub Preserves-quiet : {m : Exec A} → Keeps (λ t. t) m → Preserves e P m
  Preserves-quiet k = record { triple = Triple-keeps (λ t. t) P (λ r t p. p) k }

  pub Preserves-pure : (a : A) → Preserves e P (pure a)
  Preserves-pure a = record { triple = Triple-pure a (λ t p. p) }

  pub Preserves-reply : (r : Reply) → Preserves e P (reply {A = A} r)
  Preserves-reply r = record { triple = Triple-reply r (λ t p. p) }

  pub Preserves-if :
      (b : Bool) {m n : Exec A}
      → Preserves e P m
      → Preserves e P n
      → Preserves e P (if b then m else n)
  Preserves-if true hm hn = hm
  Preserves-if false hm hn = hn

  pub Preserves-db_call :
      (query : Tables → DbResult A × Tables)
      → ((t : Tables) → P t → P (query t).1)
      → Preserves e P (db_call query)
  Preserves-db_call query h = record { triple = Triple-db_call query (λ t p. p) h }

  pub Preserves-or_500 : (r : DbResult A) → Preserves e P (or_500 r)
  Preserves-or_500 r = record { triple = Triple-or_500 r (λ t p. p) (λ a h t p. p) }

module _ {e : Env} {P : Tables → Type 0} {A B : Type 0} where
  pub Preserves-bind :
      {m : Exec A} {f : A → Exec B}
      → Preserves e P m
      → ((a : A) → Preserves e P (f a))
      → Preserves e P (m >>= f)
  Preserves-bind hm hf = record { triple = Triple-bind hm.triple (λ a. (hf a).triple) }

module _ {e : Env} {P : Tables → Type 0} where
  pub serve-Preserves :
      {m : Exec Reply} (w : World) → Preserves e P m → P w.tables → P (serve m e w).1.tables
  serve-Preserves w h p = serve_lem w h.triple p
