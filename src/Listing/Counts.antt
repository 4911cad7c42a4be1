-- ===== src/Listing/Counts.antt =====
-- `LicenseCount`: the counts of the statuses against the total.
use readium_lcp_server.Prelude.{
  ℕ, ◌+◌, ◌≤◌, ℤ, pos, negsuc, Bool, true, false, ◌==◌, ◌&&◌, ◌≡◌, refl, subst, some, List, [], ◌∷◌,
  String, count, arith,
}
use readium_lcp_server.Time.{Time}
use readium_lcp_server.LicenseStatuses.{StatusRow}
use readium_lcp_server.LicenseStatuses.Queries.{count_between, count_status, is_between, same_int}
use readium_lcp_server.Status.{Status, ready, active, expired, returned, revoked, cancelled}
use readium_lcp_server.Status.Codec.{set_status}
use readium_lcp_server.Server.{
  Env, Tables, World, Reply, LicenseCount, problem, status_only, document, device_list, status_list,
  counted, license, reports, total, content_info, content_list, content_file, publication, panic,
}
use readium_lcp_server.Server.Exec.{Exec, Result, ok, stop, response, serve, done, or_500, ◌>>=◌}
use readium_lcp_server.Server.Triple.{
  Triple, Post, Triple-pure, Triple-bind, Triple-db_call, Triple-or_500, Triple-now, ask_bind,
}
use readium_lcp_server.Server.Views.{with_fact}
use readium_lcp_server.Stores.{count_statuses, count_with_status}
use readium_lcp_server.LsdServer.Count.{count_licenses, license_count}

abbrev bit : Bool → ℕ
bit true = 1
bit false = 0

count-cons :
    {A : Type 0} (p : A → Bool) (x : A) (xs : List A) → count p (x ∷ xs) ≡ bit (p x) + count p xs
count-cons p x xs = ground arith

-- A stored integer is at most one of the six values.
one_status :
    (n : ℕ) (b : Bool)
    → bit (n == 1 && b)
        + bit (n == 2 && b)
        + bit (n == 32 && b)
        + bit (n == 8 && b)
        + bit (n == 4 && b)
        + bit (n == 16 && b)
      ≤ bit b
one_status n b = ground arith

abbrev in_period : ℤ → Time → Time → StatusRow → Bool
in_period status from to r = same_int r.status status && is_between from to r.license_updated

row_bits :
    (z : ℤ) (b : Bool)
    → bit (same_int z (pos 1) && b)
        + bit (same_int z (pos 2) && b)
        + bit (same_int z (pos 32) && b)
        + bit (same_int z (pos 8) && b)
        + bit (same_int z (pos 4) && b)
        + bit (same_int z (pos 16) && b)
      ≤ bit b
row_bits (pos n) b = one_status n b
row_bits (negsuc n) b = omega arith

statuses_within :
    (from to : Time) (rows : List StatusRow)
    → count_status (pos 1) from to rows
        + count_status (pos 2) from to rows
        + count_status (pos 32) from to rows
        + count_status (pos 8) from to rows
        + count_status (pos 4) from to rows
        + count_status (pos 16) from to rows
      ≤ count_between from to rows
unfolding count_status count_between
statuses_within from to [] = omega arith
statuses_within from to (r ∷ rows) =
    let bits = row_bits r.status (is_between from to r.license_updated) in
    let rest = statuses_within from to rows in
    rw
      (
        count-cons (in_period (pos 1) from to) r rows,
        count-cons (in_period (pos 2) from to) r rows,
        count-cons (in_period (pos 32) from to) r rows,
        count-cons (in_period (pos 8) from to) r rows,
        count-cons (in_period (pos 4) from to) r rows,
        count-cons (in_period (pos 16) from to) r rows,
        count-cons (λ (q : StatusRow). is_between from to q.license_updated) r rows,
      )
      (omega (arith, bits, rest))

-- What a response says, if it is one of counts
abbrev IsConsistent : Reply → Type 0
IsConsistent (counted c) =
    c.ready + c.active + c.expired + c.returned + c.revoked + c.cancelled ≤ c.total
IsConsistent (problem t n) = Unit {0}
IsConsistent (status_only n) = Unit {0}
IsConsistent (document ls) = Unit {0}
IsConsistent (device_list ref ds) = Unit {0}
IsConsistent (status_list ls links) = Unit {0}
IsConsistent (license status l) = Unit {0}
IsConsistent (reports ls links) = Unit {0}
IsConsistent (total n from to) = Unit {0}
IsConsistent (content_info c) = Unit {0}
IsConsistent (content_list cs) = Unit {0}
IsConsistent (content_file name type length bytes) = Unit {0}
IsConsistent (publication name p) = Unit {0}
IsConsistent panic = Unit {0}

abbrev Ends : Reply → Tables → Type 0
Ends r u = IsConsistent r

module _ {e : Env} (old : Tables) (from to : Time) {B : Type 0} {f : ℕ → Exec B}
    {Q : B → Tables → Type 0} where
  after_count :
      (s : Status) (k : ℕ)
      → set_status s ≡ some k
      → ((n : ℕ)
          → n ≡ count_status (pos k) from to old.statuses
          → Triple e Ends (λ u. u ≡ old) (f n) Q)
      → Triple e Ends
          (λ u. u ≡ old)
          (do result ← count_with_status s from to; n ← or_500 result; f n)
          Q
  unfolding count_with_status
  after_count s k set hf =
      Triple-bind
        {Q = λ r u.
          (u ≡ old) × ((n : ℕ) → r ≡ done n → n ≡ count_status (pos k) from to old.statuses)}
        (Triple-db_call _ (λ u p. (p, λ n h. cc)) (λ u p. rw (set, p) (refl, λ n h. cc)))
        λ r.
          Triple-bind {Q = λ n u. (u ≡ old) × (n ≡ count_status (pos k) from to old.statuses)}
            (Triple-or_500 r (λ u p. tt) (λ n eq u p. (p.0, p.1 n eq))) λ n. with_fact (hf n)

module _ {e : Env} (old : Tables) (from to : Time) where
  count_statuses-eq :
      Triple e Ends
        (λ u. u ≡ old)
        (count_statuses from to)
        (λ r u. (u ≡ old) × ((n : ℕ) → r ≡ done n → n ≡ count_between from to old.statuses))
  unfolding count_statuses
  count_statuses-eq = Triple-db_call _ (λ u p. (p, λ n h. cc)) (λ u p. rw p (refl, λ n h. cc))

  count_licenses-IsConsistent :
      Triple e Ends (λ u. u ≡ old) (count_licenses from to) (λ r _. IsConsistent r)
  unfolding count_licenses set_status
  count_licenses-IsConsistent =
      Triple-bind
        {Q = λ r u. (u ≡ old) × ((n : ℕ) → r ≡ done n → n ≡ count_between from to old.statuses)}
        count_statuses-eq
        λ r.
          Triple-bind {Q = λ n u. (u ≡ old) × (n ≡ count_between from to old.statuses)}
            (Triple-or_500 r (λ u p. tt) (λ n eq u p. (p.0, p.1 n eq)))
            λ n. with_fact λ total. after_count old from to ready 1 refl λ a ha.
              after_count old from to active 2 refl λ b hb.
                after_count old from to expired 32 refl λ c hc.
                  after_count old from to returned 8 refl λ d hd.
                    after_count old from to revoked 4 refl λ g hg.
                      after_count old from to cancelled 16 refl λ h hh. Triple-pure _ (λ u p.
                        rw (total, ha, hb, hc, hd, hg, hh) (statuses_within from to old.statuses))

license_count-IsConsistent :
    {e : Env} (old : Tables) (a b : String)
    → Triple e Ends (λ u. u ≡ old) (license_count a b) (λ r _. IsConsistent r)
unfolding license_count
license_count-IsConsistent old a b =
    ask_bind _
      (Triple-bind Triple-now λ t. Triple-bind Triple-now λ u. count_licenses-IsConsistent old _ _)

IsConsistent-served :
    (r : Result Reply) (u : Tables)
    → Post Ends (λ q _. IsConsistent q) r u
    → IsConsistent (response r)
IsConsistent-served (ok r) u h = h
IsConsistent-served (stop r) u h = h

-- When LicenseCount answers with counts, those of the six statuses are together at most the total.
pub counts_add_up :
    (e : Env) (from to : String) (w : World) (c : LicenseCount)
    → (serve (license_count from to) e w).0 ≡ counted c
    → c.ready + c.active + c.expired + c.returned + c.revoked + c.cancelled ≤ c.total
counts_add_up e from to w c h =
    let (r, w') = license_count from to e w in
    subst IsConsistent h
      (IsConsistent-served r w'.tables ((license_count-IsConsistent w.tables from to).at w refl))
