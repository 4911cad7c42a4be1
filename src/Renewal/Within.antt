-- ===== src/Renewal/Within.antt =====
-- `LendingRenewal` and `ExtendSubscription` keep within the bounds.
use readium_lcp_server.Prelude.{
  String, Bool, true, false, not, ◌≡◌, refl, ◌||◌, Option, none, some, arith,
}
use readium_lcp_server.Time.{Time, before, after}
use readium_lcp_server.LicenseStatuses.{StatusRow, select_ref}
use readium_lcp_server.Server.{Env, Tables, World, Reply}
use readium_lcp_server.Server.Exec.{Result, ok, stop, serve}
use readium_lcp_server.Server.Triple.{
  Triple, Post, Triple-pure, Triple-bind, Triple-if, Triple-reply,
}
use readium_lcp_server.Server.Keeps.{Keeps-guard, Keeps-ask}
use readium_lcp_server.Server.Views.{after_guard, with_fact}
use readium_lcp_server.LsdServer.Common.{Request}
use readium_lcp_server.LsdServer.Keeps.{Keeps-suggested_end}
use readium_lcp_server.LsdServer.Renew.{lending_renewal, end_of_rights}
use readium_lcp_server.LsdServer.Extend.{extend_subscription, max_end}
use readium_lcp_server.Renewal.{Kept}
use readium_lcp_server.Renewal.Steps.{
  Ends, Start, Start-ends, idle, reading, requiring, renew_until-Kept, respond-Kept,
}

in_bounds :
    (end limit old : Time)
    → (after end limit || before end old) ≡ false
    → (after end limit ≡ false) × (before end old ≡ false)
in_bounds end limit old h = ground arith

negated : (b : Bool) → not b ≡ true → b ≡ false
negated false h = refl
negated true h = cc

module _ {e : Env} (s : StatusRow) where
  max_end-eq :
      (ref : String) (t : Option Time)
      → Triple e (Ends ref s) (Start ref s) (max_end t) (λ x u. Start ref s u × (t ≡ some x))
  unfolding max_end
  max_end-eq ref none = Triple-reply _ (Start-ends ref s)
  max_end-eq ref (some x) = Triple-pure x (λ u p. (p, refl))

  renewal-Kept :
      (r : Request)
      → Triple e
          (Ends r.license_id s)
          (Start r.license_id s)
          (lending_renewal r)
          (λ _ u. Kept r.license_id s u.statuses)
  unfolding lending_renewal
  renewal-Kept r =
      let ref = r.license_id in
      idle ref s (Keeps-guard _ _ _) λ _. reading ref s λ ls scan. idle ref s Keeps-ask λ e'.
        idle ref s (Keeps-guard _ _ _) λ _.
          requiring ref s ls.current_end_license _ _ λ old has_end.
            requiring ref s (end_of_rights ls.potential_rights) _ _ λ limit has_limit.
              idle ref s (Keeps-suggested_end _ _ _ _) λ end.
                Triple-bind
                  (Triple-if (after end limit || before end old)
                    (λ _. Triple-pure ls (Start-ends ref s))
                    (λ ok.
                      let (le, ge) = in_bounds end limit old ok in
                      renew_until-Kept s r _ _ ls old limit end scan has_end has_limit ge le))
                  λ ls'. respond-Kept s ref ls'

  extension-Kept :
      (r : Request)
      → Triple e
          (Ends r.license_id s)
          (Start r.license_id s)
          (extend_subscription r)
          (λ _ u. Kept r.license_id s u.statuses)
  unfolding extend_subscription
  extension-Kept r =
      let ref = r.license_id in
      reading ref s λ ls scan.
        Triple-bind (max_end-eq ref (end_of_rights ls.potential_rights)) λ limit.
          with_fact λ has_limit. idle ref s (Keeps-guard _ _ _) λ _.
            requiring ref s ls.current_end_license _ _ λ old has_end.
              idle ref s (Keeps-suggested_end _ _ _ _) λ end.
                after_guard _ _ _ (Start-ends ref s) λ le.
                  after_guard _ _ _ (Start-ends ref s) λ ge.
                    Triple-bind
                      (renew_until-Kept s r _ _ ls old limit end scan has_end has_limit
                        (negated (before end old) ge) (negated (after end limit) le))
                      λ ls'. respond-Kept s ref ls'

Kept-served :
    (ref : String) (s : StatusRow) (r : Result Reply) (u : Tables)
    → Post (Ends ref s) (λ _ v. Kept ref s v.statuses) r u
    → Kept ref s u.statuses
Kept-served ref s (ok r) u h = h
Kept-served ref s (stop r) u h = h

-- Whatever a request for a renewal comes to, the row of the license stays as it is, or the license
-- is active, with an end that is not before the old end and not after the end of the potential
-- rights, which stays.
pub renewal_within :
    (e : Env) (r : Request) (w : World) (s : StatusRow)
    → select_ref r.license_id w.tables.statuses ≡ some s
    → Kept r.license_id s (serve (lending_renewal r) e w).1.tables.statuses
renewal_within e r w s found =
    let (res, w') = lending_renewal r e w in
    Kept-served r.license_id s res w'.tables ((renewal-Kept s r).at w found)

-- The same bounds hold for the extension of a subscription.
pub extension_within :
    (e : Env) (r : Request) (w : World) (s : StatusRow)
    → select_ref r.license_id w.tables.statuses ≡ some s
    → Kept r.license_id s (serve (extend_subscription r) e w).1.tables.statuses
extension_within e r w s found =
    let (res, w') = extend_subscription r e w in
    Kept-served r.license_id s res w'.tables ((extension-Kept s r).at w found)
