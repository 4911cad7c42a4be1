-- ===== src/Lifecycle/Edges.antt =====
-- The edges of the diagram that the handlers take.
use readium_lcp_server.Prelude.{arith, true, ◌≡◌, refl, if◌then◌else◌, not, ◌||◌, ◌&&◌}
use readium_lcp_server.Lifecycle.{
  IsNamed, ◌⟶◌, activate, cancel, prolong, reactivate, repair, expire, expire_unused, revoke,
}
use readium_lcp_server.Status.{
  Status, ready, active, expired, returned, revoked, cancelled, other, same,
}
use readium_lcp_server.Server.{Config}
use readium_lcp_server.LsdServer.Links.{is_usable}
use readium_lcp_server.LsdServer.Renew.{is_renewable}
use readium_lcp_server.LsdServer.Extend.{is_closed}
use readium_lcp_server.LsdServer.Cancel.{closing_status}

-- The edges that the handlers take, under the tests that they make.
pub register_edge :
    (s : Status)
    → is_usable s ≡ true
    → (s ⟶ (if same s ready then active else s)) × IsNamed (if same s ready then active else s)
register_edge ready h = (activate, refl)
register_edge active h = (prolong, refl)
register_edge revoked h = cc
register_edge returned h = cc
register_edge cancelled h = cc
register_edge expired h = cc
register_edge (other s) h = cc

pub renew_edge : (config : Config) (s : Status) → is_renewable config s ≡ true → s ⟶ active
renew_edge config ready h = cc
renew_edge config active h = prolong
renew_edge config revoked h = cc
renew_edge config returned h = cc
renew_edge config cancelled h = cc
renew_edge config expired h = reactivate
renew_edge config (other s) h = cc

pub extend_edge : (s : Status) → not (is_closed s) ≡ true → s ⟶ active
extend_edge ready h = activate
extend_edge active h = prolong
extend_edge revoked h = cc
extend_edge returned h = cc
extend_edge cancelled h = cc
extend_edge expired h = reactivate
extend_edge (other s) h = repair

pub expire_edge : (s : Status) → (same s active || same s ready) ≡ true → s ⟶ expired
expire_edge ready h = expire_unused
expire_edge active h = expire
expire_edge revoked h = cc
expire_edge returned h = cc
expire_edge cancelled h = cc
expire_edge expired h = cc
expire_edge (other s) h = cc

pub cancel_edge :
    (s asked : Status)
    → (same asked revoked || same asked cancelled) ≡ true
    → not (same asked cancelled && not (same s ready)) ≡ true
    → not (same asked revoked && not (same s ready) && not (same s active)) ≡ true
    → (s ⟶ closing_status s asked) × IsNamed (closing_status s asked)
cancel_edge ready revoked h k l = (cancel, refl)
cancel_edge ready cancelled h k l = (cancel, refl)
cancel_edge active revoked h k l = (revoke, refl)
cancel_edge s asked h k l = absurd (ground arith)
