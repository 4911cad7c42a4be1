-- ===== src/Offers.antt =====
-- The links of a status document against the handlers that they lead to.
use readium_lcp_server.Prelude.{
  String, str_eq, Bool, true, false, ◌≡◌, refl, sym, ap, ◌∙◌, ◌⊎◌, inl, inr, List, [], ◌∷◌, map,
  arith, ◌&&◌, ◌||◌, if◌then◌else◌,
}
use readium_lcp_server.Status.{
  Status, ready, active, revoked, returned, cancelled, expired, other, same,
}
use readium_lcp_server.LicenseStatuses.{Link, LicenseStatus}
use readium_lcp_server.Server.{Env, Config}
use readium_lcp_server.Server.Exec.{pure}
use readium_lcp_server.LsdServer.Links.{
  action_link, make_links, renew_link, license_link, link_if, is_usable, register_available,
  return_available, renew_available,
}
use readium_lcp_server.LsdServer.Return.{returned_status}
use readium_lcp_server.LsdServer.Renew.{is_renewable}
use readium_lcp_server.LsdServer.Extend.{is_closed}
use readium_lcp_server.Lifecycle.{◌⟶◌, give_back, cancel}

-- Does a document have a link of a relation?
abbrev pub offers : String → List Link → Bool
offers rel [] = false
offers rel (l ∷ ls) = str_eq l.rel rel || offers rel ls

renew_link-rel : (e : Env) (ls : LicenseStatus) → (renew_link e ls).rel ≡ "renew"
unfolding renew_link
renew_link-rel e ls = ground arith

license_link-rel : (e : Env) (ls : LicenseStatus) → (license_link e ls).rel ≡ "license"
unfolding license_link
license_link-rel e ls = refl

links_offer :
    (rel : String) (b c d : Bool) (k l m : Link)
    → offers rel (link_if b k (link_if c l (link_if d m [])))
      ≡ (b && str_eq k.rel rel || c && str_eq l.rel rel || d && str_eq m.rel rel)
links_offer rel true c d k l m = ground arith
links_offer rel false c d k l m = ground arith

first_of : (b c d : Bool) → (b && true || c && false || d && false) ≡ b
first_of b c d = ground arith

second_of : (b c d : Bool) → (b && false || c && true || d && false) ≡ c
second_of b c d = ground arith

third_of : (b c d : Bool) → (b && false || c && false || d && true) ≡ d
third_of b c d = ground arith

module _ (e : Env) (ls : LicenseStatus) where
  offers-make_links :
      (rel : String)
      → str_eq "self" rel ≡ false
      → str_eq "license" rel ≡ false
      → offers rel (make_links e ls) ≡ (
          register_available e ls && str_eq "register" rel
          || return_available e ls && str_eq "return" rel
          || renew_available e ls && str_eq "renew" rel)
  unfolding make_links license_link
  offers-make_links rel h k =
      rw (h, k)
        (links_offer rel (register_available e ls) (return_available e ls) (renew_available e ls)
            (action_link e ls "register" "/register{?id,name}" true)
            (action_link e ls "return" "/return{?id,name}" true) (renew_link e ls)
          ∙ ap
              (λ (n : String).
                register_available e ls && str_eq "register" rel
                || return_available e ls && str_eq "return" rel
                || renew_available e ls && str_eq n rel)
              (renew_link-rel e ls))

  -- A link is there just if its action is available.
  offers-register : offers "register" (make_links e ls) ≡ register_available e ls
  offers-register = offers-make_links "register" refl refl ∙ first_of (register_available e ls) _ _

  offers-return : offers "return" (make_links e ls) ≡ return_available e ls
  offers-return = offers-make_links "return" refl refl ∙ second_of _ (return_available e ls) _

  offers-renew : offers "renew" (make_links e ls) ≡ renew_available e ls
  offers-renew = offers-make_links "renew" refl refl ∙ third_of _ _ (renew_available e ls)

usable_returns :
    (s : Status) → is_usable s ≡ true → (s' : Status) × (returned_status s ≡ pure s') × (s ⟶ s')
unfolding returned_status
usable_returns ready h = (cancelled, refl, cancel)
usable_returns active h = (returned, refl, give_back)
usable_returns revoked h = cc
usable_returns returned h = cc
usable_returns cancelled h = cc
usable_returns expired h = cc
usable_returns (other s) h = cc

-- When a status document offers the return of a license, LendingReturn does not refuse the status
-- of the license: it goes on with a status to which the license's diagram leads.
pub return_offer_kept :
    (e : Env) (ls : LicenseStatus)
    → offers "return" (make_links e ls) ≡ true
    → (s : Status) × (returned_status ls.status ≡ pure s) × (ls.status ⟶ s)
return_offer_kept e ls h =
    let available : return_available e ls ≡ true = sym (offers-return e ls) ∙ h in
    usable_returns ls.status (ground arith)

renewable_or_ready :
    (config : Config) (s : Status)
    → (if config.renew_expired then is_usable s || same s expired else is_usable s) ≡ true
    → (is_renewable config s ≡ true) ⊎ (s ≡ ready)
renewable_or_ready config ready h = inr refl
renewable_or_ready config active h = inl refl
renewable_or_ready config revoked h = absurd (ground arith)
renewable_or_ready config returned h = absurd (ground arith)
renewable_or_ready config cancelled h = absurd (ground arith)
renewable_or_ready config expired h = inl (ground arith)
renewable_or_ready config (other s) h = absurd (ground arith)

-- When a status document offers the renewal of a license, LendingRenewal does not refuse the status
-- of the license, unless it is ready.
pub renew_offer_kept :
    (e : Env) (ls : LicenseStatus)
    → offers "renew" (make_links e ls) ≡ true
    → (is_renewable e.config ls.status ≡ true) ⊎ (ls.status ≡ ready)
renew_offer_kept e ls h =
    let available : renew_available e ls ≡ true = sym (offers-renew e ls) ∙ h in
    renewable_or_ready e.config ls.status (ground arith)

closed_unusable :
    (s : Status) → is_closed s ≡ true → (is_usable s ≡ false) × (same s expired ≡ false)
closed_unusable s h = ground arith

-- The document of a revoked, returned or cancelled license has two links, to itself and to the
-- license: it offers no action.
pub closed_offers :
    (e : Env) (ls : LicenseStatus)
    → is_closed ls.status ≡ true
    → map (λ (l : Link). l.rel) (make_links e ls) ≡ "self" ∷ "license" ∷ []
unfolding make_links license_link
closed_offers e ls h = ground (arith, closed_unusable ls.status h)
