-- ===== src/Creation.antt =====
-- The creation of a status document from a license: what its row says.
use readium_lcp_server.Prelude.{
  Bool, true, false, not, ◌≡◌, refl, Option, none, some, pos, negsuc, ltb_ℤ, List, arith,
  if◌then◌else◌, ◌&&◌, eq_iff, Bool-cases, inl, inr,
}
use readium_lcp_server.Time.{Time, after, add, days_duration, truncate}
use readium_lcp_server.Status.{ready, active}
use readium_lcp_server.License.{License}
use readium_lcp_server.LicenseStatuses.{StatusRow, Columns, potential_end, select_ref}
use readium_lcp_server.LicenseStatuses.Rows.{new_row, select_ref-insert_row_absent}
use readium_lcp_server.Server.{Env, Config, Tables, World, Reply, code}
use readium_lcp_server.Server.Exec.{Result, ok, stop, response, done, serve}
use readium_lcp_server.Server.Triple.{
  Triple, Post, Triple-pure, Triple-bind, Triple-db_call, Triple-or_500, Triple-now, ask_bind,
}
use readium_lcp_server.Stores.{add_status, run_add, columns}
use readium_lcp_server.Stores.Written.{
  columns-rights_end, columns-potential_rights_end, columns-device_count,
}
use readium_lcp_server.Lifecycle.{row_status, IsNamed}
use readium_lcp_server.Lifecycle.Save.{columns_status}
use readium_lcp_server.LsdServer.Document.{
  make_license_status, potential_rights, potential_from, create_license_status_document, end_of,
}

-- The end of the potential rights, where there is one, is not before the license's own end.
abbrev pub covers : Option Time → Option Time → Bool
covers none limit = true
covers (some end) none = true
covers (some end) (some limit) = not (after end limit)

-- The row of a new license
abbrev pub IsNew : Config → License → StatusRow → Type 0
IsNew config lic s =
    (row_status s ≡ (if config.register then ready else active))
    × (s.rights_end ≡ end_of lic)
    × (s.device_count ≡ some (pos 0))
    × (covers s.rights_end s.potential_rights_end ≡ true)

not_after_itself : (t : Time) → after t t ≡ false
not_after_itself (pos n) = ground arith
not_after_itself (negsuc n) = ground arith

covers-later :
    (end limit : Time)
    → after end limit ≡ false
    → covers (some end) (potential_end (some (record { end = some limit }))) ≡ true
covers-later end limit h = ground arith

covers-potential_rights :
    (config : Config) (issued end : Time)
    → covers (some end) (potential_end (potential_rights config issued end)) ≡ true
unfolding potential_rights
covers-potential_rights config issued end =
    let limit = add issued (days_duration config.renting_days) in
    elim (Bool-cases (config.renew && ltb_ℤ (pos 0) config.renting_days)) [
      | inl allowed ↦ elim (Bool-cases (after end limit)) [
        | inl past ↦ rw (allowed, past) (covers-later end end (not_after_itself end))
        | inr within ↦ rw (allowed, within) (covers-later end limit within)
      ]
      | inr barred ↦ rw barred refl
    ]

covers-potential_from :
    (config : Config) (issued : Time) (end : Option Time)
    → covers end (potential_end (potential_from config issued end)) ≡ true
covers-potential_from config issued none = refl
covers-potential_from config issued (some end) = covers-potential_rights config issued end

start-IsNamed : (b : Bool) → IsNamed (if b then ready else active)
start-IsNamed true = refl
start-IsNamed false = refl

inserted-IsNew :
    (config : Config) (lic : License) (t : Time) (c : Columns) (rows : List StatusRow)
    → columns (make_license_status config lic t) ≡ some c
    → IsNew config lic (new_row c lic.id rows)
unfolding make_license_status
inserted-IsNew config lic t c rows h =
    let ls = make_license_status config lic t in
    (
      columns_status ls c (start-IsNamed config.register) h,
      columns-rights_end ls c h,
      columns-device_count ls c h,
      rw (columns-rights_end ls c h, columns-potential_rights_end ls c h)
          (covers-potential_from config lic.issued (end_of lic)),
    )

-- The outcome of the insertion
run_add-IsNew :
    (config : Config) (lic : License) (t : Time) (u : Tables)
    → select_ref lic.id u.statuses ≡ none
    → (run_add lic.id (columns (make_license_status config lic t)) u).0 ≡ done tt
    → (s : StatusRow) × (select_ref lic.id
          (run_add lic.id (columns (make_license_status config lic t)) u).1.statuses
        ≡ some s)
      × IsNew config lic s
run_add-IsNew config lic t u absent = go (columns (make_license_status config lic t)) refl
  where
    go :
        (c : Option Columns)
        → columns (make_license_status config lic t) ≡ c
        → (run_add lic.id c u).0 ≡ done tt
        → (s : StatusRow) × (select_ref lic.id (run_add lic.id c u).1.statuses ≡ some s)
          × IsNew config lic s
    go none h k = cc
    go (some c) h k = (
      new_row c lic.id u.statuses,
      ground (
        arith,
        eq_iff lic.id lic.id,
        select_ref-insert_row_absent c lic.id lic.id u.statuses absent,
      ),
      inserted-IsNew config lic t c u.statuses h,
    )

abbrev Created : Env → License → Tables → Type 0
Created e lic u = (s : StatusRow) × (select_ref lic.id u.statuses ≡ some s) × IsNew e.config lic s

abbrev Reported : Env → License → Reply → Tables → Type 0
Reported e lic r u = code r ≡ 201 → Created e lic u

module _ {e : Env} (lic : License) where
  add_status-Created :
      (t : Time)
      → Triple e
          (Reported e lic)
          (λ u. select_ref lic.id u.statuses ≡ none)
          (add_status (make_license_status e.config lic t))
          (λ r u. r ≡ done tt → Created e lic u)
  unfolding add_status make_license_status
  add_status-Created t = Triple-db_call _ (λ u p h. cc) (λ u p. run_add-IsNew e.config lic t u p)

  create-Created :
      Triple e
        (Reported e lic)
        (λ u. select_ref lic.id u.statuses ≡ none)
        (create_license_status_document (some lic))
        (λ _ u. Created e lic u)
  unfolding create_license_status_document
  create-Created = ask_bind _ (
      Triple-bind Triple-now λ n. Triple-bind (add_status-Created (pos (truncate n))) λ res.
        Triple-bind {Q = λ _ u. Created e lic u}
          (Triple-or_500 res (λ u p h. absurd (omega arith)) (λ a eq u p. p eq))
          λ _. Triple-pure _ (λ u p. p))

Created-served :
    (e : Env) (lic : License) (r : Result Reply) (u : Tables)
    → Post (Reported e lic) (λ _. Created e lic) r u
    → code (response r) ≡ 201
    → Created e lic u
Created-served e lic (ok r) u h k = h
Created-served e lic (stop r) u h k = h k

-- When the creation of a status document is reported (201) for a license that had none, the license
-- has a row: ready, or active where no device registers; with the license's own end, no device, and
-- an end of the potential rights, if any, that is not before the license's own end.
pub created :
    (e : Env) (lic : License) (w : World)
    → select_ref lic.id w.tables.statuses ≡ none
    → code (serve (create_license_status_document (some lic)) e w).0 ≡ 201
    → (s : StatusRow) × (select_ref lic.id
          (serve (create_license_status_document (some lic)) e w).1.tables.statuses
        ≡ some s)
      × IsNew e.config lic s
created e lic w absent h =
    let (r, w') = create_license_status_document (some lic) e w in
    Created-served e lic r w'.tables ((create-Created lic).at w absent) h
