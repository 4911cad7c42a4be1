-- ===== src/Issuance/Notified.antt =====
-- The notification of the License Status Server: what the License Server notes, and what is there.
use readium_lcp_server.Prelude.{
  ℕ, ◌+◌, ℤ, pos, String, str_eq, true, false, ◌≡◌, refl, sym, ap, ◌∙◌, Option, none, some, List,
  [], ◌∷◌, Bool-cases, inl, inr, if◌then◌else◌, arith,
}
use readium_lcp_server.License.{License, LicenseRow, select_license}
use readium_lcp_server.License.Queries.{update_lsd_statuses}
use readium_lcp_server.LicenseStatuses.{StatusRow, select_ref}
use readium_lcp_server.Server.{
  Env, Tables, World, Reply, Delivery, lost, answered, answer_lost, code,
}
use readium_lcp_server.Server.Exec.{Exec, serve, pure, ask, db_call, ◌>>=◌}
use readium_lcp_server.Server.Views.{Triple-keeps}
use readium_lcp_server.Stores.Licenses.{update_lsd_status}
use readium_lcp_server.LsdServer.Common.{deliver}
use readium_lcp_server.LsdServer.Document.{create_license_status_document}
use readium_lcp_server.LicenseServer.Notify.{sent, put_license, noted, notify_lsd_server}
use readium_lcp_server.Registry.Runs.{create-Keeps}
use readium_lcp_server.Creation.{IsNew, created}
use readium_lcp_server.Issuance.Steps.{deliver-Preserves}

-- What the License Server has noted of a license
abbrev pub lsd_status_of : Option LicenseRow → Option ℤ
lsd_status_of none = none
lsd_status_of (some r) = some r.lsd_status

noted_status :
    (id : String) (status : ℤ) (rows : List LicenseRow)
    → lsd_status_of (select_license id (update_lsd_statuses id status rows)) ≡ some (pos 201)
    → status ≡ pos 201
unfolding update_lsd_statuses select_license
noted_status id status [] h = cc
noted_status id status (r ∷ rows) h = ground (arith, noted_status id status rows)

noted-201 : (o : Option ℕ) → noted o ≡ pos 201 → o ≡ some 201
noted-201 none h = cc
noted-201 (some n) h = cc

some-201 : (n : ℕ) → some n ≡ some 201 → n ≡ 201
some-201 n h = cc

delivered-201 :
    (e : Env) (d : Delivery) (m : Exec Reply) (w : World)
    → (deliver d m e w).0 ≡ some 201
    → (code (serve m e w).0 ≡ 201) × ((deliver d m e w).1 ≡ (serve m e w).1)
unfolding deliver
delivered-201 e lost m w h = cc
delivered-201 e answered m w h = (some-201 _ h, refl)
delivered-201 e answer_lost m w h = cc

module _ (e : Env) (l : License) (w : World) where
  -- The world after the PUT request was counted
  asked : World
  asked = record w { requests = w.requests + 1 }

  -- The PUT request
  request : Option ℕ × World
  request = deliver (e.network w.requests) (create_license_status_document (some (sent l))) e asked

  request-licenses : request.1.tables.licenses ≡ w.tables.licenses
  unfolding request asked
  request-licenses =
      deliver-Preserves {P = λ t. t.licenses ≡ w.tables.licenses} (e.network w.requests) asked
        (record {
          triple =
              Triple-keeps (λ (t : Tables). t.licenses) (λ rows. rows ≡ w.tables.licenses)
                (λ r t p. p) (create-Keeps (λ t rows. refl) (some (sent l)));
        })
        refl

  -- The tables behind the notification
  notified_tables :
      str_eq e.config.lsd_base_url "" ≡ false
      → (notify_lsd_server l e w).1.tables ≡ (
          if e.db_fails request.1.db_calls then request.1.tables else record request.1.tables {
            licenses = update_lsd_statuses l.id (noted request.0) request.1.tables.licenses;
          })
  unfolding notify_lsd_server put_license update_lsd_status request asked ask pure db_call ◌>>=◌
  notified_tables configured = elim (Bool-cases (e.db_fails request.1.db_calls)) [
    | inl down ↦ rw (configured, down) refl
    | inr up ↦ rw (configured, up) refl
  ]

  not_notified : str_eq e.config.lsd_base_url "" ≡ true → (notify_lsd_server l e w).1 ≡ w
  unfolding notify_lsd_server ask pure ◌>>=◌
  not_notified bare = rw bare refl

  unnoted {ℓ} :
      {A : Type ℓ} {rows : List LicenseRow}
      → rows ≡ w.tables.licenses
      → lsd_status_of (select_license l.id w.tables.licenses) ≡ some (pos 0)
      → lsd_status_of (select_license l.id rows) ≡ some (pos 201)
      → A
  unnoted same before after = cc

  request_created :
      select_ref l.id w.tables.statuses ≡ none
      → request.0 ≡ some 201
      → (s : StatusRow) × (select_ref l.id request.1.tables.statuses ≡ some s)
        × IsNew e.config (sent l) s
  unfolding request asked
  request_created absent h =
      let (there, went) = delivered-201 e (e.network w.requests) _ asked h in
      let (s, row, new) = created e (sent l) asked absent there in
      (s, ap (λ (v : World). select_ref l.id v.tables.statuses) went ∙ row, new)

  -- The License Server and the License Status Server together: when a license whose status was not
  -- noted yet (0) is noted as created there (201), and the License Status Server had no row of it,
  -- the License Status Server has one now, as its handler makes it for this license without the id of
  -- its content.
  pub notified_created :
      select_ref l.id w.tables.statuses ≡ none
      → lsd_status_of (select_license l.id w.tables.licenses) ≡ some (pos 0)
      → lsd_status_of (select_license l.id (notify_lsd_server l e w).1.tables.licenses)
        ≡ some (pos 201)
      → (s : StatusRow) × (select_ref l.id (notify_lsd_server l e w).1.tables.statuses ≡ some s)
        × IsNew e.config (sent l) s
  notified_created absent before after = elim (Bool-cases (str_eq e.config.lsd_base_url "")) [
    | inl bare ↦ unnoted (ap (λ (v : World). v.tables.licenses) (not_notified bare)) before after
    | inr configured ↦ elim (Bool-cases (e.db_fails request.1.db_calls)) [
      | inl down ↦
          let same : (notify_lsd_server l e w).1.tables ≡ request.1.tables =
            rw (notified_tables configured, down) refl in
          unnoted (ap (λ (t : Tables). t.licenses) same ∙ request-licenses) before after
      | inr up ↦
          let same : (notify_lsd_server l e w).1.tables ≡ record request.1.tables {
            licenses = update_lsd_statuses l.id (noted request.0) request.1.tables.licenses;
          } =
            rw (notified_tables configured, up) refl in
          let status : noted request.0 ≡ pos 201 =
            noted_status l.id (noted request.0) request.1.tables.licenses (
              ap (λ (t : Tables). lsd_status_of (select_license l.id t.licenses)) (sym same)
              ∙ after) in
          let (s, row, new) = request_created absent (noted-201 request.0 status) in
          (s, ap (λ (t : Tables). select_ref l.id t.statuses) same ∙ row, new)
    ]
  ]
