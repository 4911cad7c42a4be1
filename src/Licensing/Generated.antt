-- ===== src/Licensing/Generated.antt =====
-- `GenerateLicense`: exactly one row is added, for the license of the answer, or no table changes.
use readium_lcp_server.Prelude.{
  ℕ, String, false, ◌≡◌, refl, sym, ap, ◌∙◌, subst, none, some, List, [], ◌∷◌, ◌++◌, Option-cases,
  inl, inr,
}
use readium_lcp_server.License.{License, Encryption, select_license}
use readium_lcp_server.License.Queries.{license_row}
use readium_lcp_server.License.Build.{Built, built, no_content, build_error, initialize}
use readium_lcp_server.Index.{Content, select_content}
use readium_lcp_server.Server.{Env, Tables, World, Reply, license}
use readium_lcp_server.Server.Exec.{DbResult, done, not_found, failed, serve, or_500}
use readium_lcp_server.Server.Triple.{
  Triple, Triple-pure, Triple-reply, Triple-bind, Triple-db_call, Triple-draw, Triple-now, ask_bind,
  serve_lem,
}
use readium_lcp_server.Server.Views.{with_fact}
use readium_lcp_server.Stores.Licenses.{add_license, run_add_license}
use readium_lcp_server.LicenseServer.Input.{
  Checked, valid, invalid, check_generate_license_input, set_rights, rights_of, truncate_option,
}
use readium_lcp_server.LicenseServer.Licenses.{
  Body, decoded, empty_body, malformed, body_or_400, or_400, built_or, generate, generate_license,
}
use readium_lcp_server.Licensing.{IsSound, Opens, Hidden, OnLicense}
use readium_lcp_server.Licensing.Built.{BuiltFrom, build_license-BuiltFrom}
use readium_lcp_server.Licensing.Inputs.{passphrase, check_generate-Accepted}

-- The table of licenses with a row more, for a license whose id is new
abbrev pub AddedRow : Tables → License → Tables → Type 0
AddedRow old l t =
    (select_license l.id old.licenses ≡ none)
    × (t ≡ record old { licenses = old.licenses ++ license_row l ∷ [] })

-- A license that was generated from a request, for a content of the index
abbrev pub IsGenerated : Tables → String → Body → License → List ℕ → Content → Type 0
IsGenerated old content_id body l v c =
    (partial : License) × (body ≡ decoded partial)
    × (passphrase partial.encryption.user_key ≡ some v)
    × (select_content content_id old.contents ≡ some c)
    × (l.content_id ≡ content_id)
    × (l.rights ≡ (set_rights partial).rights)
    × Hidden l

abbrev Generated : Env → Tables → String → Body → License → Type 0
Generated e old content_id body l =
    (v : List ℕ) × (c : Content) × IsGenerated old content_id body l v c
    × (IsSound e → Opens e v c l)

abbrev Outcome : Env → Tables → String → Body → Reply → Tables → Type 0
Outcome e old content_id body r t =
    OnLicense (λ status l. AddedRow old l t × Generated e old content_id body l) (t ≡ old) r

-- What Initialize sets
abbrev Started : String → License → License → Type 0
Started content_id l l' =
    (l'.content_id ≡ content_id) × (l'.rights ≡ l.rights) × (l'.encryption ≡ l.encryption)

set_rights-rights :
    (a b : License) → a.rights ≡ b.rights → (set_rights a).rights ≡ (set_rights b).rights
unfolding set_rights
set_rights-rights a b h =
    ap
      (λ r. some (record (rights_of r) {
        start = truncate_option (rights_of r).start;
        end = truncate_option (rights_of r).end;
      }))
      h

-- Add writes a row, or fails and leaves the table as it is.
abbrev Stored : Tables → License → DbResult (Unit {0}) → Tables → Type 0
Stored old l (done u) t = AddedRow old l t
Stored old l not_found t = t ≡ old
Stored old l failed t = t ≡ old

run_add-Stored :
    (old : Tables) (l : License) (t : Tables)
    → t ≡ old
    → Stored old l
        (run_add_license l (select_license l.id t.licenses) t).0
        (run_add_license l (select_license l.id t.licenses) t).1
run_add-Stored old l t p = elim (Option-cases (select_license l.id t.licenses)) [
  | inl absent ↦ rw absent (
    ap (λ (u : Tables). select_license l.id u.licenses) (sym p) ∙ absent,
    ap (λ (u : Tables). record u { licenses = u.licenses ++ license_row l ∷ [] }) p,
  )
  | inr (r, taken) ↦ rw taken p
]

module _ {e : Env} (old : Tables) (content_id : String) (body : Body) where
  body-Given :
      (b : Body)
      → Triple e
          (Outcome e old content_id body)
          (λ t. t ≡ old)
          (body_or_400 b)
          (λ l t. (t ≡ old) × (b ≡ decoded l))
  body-Given (decoded l) = Triple-pure l (λ t p. (p, refl))
  body-Given empty_body = Triple-reply _ (λ t p. p)
  body-Given malformed = Triple-reply _ (λ t p. p)

  or_400-Valid :
      (c : Checked)
      → Triple e
          (Outcome e old content_id body)
          (λ t. t ≡ old)
          (or_400 c)
          (λ l t. (t ≡ old) × (c ≡ valid l))
  or_400-Valid (valid l) = Triple-pure l (λ t p. (p, refl))
  or_400-Valid (invalid err) = Triple-reply _ (λ t p. p)

  initialize-Started :
      (l : License)
      → Triple e
          (Outcome e old content_id body)
          (λ t. t ≡ old)
          (initialize content_id l)
          (λ l' t. (t ≡ old) × Started content_id l l')
  unfolding initialize
  initialize-Started l = ask_bind _ (
      Triple-bind Triple-draw
        λ n. Triple-bind Triple-now λ now. Triple-pure _ (λ t p. (p, (refl, refl, refl))))

  built_or-Built :
      (missing : ℕ) (b : Built) (lic : License)
      → BuiltFrom e old.contents lic b
      → Triple e
          (Outcome e old content_id body)
          (λ t. t ≡ old)
          (built_or missing b)
          (λ l t. (t ≡ old) × BuiltFrom e old.contents lic (built l))
  built_or-Built missing (built l) lic h = Triple-pure l (λ t p. (p, h))
  built_or-Built missing no_content lic h = Triple-reply _ (λ t p. p)
  built_or-Built missing build_error lic h = Triple-reply _ (λ t p. p)

  add_license-Stored :
      (l : License)
      → Triple e
          (Outcome e old content_id body)
          (λ t. t ≡ old)
          (add_license l)
          (λ r t. Stored old l r t)
  unfolding add_license
  add_license-Stored l = Triple-db_call _ (λ t p. p) (λ t p. run_add-Stored old l t p)

  or_500-Stored :
      (l : License) (r : DbResult (Unit {0}))
      → Triple e
          (Outcome e old content_id body)
          (λ t. Stored old l r t)
          (or_500 r)
          (λ _ t. AddedRow old l t)
  unfolding or_500
  or_500-Stored l (done u) = Triple-pure u (λ t p. p)
  or_500-Stored l not_found = Triple-reply _ (λ t p. p)
  or_500-Stored l failed = Triple-reply _ (λ t p. p)

  generate-Generated :
      (missing : ℕ)
      → Triple e
          (Outcome e old content_id body)
          (λ t. t ≡ old)
          (generate missing content_id body)
          (λ l t. AddedRow old l t × Generated e old content_id body l)
  unfolding generate set_rights
  generate-Generated missing = Triple-bind (body-Given body) λ partial. with_fact λ given.
      Triple-bind (or_400-Valid (check_generate_license_input partial)) λ lic_in.
        with_fact λ checked. Triple-bind (initialize-Started lic_in) λ started.
          with_fact λ is_started.
            Triple-bind (build_license-BuiltFrom old (λ t p. p) false (set_rights started))
              λ outcome. with_fact λ b. Triple-bind (built_or-Built missing outcome _ b) λ lic.
                with_fact λ is_built. Triple-bind (add_license-Stored lic) λ saved.
                  Triple-bind (or_500-Stored lic saved) λ _. Triple-pure lic (λ t p.
                    (p, generated partial lic_in started lic given checked is_started is_built))
    where
      generated :
          (partial lic_in started l : License)
          → body ≡ decoded partial
          → check_generate_license_input partial ≡ valid lic_in
          → Started content_id lic_in started
          → BuiltFrom e old.contents (set_rights started) (built l)
          → Generated e old content_id body l
      generated partial lic_in started l given checked (has_content, same_rights, same_key)
            (c, is_c, b) =
          let (v, found, size, accepted) = check_generate-Accepted partial lic_in checked in
          (
            v,
            c,
            (
              partial,
              given,
              found,
              ap (λ id. select_content id old.contents) (sym has_content) ∙ is_c,
              b.content_id ∙ has_content,
              b.rights
                  ∙ set_rights-rights started partial
                      (same_rights ∙ ap (λ (q : License). q.rights) accepted),
              (b.no_value, b.no_hex_value),
            ),
            λ sound.
                b.opens sound v
                  (ap (λ (k : Encryption). k.user_key.value) same_key
                    ∙ ap (λ (q : License). q.encryption.user_key.value) accepted)
                  size,
          )

module _ (e : Env) (content_id : String) (body : Body) (w : World) where
  generate_license-Outcome :
      Outcome e w.tables content_id body
        (serve (generate_license content_id body) e w).0
        (serve (generate_license content_id body) e w).1.tables
  unfolding generate_license
  generate_license-Outcome =
      serve_lem w
        (Triple-bind (generate-Generated w.tables content_id body 404)
          λ lic. Triple-pure _ (λ t p. p))
        refl

  -- A license that GenerateLicense answers with, if the ciphers and the random bytes are as documented:
  -- the passphrase of the request decrypts its content key to the key of the content in the index, and
  -- its key check to its id.
  pub generate_license-Opens :
      IsSound e
      → (status : ℕ) (l : License)
      → (serve (generate_license content_id body) e w).0 ≡ license status l
      → (v : List ℕ) × (c : Content) × IsGenerated w.tables content_id body l v c × Opens e v c l
  generate_license-Opens sound status l h =
      let (added, (v, c, made, opens)) =
        subst
          (λ r.
            Outcome e w.tables content_id body r
              (serve (generate_license content_id body) e w).1.tables)
          h generate_license-Outcome in
      (v, c, made, opens sound)
