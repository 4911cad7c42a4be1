-- ===== src/Licensing/Answers.antt =====
-- `GetLicense`: the license of the table, which the passphrase of the request opens, and which does
-- not show it.
use readium_lcp_server.Prelude.{ℕ, String, true, ◌≡◌, refl, sym, ap, ◌∙◌, subst, some, List, arith}
use readium_lcp_server.License.{License, LicenseRow, scan_license, select_license}
use readium_lcp_server.License.Build.{Built, built, no_content, build_error}
use readium_lcp_server.Index.{Content, select_content}
use readium_lcp_server.Server.{Env, Tables, World, Reply, license}
use readium_lcp_server.Server.Exec.{DbResult, done, not_found, failed, serve}
use readium_lcp_server.Server.Triple.{
  Triple, Triple-pure, Triple-reply, Triple-bind, Triple-db_call, serve_lem,
}
use readium_lcp_server.Server.Views.{with_fact}
use readium_lcp_server.Stores.{get_license}
use readium_lcp_server.Stores.Written.{Read, found_license-Read}
use readium_lcp_server.LicenseServer.{found_or_error}
use readium_lcp_server.LicenseServer.Input.{
  Checked, valid, invalid, check_get_license_input, copy_input_to_license,
}
use readium_lcp_server.LicenseServer.Licenses.{
  Body, decoded, empty_body, malformed, payload, or_400, built_or, get_license_request,
}
use readium_lcp_server.Licensing.{IsSound, Opens, IsBuilt, Hidden, OnLicense, OnLicense-map}
use readium_lcp_server.Licensing.Built.{BuiltFrom, build_license-BuiltFrom}
use readium_lcp_server.Licensing.Inputs.{passphrase, Accepted, check_get-Accepted}

-- The license of a row
pub record IsOf (row : LicenseRow) (l : License) : Type 0 where
  pub id : l.id ≡ row.id
  pub provider : l.provider ≡ row.provider
  pub issued : l.issued ≡ row.issued
  pub rights : l.rights ≡ some row.rights
  pub content_id : l.content_id ≡ row.content_fk

-- A full license answers a request that brings a passphrase, for a license and a content of the
-- tables.
abbrev pub Full : Tables → String → Body → License → List ℕ → Content → Type 0
Full old id body l v c =
    (partial : License) × (row : LicenseRow) × (body ≡ decoded partial)
    × (passphrase partial.encryption.user_key ≡ some v)
    × (select_license id old.licenses ≡ some row)
    × (select_content row.content_fk old.contents ≡ some c)
    × IsOf row l

abbrev FullOrOpen : Env → Tables → String → Body → License → Type 0
FullOrOpen e old id body l =
    (v : List ℕ) × (c : Content) × Full old id body l v c × (IsSound e → Opens e v c l)

abbrev Answer : Env → Tables → String → Body → Reply → Type 0
Answer e old id body r =
    OnLicense (λ status l. Hidden l × (status ≡ 200 → FullOrOpen e old id body l)) (Unit {0}) r

abbrev Ends : Env → Tables → String → Body → Reply → Tables → Type 0
Ends e old id body r t = (t ≡ old) × Answer e old id body r

-- The license that is built from the row and the request
built-Full :
    (e : Env) (old : Tables) (id : String) (partial lic_in stored l : License) (row : LicenseRow)
    (c : Content)
    → Accepted partial lic_in
    → select_license id old.licenses ≡ some row
    → select_content row.content_fk old.contents ≡ some c
    → stored ≡ scan_license row
    → IsBuilt e (copy_input_to_license lic_in stored) c l
    → FullOrOpen e old id (decoded partial) l
unfolding copy_input_to_license
built-Full e old id partial lic_in stored l row c (v, found, size, same) is_row is_c scan b = (
  v,
  c,
  (
    partial,
    row,
    refl,
    found,
    is_row,
    is_c,
    record {
      id = b.id ∙ ap (λ (q : License). q.id) scan;
      provider = b.provider ∙ ap (λ (q : License). q.provider) scan;
      issued = b.issued ∙ ap (λ (q : License). q.issued) scan;
      rights = b.rights ∙ ap (λ (q : License). q.rights) scan;
      content_id = b.content_id ∙ ap (λ (q : License). q.content_id) scan;
    },
  ),
  λ sound. b.opens sound v (ap (λ (q : License). q.encryption.user_key.value) same) size,
)

module _ {e : Env} (old : Tables) (id : String) (body : Body) where
  get_license-Read :
      Triple e
        (Ends e old id body)
        (λ t. t ≡ old)
        (get_license id)
        (λ r t. (t ≡ old) × Read id r old.licenses)
  unfolding get_license
  get_license-Read =
      Triple-db_call _ (λ t p. (p, tt)) (λ t p. (p, rw p (found_license-Read id old.licenses)))

  found-Row :
      (r : DbResult License)
      → Read id r old.licenses
      → Triple e
          (Ends e old id body)
          (λ t. t ≡ old)
          (found_or_error r)
          (λ l t.
            (t ≡ old)
            × ((row : LicenseRow) × (select_license id old.licenses ≡ some row)
                × (l ≡ scan_license row)))
  found-Row (done l) h = Triple-pure l (λ t p. (p, h))
  found-Row not_found h = Triple-reply _ (λ t p. (p, tt))
  found-Row failed h = Triple-reply _ (λ t p. (p, tt))

  payload-Given :
      (stored : License) (row : LicenseRow) (b : Body)
      → stored ≡ scan_license row
      → Triple e
          (Ends e old id body)
          (λ t. t ≡ old)
          (payload stored b)
          (λ l t. (t ≡ old) × (b ≡ decoded l))
  unfolding payload
  payload-Given stored row (decoded l) scan = Triple-pure l (λ t p. (p, refl))
  payload-Given stored row empty_body scan =
      let hidden : Hidden stored = (
        ap (λ (q : License). q.encryption.user_key.value) scan,
        ap (λ (q : License). q.encryption.user_key.hex_value) scan,
      ) in
      Triple-reply _ (λ t p. (p, (hidden, λ h. absurd (omega (arith, h)))))
  payload-Given stored row malformed scan = Triple-reply _ (λ t p. (p, tt))

  or_400-Valid :
      (c : Checked)
      → Triple e (Ends e old id body) (λ t. t ≡ old) (or_400 c) (λ l t. (t ≡ old) × (c ≡ valid l))
  or_400-Valid (valid l) = Triple-pure l (λ t p. (p, refl))
  or_400-Valid (invalid err) = Triple-reply _ (λ t p. (p, tt))

  built_or-Built :
      (missing : ℕ) (b : Built) (lic : License)
      → BuiltFrom e old.contents lic b
      → Triple e
          (Ends e old id body)
          (λ t. t ≡ old)
          (built_or missing b)
          (λ l t. (t ≡ old) × BuiltFrom e old.contents lic (built l))
  built_or-Built missing (built l) lic h = Triple-pure l (λ t p. (p, h))
  built_or-Built missing no_content lic h = Triple-reply _ (λ t p. (p, tt))
  built_or-Built missing build_error lic h = Triple-reply _ (λ t p. (p, tt))

  get_license_request-Ends :
      Triple e
        (Ends e old id body)
        (λ t. t ≡ old)
        (get_license_request id body)
        (Ends e old id body)
  unfolding get_license_request copy_input_to_license
  get_license_request-Ends = Triple-bind get_license-Read λ r. with_fact λ read.
      Triple-bind (found-Row r read) λ stored. with_fact λ is_row.
        Triple-bind (payload-Given stored is_row.0 body is_row.2) λ partial. with_fact λ given.
          Triple-bind (or_400-Valid (check_get_license_input partial)) λ lic_in.
            with_fact λ checked.
              Triple-bind (build_license-BuiltFrom old (λ t p. (p, tt)) true _) λ outcome.
                with_fact λ b. Triple-bind (built_or-Built 500 outcome _ b) λ lic_out.
                  with_fact λ is_built.
                    Triple-pure _
                      (λ t p. (p, full partial lic_in stored lic_out is_row given checked is_built))
    where
      full :
          (partial lic_in stored l : License)
          → (row : LicenseRow) × (select_license id old.licenses ≡ some row)
            × (stored ≡ scan_license row)
          → body ≡ decoded partial
          → check_get_license_input partial ≡ valid lic_in
          → BuiltFrom e old.contents (copy_input_to_license lic_in stored) (built l)
          → Hidden l × (◌≡◌ {A = ℕ} 200 200 → FullOrOpen e old id body l)
      full partial lic_in stored l (row, is_row, scan) given checked (c, is_c, b) = (
        (b.no_value, b.no_hex_value),
        λ _.
            subst (λ q. FullOrOpen e old id q l) (sym given)
              (built-Full e old id partial lic_in stored l row c
                (check_get-Accepted partial lic_in checked) is_row
                (ap (λ (q : License). select_content q.content_id old.contents) (sym scan) ∙ is_c)
                scan b),
      )

module _ (e : Env) (id : String) (body : Body) (w : World) where
  get_license-Answer :
      Ends e w.tables id body
        (serve (get_license_request id body) e w).0
        (serve (get_license_request id body) e w).1.tables
  get_license-Answer = serve_lem w (get_license_request-Ends w.tables id body) refl

  full_answer :
      (l : License)
      → (serve (get_license_request id body) e w).0 ≡ license 200 l
      → FullOrOpen e w.tables id body l
  full_answer l h =
      let ends = get_license-Answer in (subst (λ r. Answer e w.tables id body r) h ends.1).1 refl

  -- GetLicense, answered with a full license, if the ciphers and the random bytes are as documented:
  -- the license has the id, the provider, the date and the rights of its row in the table, and the
  -- passphrase that the request brings decrypts its content key to the key of its content in the index,
  -- and its key check to its id.
  pub get_license_request-Opens :
      IsSound e
      → (l : License) → (serve (get_license_request id body) e w).0 ≡ license 200 l
      → (v : List ℕ) × (c : Content) × Full w.tables id body l v c × Opens e v c l
  get_license_request-Opens sound l h =
      let (v, c, full, opens) = full_answer l h in (v, c, full, opens sound)

  -- GetLicense, whatever it answers and whatever fails, changes no table; and if it answers with a
  -- license, full or partial, that shows nothing of the passphrase of the user.
  pub get_license_hides :
      ((serve (get_license_request id body) e w).1.tables ≡ w.tables)
      × OnLicense (λ status l. Hidden l) (Unit {0}) (serve (get_license_request id body) e w).0
  get_license_hides =
      let ends = get_license-Answer in
      (
        ends.0,
        OnLicense-map _ _ _ (λ status l h. h.0) (serve (get_license_request id body) e w).0 ends.1,
      )
