-- ===== src/Licensing/Fresh.antt =====
-- A fresh license that the License Status Server hands on.
use readium_lcp_server.Prelude.{
  ℕ, ◌+◌, ◌==◌, String, str_eq, ◌≡◌, refl, ap, ◌∙◌, subst, Option, none, some, List, codes,
  Bool-cases, inl, inr, ==→eq,
}
use readium_lcp_server.License.{License, LicenseRow, select_license}
use readium_lcp_server.LicenseStatuses.{LicenseStatus}
use readium_lcp_server.Index.{Content, select_content}
use readium_lcp_server.Server.{
  Env, Tables, World, Reply, Delivery, lost, answered, answer_lost, license,
}
use readium_lcp_server.Server.Exec.{Result, ok, stop, DbResult, done, not_found, failed, serve}
use readium_lcp_server.Server.Triple.{
  Triple, Post, Triple-pure, Triple-bind, Triple-option, Triple-db_call, ask_bind, serve_lem,
}
use readium_lcp_server.Stores.{get_by_license_id}
use readium_lcp_server.LicenseServer.Input.{hex_decode}
use readium_lcp_server.LicenseServer.Licenses.{decoded, get_license_request}
use readium_lcp_server.LsdServer.Fresh.{
  UserData, get_user_data, init_partial_license, exchange, fetched_license, fetch_license,
  get_fresh, write_fresh, get_fresh_license,
}
use readium_lcp_server.Licensing.{IsSound, Opens, OnLicense}
use readium_lcp_server.Licensing.Inputs.{passphrase}
use readium_lcp_server.Licensing.Answers.{IsOf, Full, get_license_request-Opens}

-- A license of the License Server, for its row and its content, which the passphrase of the user opens
abbrev pub IsFresh : Env → (String → Option UserData) → String → Tables → License → Type 0
IsFresh e cms id old l =
    (u : UserData) × (v : List ℕ) × (row : LicenseRow) × (c : Content) × (cms id ≡ some u)
    × (hex_decode (codes u.passphrase_hash) ≡ some v)
    × (select_license id old.licenses ≡ some row)
    × (select_content row.content_fk old.contents ≡ some c)
    × IsOf row l
    × Opens e v c l

fetched-200 :
    (o : Option Reply) (l : License) → fetched_license o ≡ some l → o ≡ some (license 200 l)
unfolding fetched_license
fetched-200 none l h = cc
fetched-200 (some (license status m)) l h = elim (Bool-cases (status == 200)) [
  | inl fine ↦
      let gives : fetched_license (some (license status m)) ≡ some m = rw fine refl in
      let same : m ≡ l = cc in
      let is_200 : status ≡ 200 = ==→eq status 200 fine in
      ap (λ n. some (license n m)) is_200 ∙ ap (λ k. some (license 200 k)) same
  | inr bad ↦ let gives : fetched_license (some (license status m)) ≡ none = rw bad refl in cc
]
fetched-200 (some _) l h = cc

Opened : Env → Tables → License → License → Type 0
Opened e old partial l =
    (v : List ℕ) × (c : Content) × Full old partial.id (decoded partial) l v c × Opens e v c l

exchange-Opened :
    (e : Env) (partial : License) (d : Delivery) (w : World)
    → IsSound e
    → (l : License)
    → fetched_license (exchange d (get_license_request partial.id (decoded partial)) e w).0 ≡ some l
    → Opened e w.tables partial l
unfolding exchange fetched_license Opened
exchange-Opened e partial lost w sound l h = let gives : fetched_license none ≡ none = refl in cc
exchange-Opened e partial answer_lost w sound l h =
    let gives : fetched_license none ≡ none = refl in cc
exchange-Opened e partial answered w sound l h =
    let arrived =
      fetched-200 (some (serve (get_license_request partial.id (decoded partial)) e w).0) l h in
    get_license_request-Opens e partial.id (decoded partial) w sound l cc

module _ {e : Env} (cms : String → Option UserData) (old : Tables) (id : String)
    (sound : IsSound e) where
  Ends : Reply → Tables → Type 0
  Ends r t = OnLicense (λ status l. IsFresh e cms id old l) (Unit {0}) r

  Got : Option License → Type 0
  Got o = (l : License) → o ≡ some l → IsFresh e cms id old l

  fetch-Opened :
      (partial : License)
      → Triple e Ends
          (λ t. t ≡ old)
          (fetch_license partial)
          (λ o t. (l : License) → o ≡ some l → Opened e old partial l)
  unfolding fetch_license
  fetch-Opened partial = record {
    at = λ w p l h.
        subst (λ u. Opened e u partial l) p
          (exchange-Opened e partial (e.network w.requests) (record w { requests = w.requests + 1 })
            sound l h);
  }

  unsealed-IsFresh :
      (u : UserData) (l : License)
      → get_user_data cms e id ≡ some u
      → Opened e old (init_partial_license id u) l
      → IsFresh e cms id old l
  unfolding Opened get_user_data init_partial_license
  unsealed-IsFresh u l is_user (v, c, (partial, row, same, found, is_row, is_c, is_of), opens) =
      let eq : init_partial_license id u ≡ partial = cc in
      (
        u,
        v,
        row,
        c,
        known,
        decodes (ap (λ (q : License). passphrase q.encryption.user_key) eq ∙ found),
        is_row,
        is_c,
        is_of,
        opens,
      )
    where
      known : cms id ≡ some u
      known = elim (Bool-cases (str_eq e.config.user_data_url "")) [
        | inl unset ↦ let gives : get_user_data cms e id ≡ none = rw unset refl in cc
        | inr configured ↦ let gives : get_user_data cms e id ≡ cms id = rw configured refl in cc
      ]

      decodes :
          passphrase (init_partial_license id u).encryption.user_key ≡ some v
          → hex_decode (codes u.passphrase_hash) ≡ some v
      decodes h = elim (Bool-cases (str_eq u.passphrase_hash "")) [
        | inl empty ↦
            let gives : passphrase (init_partial_license id u).encryption.user_key ≡ none =
              rw empty refl in
            cc
        | inr full ↦
            let gives : passphrase (init_partial_license id u).encryption.user_key
                ≡ hex_decode (codes u.passphrase_hash) =
              rw full refl in
            cc
      ]

  get_fresh-Got : Triple e Ends (λ t. t ≡ old) (get_fresh cms id) (λ o t. Got o)
  unfolding get_fresh Got
  get_fresh-Got = ask_bind _ (
      Triple-option (get_user_data cms e id) (λ absent. Triple-pure none (λ t p l h. cc))
        λ u is_user. record {
          at = λ w p. fetched_Got u is_user _ _ ((fetch-Opened (init_partial_license id u)).at w p);
        })
    where
      fetched_Got :
          (u : UserData)
          → get_user_data cms e id ≡ some u
          → (r : Result (Option License)) (t : Tables)
          → Post Ends
              (λ o t. (l : License) → o ≡ some l → Opened e old (init_partial_license id u) l)
              r
              t
          → Post Ends (λ o t. Got o) r t
      fetched_Got u is_user (ok o) t h = λ l is_l. unsealed-IsFresh u l is_user (h l is_l)
      fetched_Got u is_user (stop r) t h = h

  written :
      (found : DbResult LicenseStatus) (l : License)
      → IsFresh e cms id old l
      → Triple e Ends (λ t. Unit {0}) (write_fresh found l) Ends
  unfolding Ends
  written (done ls) l h = Triple-pure _ (λ t p. h)
  written not_found l h = Triple-pure _ (λ t p. h)
  written failed l h = Triple-pure _ (λ t p. h)

  get_fresh_license-Ends : Triple e Ends (λ t. t ≡ old) (get_fresh_license cms id) Ends
  unfolding get_fresh_license get_by_license_id Got Ends
  get_fresh_license-Ends =
      Triple-bind (ask_bind _ (Triple-db_call _ (λ t p. p) (λ t p. p))) λ found.
        Triple-bind get_fresh-Got λ fresh. record {
          at = λ w got.
              (Triple-option fresh (λ none_yet. Triple-pure _ (λ t p. tt))
                  (λ l is_l. written found l (got l is_l))).at
                w tt;
        }

-- GetFreshLicense, if the ciphers and the random bytes of the License Server are as documented: a license
-- that it hands on, with status 200 or behind a 404, is the one that the License Server has under the
-- id, with its rights, and the hash that the CMS gives for the passphrase of its user decrypts its
-- content key to the key of its content.
pub get_fresh_license-IsFresh :
    (e : Env) (cms : String → Option UserData) (id : String) (w : World)
    → IsSound e
    → (status : ℕ) (l : License) → (serve (get_fresh_license cms id) e w).0 ≡ license status l
    → IsFresh e cms id w.tables l
unfolding get_fresh_license Ends
get_fresh_license-IsFresh e cms id w sound status l h =
    subst (λ r. OnLicense (λ status l. IsFresh e cms id w.tables l) (Unit {0}) r) h
      (serve_lem w (get_fresh_license-Ends cms w.tables id sound) refl)
