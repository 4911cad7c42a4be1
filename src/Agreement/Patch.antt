-- ===== src/Agreement/Patch.antt =====
-- The PATCH request: when it is answered with success, the License Server has written the end.
use mathlib.Core.Option
use readium_lcp_server.Prelude.{
  ℕ, String, true, ◌≡◌, refl, ap, ◌∙◌, Option, some, List, [], ◌∷◌, str_eq, Bool-cases, inl, inr,
  arith,
}
use readium_lcp_server.Time.{Time}
use readium_lcp_server.License.{
  License, LicenseRow, select_license, update_licenses, write_license, rights_or,
}
use readium_lcp_server.Server.{
  Env, Tables, World, Reply, Delivery, lost, answered, answer_lost, code,
}
use readium_lcp_server.Server.Exec.{Result, ok, stop, DbResult, done, not_found, failed, response}
use readium_lcp_server.Server.Triple.{
  Triple, Post, Triple-pure, Triple-reply, Triple-db_call, Triple-or_500, Triple-bind, Triple-now,
  pure_bind,
}
use readium_lcp_server.Stores.{get_license, update_license_row}
use readium_lcp_server.Stores.Written.{Read, Scanned, found_license-Read, select_license_id}
use readium_lcp_server.LicenseServer.{update_license, merge, new_rights, found_or_error}
use readium_lcp_server.LsdServer.Common.{min_license, deliver, update_request}
use readium_lcp_server.Agreement.{is_success, success_code, is_accepted, Ended}

-- UPDATE on the row of a license
select_license-update :
    (l : License) (now : Time) (rows : List LicenseRow)
    → select_license l.id (update_licenses l now rows)
      ≡ Option.map (write_license l now) (select_license l.id rows)
unfolding select_license update_licenses
select_license-update l now [] = refl
select_license-update l now (q ∷ rows) = ground (arith, select_license-update l now rows)

merged-Ended :
    (id : String) (t : Time) (l : License) (now : Time) (rows : List LicenseRow)
    → Scanned id l rows
    → Ended id (some t) (
        update_licenses (merge (min_license id t) (rights_or (min_license id t).rights) l) now rows)
unfolding merge new_rights
merged-Ended id t l now rows (r, found, scan) =
    let l' = merge (min_license id t) (rights_or (min_license id t).rights) l in
    let key : l.id ≡ id = ap (λ (q : License). q.id) scan ∙ select_license_id id rows r found in
    (write_license l' now r, ground (arith, select_license-update l' now rows, key), refl)

-- How UpdateLicense ends: with success only after the write
abbrev Told : String → Time → Reply → Tables → Type 0
Told id t r u = is_success r ≡ true → Ended id (some t) u.licenses

module _ {e : Env} (id : String) (t : Time) where
  get_license-Read :
      Triple e (Told id t) (λ _. Unit {0}) (get_license id) (λ r u. Read id r u.licenses)
  unfolding get_license
  get_license-Read = Triple-db_call _ (λ u p. tt) (λ u p. found_license-Read id u.licenses)

  found_or_error-Scanned :
      (r : DbResult License)
      → Triple e
          (Told id t)
          (λ u. Read id r u.licenses)
          (found_or_error r)
          (λ l u. Scanned id l u.licenses)
  found_or_error-Scanned (done l) = Triple-pure l (λ u p. p)
  found_or_error-Scanned not_found = Triple-reply _ (λ u p h. cc)
  found_or_error-Scanned failed = Triple-reply _ (λ u p h. cc)

  update_license_row-Ended :
      (l : License)
      → Triple e
          (Told id t)
          (λ u. Scanned id l u.licenses)
          (update_license_row (merge (min_license id t) (rights_or (min_license id t).rights) l))
          (λ r u. r ≡ done tt → Ended id (some t) u.licenses)
  unfolding update_license_row
  update_license_row-Ended l =
      Triple-bind Triple-now
        λ n. Triple-db_call _ (λ u p h. cc) (λ u p h. merged-Ended id t l _ u.licenses p)

  update_license-Told :
      Triple e (Told id t) (λ _. Unit {0}) (update_license id (min_license id t)) (Told id t)
  unfolding update_license
  update_license-Told = Triple-bind get_license-Read λ r.
      Triple-bind (found_or_error-Scanned r) λ l. pure_bind _ _ (
        Triple-bind (update_license_row-Ended l) λ saved.
          Triple-bind {Q = λ _ u. Ended id (some t) u.licenses}
            (Triple-or_500 saved (λ u p h. cc) (λ a eq u p. p (eq ∙ refl)))
            λ _. Triple-pure _ (λ u p h. p))

answered_code : (n : ℕ) → is_accepted (some n) ≡ true → success_code n ≡ true
answered_code n h = ground arith

module _ (id : String) (t : Time) where
  Told-served :
      (r : Result Reply) (u : Tables) → Post (Told id t) (Told id t) r u → Told id t (response r) u
  Told-served (ok r) u h = h
  Told-served (stop r) u h = h

  -- What the client knows of a status code
  abbrev pub Answered : Option ℕ → Tables → Type 0
  Answered res u = is_accepted res ≡ true → Ended id (some t) u.licenses

  code-Answered :
      (n : ℕ) (u : Tables)
      → (success_code n ≡ true → Ended id (some t) u.licenses)
      → Answered (some n) u
  code-Answered n u h k = h (answered_code n k)

module _ (e : Env) (id : String) (t : Time) where
  deliver-Answered :
      (d : Delivery) (w : World)
      → Answered id t
          (deliver d (update_license id (min_license id t)) e w).0
          (deliver d (update_license id (min_license id t)) e w).1.tables
  unfolding deliver
  deliver-Answered lost w h = cc
  deliver-Answered answered w h =
      let (r, w') = update_license id (min_license id t) e w in
      code-Answered id t (code (response r)) w'.tables
        (Told-served id t r w'.tables ((update_license-Told id t).at w tt)) h
  deliver-Answered answer_lost w h = cc

module _ {e : Env} (id : String) (t : Time) where
  pub update_request-Answered :
      {R : Reply → Tables → Type 0} {P : Tables → Type 0}
      → Triple e R P (update_request t id) (Answered id t)
  unfolding update_request
  update_request-Answered = record {
    at = λ w p. elim (Bool-cases (str_eq e.config.lcp_base_url "")) [
      | inl unset ↦ rw unset (λ h. cc)
      | inr configured ↦ rw configured (deliver-Answered e id t (e.network w.requests) _)
    ];
  }
