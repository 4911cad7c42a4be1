-- ===== src/Licensing/Built.antt =====
-- `buildLicense` keeps what identifies a license, hides the passphrase, and encrypts the content key
-- with it; it changes no table.
use readium_lcp_server.Prelude.{
  ℕ, String, Bool, true, false, not, ◌&&◌, ◌≡◌, refl, sym, ap, ◌∙◌, subst, Option, none, some, List,
  str_eq, inl, inr, Bool-cases, if◌then◌else◌,
}
use readium_lcp_server.Time.{Time}
use readium_lcp_server.Crypto.Cbc.{decrypt, writes}
use readium_lcp_server.License.{License, UserRights}
use readium_lcp_server.License.Profile.{set_license_profile, license_profile_url}
use readium_lcp_server.License.Links.{set_license_links, is_url}
use readium_lcp_server.License.Build.{
  Built, built, no_content, build_error, build_license, sign_license, fix_update, or_error,
  or_no_content, with_algorithm,
}
use readium_lcp_server.Index.{Content, select_content}
use readium_lcp_server.Server.{Env, Tables, Reply, panic}
use readium_lcp_server.Server.Exec.{Exec}
use readium_lcp_server.Server.Triple.{Triple, Triple-pure, Triple-bind, ask_bind}
use readium_lcp_server.Server.Views.{with_fact}
use readium_lcp_server.Contents.Rows.{get_content-Got}
use readium_lcp_server.Licensing.{IsBuilt}
use readium_lcp_server.Licensing.Fields.{IsEncrypted, encrypt_license_fields-IsEncrypted}

-- What the other steps keep
record Kept : Type 0 where
  id : String
  provider : String
  issued : Time
  rights : Option UserRights
  content_id : String
  value : Option (List ℕ)
  hex_value : String
  check : List ℕ
  content_key : List ℕ

abbrev kept : License → Kept
kept l = record {
  id = l.id;
  provider = l.provider;
  issued = l.issued;
  rights = l.rights;
  content_id = l.content_id;
  value = l.encryption.user_key.value;
  hex_value = l.encryption.user_key.hex_value;
  check = l.encryption.user_key.check;
  content_key = l.encryption.content_key.value;
}

abbrev Same : License → License → Type 0
Same lic l = kept l ≡ kept lic

abbrev SameIf : License → Option License → Type 0
SameIf lic none = Unit {0}
SameIf lic (some l) = Same lic l

if_some : (lic l : License) (o : Option License) → SameIf lic o → o ≡ some l → Same lic l
if_some lic l none s h = cc
if_some lic l (some l') s h = let same : l' ≡ l = cc in subst (λ q. Same lic q) same s

-- A step by cases on an optional value
option-SameIf :
    {A : Type 0} (lic : License) (o : Option A) (f : A → Option License)
    → ((a : A) → SameIf lic (f a))
    → SameIf lic (elim o [ none ↦ none | some a ↦ f a ])
option-SameIf lic none f h = tt
option-SameIf lic (some a) f h = h a

profile-SameIf : (profile : String) (lic : License) → SameIf lic (set_license_profile profile lic)
unfolding set_license_profile
profile-SameIf profile lic = option-SameIf lic (license_profile_url profile) _ (λ url. refl)

links-SameIf :
    (e : Env) (lic : License) (c : Content)
    → SameIf lic (set_license_links e (with_algorithm lic) c)
unfolding set_license_links
links-SameIf e lic c = option-SameIf lic (is_url e c.location) _ (λ has. refl)

dated-Same :
    (lic : License) (date : Time) (b : Bool)
    → Same lic (if b then record lic { updated = some date } else lic)
dated-Same lic date true = refl
dated-Same lic date false = refl

fix_update-SameIf :
    (e : Env) (updatefix : Bool) (lic : License) → SameIf lic (fix_update e updatefix lic)
unfolding fix_update
fix_update-SameIf e updatefix lic =
    elim (Bool-cases (updatefix && not (str_eq e.config.cert_date ""))) [
      | inl on ↦
          rw on
            (option-SameIf lic (e.parse_date e.config.cert_date) _ (λ date. dated-Same lic date _))
      | inr off ↦ rw off (refl)
    ]

sign-SameIf : (e : Env) (lic : License) → SameIf lic (sign_license e lic)
unfolding sign_license
sign-SameIf e lic = option-SameIf lic (e.sign lic) _ (λ signature. refl)

chain-IsBuilt :
    (e : Env) (lic : License) (c : Content) (l2 l3 l5 : License)
    → Same lic l2
    → IsEncrypted e l2 c l3
    → Same l3 l5
    → IsBuilt e lic c l5
chain-IsBuilt e lic c l2 l3 l5 s f t = record {
  id = ap (λ (k : Kept). k.id) t ∙ f.id ∙ ap (λ (k : Kept). k.id) s;
  provider = ap (λ (k : Kept). k.provider) t ∙ f.provider ∙ ap (λ (k : Kept). k.provider) s;
  issued = ap (λ (k : Kept). k.issued) t ∙ f.issued ∙ ap (λ (k : Kept). k.issued) s;
  rights = ap (λ (k : Kept). k.rights) t ∙ f.rights ∙ ap (λ (k : Kept). k.rights) s;
  content_id = ap (λ (k : Kept). k.content_id) t ∙ f.content_id ∙ ap (λ (k : Kept). k.content_id) s;
  no_value = ap (λ (k : Kept). k.value) t ∙ f.no_value;
  no_hex_value = ap (λ (k : Kept). k.hex_value) t ∙ f.no_hex_value;
  opens = λ sound key is_key size.
      let given : l2.encryption.user_key.value ≡ some key = ap (λ (k : Kept). k.value) s ∙ is_key in
      let same_id : l5.id ≡ l2.id = ap (λ (k : Kept). k.id) t ∙ f.id in
      record {
        content_key =
            ap (λ (k : Kept). decrypt e.new_cipher key k.content_key) t
            ∙ f.content_key key given sound size;
        key_check =
            ap (λ (k : Kept). decrypt e.new_cipher key k.check) t
            ∙ f.key_check key given sound size
            ∙ ap (λ id. writes (e.utf8 id)) (sym same_id);
      };
}

-- What buildLicense comes to
abbrev pub BuiltFrom : Env → List Content → License → Built → Type 0
BuiltFrom e contents lic (built l) =
    (c : Content) × (select_content lic.content_id contents ≡ some c) × IsBuilt e lic c l
BuiltFrom e contents lic no_content = Unit {0}
BuiltFrom e contents lic build_error = Unit {0}

module _ {e : Env} {R : Reply → Tables → Type 0} {P : Tables → Type 0} where
  Triple-or_error :
      {A : Type 0} (o : Option A) {f : A → Exec Built} {Q : Built → Tables → Type 0}
      → ((t : Tables) → P t → Q build_error t)
      → ((a : A) → o ≡ some a → Triple e R P (f a) Q)
      → Triple e R P (or_error o f) Q
  Triple-or_error none hn hs = Triple-pure _ hn
  Triple-or_error (some a) hn hs = hs a refl

  Triple-or_no_content :
      {A : Type 0} (o : Option A) {f : A → Exec Built} {Q : Built → Tables → Type 0}
      → ((t : Tables) → P t → Q no_content t)
      → ((a : A) → o ≡ some a → Triple e R P (f a) Q)
      → Triple e R P (or_no_content o f) Q
  Triple-or_no_content none hn hs = Triple-pure _ hn
  Triple-or_no_content (some a) hn hs = hs a refl

module _ {e : Env} {R : Reply → Tables → Type 0} (old : Tables)
    (on_panic : (t : Tables) → t ≡ old → R panic t) where
  pub build_license-BuiltFrom :
      (updatefix : Bool) (lic : License)
      → Triple e R
          (λ t. t ≡ old)
          (build_license updatefix lic)
          (λ b t. (t ≡ old) × BuiltFrom e old.contents lic b)
  unfolding build_license
  build_license-BuiltFrom updatefix lic = ask_bind _ (
      Triple-or_error (set_license_profile e.config.profile lic) (λ t p. (p, tt))
        λ lic1 is1.
          Triple-bind (get_content-Got (λ t p. ap (λ (u : Tables). u.contents) p) lic1.content_id)
            λ content. with_fact λ got.
              Triple-or_no_content content (λ t p. (p, tt))
                λ c is_c.
                  Triple-or_error (set_license_links e (with_algorithm lic1) c) (λ t p. (p, tt))
                    λ lic2 is2.
                      Triple-bind (encrypt_license_fields-IsEncrypted on_panic lic2 c) λ fields.
                        with_fact λ is3.
                          Triple-or_error fields (λ t p. (p, tt))
                            λ lic3 is_lic3.
                              Triple-or_error (fix_update e updatefix lic3) (λ t p. (p, tt))
                                λ lic4 is4.
                                  Triple-or_error (sign_license e lic4) (λ t p. (p, tt))
                                    λ lic5 is5. Triple-pure _ (λ t p. (
                                      p,
                                      (
                                        c,
                                        ap (λ (k : Kept). select_content k.content_id old.contents)
                                              (sym (same1 lic1 is1))
                                            ∙ got c is_c,
                                        chain-IsBuilt e lic c lic2 lic3 lic5
                                            (if_some lic1 lic2 _ (links-SameIf e lic1 c) is2
                                              ∙ same1 lic1 is1)
                                            (is3 lic3 is_lic3)
                                            (if_some lic4 lic5 _ (sign-SameIf e lic4) is5
                                              ∙ if_some lic3 lic4 _
                                                  (fix_update-SameIf e updatefix lic3) is4),
                                      ),
                                    )))
    where
      same1 :
          (lic1 : License) → set_license_profile e.config.profile lic ≡ some lic1 → Same lic lic1
      same1 lic1 is1 = if_some lic lic1 _ (profile-SameIf e.config.profile lic) is1
