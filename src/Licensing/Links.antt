-- ===== src/Licensing/Links.antt =====
-- The links that `SetLicenseLinks` gives a license.
use readium_lcp_server.Prelude.{
  String, Bool, true, false, not, ◌&&◌, ◌||◌, str_eq, ◌≡◌, refl, sym, ap, ◌∙◌, Option, none, some,
  List, [], ◌∷◌, ◌++◌, map, filter, find, if◌then◌else◌, Option-cases, Bool-cases, inl, inr, arith,
}
use readium_lcp_server.License.{License, LicenseLink, new_link}
use readium_lcp_server.License.Links.{
  default_links, expand_template, has_link, set_default_links, append_default_links, is_url,
  publication_link, license_link, set_links, set_license_links,
}
use readium_lcp_server.Index.{Content}
use readium_lcp_server.Server.{Env}

abbrev pub links_of : Option (List LicenseLink) → List LicenseLink
links_of none = []
links_of (some links) = links

abbrev pub is_publication : LicenseLink → Bool
is_publication link = str_eq link.rel "publication"

abbrev pub rels : List LicenseLink → List String
rels links = map (λ (link : LicenseLink). link.rel) links

license_link-rel :
    (e : Env) (l : License) (link : LicenseLink) → (license_link e l link).rel ≡ link.rel
unfolding license_link
license_link-rel e l link = ground arith

publication_link-rel :
    (e : Env) (l : License) (c : Content) (b : Bool) (link : LicenseLink)
    → (publication_link e l c b link).rel ≡ link.rel
unfolding publication_link
publication_link-rel e l c true link = refl
publication_link-rel e l c false link = refl

abbrev pub elem : String → List String → Bool
elem s [] = false
elem s (t ∷ rest) = str_eq t s || elem s rest

-- A template, filled in with the id of the license where the library can do that
abbrev filled_in : Env → String → String → String
filled_in e template id = elim (e.expand template "license_id" id) [
  | none ↦ template
  | some expanded ↦ expanded
]

-- The fields of a link that the license has, but for the address and the title of a link to the
-- publication
abbrev pub described : Env → License → Content → LicenseLink → LicenseLink
described e l c link =
    if str_eq link.rel "publication"
    then record link { type = c.type; length = c.length; checksum = c.sha256 }
    else if str_eq link.rel "status"
    then record link {
      href = filled_in e link.href l.id;
      type = "application/vnd.readium.license.status.v1.0+json";
    }
    else if str_eq link.rel "hint"
    then record link { href = filled_in e link.href l.id; type = "text/html" }
    else link

-- A link, without the address and the title if it is to the publication
abbrev pub masked : LicenseLink → LicenseLink
masked link = if str_eq link.rel "publication" then record link { href = ""; title = "" } else link

-- The link to the publication that may be appended
abbrev pub appended : Env → License → Content → Bool → List LicenseLink
appended e l c b = if b then masked (described e l c (new_link "publication" "")) ∷ [] else []

license_link-described :
    (e : Env) (l : License) (c : Content) (link : LicenseLink)
    → str_eq link.rel "publication" ≡ false
    → license_link e l link ≡ described e l c link
unfolding license_link expand_template
license_link-described e l c link other = rw other refl

set_links-masked :
    (e : Env) (l : License) (c : Content) (b : Bool) (links : List LicenseLink)
    → map masked (set_links e l c b links)
      ≡ map (λ k. masked (described e l c k)) links
        ++ appended e l c (b && not (elem "publication" (rels links)))
unfolding set_links
set_links-masked e l c true [] = refl
set_links-masked e l c false [] = refl
set_links-masked e l c true (link ∷ rest) = elim (Bool-cases (str_eq link.rel "publication")) [
  | inl is_pub ↦ rw is_pub (cc (set_links-masked e l c false rest))
  | inr other ↦
      rw (other, license_link-described e l c link other) (cc (set_links-masked e l c true rest))
]
set_links-masked e l c false (link ∷ rest) = elim (Bool-cases (str_eq link.rel "publication")) [
  | inl is_pub ↦ rw is_pub (cc (set_links-masked e l c false rest))
  | inr other ↦
      rw (other, license_link-described e l c link other) (cc (set_links-masked e l c false rest))
]

abbrev pub href_and_title : Option LicenseLink → Option (String × String)
href_and_title none = none
href_and_title (some k) = some (k.href, k.title)

-- The first link to the publication, for a content that has a URL
set_links-first :
    (e : Env) (l : License) (c : Content) (links : List LicenseLink)
    → href_and_title (find is_publication (set_links e l c true links))
      ≡ some (c.location, l.content_id)
unfolding set_links publication_link
set_links-first e l c [] = refl
set_links-first e l c (link ∷ rest) = elim (Bool-cases (str_eq link.rel "publication")) [
  | inl is_pub ↦ rw (is_pub, is_pub) refl
  | inr other ↦ rw (other, license_link-rel e l link, other) (set_links-first e l c rest)
]

-- The custom links that stay, and the default links
merged : Env → Option (List LicenseLink) → List LicenseLink
unfolding append_default_links
merged e links = append_default_links (default_links e) links

-- The links before the content is looked at: the custom links whose rel has no default, and then a link
-- for each default
abbrev pub own_links : List (String × String) → List LicenseLink → List LicenseLink
own_links defaults links =
    filter (λ (k : LicenseLink). not (elem k.rel (map (λ d. d.0) defaults))) links
    ++ map (λ d. new_link d.0 d.1) defaults

set_default_links-map :
    (defaults : List (String × String))
    → set_default_links defaults ≡ map (λ d. new_link d.0 d.1) defaults
unfolding set_default_links
set_default_links-map [] = refl
set_default_links-map (d ∷ rest) = ap (λ ks. new_link d.0 d.1 ∷ ks) (set_default_links-map rest)

has_link-elem :
    (rel : String) (defaults : List (String × String))
    → has_link rel defaults ≡ elem rel (map (λ d. d.0) defaults)
unfolding has_link
has_link-elem rel [] = refl
has_link-elem rel (d ∷ rest) = ap (λ b. str_eq d.0 rel || b) (has_link-elem rel rest)

kept-own :
    (defaults : List (String × String)) (links : List LicenseLink)
    → filter (λ (k : LicenseLink). not (has_link k.rel defaults)) links
      ≡ filter (λ (k : LicenseLink). not (elem k.rel (map (λ d. d.0) defaults))) links
kept-own defaults [] = refl
kept-own defaults (k ∷ links) =
    ground (arith, has_link-elem k.rel defaults, kept-own defaults links)

merged-own :
    (e : Env) (links : Option (List LicenseLink))
    → merged e links ≡ own_links (default_links e) (links_of links)
unfolding merged append_default_links
merged-own e none = set_default_links-map (default_links e)
merged-own e (some links) =
    ap (λ ks. ks ++ set_default_links (default_links e)) (kept-own (default_links e) links)
    ∙ ap
        (λ ks.
          filter (λ (k : LicenseLink). not (elem k.rel (map (λ d. d.0) (default_links e)))) links
          ++ ks)
        (set_default_links-map (default_links e))

module _ (e : Env) (l l' : License) (c : Content) where
  set_license_links-inv :
      set_license_links e l c ≡ some l'
      → (b : Bool) × ((is_url e c.location ≡ some b)
          × (links_of l'.links ≡ set_links e l c b (merged e l.links)))
  unfolding set_license_links merged
  set_license_links-inv h = elim (Option-cases (is_url e c.location)) [
    | inl bad ↦ let fails : set_license_links e l c ≡ none = rw (set_license_links, bad) refl in cc
    | inr (b, good) ↦
        let links = set_links e l c b (merged e l.links) in
        let gives : set_license_links e l c ≡ some (record l { links = some links }) =
          rw (set_license_links, good) refl in
        let same : record l { links = some links } ≡ l' = cc in
        (b, (good, sym (ap (λ (k : License). links_of k.links) same)))
  ]

  -- SetLicenseLinks, when it succeeds: the links are the custom links whose rel has no default, then a
  -- link for each default, in their order, and then, where the location of the content is a URL and
  -- there is no link to the publication yet, a link to the publication. Each is as it was given in every
  -- field, with these exceptions: a link to the publication has the type, the length and the checksum
  -- of the content, and another address and title; a link to the status or to the hint has its template
  -- filled in, and its type.
  pub links_given :
      (b : Bool)
      → is_url e c.location ≡ some b
      → set_license_links e l c ≡ some l'
      → map masked (links_of l'.links)
        ≡ map (λ k. masked (described e l c k)) (own_links (default_links e) (links_of l.links))
          ++ appended e l c (
              b && not (elem "publication" (rels (own_links (default_links e) (links_of l.links)))))
  links_given b is_b h =
      let (b', (good, same)) = set_license_links-inv h in
      let eq : b' ≡ b = cc in
      ap (λ ks. map masked ks) same
      ∙ ap (λ x. map masked (set_links e l c x (merged e l.links))) eq
      ∙ ap (λ ks. map masked (set_links e l c b ks)) (merged-own e l.links)
      ∙ set_links-masked e l c b (own_links (default_links e) (links_of l.links))

  -- SetLicenseLinks, when it succeeds for a content whose location is a URL: the first link to the
  -- publication has that URL, and the id of the content as its title, whatever the configuration and
  -- the request say.
  pub publication_link_first :
      is_url e c.location ≡ some true
      → set_license_links e l c ≡ some l'
      → href_and_title (find is_publication (links_of l'.links)) ≡ some (c.location, l.content_id)
  publication_link_first is_u h =
      let (b, (good, same)) = set_license_links-inv h in
      let eq : b ≡ true = cc in
      let first = λ (links : List LicenseLink). href_and_title (find is_publication links) in
      ap first same
      ∙ ap (λ x. first (set_links e l c x (merged e l.links))) eq
      ∙ set_links-first e l c (merged e l.links)
