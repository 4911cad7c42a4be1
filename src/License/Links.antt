-- ===== src/License/Links.antt =====
-- The links of a license: `CreateDefaultLinks` and `SetLicenseLinks` of license/license.go.
use Prim.Native.String
use readium_lcp_server.Prelude.{
  String, Bool, true, false, not, ◌||◌, str_eq, Option, none, some, List, [], ◌∷◌, ◌++◌, filter,
  if◌then◌else◌,
}
use readium_lcp_server.License.{License, LicenseLink, new_link}
use readium_lcp_server.Index.{Content}
use readium_lcp_server.Server.{Env}

-- m[key] = href
unfoldable pub put_link : String → String → List (String × String) → List (String × String)
put_link key href [] = (key, href) ∷ []
put_link key href ((k, h) ∷ rest) =
    if str_eq k key then (key, href) ∷ rest else (k, h) ∷ put_link key href rest

-- Is the key in the map?
unfoldable pub has_link : String → List (String × String) → Bool
has_link key [] = false
has_link key ((k, h) ∷ rest) = str_eq k key || has_link key rest

-- CreateDefaultLinks, for a URL of the storage that net/url can parse or not
unfoldable pub create_default_links : Env → Option (List (String × String))
unfolding put_link
create_default_links e =
    if str_eq e.config.storage_url ""
    then some e.config.license_links
    else elim (e.parse_url e.config.storage_url) [
      | none ↦ none
      | some u ↦ some (
          put_link "publication" (String.◌++◌ u.with_slash "{publication_id}")
            e.config.license_links)
    ]

-- The variable DefaultLinks; the server does not start where its computation fails.
abbrev pub default_links : Env → List (String × String)
default_links e = elim (create_default_links e) [ none ↦ [] | some links ↦ links ]

-- setDefaultLinks; the order in which Go runs through the map is that of the list
unfoldable pub set_default_links : List (String × String) → List LicenseLink
set_default_links [] = []
set_default_links ((key, href) ∷ rest) = new_link key href ∷ set_default_links rest

-- appendDefaultLinks
unfoldable pub append_default_links :
    List (String × String) → Option (List LicenseLink) → List LicenseLink
unfolding set_default_links has_link
append_default_links defaults none = set_default_links defaults
append_default_links defaults (some links) =
    filter (λ (link : LicenseLink). not (has_link link.rel defaults)) links
    ++ set_default_links defaults

-- expandUriTemplate
unfoldable pub expand_template : Env → String → String → String → String
expand_template e template variable value = elim (e.expand template variable value) [
  | none ↦ template
  | some expanded ↦ expanded
]

-- isURL; `none` where the text cannot be parsed
unfoldable pub is_url : Env → String → Option Bool
is_url e s = elim (e.parse_url s) [
  | none ↦ none
  | some u ↦ some (str_eq u.scheme "http" || str_eq u.scheme "https")
]

abbrev pub lsd_json : String
lsd_json = "application/vnd.readium.license.status.v1.0+json"

abbrev pub text_html : String
text_html = "text/html"

-- The publication link, as the content has it, or as the template has it
unfoldable pub publication_link : Env → License → Content → Bool → LicenseLink → LicenseLink
unfolding expand_template
publication_link e l c true link = record link {
  href = c.location;
  title = l.content_id;
  type = c.type;
  length = c.length;
  checksum = c.sha256;
}
publication_link e l c false link = record link {
  href = expand_template e link.href "publication_id" l.content_id;
  title = c.location;
  type = c.type;
  length = c.length;
  checksum = c.sha256;
}

-- The links of status and hint, which name the license
unfoldable pub license_link : Env → License → LicenseLink → LicenseLink
unfolding expand_template
license_link e l link =
    if str_eq link.rel "status"
    then record link { href = expand_template e link.href "license_id" l.id; type = lsd_json }
    else if str_eq link.rel "hint"
    then record link { href = expand_template e link.href "license_id" l.id; type = text_html }
    else link

-- The loop over the links, and the link that is appended behind it. The flag says that the content
-- has a URL which no link has yet.
unfoldable pub set_links : Env → License → Content → Bool → List LicenseLink → List LicenseLink
unfolding publication_link license_link
set_links e l c false [] = []
set_links e l c true [] = publication_link e l c true (new_link "publication" "") ∷ []
set_links e l c has_pub_link (link ∷ rest) =
    let is_publication = str_eq link.rel "publication" in
    (if is_publication then publication_link e l c has_pub_link link else license_link e l link)
    ∷ set_links e l c (if is_publication then false else has_pub_link) rest

-- SetLicenseLinks; `none` where the location of the content cannot be parsed
unfoldable pub set_license_links : Env → License → Content → Option License
unfolding append_default_links is_url set_links
set_license_links e l c = elim (is_url e c.location) [
  | none ↦ none
  | some has_pub_link ↦
      let links = append_default_links (default_links e) l.links in
      some (record l { links = some (set_links e l c has_pub_link links) })
]
