-- ===== src/LsdServer/Links.antt =====
-- `makeLinks` and `expandUriTemplate`: the links of a status document.
use Prim.Native.String.{◌++◌}
use text.Mathlib.Text.{find?}
use readium_lcp_server.Prelude.{
  String, str_eq, Bool, true, false, not, ◌&&◌, ◌||◌, none, some, List, [], ◌∷◌, if◌then◌else◌,
}
use readium_lcp_server.Time.{is_set}
use readium_lcp_server.Status.{Status, ready, active, expired, same}
use readium_lcp_server.LicenseStatuses.{Link, LicenseStatus}
use readium_lcp_server.Server.{Env}

abbrev pub lsd_json : String
lsd_json = "application/vnd.readium.license.status.v1.0+json"

abbrev pub lcp_json : String
lcp_json = "application/vnd.readium.lcp.license.v1.0+json"

abbrev pub text_html : String
text_html = "text/html"

-- A license is usable if it is ready or active.
abbrev pub is_usable : Status → Bool
is_usable s = same s ready || same s active

unfoldable pub expand_uri_template : Env → String → String → String → String
expand_uri_template e template variable value = elim (e.expand template variable value) [
  | none ↦ template
  | some expanded ↦ expanded
]

abbrev pub register_available : Env → LicenseStatus → Bool
register_available e ls = e.config.register && is_usable ls.status

abbrev pub return_available : Env → LicenseStatus → Bool
return_available e ls = e.config.return && is_set ls.current_end_license && is_usable ls.status

abbrev pub status_allows_renew : Env → LicenseStatus → Bool
status_allows_renew e ls =
    if e.config.renew_expired
    then is_usable ls.status || same ls.status expired
    else is_usable ls.status

abbrev pub renew_available : Env → LicenseStatus → Bool
renew_available e ls = e.config.renew && is_set ls.current_end_license && status_allows_renew e ls

abbrev contains_query : String → Bool
contains_query s = elim (find? s "?") [ none ↦ false | some i ↦ true ]

-- Renewal by a web page, by a service of the provider, or by this server.
unfoldable pub renew_link : Env → LicenseStatus → Link
renew_link e ls =
    if not (str_eq e.config.renew_page_url "")
    then record {
      rel = "renew";
      href = expand_uri_template e e.config.renew_page_url "license_id" ls.license_ref;
      type = text_html;
      templated = false;
    }
    else if not (str_eq e.config.renew_custom_url "")
    then record {
      rel = "renew";
      href =
          expand_uri_template e e.config.renew_custom_url "license_id" ls.license_ref
          ++ (if contains_query e.config.renew_custom_url
              then "{&end,id,name}"
              else "{?end,id,name}");
      type = lsd_json;
      templated = true;
    }
    else record {
      rel = "renew";
      href = e.config.lsd_base_url ++ "/licenses/" ++ ls.license_ref ++ "/renew{?end,id,name}";
      type = lsd_json;
      templated = true;
    }

unfoldable pub license_link : Env → LicenseStatus → Link
license_link e ls = record {
  rel = "license";
  href =
      if not (str_eq e.config.license_link_url "")
      then expand_uri_template e e.config.license_link_url "license_id" ls.license_ref
      else e.config.lcp_base_url ++ "/api/v1/licenses/" ++ ls.license_ref;
  type = lcp_json;
  templated = false;
}

-- A link of the server itself, to an action on the license.
abbrev pub action_link : Env → LicenseStatus → String → String → Bool → Link
action_link e ls rel path templated = record {
  rel = rel;
  href = e.config.lsd_base_url ++ "/licenses/" ++ ls.license_ref ++ path;
  type = lsd_json;
  templated = templated;
}

-- `if test { links = append(links, link) }`, before the links that follow
abbrev pub link_if : Bool → Link → List Link → List Link
link_if true l ls = l ∷ ls
link_if false l ls = ls

unfoldable pub make_links : Env → LicenseStatus → List Link
make_links e ls =
    action_link e ls "self" "/status" false
    ∷ license_link e ls
    ∷ link_if (register_available e ls) (action_link e ls "register" "/register{?id,name}" true) (
        link_if (return_available e ls) (action_link e ls "return" "/return{?id,name}" true)
          (link_if (renew_available e ls) (renew_link e ls) []))
