-- ===== src/Scenarios/Serving.antt =====
-- The theorems on links, on contents, on the notification and on all steps of the License Server, applied to sample data.
use readium_lcp_server.Prelude.{
  map, ◌≡◌, ◌≤◌, refl, true, not, ◌&&◌, Option, none, some, [], ◌∷◌, ◌++◌, find, pos, wrap64, ◌+ℤ◌,
  ◌*ℤ◌, arith,
}
use readium_lcp_server.Time.{second}
use readium_lcp_server.Index.{select_content}
use readium_lcp_server.License.{License, new_link, new_license, select_license}
use readium_lcp_server.License.Links.{
  set_license_links, is_url, default_links, create_default_links,
}
use readium_lcp_server.License.Fields.{encrypt_fields, field_by_name}
use readium_lcp_server.Server.{content_info, status_only}
use readium_lcp_server.Server.Exec.{serve, pure, reply, ask, now, db_call, ◌>>=◌, or_500}
use readium_lcp_server.LicenseServer.Contents.{
  Packaged, add_content, add_decoded, keep_file, index_content, delete_content, get_content_info,
}
use readium_lcp_server.LicenseServer.Licenses.{decoded}
use readium_lcp_server.LicenseServer.Routes.{
  handle_lcp, LcpStep, LcpSteps, no_step, step, generate_for, delete,
}
use readium_lcp_server.Stores.Contents.{get_content, add_index, delete_index}
use readium_lcp_server.Licensing.Links.{
  links_of, own_links, masked, described, rels, elem, appended, href_and_title, is_publication,
  links_given, publication_link_first,
}
use readium_lcp_server.Licensing.Unknown.{names_behind_unknown}
use readium_lcp_server.Contents.{content_for}
use readium_lcp_server.Contents.Served.{info_of, added_content_served, deleted_content_gone}
use readium_lcp_server.Issuance.Unique.{licenses_with, contents_with, ids_unique}
use readium_lcp_server.Issuance.Kept.{issued_at, license_kept}
use readium_lcp_server.Issuance.Notified.{lsd_status_of, notified_created}
use readium_lcp_server.LicenseServer.Notify.{sent, put_license, notify_lsd_server}
use readium_lcp_server.LicenseStatuses.{StatusRow, select_ref}
use readium_lcp_server.License.Queries.{update_lsd_statuses}
use readium_lcp_server.Stores.{add_status}
use readium_lcp_server.Stores.Licenses.{update_lsd_status}
use readium_lcp_server.LsdServer.Common.{deliver}
use readium_lcp_server.LsdServer.Document.{
  create_license_status_document, make_license_status, potential_rights,
}
use readium_lcp_server.Status.{status_values}
use readium_lcp_server.Status.Codec.{set_status, parse_int, parse_from}
use readium_lcp_server.Time.{days_duration, add}
use readium_lcp_server.Creation.{IsNew}
use readium_lcp_server.Scenarios.{sample_env, loan, no_statuses}
use readium_lcp_server.Scenarios.Lending.{
  lending_env, lending_world, sample_content, partial_license,
}

-- A license with a link of its own and a link that the configuration has too
abbrev linked : License
linked = record new_license {
  id = "L1";
  content_id = "C1";
  links = some (new_link "support" "https://help" ∷ new_link "status" "https://other" ∷ []);
}

abbrev license_of : Option License → License
license_of none = new_license
license_of (some l) = l

linked_out : License
linked_out = license_of (set_license_links lending_env linked sample_content)

linked_succeeds : set_license_links lending_env linked sample_content ≡ some linked_out
unfolding linked_out set_license_links is_url create_default_links
linked_succeeds = refl

is_sample_url : is_url lending_env sample_content.location ≡ some true
unfolding is_url
is_sample_url = refl

links_given_example :
    map masked (links_of linked_out.links)
    ≡ map
        (λ k. masked (described lending_env linked sample_content k))
        (own_links (default_links lending_env) (links_of linked.links))
      ++ appended lending_env linked sample_content (
          true
          && not (
              elem "publication"
                (rels (own_links (default_links lending_env) (links_of linked.links)))))
links_given_example =
    links_given lending_env linked linked_out sample_content true is_sample_url linked_succeeds

publication_link_first_example :
    href_and_title (find is_publication (links_of linked_out.links))
    ≡ some ("https://files/C1", "C1")
publication_link_first_example =
    publication_link_first lending_env linked linked_out sample_content is_sample_url
      linked_succeeds

no_such_field : field_by_name (lending_env.title "Phone") ≡ none
unfolding field_by_name
no_such_field = refl

names_behind_unknown_example :
    encrypt_fields
      (1 ∷ [])
      0
      ("Phone" ∷ "Email" ∷ [])
      partial_license.user
      lending_env
      lending_world
    ≡ encrypt_fields (1 ∷ []) 0 ("Phone" ∷ []) partial_license.user lending_env lending_world
names_behind_unknown_example =
    names_behind_unknown lending_env (1 ∷ []) "Phone" ("Email" ∷ []) no_such_field 0 []
      partial_license.user lending_world

-- A publication that was packaged and put in the storage
abbrev packaged : Packaged
packaged = record {
  content_key = 5 ∷ 6 ∷ [];
  storage_mode = 1;
  output = "https://files/C2";
  file_name = "book.epub";
  size = pos 20;
  checksum = "def";
  content_type = "application/epub+zip";
}

add_succeeds :
    (serve (add_content "C2" true packaged) lending_env lending_world).0 ≡ status_only 201
unfolding add_content add_decoded keep_file get_content select_content index_content add_index
    or_500 pure db_call ◌>>=◌
add_succeeds = refl

added_content_served_example :
    (serve
      (get_content_info "C2")
      lending_env
      (serve (add_content "C2" true packaged) lending_env lending_world).1).0
    ≡ content_info (content_for "C2" packaged)
added_content_served_example =
    added_content_served lending_env "C2" packaged lending_world (rw add_succeeds refl) refl

delete_succeeds : (serve (delete_content "C1") lending_env lending_world).0 ≡ status_only 200
unfolding delete_content delete_index or_500 pure db_call ◌>>=◌
delete_succeeds = refl

deleted_content_gone_example :
    (serve
      (get_content_info "C1")
      lending_env
      (serve (delete_content "C1") lending_env lending_world).1).0
    ≡ info_of none
deleted_content_gone_example =
    deleted_content_gone lending_env "C1" "C1" lending_world delete_succeeds refl

-- A license is generated, and its content is deleted.
two_steps :
    LcpSteps lending_env lending_world
      (serve
        (handle_lcp (delete "admin" "C1"))
        lending_env
        (serve
          (handle_lcp (generate_for "admin" "C1" (decoded partial_license)))
          lending_env
          lending_world).1).1
two_steps =
    step (LcpStep.answered (generate_for "admin" "C1" (decoded partial_license)) lending_world)
      (step (LcpStep.answered (delete "admin" "C1") _) (no_step _))

ids_unique_example :
    (licenses_with "L1"
        (serve
          (handle_lcp (delete "admin" "C1"))
          lending_env
          (serve
            (handle_lcp (generate_for "admin" "C1" (decoded partial_license)))
            lending_env
            lending_world).1).1.tables.licenses
      ≤ 1)
    × (contents_with "L1"
          (serve
            (handle_lcp (delete "admin" "C1"))
            lending_env
            (serve
              (handle_lcp (generate_for "admin" "C1" (decoded partial_license)))
              lending_env
              lending_world).1).1.tables.contents
        ≤ 1)
ids_unique_example = ids_unique lending_env "L1" two_steps (omega arith) (omega arith)

license_kept_example :
    issued_at (
      select_license "L1"
        (serve
          (handle_lcp (delete "admin" "C1"))
          lending_env
          (serve
            (handle_lcp (generate_for "admin" "C1" (decoded partial_license)))
            lending_env
            lending_world).1).1.tables.licenses)
    ≡ some (pos second)
unfolding select_license
license_kept_example = license_kept lending_env "L1" (pos second) two_steps refl

-- A license without a row at the License Status Server, and the notification of it
no_row : select_ref "L1" no_statuses.tables.statuses ≡ none
unfolding select_ref
no_row = refl

not_noted : lsd_status_of (select_license "L1" no_statuses.tables.licenses) ≡ some (pos 0)
unfolding select_license
not_noted = refl

noted_created :
    lsd_status_of
      (select_license "L1" (notify_lsd_server loan sample_env no_statuses).1.tables.licenses)
    ≡ some (pos 201)
unfolding select_license notify_lsd_server put_license deliver update_lsd_status update_lsd_statuses
    create_license_status_document add_status make_license_status potential_rights days_duration add
    wrap64 ◌+ℤ◌ ◌*ℤ◌ set_status parse_int parse_from status_values pure reply db_call ◌>>=◌ or_500
    ask now
noted_created = refl

notified_created_example :
    (s : StatusRow) × (select_ref "L1"
        (notify_lsd_server loan sample_env no_statuses).1.tables.statuses
      ≡ some s)
    × IsNew sample_env.config (sent loan) s
notified_created_example =
    notified_created sample_env loan no_statuses no_row not_noted noted_created
