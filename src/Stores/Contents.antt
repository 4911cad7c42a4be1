-- ===== src/Stores/Contents.antt =====
-- The methods of the index, index/index.go, and of the storage. Get takes every error for a content
-- that is not found.
use readium_lcp_server.Prelude.{ℕ, String, str_eq, Option, none, some, List, [], ◌∷◌, if◌then◌else◌}
use readium_lcp_server.License.{LicenseRow, select_license}
use readium_lcp_server.Index.{
  Content, select_content, insert_content, update_contents, delete_content_rows,
}
use readium_lcp_server.Server.{Tables}
use readium_lcp_server.Server.Exec.{Exec, DbResult, done, not_found, failed, db_call, pure, ◌>>=◌}

abbrev pub found_content : Option Content → DbResult Content
found_content none = not_found
found_content (some c) = done c

abbrev pub or_not_found : DbResult Content → Option Content
or_not_found (done c) = some c
or_not_found not_found = none
or_not_found failed = none

-- Index.Get
unfoldable pub get_content : String → Exec (Option Content)
get_content id = do
  result ← db_call λ t. (found_content (select_content id t.contents), t)
  pure (or_not_found result)

-- The content of a license, by a join of the two tables
abbrev pub content_of : Option LicenseRow → List Content → Option Content
content_of none rows = none
content_of (some r) rows = select_content r.content_fk rows

-- Index.GetFromLicense
unfoldable pub get_from_license : String → Exec (Option Content)
get_from_license id = do
  result ← db_call λ t. (found_content (content_of (select_license id t.licenses) t.contents), t)
  pure (or_not_found result)

-- The id is the primary key.
abbrev pub run_add_content : Content → Option Content → Tables → DbResult (Unit {0}) × Tables
run_add_content c (some old) t = (failed, t)
run_add_content c none t = (done tt, record t { contents = insert_content c t.contents })

-- Index.Add
unfoldable pub add_index : Content → Exec (DbResult (Unit {0}))
add_index c = db_call λ t. run_add_content c (select_content c.id t.contents) t

-- Index.Update
unfoldable pub update_index : Content → Exec (DbResult (Unit {0}))
update_index c = db_call λ t. (done tt, record t { contents = update_contents c t.contents })

-- Index.Delete
unfoldable pub delete_index : String → Exec (DbResult (Unit {0}))
delete_index id = db_call λ t. (done tt, record t { contents = delete_content_rows id t.contents })

-- Index.List, read to the end
unfoldable pub list_index : Exec (DbResult (List Content))
list_index = db_call λ t. (done t.contents, t)

-- A file of the storage
unfoldable pub select_file : String → List (String × List ℕ) → Option (List ℕ)
select_file key [] = none
select_file key ((k, bytes) ∷ files) = if str_eq k key then some bytes else select_file key files

unfoldable pub put_file : String → List ℕ → List (String × List ℕ) → List (String × List ℕ)
put_file key bytes [] = (key, bytes) ∷ []
put_file key bytes ((k, old) ∷ files) =
    if str_eq k key then (key, bytes) ∷ files else (k, old) ∷ put_file key bytes files

abbrev pub found_file : Option (List ℕ) → DbResult (List ℕ)
found_file none = not_found
found_file (some bytes) = done bytes

-- Store.Add of the storage
unfoldable pub store_file : String → List ℕ → Exec (DbResult (Unit {0}))
unfolding put_file
store_file key bytes = db_call λ t. (done tt, record t { files = put_file key bytes t.files })

-- Store.Get of the storage
unfoldable pub get_file : String → Exec (DbResult (List ℕ))
unfolding select_file
get_file key = db_call λ t. (found_file (select_file key t.files), t)
