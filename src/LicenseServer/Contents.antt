-- ===== src/LicenseServer/Contents.antt =====
-- The handlers of lcpserver/api/store.go: the content of publications, in the index and the storage.
use readium_lcp_server.Prelude.{
  ℕ, ℤ, String, str_eq, Bool, ◌==◌, Option, none, some, List, [], map, if◌then◌else◌,
}
use readium_lcp_server.Index.{Content, new_content}
use readium_lcp_server.License.Links.{is_url}
use readium_lcp_server.Server.{
  Reply, status_only, problem_error, untyped, content_info, content_list, content_file,
}
use readium_lcp_server.Server.Exec.{
  Exec, DbResult, done, not_found, failed, ok, pure, reply, or_500, ask, serve, ◌>>=◌, ◌>>◌,
}
use readium_lcp_server.Stores.Licenses.{touch_by_content_id}
use readium_lcp_server.Stores.Contents.{
  get_content, get_from_license, add_index, update_index, delete_index, list_index, store_file,
  get_file,
}

-- Encrypted, what the encryption tool tells of a publication
pub record Packaged : Type 0 where
  pub content_key : List ℕ
  pub storage_mode : ℕ
  pub output : String
  pub file_name : String
  pub size : ℤ
  pub checksum : String
  pub content_type : String

-- Storage_none
abbrev pub storage_none : ℕ
storage_none = 0

-- getAndOpenFile
abbrev pub opened_or_400 : Option (List ℕ) → Exec (List ℕ)
opened_or_400 none = reply (problem_error untyped 400)
opened_or_400 (some bytes) = pure bytes

abbrev pub stored_or_400 : DbResult (Unit {0}) → Exec (Unit {0})
stored_or_400 (done u) = pure u
stored_or_400 not_found = reply (problem_error untyped 400)
stored_or_400 failed = reply (problem_error untyped 400)

-- The file is put in the storage, unless the encryption tool has stored it.
unfoldable pub keep_file : String → Packaged → Exec (Unit {0})
keep_file content_id p =
    if p.storage_mode == storage_none
    then (do
      e ← ask
      bytes ← opened_or_400 (e.open_file p.output)
      saved ← store_file content_id bytes
      stored_or_400 saved)
    else pure tt

-- What is written of a publication in its content
unfoldable pub describe : Packaged → Content → Content
describe p c = record c {
  encryption_key = p.content_key;
  location = if p.storage_mode == storage_none then p.file_name else p.output;
  length = p.size;
  sha256 = p.checksum;
  type = p.content_type;
}

-- The row is added, or it is updated and the licenses of the content are touched.
unfoldable pub index_content : String → Packaged → Option Content → Exec Reply
unfolding describe
index_content content_id p none = do
  result ← add_index (record (describe p new_content) { id = content_id })
  or_500 result
  pure (status_only 201)
index_content content_id p (some c) = do
  result ← update_index (describe p c)
  or_500 result
  touched ← touch_by_content_id content_id
  or_500 touched
  pure (status_only 200)

-- AddContent, once the body is decoded
unfoldable pub add_decoded : String → Packaged → Exec Reply
add_decoded content_id p = do
  keep_file content_id p
  found ← get_content content_id
  index_content content_id p found

-- The status code 400 that was sent before stays, whatever comes behind it.
abbrev pub sent_400 : Exec Reply → Exec Reply
sent_400 m e w = let (r, w') = serve m e w in (ok (status_only 400), w')

-- AddContent: a body that cannot be decoded does not end the request, which goes on with what was
-- decoded.
unfoldable pub add_content : String → Bool → Packaged → Exec Reply
add_content content_id is_decoded p =
    let rest =
      if str_eq content_id ""
      then reply (problem_error untyped 400)
      else add_decoded content_id p in
    if is_decoded then rest else sent_400 rest

abbrev pub without_key : Content → Content
without_key c = record c { encryption_key = [] }

abbrev pub contents_read : DbResult (List Content) → List Content
contents_read (done cs) = cs
contents_read not_found = []
contents_read failed = []

-- ListContents
unfoldable pub list_contents : Exec Reply
list_contents = do result ← list_index; pure (content_list (map without_key (contents_read result)))

abbrev pub content_or_404 : Option Content → Exec Content
content_or_404 none = reply (problem_error untyped 404)
content_or_404 (some c) = pure c

-- GetContentInfo
unfoldable pub get_content_info : String → Exec Reply
get_content_info content_id = do
  found ← get_content content_id
  c ← content_or_404 found
  pure (content_info c)

-- GetContentInfoFromLicense
unfoldable pub get_content_info_from_license : String → Exec Reply
get_content_info_from_license license_id = do
  found ← get_from_license license_id
  c ← content_or_404 found
  pure (content_info c)

abbrev pub file_or_error : DbResult (List ℕ) → Exec (List ℕ)
file_or_error (done bytes) = pure bytes
file_or_error not_found = reply (problem_error untyped 404)
file_or_error failed = reply (problem_error untyped 500)

abbrev pub parsed_or_500 : Option Bool → Exec Bool
parsed_or_500 none = reply (problem_error untyped 500)
parsed_or_500 (some b) = pure b

-- GetContentFile: the name of the file is the location, or the id where the location is a URL.
unfoldable pub get_content_file : String → Exec Reply
get_content_file content_id = do
  found ← get_content content_id
  c ← content_or_404 found
  result ← get_file content_id
  bytes ← file_or_error result
  e ← ask
  has_pub_link ← parsed_or_500 (is_url e c.location)
  pure (content_file (if has_pub_link then c.id else c.location) c.type c.length bytes)

-- DeleteContent
unfoldable pub delete_content : String → Exec Reply
delete_content content_id = do
  result ← delete_index content_id
  or_500 result
  pure (status_only 200)
