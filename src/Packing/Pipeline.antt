-- ===== src/Packing/Pipeline.antt =====
-- pack/pipeline.go: the work on a task, which packs an EPUB and adds it to the storage and to the index.
use readium_lcp_server.Prelude.{
  ℕ, pos, String, Bool, true, false, Option, none, some, List, [], length,
}
use readium_lcp_server.Index.{Content}
use readium_lcp_server.Server.Exec.{Exec, DbResult, done, not_found, failed, pure, ◌>>=◌}
use readium_lcp_server.Stores.Contents.{store_file, add_index}
use readium_lcp_server.Packing.{Tools, Epub, Package, do_pack}

-- What the libraries do with an archive and with a digest
pub record Archives : Type 0 where
  pub zip : Package → List ℕ
  pub sha256 : List ℕ → String

-- A task: the name of the file, the EPUB in it, where it can be read, and the id that the library of
-- UUIDs gives, if it gives one
pub record Task : Type 0 where
  pub name : String
  pub epub : Option Epub
  pub new_id : Option String

-- Result; the error is told from none
pub record TaskResult : Type 0 where
  pub is_error : Bool
  pub id : String

-- genKey: an error of the library leaves the id empty.
abbrev pub gen_key : Option String → String
gen_key none = ""
gen_key (some id) = id

abbrev pub is_failure : DbResult (Unit {0}) → Bool
is_failure (done u) = false
is_failure not_found = true
is_failure failed = true

abbrev pub epub_type : String
epub_type = "application/epub+zip"

-- The content of a package
unfoldable pub content_from : Archives → String → String → Package → Content
content_from a id name p = record {
  id = id;
  encryption_key = p.key;
  location = name;
  length = pos (length (a.zip p));
  sha256 = a.sha256 (a.zip p);
  type = epub_type;
}

-- addToIndex, unless there was an error
unfoldable pub add_to_index :
    Archives → String → String → Package → DbResult (Unit {0}) → Exec TaskResult
unfolding content_from
add_to_index a id name p (done u) = do
  added ← add_index (content_from a id name p)
  pure (record { is_error = is_failure added; id = id })
add_to_index a id name p not_found = pure (record { is_error = true; id = id })
add_to_index a id name p failed = pure (record { is_error = true; id = id })

-- The package, once it is made
unfoldable pub add_package : Archives → String → String → Package → Exec TaskResult
unfolding add_to_index
add_package a id name p = do stored ← store_file id (a.zip p); add_to_index a id name p stored

abbrev pub packed : Tools → Option Epub → Option Package
packed t none = none
packed t (some ep) = do_pack t [] ep

-- work, on one task
unfoldable pub work : Tools → Archives → Task → Exec TaskResult
unfolding add_package
work t a task = elim (packed t task.epub) [
  | none ↦ pure (record { is_error = true; id = gen_key task.new_id })
  | some p ↦ add_package a (gen_key task.new_id) task.name p
]
