-- ===== src/Packing/Stored.antt =====
-- A task without an error has put its package in the storage, and its key in the index.
use readium_lcp_server.Prelude.{String, str_eq, false, ◌≡◌, none, some, if◌then◌else◌}
use readium_lcp_server.Index.{select_content}
use readium_lcp_server.Server.{Tables}
use readium_lcp_server.Server.Triple.{Triple}
use readium_lcp_server.Stores.Contents.{select_file}
use readium_lcp_server.Packing.{Tools, Package}
use readium_lcp_server.Packing.Pipeline.{Archives, Task, TaskResult, gen_key, content_from, packed}

-- The package of a task: in the storage and in the index under its id, which was not in the index; the
-- other contents are as before.
abbrev pub IsStored : Archives → String → String → Package → Tables → Tables → Type 0
IsStored a id name p old t =
    (select_file id t.files ≡ some (a.zip p))
    × (select_content id old.contents ≡ none)
    × ((j : String)
        → select_content j t.contents ≡ (
            if str_eq id j then some (content_from a id name p) else select_content j old.contents))

module _ (a : Archives) (id name : String) (p : Package) (old : Tables) where
  Ends : TaskResult → Tables → Type 0
  Ends r t = r.is_error ≡ false → (r.id ≡ id) × IsStored a id name p old t

  -- The file is there, and the index as before.
  HasFile : Tables → Type 0
  HasFile t = (select_file id t.files ≡ some (a.zip p)) × (t.contents ≡ old.contents)

-- What holds of a task that ends without an error
abbrev Done : Tools → Archives → Task → Tables → TaskResult → Tables → Type 0
Done t a task old r u =
    r.is_error ≡ false
    → (r.id ≡ gen_key task.new_id)
      × ((p : Package) × (packed t task.epub ≡ some p)
          × IsStored a (gen_key task.new_id) task.name p old u)
