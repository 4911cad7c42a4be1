-- ===== src/Contents.antt =====
-- The content of publications: the index of the License Server.
pub mod Rows
pub mod Added
pub mod Served
use readium_lcp_server.Prelude.{String, ◌≡◌, some, str_eq, if◌then◌else◌}
use readium_lcp_server.Index.{Content, new_content, select_content}
use readium_lcp_server.LicenseServer.Contents.{Packaged, describe}
use readium_lcp_server.Server.{Tables}

-- The content that AddContent writes
abbrev pub content_for : String → Packaged → Content
content_for id p = record (describe p new_content) { id = id }

-- The index has the content under its id, and the others as before.
abbrev pub Indexed : String → Packaged → Tables → Tables → Type 0
Indexed id p old t =
    (j : String)
    → select_content j t.contents
      ≡ (if str_eq id j then some (content_for id p) else select_content j old.contents)
