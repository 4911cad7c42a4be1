-- ===== src/Index.antt =====
-- index/index.go: the content of publications, and the table `content` of the License Server.
use readium_lcp_server.Prelude.{
  ℕ, ℤ, String, str_eq, Option, List, [], ◌∷◌, ◌++◌, if◌then◌else◌, find,
}

pub record Content : Type 0 where
  pub id : String
  pub encryption_key : List ℕ
  pub location : String
  pub length : ℤ
  pub sha256 : String
  pub type : String

-- The zero value of a content
abbrev pub new_content : Content
new_content = record {
  id = "";
  encryption_key = [];
  location = "";
  length = ℤ.pos 0;
  sha256 = "";
  type = "";
}

-- SELECT … WHERE id = ?
unfoldable pub select_content : String → List Content → Option Content
select_content id rows = find (λ c. str_eq c.id id) rows

-- INSERT
abbrev pub insert_content : Content → List Content → List Content
insert_content c rows = rows ++ c ∷ []

-- UPDATE content SET … WHERE id = ?
unfoldable pub update_contents : Content → List Content → List Content
update_contents c [] = []
update_contents c (r ∷ rows) =
    (if str_eq r.id c.id then record c { id = r.id } else r) ∷ update_contents c rows

-- DELETE FROM content WHERE id = ?
unfoldable pub delete_content_rows : String → List Content → List Content
delete_content_rows id [] = []
delete_content_rows id (r ∷ rows) =
    let rest = delete_content_rows id rows in if str_eq r.id id then rest else r ∷ rest
