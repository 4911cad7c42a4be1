-- ===== src/Contents/Rows.antt =====
-- The statements of SQL on the table `content`, and what Get brings.
use mathlib.Core.Option
use readium_lcp_server.Prelude.{
  String, ◌≡◌, refl, Option, none, some, List, [], ◌∷◌, str_eq, eq_iff, if◌then◌else◌, arith,
  Option-cases, inl, inr,
}
use readium_lcp_server.Server.{Env, Tables, Reply}
use readium_lcp_server.Server.Triple.{Triple, Triple-pure, Triple-bind, Triple-db_call}
use readium_lcp_server.Stores.Contents.{get_content, found_content, or_not_found}
use readium_lcp_server.Index.{
  Content, select_content, insert_content, update_contents, delete_content_rows,
}

pub select_content-id :
    (id : String) (rows : List Content) (c : Content) → select_content id rows ≡ some c → c.id ≡ id
unfolding select_content
select_content-id id [] c h = cc
select_content-id id (r ∷ rows) c h = ground (arith, eq_iff r.id id, select_content-id id rows c)

pub select_content-insert :
    (j : String) (c : Content) (rows : List Content)
    → select_content c.id rows ≡ none
    → select_content j (insert_content c rows)
      ≡ (if str_eq c.id j then some c else select_content j rows)
unfolding select_content
select_content-insert j c [] h = refl
select_content-insert j c (r ∷ rows) h =
    ground (arith, eq_iff r.id c.id, eq_iff r.id j, eq_iff c.id j, select_content-insert j c rows)

pub select_content-update :
    (j : String) (c : Content) (rows : List Content)
    → select_content j (update_contents c rows) ≡ (
        if str_eq c.id j
        then Option.map (λ (r : Content). record c { id = r.id }) (select_content j rows)
        else select_content j rows)
unfolding select_content update_contents
select_content-update j c [] = ground arith
select_content-update j c (r ∷ rows) =
    ground (arith, eq_iff r.id c.id, eq_iff r.id j, eq_iff c.id j, select_content-update j c rows)

pub select_content-delete :
    (j id : String) (rows : List Content)
    → select_content j (delete_content_rows id rows)
      ≡ (if str_eq id j then none else select_content j rows)
unfolding select_content delete_content_rows
select_content-delete j id [] = ground arith
select_content-delete j id (r ∷ rows) =
    ground (arith, eq_iff r.id id, eq_iff r.id j, eq_iff id j, select_content-delete j id rows)

-- A content that is read is in the table.
abbrev pub Got : List Content → String → Option Content → Type 0
Got rows id o = (c : Content) → o ≡ some c → select_content id rows ≡ some c

found-Got :
    (rows : List Content) (id : String)
    → Got rows id (or_not_found (found_content (select_content id rows)))
found-Got rows id = elim (Option-cases (select_content id rows)) [
  | inl absent ↦ rw absent (λ c h. cc)
  | inr (c', found) ↦ rw found (λ c h. cc)
]

module _ {e : Env} {R : Reply → Tables → Type 0} {P : Tables → Type 0} {rows : List Content}
    (same : (t : Tables) → P t → t.contents ≡ rows) where
  pub get_content-Got : (id : String) → Triple e R P (get_content id) (λ o t. P t × Got rows id o)
  unfolding get_content
  get_content-Got id =
      Triple-bind {Q = λ r t. P t × Got rows id (or_not_found r)}
        (Triple-db_call _ (λ t p. (p, λ c h. cc)) (λ t p. (p, rw (same t p) (found-Got rows id))))
        λ r. Triple-pure _ (λ t p. p)
