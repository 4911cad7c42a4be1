-- ===== src/Contents/Added.antt =====
-- `AddContent`: what a success that it reports says of the index.
use readium_lcp_server.Prelude.{
  ℕ, String, Bool, true, ◌≡◌, refl, sym, ap, ◌∙◌, subst, Option, none, some, List, str_eq, eq_iff,
  ◌==◌, ◌||◌, Option-cases, inl, inr, arith,
}
use readium_lcp_server.Index.{Content, new_content, select_content, insert_content, update_contents}
use readium_lcp_server.Server.{Env, Tables, World, Reply, code}
use readium_lcp_server.Server.Exec.{DbResult, done, not_found, failed, serve, or_500}
use readium_lcp_server.Server.Triple.{
  Triple, Triple-pure, Triple-reply, Triple-bind, Triple-if, Triple-db_call, Triple-or_500,
  Triple-now, ask_bind, serve_lem,
}
use readium_lcp_server.Server.Views.{with_fact}
use readium_lcp_server.Stores.Contents.{add_index, run_add_content, update_index, store_file}
use readium_lcp_server.Stores.Licenses.{touch_by_content_id}
use readium_lcp_server.LicenseServer.Contents.{
  Packaged, describe, keep_file, index_content, add_decoded, add_content, opened_or_400,
  stored_or_400, storage_none,
}
use readium_lcp_server.Contents.{content_for, Indexed}
use readium_lcp_server.Contents.Rows.{
  select_content-id, select_content-insert, select_content-update, Got, get_content-Got,
}

-- The rows after an insertion and after an update
inserted-Indexed :
    (id : String) (p : Packaged) (old t : Tables)
    → select_content id t.contents ≡ none
    → t.contents ≡ old.contents
    → Indexed id p old (record t { contents = insert_content (content_for id p) t.contents })
inserted-Indexed id p old t absent same j = ground (
  arith,
  select_content-insert j (content_for id p) t.contents absent,
  ap (λ rows. select_content j rows) same,
)

described-content_for :
    (id : String) (p : Packaged) (c : Content) → c.id ≡ id → describe p c ≡ content_for id p
unfolding describe
described-content_for id p c h = ap (λ i. record (describe p new_content) { id = i }) h

updated-Indexed :
    (id : String) (p : Packaged) (old t : Tables) (c : Content)
    → select_content id t.contents ≡ some c
    → t.contents ≡ old.contents
    → Indexed id p old (record t { contents = update_contents (describe p c) t.contents })
updated-Indexed id p old t c found same =
    let key : c.id ≡ id = select_content-id id t.contents c found in
    let new = described-content_for id p c key in
    subst (λ q. Indexed id p old (record t { contents = update_contents q t.contents })) (sym new)
      (λ j. ground (
        arith,
        eq_iff id j,
        found,
        key,
        select_content-update j (content_for id p) t.contents,
        ap (λ rows. select_content j rows) same,
      ))

-- A response of AddContent that reports a success
abbrev pub is_written : Reply → Bool
is_written r = code r == 200 || code r == 201

abbrev Ends : String → Packaged → Tables → Reply → Tables → Type 0
Ends id p old r t = is_written r ≡ true → Indexed id p old t

abbrev Written : String → Packaged → Tables → DbResult (Unit {0}) → Tables → Type 0
Written id p old r t = r ≡ done tt → Indexed id p old t

run_add-Written :
    (id : String) (p : Packaged) (old t : Tables)
    → t.contents ≡ old.contents
    → Written id p old
        (run_add_content (content_for id p) (select_content id t.contents) t).0
        (run_add_content (content_for id p) (select_content id t.contents) t).1
run_add-Written id p old t same = elim (Option-cases (select_content id t.contents)) [
  | inl absent ↦ rw absent (λ _. inserted-Indexed id p old t absent same)
  | inr (c, taken) ↦ rw taken (λ h. cc)
]

module _ {e : Env} (id : String) (p : Packaged) (old : Tables) where
  -- The end of a statement, and what it is for
  saved :
      (r : DbResult (Unit {0}))
      → Triple e (Ends id p old) (Written id p old r) (or_500 r) (λ _ t. Indexed id p old t)
  saved r = Triple-or_500 r (λ t q h. cc) (λ u is_done t q. q is_done)

  kept_file :
      Triple e
        (Ends id p old)
        (λ t. t.contents ≡ old.contents)
        (keep_file id p)
        (λ _ t. t.contents ≡ old.contents)
  unfolding keep_file store_file
  kept_file =
      Triple-if (p.storage_mode == storage_none)
        (λ none_yet.
          ask_bind _
            (Triple-bind (opened (e.open_file p.output)) λ bytes. Triple-bind (stored bytes) kept))
        (λ done_before. Triple-pure tt (λ t same. same))
    where
      opened :
          (o : Option (List ℕ))
          → Triple e
              (Ends id p old)
              (λ t. t.contents ≡ old.contents)
              (opened_or_400 o)
              (λ _ t. t.contents ≡ old.contents)
      opened none = Triple-reply _ (λ t same h. cc)
      opened (some bytes) = Triple-pure bytes (λ t same. same)

      stored :
          (bytes : List ℕ)
          → Triple e
              (Ends id p old)
              (λ t. t.contents ≡ old.contents)
              (store_file id bytes)
              (λ _ t. t.contents ≡ old.contents)
      stored bytes = Triple-db_call _ (λ t same. same) (λ t same. same)

      kept :
          (r : DbResult (Unit {0}))
          → Triple e
              (Ends id p old)
              (λ t. t.contents ≡ old.contents)
              (stored_or_400 r)
              (λ _ t. t.contents ≡ old.contents)
      kept (done u) = Triple-pure u (λ t same. same)
      kept not_found = Triple-reply _ (λ t same h. cc)
      kept failed = Triple-reply _ (λ t same h. cc)

  touched :
      Triple e
        (Ends id p old)
        (λ t. Indexed id p old t)
        (touch_by_content_id id)
        (λ r t. Written id p old r t)
  unfolding touch_by_content_id
  touched = Triple-bind Triple-now (λ n. Triple-db_call _ (λ t q _. q) (λ t q _. q))

  indexed :
      (o : Option Content)
      → Got old.contents id o
      → Triple e
          (Ends id p old)
          (λ t. t.contents ≡ old.contents)
          (index_content id p o)
          (Ends id p old)
  unfolding index_content add_index update_index
  indexed none got =
      Triple-bind (Triple-db_call _ (λ t same h. cc) (run_add-Written id p old))
        λ r. Triple-bind (saved r) λ _. Triple-pure _ (λ t q _. q)
  indexed (some c) got =
      Triple-bind
        (Triple-db_call _ (λ t same h. cc)
          (λ t same h.
            updated-Indexed id p old t c (ap (λ rows. select_content id rows) same ∙ got c refl)
              same))
        λ r.
          Triple-bind (saved r)
            λ _. Triple-bind touched λ r'. Triple-bind (saved r') λ _. Triple-pure _ (λ t q _. q)

  add_decoded-Ends :
      Triple e (Ends id p old) (λ t. t.contents ≡ old.contents) (add_decoded id p) (Ends id p old)
  unfolding add_decoded
  add_decoded-Ends = Triple-bind kept_file λ _.
      Triple-bind (get_content-Got (λ t same. same) id) λ found. with_fact λ got. indexed found got

  add_content-Ends :
      Triple e
        (Ends id p old)
        (λ t. t.contents ≡ old.contents)
        (add_content id true p)
        (Ends id p old)
  unfolding add_content
  add_content-Ends =
      Triple-if (str_eq id "") (λ h. Triple-reply _ (λ t same h. cc)) (λ h. add_decoded-Ends)

pub content_added :
    (e : Env) (id : String) (p : Packaged) (w : World)
    → is_written (serve (add_content id true p) e w).0 ≡ true
    → Indexed id p w.tables (serve (add_content id true p) e w).1.tables
content_added e id p w = serve_lem w (add_content-Ends id p w.tables) refl
