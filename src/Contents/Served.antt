-- ===== src/Contents/Served.antt =====
-- `GetContentInfo` after `AddContent` and after `DeleteContent`.
use readium_lcp_server.Prelude.{
  String, true, false, ◌≡◌, refl, ap, ◌∙◌, Option, none, some, str_eq, eq_iff, Option-cases, inl,
  inr, if◌then◌else◌, arith,
}
use readium_lcp_server.Index.{Content, select_content}
use readium_lcp_server.Server.{
  Env, Tables, World, Reply, content_info, status_only, problem_error, untyped,
}
use readium_lcp_server.Server.Exec.{done, serve, db_call, pure, reply, ◌>>=◌}
use readium_lcp_server.Server.Triple.{
  Triple, Triple-pure, Triple-bind, Triple-db_call, Triple-or_500, serve_lem,
}
use readium_lcp_server.Stores.Contents.{get_content, delete_index}
use readium_lcp_server.LicenseServer.Contents.{
  Packaged, add_content, get_content_info, delete_content,
}
use readium_lcp_server.Contents.{content_for}
use readium_lcp_server.Contents.Rows.{select_content-delete}
use readium_lcp_server.Contents.Added.{is_written, content_added}

-- What GetContentInfo answers when the database does not fail
abbrev pub info_of : Option Content → Reply
info_of none = problem_error untyped 404
info_of (some c) = content_info c

info_served :
    (e : Env) (id : String) (w : World)
    → e.db_fails w.db_calls ≡ false
    → (serve (get_content_info id) e w).0 ≡ info_of (select_content id w.tables.contents)
unfolding get_content_info get_content db_call ◌>>=◌ pure reply
info_served e id w up = elim (Option-cases (select_content id w.tables.contents)) [
  | inl absent ↦ rw (up, absent) refl
  | inr (c, found) ↦ rw (up, found) refl
]

-- A content that AddContent has put in the index, with success, is what the next GetContentInfo
-- answers with. The database must not fail at the call of GetContentInfo.
pub added_content_served :
    (e : Env) (id : String) (p : Packaged) (w : World)
    → is_written (serve (add_content id true p) e w).0 ≡ true
    → e.db_fails (serve (add_content id true p) e w).1.db_calls ≡ false
    → (serve (get_content_info id) e (serve (add_content id true p) e w).1).0
      ≡ content_info (content_for id p)
added_content_served e id p w written up =
    info_served e id (serve (add_content id true p) e w).1 up
    ∙ ap info_of (content_added e id p w written id ∙ same)
  where
    same :
        (if str_eq id id then some (content_for id p) else select_content id w.tables.contents)
        ≡ some (content_for id p)
    same = ground (arith, eq_iff id id)

Deleted : String → Tables → Reply → Tables → Type 0
Deleted id old r t =
    r ≡ status_only 200
    → (j : String)
    → select_content j t.contents ≡ (if str_eq id j then none else select_content j old.contents)

deleted :
    {e : Env} (id : String) (old : Tables)
    → Triple e (Deleted id old) (λ t. t ≡ old) (delete_content id) (Deleted id old)
unfolding delete_content delete_index Deleted
deleted id old =
    Triple-bind
      {Q = λ r t.
        r ≡ done tt
        → (j : String)
        → select_content j t.contents
          ≡ (if str_eq id j then none else select_content j old.contents)}
      (Triple-db_call _ (λ t same h. cc)
        (λ t same h j.
          select_content-delete j id t.contents
          ∙ ap (λ (u : Tables). if str_eq id j then none else select_content j u.contents) same))
      λ r.
        Triple-bind (Triple-or_500 r (λ t q h. cc) (λ u is_done t q. q is_done))
          λ _. Triple-pure _ (λ t q h. q)

-- DeleteContent answered with 200: the next GetContentInfo answers with 404 for that id, and for any
-- other id with what it would have answered before. The database must not fail at that call.
pub deleted_content_gone :
    (e : Env) (id j : String) (w : World)
    → (serve (delete_content id) e w).0 ≡ status_only 200
    → e.db_fails (serve (delete_content id) e w).1.db_calls ≡ false
    → (serve (get_content_info j) e (serve (delete_content id) e w).1).0
      ≡ info_of (if str_eq id j then none else select_content j w.tables.contents)
unfolding Deleted
deleted_content_gone e id j w ok up =
    info_served e j (serve (delete_content id) e w).1 up ∙ ap info_of (gone ok)
  where
    gone :
        (serve (delete_content id) e w).0 ≡ status_only 200
        → select_content j (serve (delete_content id) e w).1.tables.contents
          ≡ (if str_eq id j then none else select_content j w.tables.contents)
    gone h = serve_lem w (deleted id w.tables) refl h j
