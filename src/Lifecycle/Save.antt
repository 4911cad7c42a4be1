-- ===== src/Lifecycle/Save.antt =====
-- Writing a license status that was read before moves one row along the diagram.
use mathlib.Core.Path.{subst₂, ◌∙◌}
use readium_lcp_server.Prelude.{
  ℕ, String, ◌==◌, ==→eq, ◌≡◌, refl, sym, ap, true, some, List, arith, Bool-cases, inl, inr,
}
use readium_lcp_server.Status.{Status, other}
use readium_lcp_server.Status.Codec.{get_status}
use readium_lcp_server.Status.Codec.Bits.{get-set_status}
use readium_lcp_server.LicenseStatuses.{
  StatusRow, LicenseStatus, Columns, select_id, update_rows, insert_row, write_row,
}
use readium_lcp_server.LicenseStatuses.Rows.{
  select_id-update_rows, select_id_key, IsKeyed-update_rows, IsKeyed-insert_row,
  select_id-insert_row,
}
use readium_lcp_server.Stores.{columns}
use readium_lcp_server.Lifecycle.{◌⟶◌, written, row_status, Evolution, Held, IsNamed}

-- What Update writes of a named status is read back as that status.
pub columns_status :
    (ls : LicenseStatus) (c : Columns)
    → IsNamed ls.status
    → columns ls ≡ some c
    → get_status c.status (other "") ≡ ls.status
columns_status ls c named h =
    let (n, set, get) = get-set_status ls.status (other "") in ground arith

-- The row with the held key is the held one.
Held-is :
    (rows : List StatusRow) (ls : LicenseStatus)
    → Held ls rows
    → (i : ℕ) (r : StatusRow) → select_id i rows ≡ some r
    → (r.id == ls.id) ≡ true
    → row_status r ≡ ls.status
Held-is rows ls (q, there, reads) i r found mine =
    let key : r.id ≡ i = select_id_key i rows r found in
    let id : r.id ≡ ls.id = ==→eq r.id ls.id mine in
    let same : some r ≡ some q = sym found ∙ ap (λ j. select_id j rows) (sym key ∙ id) ∙ there in cc

moved_edge :
    (ls : LicenseStatus) (c : Columns) (s : Status) (r : StatusRow)
    → row_status r ≡ ls.status
    → ls.status ⟶ s
    → get_status c.status (other "") ≡ s
    → row_status r ⟶ row_status (write_row c r)
moved_edge ls c s r reads edge e = subst₂ ◌⟶◌ (sym reads) (sym e) edge

-- The row that was read goes one edge further; the other rows stay.
pub Evolution-update_rows :
    (old rows : List StatusRow) (ls : LicenseStatus) (c : Columns) (s : Status)
    → Evolution old rows
    → Held ls rows
    → ls.status ⟶ s
    → get_status c.status (other "") ≡ s
    → Evolution old (update_rows c ls.id rows)
Evolution-update_rows old rows ls c s ev held edge e = record {
  keyed = IsKeyed-update_rows c ls.id rows ev.keyed;
  rows = λ i r h.
      let (r', found, path) = ev.rows i r h in
      elim (Bool-cases (r'.id == ls.id)) [
        | inl mine ↦ (
          write_row c r',
          ground (arith, select_id-update_rows c ls.id i rows),
          written path (moved_edge ls c s r' (Held-is rows ls held i r' found mine) edge e) refl
              refl,
        )
        | inr other_row ↦ (r', ground (arith, select_id-update_rows c ls.id i rows), path)
      ];
}

pub Evolution-insert_row :
    (old rows : List StatusRow) (ref : String) (c : Columns)
    → Evolution old rows
    → Evolution old (insert_row c ref rows)
Evolution-insert_row old rows ref c ev = record {
  keyed = IsKeyed-insert_row c ref rows ev.keyed;
  rows = λ i r h.
      let (r', found, path) = ev.rows i r h in
      (r', select_id-insert_row c ref i rows r' found, path);
}
