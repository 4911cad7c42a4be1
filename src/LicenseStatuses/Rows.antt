-- ===== src/LicenseStatuses/Rows.antt =====
-- What the statements of SQL do to the table `license_status`, row by row.
use mathlib.Core.Option
use readium_lcp_server.Prelude.{
  ℕ, ◌≤◌, String, str_eq, false, ◌==◌, ◌≡◌, refl, none, some, List, [], ◌∷◌, find-append_some,
  find-append_none, ==_false, if◌then◌else◌, arith, Option-cases, inl, inr,
}
use readium_lcp_server.LicenseStatuses.{
  StatusRow, Columns, write_row, select_ref, select_id, update_rows, insert_row, next_status_id,
}

-- A row as UPDATE leaves it.
abbrev pub rewritten : Columns → ℕ → StatusRow → StatusRow
rewritten c id r = if r.id == id then write_row c r else r

-- UPDATE keeps the place and the key of every row.
pub select_id-update_rows :
    (c : Columns) (i j : ℕ) (rows : List StatusRow)
    → select_id j (update_rows c i rows) ≡ Option.map (rewritten c i) (select_id j rows)
unfolding select_id update_rows
select_id-update_rows c i j [] = refl
select_id-update_rows c i j (r ∷ rows) = ground (arith, select_id-update_rows c i j rows)

pub select_ref-update_rows :
    (c : Columns) (i : ℕ) (ref : String) (rows : List StatusRow)
    → select_ref ref (update_rows c i rows) ≡ Option.map (rewritten c i) (select_ref ref rows)
unfolding select_ref update_rows
select_ref-update_rows c i ref [] = refl
select_ref-update_rows c i ref (r ∷ rows) = ground (arith, select_ref-update_rows c i ref rows)

pub select_id_key :
    (i : ℕ) (rows : List StatusRow) (r : StatusRow) → select_id i rows ≡ some r → r.id ≡ i
unfolding select_id
select_id_key i [] r h = cc
select_id_key i (r' ∷ rows) r h = ground (arith, select_id_key i rows r)

-- The row that INSERT adds.
abbrev pub new_row : Columns → String → List StatusRow → StatusRow
new_row c ref rows = record {
  id = next_status_id rows;
  status = c.status;
  license_updated = c.license_updated;
  status_updated = c.status_updated;
  device_count = c.device_count;
  potential_rights_end = c.potential_rights_end;
  license_ref = ref;
  rights_end = c.rights_end;
}

-- The key of the new row is new.
select_id-next : (i : ℕ) (rows : List StatusRow) → next_status_id rows ≤ i → select_id i rows ≡ none
unfolding select_id
select_id-next i [] h = refl
select_id-next i (r ∷ rows) h =
    let rest = select_id-next i rows (omega arith) in
    let ne : (r.id == i) ≡ false = ==_false r.id i (λ q. omega arith) in ground arith

-- INSERT leaves the rows that are there where they are.
pub select_id-insert_row :
    (c : Columns) (ref : String) (i : ℕ) (rows : List StatusRow) (r : StatusRow)
    → select_id i rows ≡ some r
    → select_id i (insert_row c ref rows) ≡ some r
unfolding insert_row select_id
select_id-insert_row c ref i rows r h =
    find-append_some (λ (q : StatusRow). q.id == i) rows (new_row c ref rows ∷ []) r h

pub select_id-insert_row_new :
    (c : Columns) (ref : String) (rows : List StatusRow)
    → select_id (next_status_id rows) (insert_row c ref rows) ≡ some (new_row c ref rows)
unfolding insert_row select_id
select_id-insert_row_new c ref rows =
    rw
      (find-append_none (λ (q : StatusRow). q.id == next_status_id rows) rows
        (new_row c ref rows ∷ [])
        (unfold select_id in select_id-next (next_status_id rows) rows (omega arith)))
      (ground arith)

pub select_ref-insert_row :
    (c : Columns) (ref ref' : String) (rows : List StatusRow) (r : StatusRow)
    → select_ref ref' rows ≡ some r
    → select_ref ref' (insert_row c ref rows) ≡ some r
unfolding insert_row select_ref
select_ref-insert_row c ref ref' rows r h =
    find-append_some (λ (q : StatusRow). str_eq q.license_ref ref') rows (new_row c ref rows ∷ []) r
      h

pub select_ref-insert_row_absent :
    (c : Columns) (ref ref' : String) (rows : List StatusRow)
    → select_ref ref' rows ≡ none
    → select_ref ref' (insert_row c ref rows)
      ≡ (if str_eq ref ref' then some (new_row c ref rows) else none)
unfolding insert_row select_ref
select_ref-insert_row_absent c ref ref' rows h =
    find-append_none (λ (q : StatusRow). str_eq q.license_ref ref') rows (new_row c ref rows ∷ []) h

-- A look-up by the license's id finds the row that its key finds.
pub record IsKeyed (rows : List StatusRow) : Type 0 where
  pub at :
      (ref : String) (r : StatusRow) → select_ref ref rows ≡ some r → select_id r.id rows ≡ some r

pub IsKeyed-empty : IsKeyed []
unfolding select_ref
IsKeyed-empty = record { at = λ ref r h. cc }

pub IsKeyed-update_rows :
    (c : Columns) (i : ℕ) (rows : List StatusRow) → IsKeyed rows → IsKeyed (update_rows c i rows)
IsKeyed-update_rows c i rows k = record {
  at = λ ref r h. elim (Option-cases (select_ref ref rows)) [
    | inl absent ↦ ground (arith, select_ref-update_rows c i ref rows)
    | inr (r', found) ↦ ground (
      arith,
      select_ref-update_rows c i ref rows,
      select_id-update_rows c i r.id rows,
      k.at ref r',
    )
  ];
}

pub IsKeyed-insert_row :
    (c : Columns) (ref : String) (rows : List StatusRow)
    → IsKeyed rows
    → IsKeyed (insert_row c ref rows)
IsKeyed-insert_row c ref rows k = record {
  at = λ ref' r h. elim (Option-cases (select_ref ref' rows)) [
    | inl absent ↦ ground (
      arith,
      select_ref-insert_row_absent c ref ref' rows absent,
      select_id-insert_row_new c ref rows,
    )
    | inr (r', found) ↦ ground (
      arith,
      select_ref-insert_row c ref ref' rows r' found,
      k.at ref' r',
      select_id-insert_row c ref r.id rows r,
    )
  ];
}
