-- ===== src/Listing/Order.antt =====
-- ORDER BY id DESC: the rows of a table, each as often as it was, in the order of falling ids.
use readium_lcp_server.Prelude.{
  ℕ, suc, ◌≤◌, Bool, ◌≡◌, refl, List, [], ◌∷◌, length, count, take, drop, zero, ltb, Bool-cases,
  inl, inr, arith,
}
use readium_lcp_server.LicenseStatuses.{StatusRow}
use readium_lcp_server.LicenseStatuses.Queries.{insert_desc, sort_desc}

count-insert_desc :
    (p : StatusRow → Bool) (r : StatusRow) (rows : List StatusRow)
    → count p (insert_desc r rows) ≡ count p (r ∷ rows)
unfolding insert_desc
count-insert_desc p r [] = refl
count-insert_desc p r (q ∷ rows) = ground (arith, count-insert_desc p r rows)

pub count-sort_desc :
    (p : StatusRow → Bool) (rows : List StatusRow) → count p (sort_desc rows) ≡ count p rows
unfolding sort_desc
count-sort_desc p [] = refl
count-sort_desc p (r ∷ rows) =
    ground (arith, count-sort_desc p rows, count-insert_desc p r (sort_desc rows))

length-insert_desc :
    (r : StatusRow) (rows : List StatusRow) → length (insert_desc r rows) ≡ suc (length rows)
unfolding insert_desc
length-insert_desc r [] = refl
length-insert_desc r (q ∷ rows) = ground (arith, length-insert_desc r rows)

pub length-sort_desc : (rows : List StatusRow) → length (sort_desc rows) ≡ length rows
unfolding sort_desc
length-sort_desc [] = refl
length-sort_desc (r ∷ rows) =
    omega (arith, length-sort_desc rows, length-insert_desc r (sort_desc rows))

-- The rows are in the order of falling ids.
abbrev pub IsAbove : StatusRow → List StatusRow → Type 0
IsAbove r [] = Unit {0}
IsAbove r (q ∷ rows) = (q.id ≤ r.id) × IsAbove r rows

abbrev pub IsDescending : List StatusRow → Type 0
IsDescending [] = Unit {0}
IsDescending (r ∷ rows) = IsAbove r rows × IsDescending rows

IsAbove-trans :
    (r q : StatusRow) (rows : List StatusRow) → q.id ≤ r.id → IsAbove q rows → IsAbove r rows
IsAbove-trans r q [] h above = tt
IsAbove-trans r q (s ∷ rows) h above = (omega (arith, h, above.0), IsAbove-trans r q rows h above.1)

insert_desc-IsAbove :
    (r q : StatusRow) (rows : List StatusRow)
    → q.id ≤ r.id
    → IsAbove r rows
    → IsAbove r (insert_desc q rows)
unfolding insert_desc
insert_desc-IsAbove r q [] h above = (h, tt)
insert_desc-IsAbove r q (s ∷ rows) h above = elim (Bool-cases (ltb s.id q.id)) [
  | inl first ↦ rw first (h, above)
  | inr later ↦ rw later (above.0, insert_desc-IsAbove r q rows h above.1)
]

insert_desc-IsDescending :
    (r : StatusRow) (rows : List StatusRow) → IsDescending rows → IsDescending (insert_desc r rows)
unfolding insert_desc
insert_desc-IsDescending r [] sorted = (tt, tt)
insert_desc-IsDescending r (q ∷ rows) sorted = elim (Bool-cases (ltb q.id r.id)) [
  | inl first ↦
      let below : q.id ≤ r.id = ground arith in
      rw first ((below, IsAbove-trans r q rows below sorted.0), sorted)
  | inr later ↦
      let below : r.id ≤ q.id = ground arith in
      rw later
        (insert_desc-IsAbove q r rows below sorted.0, insert_desc-IsDescending r rows sorted.1)
]

pub sort_desc-IsDescending : (rows : List StatusRow) → IsDescending (sort_desc rows)
unfolding sort_desc
sort_desc-IsDescending [] = tt
sort_desc-IsDescending (r ∷ rows) =
    insert_desc-IsDescending r (sort_desc rows) (sort_desc-IsDescending rows)

-- A part of the list, from the front or behind it
take-IsAbove :
    (n : ℕ) (r : StatusRow) (rows : List StatusRow) → IsAbove r rows → IsAbove r (take n rows)
take-IsAbove zero r rows above = tt
take-IsAbove (suc n) r [] above = tt
take-IsAbove (suc n) r (q ∷ rows) above = (above.0, take-IsAbove n r rows above.1)

pub take-IsDescending :
    (n : ℕ) (rows : List StatusRow) → IsDescending rows → IsDescending (take n rows)
take-IsDescending zero rows sorted = tt
take-IsDescending (suc n) [] sorted = tt
take-IsDescending (suc n) (r ∷ rows) sorted =
    (take-IsAbove n r rows sorted.0, take-IsDescending n rows sorted.1)

pub drop-IsDescending :
    (n : ℕ) (rows : List StatusRow) → IsDescending rows → IsDescending (drop n rows)
drop-IsDescending zero rows sorted = sorted
drop-IsDescending (suc n) [] sorted = tt
drop-IsDescending (suc n) (r ∷ rows) sorted = drop-IsDescending n rows sorted.1
