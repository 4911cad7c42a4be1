-- ===== src/Packing/Sorted.antt =====
-- The search of CanEncrypt in a sorted list of texts: it finds exactly the texts of the list.
use readium_lcp_server.Prelude.{
  Bool, true, false, not, ◌||◌, ◌≡◌, refl, sym, ◌∙◌, subst, List, [], ◌∷◌, Bool-cases, inl, inr,
  arith,
}
use readium_lcp_server.Packing.Texts.{
  Text, same_text, same_text_refl, same_text-eq, same_text_comm, leb_text, leb_text_antisym,
  leb_text_refl, leb_text_total, leb_text_trans,
}
use readium_lcp_server.Packing.{search_texts, can_encrypt}
use readium_lcp_server.Packing.Cleartext.{insert_text, sort_texts}

-- Is the text in the list?
abbrev pub listed : Text → List Text → Bool
listed s [] = false
listed s (t ∷ rest) = same_text s t || listed s rest

-- The head is not greater than what is behind it.
abbrev IsBelow : Text → List Text → Type 0
IsBelow s [] = Unit {0}
IsBelow s (t ∷ rest) = (leb_text s t ≡ true) × IsBelow s rest

abbrev pub IsSorted : List Text → Type 0
IsSorted [] = Unit {0}
IsSorted (s ∷ rest) = IsBelow s rest × IsSorted rest

IsBelow-trans :
    (s t : Text) (rest : List Text) → leb_text s t ≡ true → IsBelow t rest → IsBelow s rest
IsBelow-trans s t [] h below = tt
IsBelow-trans s t (u ∷ rest) h below =
    (leb_text_trans s t u h below.0, IsBelow-trans s t rest h below.1)

insert_text-IsBelow :
    (u s : Text) (rest : List Text)
    → leb_text u s ≡ true
    → IsBelow u rest
    → IsBelow u (insert_text s rest)
unfolding insert_text
insert_text-IsBelow u s [] h below = (h, tt)
insert_text-IsBelow u s (t ∷ rest) h below = elim (Bool-cases (leb_text s t)) [
  | inl first ↦ rw first (h, below)
  | inr later ↦ rw later (below.0, insert_text-IsBelow u s rest h below.1)
]

insert_text-IsSorted : (s : Text) (rest : List Text) → IsSorted rest → IsSorted (insert_text s rest)
unfolding insert_text
insert_text-IsSorted s [] sorted = (tt, tt)
insert_text-IsSorted s (t ∷ rest) sorted = elim (Bool-cases (leb_text s t)) [
  | inl first ↦ rw first ((first, IsBelow-trans s t rest first sorted.0), sorted)
  | inr later ↦ rw later (
    insert_text-IsBelow t s rest (leb_text_total s t later) sorted.0,
    insert_text-IsSorted s rest sorted.1,
  )
]

pub sort_texts-IsSorted : (names : List Text) → IsSorted (sort_texts names)
unfolding sort_texts
sort_texts-IsSorted [] = tt
sort_texts-IsSorted (s ∷ names) =
    insert_text-IsSorted s (sort_texts names) (sort_texts-IsSorted names)

listed-insert_text :
    (u s : Text) (rest : List Text)
    → listed u (insert_text s rest) ≡ (same_text u s || listed u rest)
unfolding insert_text
listed-insert_text u s [] = refl
listed-insert_text u s (t ∷ rest) = ground (arith, listed-insert_text u s rest)

pub listed-sort_texts :
    (u : Text) (names : List Text) → listed u (sort_texts names) ≡ listed u names
unfolding sort_texts
listed-sort_texts u [] = refl
listed-sort_texts u (s ∷ names) =
    ground (arith, listed-insert_text u s (sort_texts names), listed-sort_texts u names)

-- A text above the head of what it is below is not in the list.
unlisted-IsBelow :
    (file s : Text) (rest : List Text)
    → leb_text file s ≡ true
    → same_text s file ≡ false
    → IsBelow s rest
    → listed file rest ≡ false
unlisted-IsBelow file s [] h other below = refl
unlisted-IsBelow file s (t ∷ rest) h other below = elim (Bool-cases (same_text file t)) [
  | inl same ↦
      let eq : file ≡ t = same_text-eq file t same in
      let up : leb_text s file ≡ true = subst (λ x. leb_text s x ≡ true) (sym eq) below.0 in
      let both : s ≡ file = leb_text_antisym s file up h in
      let yes : same_text s file ≡ true =
        subst (λ x. same_text s x ≡ true) both (same_text_refl s) in
      cc
  | inr different ↦ rw different (unlisted-IsBelow file s rest h other below.1)
]

-- CanEncrypt, which searches the first name that is not less, on a sorted list
pub can_encrypt-sorted :
    (names : List Text) (file : Text)
    → IsSorted names
    → can_encrypt names file ≡ not (listed file names)
unfolding can_encrypt search_texts
can_encrypt-sorted [] file sorted = refl
can_encrypt-sorted (s ∷ rest) file sorted = elim (Bool-cases (leb_text file s)) [
  | inl here ↦
      rw (can_encrypt, here)
        (elim (Bool-cases (same_text s file)) [
          | inl same ↦
              let turned : same_text file s ≡ true = same_text_comm file s ∙ same in
              rw (same, turned) refl
          | inr other ↦
              let turned : same_text file s ≡ false = same_text_comm file s ∙ other in
              rw (other, turned, unlisted-IsBelow file s rest here other sorted.0) refl
        ])
  | inr later ↦ elim (Bool-cases (same_text file s)) [
    | inl same ↦
        let eq : file ≡ s = same_text-eq file s same in
        let yes : leb_text file s ≡ true =
          subst (λ x. leb_text file x ≡ true) eq (leb_text_refl file) in
        cc
    | inr other ↦ rw (can_encrypt, later, other) (can_encrypt-sorted rest file sorted.1)
  ]
]
