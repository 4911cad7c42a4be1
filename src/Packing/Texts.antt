-- ===== src/Packing/Texts.antt =====
-- Texts as lists of code points: equality, order, prefixes, splitting. UTF-8 keeps their order.
use readium_lcp_server.Prelude.{
  ℕ, ◌==◌, ltb, Bool, true, false, ◌&&◌, ◌||◌, ◌≡◌, inl, inr, refl, sym, ap, ◌∙◌, List, [], ◌∷◌,
  ◌++◌, String, codes, if◌then◌else◌, Bool-cases, ==→eq, ==_true, arith,
}

abbrev pub Text : Type 0
Text = List ℕ

abbrev pub text : String → Text
text s = codes s

unfoldable pub same_text : Text → Text → Bool
same_text [] [] = true
same_text [] (d ∷ t) = false
same_text (c ∷ s) [] = false
same_text (c ∷ s) (d ∷ t) = c == d && same_text s t

-- s ≤ t
unfoldable pub leb_text : Text → Text → Bool
leb_text [] t = true
leb_text (c ∷ s) [] = false
leb_text (c ∷ s) (d ∷ t) = ltb c d || (c == d && leb_text s t)

-- strings.HasPrefix
unfoldable pub starts_with : Text → Text → Bool
starts_with [] t = true
starts_with (c ∷ s) [] = false
starts_with (c ∷ s) (d ∷ t) = c == d && starts_with s t

-- strings.Split, at a character
abbrev pub push_char : ℕ → List Text → List Text
push_char c [] = (c ∷ []) ∷ []
push_char c (s ∷ parts) = (c ∷ s) ∷ parts

unfoldable pub split : ℕ → Text → List Text
split separator [] = [] ∷ []
split separator (c ∷ s) =
    let parts = split separator s in if c == separator then [] ∷ parts else push_char c parts

-- strings.Join
unfoldable pub join : ℕ → List Text → Text
join separator [] = []
join separator (s ∷ []) = s
join separator (s ∷ t ∷ parts) = s ++ separator ∷ join separator (t ∷ parts)

module _ where
  pub same_text_refl : (s : Text) → same_text s s ≡ true
  unfolding same_text
  same_text_refl [] = refl
  same_text_refl (c ∷ s) = rw (==_true c c refl) (same_text_refl s)

  pub same_text-eq : (s t : Text) → same_text s t ≡ true → s ≡ t
  unfolding same_text
  same_text-eq [] [] h = refl
  same_text-eq [] (d ∷ t) h = cc
  same_text-eq (c ∷ s) [] h = cc
  same_text-eq (c ∷ s) (d ∷ t) h = elim (Bool-cases (c == d)) [
    | inl same ↦
        let head : c ≡ d = ==→eq c d same in
        let rest : same_text s t ≡ true = sym (ap (λ b. b && same_text s t) same) ∙ h in
        ap (λ x. x ∷ s) head ∙ ap (λ r. d ∷ r) (same_text-eq s t rest)
    | inr other ↦ let f : (c == d && same_text s t) ≡ false = rw other refl in cc
  ]

  pub same_text_comm : (s t : Text) → same_text s t ≡ same_text t s
  unfolding same_text
  same_text_comm [] [] = refl
  same_text_comm [] (d ∷ t) = refl
  same_text_comm (c ∷ s) [] = refl
  same_text_comm (c ∷ s) (d ∷ t) = ground (arith, same_text_comm s t)

  pub leb_text_antisym : (s t : Text) → leb_text s t ≡ true → leb_text t s ≡ true → s ≡ t
  unfolding leb_text
  leb_text_antisym [] [] h h' = refl
  leb_text_antisym [] (d ∷ t) h h' = cc
  leb_text_antisym (c ∷ s) [] h h' = cc
  leb_text_antisym (c ∷ s) (d ∷ t) h h' =
      let head : c ≡ d = ground arith in
      let first : leb_text s t ≡ true = ground arith in
      let second : leb_text t s ≡ true = ground arith in
      ap (λ x. x ∷ s) head ∙ ap (λ r. d ∷ r) (leb_text_antisym s t first second)

  pub leb_text_refl : (s : Text) → leb_text s s ≡ true
  unfolding leb_text
  leb_text_refl [] = refl
  leb_text_refl (c ∷ s) = ground (arith, leb_text_refl s)

  pub leb_text_total : (s t : Text) → leb_text s t ≡ false → leb_text t s ≡ true
  unfolding leb_text
  leb_text_total [] t h = cc
  leb_text_total (c ∷ s) [] h = refl
  leb_text_total (c ∷ s) (d ∷ t) h = ground (arith, leb_text_total s t)

  pub leb_text_trans :
      (s t u : Text) → leb_text s t ≡ true → leb_text t u ≡ true → leb_text s u ≡ true
  unfolding leb_text
  leb_text_trans [] t u h h' = refl
  leb_text_trans (c ∷ s) [] u h h' = cc
  leb_text_trans (c ∷ s) (d ∷ t) [] h h' = cc
  leb_text_trans (c ∷ s) (d ∷ t) (x ∷ u) h h' = ground (arith, leb_text_trans s t u)
