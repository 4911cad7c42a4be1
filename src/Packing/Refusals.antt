-- ===== src/Packing/Refusals.antt =====
-- CanEncrypt of an EPUB that Read has read: which files it refuses.
use readium_lcp_server.Prelude.{
  Option, none, some, Bool, false, not, ◌&&◌, ◌||◌, ◌≡◌, refl, ap, ◌∙◌, List, [], ◌∷◌, ◌++◌,
  if◌then◌else◌, arith,
}
use readium_lcp_server.Packing.Texts.{Text, text, same_text, starts_with}
use readium_lcp_server.Packing.{can_encrypt}
use readium_lcp_server.Packing.Cleartext.{
  Meta, Item, PackageDocument, contains, cover_id, is_cleartext, cleartext_items,
  add_cleartext_resources, add_root_files, add_meta_inf, sort_texts, cleartext_resources,
}
use readium_lcp_server.Packing.Sorted.{
  listed, sort_texts-IsSorted, listed-sort_texts, can_encrypt-sorted,
}

abbrev pub any {ℓ} : {A : Type ℓ} → (A → Bool) → List A → Bool
any p [] = false
any p (x ∷ xs) = p x || any p xs

-- The id that the last element for a cover gives
abbrev last_cover : List Meta → Option Text
last_cover [] = none
last_cover (m ∷ metas) = elim (last_cover metas) [
  | none ↦ if same_text m.name (text "cover") then some m.content else none
  | some id ↦ some id
]

abbrev cover_or : Option Text → Text → Text
cover_or none id = id
cover_or (some id') id = id'

-- The items that a reader needs in clear: the cover, by its property or by its id; the navigation
-- document; the NCX and the page map
abbrev pub stays_clear : PackageDocument → Item → Bool
stays_clear p item =
    any (λ property. contains property item.properties) (text "cover-image" ∷ text "nav" ∷ [])
    || same_text item.id (cover_or (last_cover p.metas) (text "cover-image"))
    || any (λ t. same_text item.media_type t)
        (text "application/x-dtbncx+xml" ∷ text "application/oebps-page-map+xml" ∷ [])

-- The file is a package document, or an item of one that stays in clear.
abbrev pub in_package : (Text → Text → Text) → Text → Text × PackageDocument → Bool
in_package path_join file (full_path, p) =
    same_text file full_path
    || any (λ item. stays_clear p item && same_text file (path_join p.base_path item.href)) p.items

-- The file is the given one, no directory, and its name starts with META-INF.
abbrev pub in_meta_inf : Text → Text × Bool → Bool
in_meta_inf file (name, is_dir) =
    not is_dir && same_text file name && starts_with (text "META-INF") name

abbrev pub in_clear :
    (Text → Text → Text) → List (Text × PackageDocument) → List (Text × Bool) → Text → Bool
in_clear path_join roots files file =
    any (in_package path_join file) roots || any (in_meta_inf file) files

cover_id-cover_or :
    (id : Text) (metas : List Meta) → cover_id id metas ≡ cover_or (last_cover metas) id
unfolding cover_id
cover_id-cover_or id [] = refl
cover_id-cover_or id (m ∷ metas) =
    ground (arith, cover_id-cover_or id metas, cover_id-cover_or m.content metas)

is_cleartext-stays_clear :
    (p : PackageDocument) (item : Item)
    → is_cleartext (cover_id (text "cover-image") p.metas) item ≡ stays_clear p item
unfolding is_cleartext
is_cleartext-stays_clear p item = ground (arith, cover_id-cover_or (text "cover-image") p.metas)

listed-append : (u : Text) (xs ys : List Text) → listed u (xs ++ ys) ≡ (listed u xs || listed u ys)
listed-append u [] ys = refl
listed-append u (x ∷ xs) ys = ground (arith, listed-append u xs ys)

listed-cleartext_items :
    (path_join : Text → Text → Text) (base cover u : Text) (items : List Item)
    → listed u (cleartext_items path_join base cover items)
      ≡ any (λ item. is_cleartext cover item && same_text u (path_join base item.href)) items
unfolding cleartext_items
listed-cleartext_items path_join base cover u [] = refl
listed-cleartext_items path_join base cover u (item ∷ items) =
    ground (arith, listed-cleartext_items path_join base cover u items)

any-stays_clear :
    (path_join : Text → Text → Text) (p : PackageDocument) (u : Text) (items : List Item)
    → any
        (λ item.
          is_cleartext (cover_id (text "cover-image") p.metas) item
          && same_text u (path_join p.base_path item.href))
        items
      ≡ any (λ item. stays_clear p item && same_text u (path_join p.base_path item.href)) items
any-stays_clear path_join p u [] = refl
any-stays_clear path_join p u (item ∷ items) =
    let rest = any-stays_clear path_join p u items in
    let here = is_cleartext-stays_clear p item in rw (here, rest) refl

listed-add_root_files :
    (path_join : Text → Text → Text) (u : Text) (roots : List (Text × PackageDocument))
    (names : List Text)
    → listed u (add_root_files path_join roots names)
      ≡ (listed u names || any (in_package path_join u) roots)
unfolding add_root_files add_cleartext_resources
listed-add_root_files path_join u [] names = ground arith
listed-add_root_files path_join u ((full_path, p) ∷ roots) names =
    let more = names ++ full_path ∷ [] in
    let items =
      cleartext_items path_join p.base_path (cover_id (text "cover-image") p.metas) p.items in
    let added = listed-append u more items in
    let there = listed-append u names (full_path ∷ []) in
    let of_items =
      listed-cleartext_items path_join p.base_path (cover_id (text "cover-image") p.metas) u p.items
      ∙ any-stays_clear path_join p u p.items in
    let rest = listed-add_root_files path_join u roots (more ++ items) in ground arith

listed-add_meta_inf :
    (u : Text) (files : List (Text × Bool)) (names : List Text)
    → listed u (add_meta_inf files names) ≡ (listed u names || any (in_meta_inf u) files)
unfolding add_meta_inf
listed-add_meta_inf u [] names = ground arith
listed-add_meta_inf u ((name, is_dir) ∷ files) names = ground (
  arith,
  listed-add_meta_inf u files names,
  listed-add_meta_inf u files (names ++ name ∷ []),
  listed-append u names (name ∷ []),
)

-- CanEncrypt of an EPUB that Read has read refuses exactly the files that a reader needs in clear: the
-- package documents; of their items the covers, the navigation documents, the NCX and the page maps;
-- and the files of META-INF.
pub can_encrypt-in_clear :
    (path_join : Text → Text → Text) (roots : List (Text × PackageDocument))
    (files : List (Text × Bool)) (file : Text)
    → can_encrypt (cleartext_resources path_join roots files) file
      ≡ not (in_clear path_join roots files file)
unfolding cleartext_resources
can_encrypt-in_clear path_join roots files file =
    let names = add_meta_inf files (add_root_files path_join roots []) in
    can_encrypt-sorted (sort_texts names) file (sort_texts-IsSorted names)
    ∙ ap not (
        listed-sort_texts file names
        ∙ listed-add_meta_inf file files (add_root_files path_join roots [])
        ∙ ap (λ b. b || any (in_meta_inf file) files)
            (listed-add_root_files path_join file roots []))
