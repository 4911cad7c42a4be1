-- ===== src/Packing/Cleartext.antt =====
-- epub/reader.go: the resources of an EPUB that are not encrypted. The container and the package documents
-- are parsed; `path_join` is filepath.Join with slashes.
use readium_lcp_server.Prelude.{Bool, not, ◌&&◌, ◌||◌, List, [], ◌∷◌, ◌++◌, if◌then◌else◌}
use readium_lcp_server.Packing.Texts.{Text, text, same_text, leb_text, starts_with}

-- opf.Meta
pub record Meta : Type 0 where
  pub name : Text
  pub content : Text

-- opf.Item
pub record Item : Type 0 where
  pub id : Text
  pub href : Text
  pub media_type : Text
  pub properties : Text

-- opf.Package
pub record PackageDocument : Type 0 where
  pub base_path : Text
  pub metas : List Meta
  pub items : List Item

-- strings.Contains
unfoldable pub contains : Text → Text → Bool
contains s [] = starts_with s []
contains s (c ∷ t) = starts_with s (c ∷ t) || contains s t

-- The id of the cover, which the last such element gives
unfoldable pub cover_id : Text → List Meta → Text
cover_id id [] = id
cover_id id (m ∷ metas) = cover_id (if same_text m.name (text "cover") then m.content else id) metas

-- Cover, nav, NCX and page map
unfoldable pub is_cleartext : Text → Item → Bool
unfolding contains
is_cleartext cover item =
    contains (text "cover-image") item.properties
    || (same_text item.id cover
        || (contains (text "nav") item.properties
            || (same_text item.media_type (text "application/x-dtbncx+xml")
                || same_text item.media_type (text "application/oebps-page-map+xml"))))

unfoldable pub cleartext_items : (Text → Text → Text) → Text → Text → List Item → List Text
unfolding is_cleartext
cleartext_items path_join base cover [] = []
cleartext_items path_join base cover (item ∷ items) =
    let rest = cleartext_items path_join base cover items in
    if is_cleartext cover item then path_join base item.href ∷ rest else rest

-- addCleartextResources
unfoldable pub add_cleartext_resources :
    (Text → Text → Text) → PackageDocument → List Text → List Text
unfolding cover_id cleartext_items
add_cleartext_resources path_join p names =
    names ++ cleartext_items path_join p.base_path (cover_id (text "cover-image") p.metas) p.items

-- The loop over the root files
unfoldable pub add_root_files :
    (Text → Text → Text) → List (Text × PackageDocument) → List Text → List Text
unfolding add_cleartext_resources
add_root_files path_join [] names = names
add_root_files path_join ((full_path, p) ∷ roots) names =
    add_root_files path_join roots (add_cleartext_resources path_join p (names ++ full_path ∷ []))

-- The files of META-INF; directories are left out.
unfoldable pub add_meta_inf : List (Text × Bool) → List Text → List Text
add_meta_inf [] names = names
add_meta_inf ((name, is_dir) ∷ files) names =
    add_meta_inf files
      (if not is_dir && starts_with (text "META-INF") name then names ++ name ∷ [] else names)

-- sort.Strings
unfoldable pub insert_text : Text → List Text → List Text
insert_text s [] = s ∷ []
insert_text s (t ∷ rest) =
    let later = insert_text s rest in if leb_text s t then s ∷ t ∷ rest else t ∷ later

unfoldable pub sort_texts : List Text → List Text
unfolding insert_text
sort_texts [] = []
sort_texts (s ∷ rest) = insert_text s (sort_texts rest)

-- Read: the field cleartextResources
unfoldable pub cleartext_resources :
    (Text → Text → Text) → List (Text × PackageDocument) → List (Text × Bool) → List Text
unfolding add_root_files add_meta_inf sort_texts
cleartext_resources path_join roots files =
    sort_texts (add_meta_inf files (add_root_files path_join roots []))
