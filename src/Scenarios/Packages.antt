-- ===== src/Scenarios/Packages.antt =====
-- The theorems on the packing of an EPUB, applied to a small one.
use readium_lcp_server.Prelude.{
  ℕ, ◌≡◌, refl, sym, ◌∙◌, Bool, false, not, Option, none, some, List, [], ◌∷◌, ◌++◌, map,
}
use readium_lcp_server.Crypto.Cbc.{xor_bytes, Block, encrypt}
use readium_lcp_server.Crypto.Blocks.{xor_bytes-xor_bytes, length-xor_bytes}
use readium_lcp_server.Packing.{
  Tools, Resource, Epub, Package, get_or_set_content_key, data_for_file, do_pack, can_encrypt,
  resource_path_escape,
}
use readium_lcp_server.Packing.Texts.{Text, text, same_text, starts_with, leb_text, join, split}
use readium_lcp_server.Packing.Pipeline.{Archives, Task}
use readium_lcp_server.Packing.Opening.{IsSound, open_entry, packed_opens}
use readium_lcp_server.Packing.Refusals.{in_clear, can_encrypt-in_clear}
use readium_lcp_server.Packing.Cleartext.{PackageDocument, cleartext_resources}

abbrev short_key : List ℕ
short_key = 3 ∷ 1 ∷ 4 ∷ 1 ∷ 5 ∷ 9 ∷ 2 ∷ 6 ∷ 5 ∷ 3 ∷ 5 ∷ 8 ∷ 9 ∷ 7 ∷ 9 ∷ 3 ∷ []

abbrev short_cipher : Block
short_cipher = record {
  encrypt = λ xs. xor_bytes short_key xs;
  decrypt = λ xs. xor_bytes short_key xs;
}

abbrev sample_tools : Tools
sample_tools = record {
  path_escape = λ s. s;
  decode_key = λ s. none;
  new_key = some short_key;
  deflate = λ bytes. 0 ∷ bytes;
  new_cipher = λ key. some short_cipher;
  random_iv = λ n. short_key;
  random_pad = λ n left. n;
}

-- The inverse of that compression
abbrev inflated : List ℕ → Option (List ℕ)
inflated [] = none
inflated (b ∷ bytes) = some bytes

sample_tools-IsSound : IsSound sample_tools inflated short_key short_cipher
sample_tools-IsSound = record {
  iv_size = λ n. refl;
  is_block = refl;
  is_cipher = record {
    whole = λ xs h. length-xor_bytes short_key xs (sym h) ∙ h;
    inverse = λ xs h. xor_bytes-xor_bytes short_key xs (sym h);
  };
  inflate-deflate = λ bytes. refl;
}

abbrev chapter : Resource
chapter = record {
  path = text "OPS/chapter.xhtml";
  content_type = text "application/xhtml+xml";
  original_size = 3;
  storage_method = 8;
  contents = 1 ∷ 2 ∷ 3 ∷ [];
}

abbrev picture : Resource
picture = record chapter { path = text "OPS/picture.png"; content_type = text "image/png" }

abbrev navigation : Resource
navigation = record chapter { path = text "OPS/nav.xhtml" }

abbrev document : PackageDocument
document = record {
  base_path = text "OPS";
  metas = record { name = text "cover"; content = text "img1" } ∷ [];
  items =
      record {
        id = text "n1";
        href = text "nav.xhtml";
        media_type = text "application/xhtml+xml";
        properties = text "scripted nav";
      }
      ∷ [];
}

abbrev slash_join : Text → Text → Text
slash_join base href = base ++ b'/' ∷ href

abbrev roots : List (Text × PackageDocument)
roots = (text "OPS/content.opf", document) ∷ []

abbrev files : List (Text × Bool)
files = (text "META-INF/container.xml", false) ∷ (text "OPS/nav.xhtml", false) ∷ []

abbrev sample_epub : Epub
sample_epub = record {
  encryption = none;
  resources = chapter ∷ picture ∷ navigation ∷ [];
  cleartext_resources = cleartext_resources slash_join roots files;
}

packed_opens_example :
    (p : Package) × (do_pack sample_tools [] sample_epub ≡ some p)
    × (p.key ≡ short_key)
    × (map (λ e. open_entry sample_tools inflated p.key p.manifest e) p.entries
        ≡ some (1 ∷ 2 ∷ 3 ∷ []) ∷ some (1 ∷ 2 ∷ 3 ∷ []) ∷ some (1 ∷ 2 ∷ 3 ∷ []) ∷ [])
unfolding get_or_set_content_key resource_path_escape same_text data_for_file join split
packed_opens_example =
    packed_opens sample_tools inflated short_key short_cipher sample_tools-IsSound [] sample_epub
      refl ((refl, (refl, tt)), ((refl, tt), (tt, tt))) (refl, (refl, (refl, tt)))

can_encrypt-in_clear_example :
    can_encrypt (cleartext_resources slash_join roots files) (text "OPS/nav.xhtml")
    ≡ not (in_clear slash_join roots files (text "OPS/nav.xhtml"))
can_encrypt-in_clear_example = can_encrypt-in_clear slash_join roots files (text "OPS/nav.xhtml")

-- The navigation document stays in clear.
nav_in_clear :
    can_encrypt (cleartext_resources slash_join roots files) (text "OPS/nav.xhtml") ≡ false
unfolding can_encrypt cleartext_resources starts_with same_text leb_text
nav_in_clear = refl

abbrev sample_archives : Archives
sample_archives = record { zip = λ p. p.key; sha256 = λ bytes. "digest" }

abbrev sample_task : Task
sample_task = record { name = "book.epub"; epub = some sample_epub; new_id = some "C9" }
