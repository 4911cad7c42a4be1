-- ===== src/Packing/Opening.antt =====
-- A reader that has the content key gets every resource back from the package that `Do` writes.
use readium_lcp_server.Prelude.{
  ℕ, suc, ◌==◌, Bool, false, ◌||◌, ◌≡◌, refl, ap, ◌∙◌, Option, none, some, List, [], ◌∷◌, ◌++◌, map,
  length, find-append_none, Bool-cases, inl, inr, if◌then◌else◌, arith,
}
use readium_lcp_server.Crypto.Cbc.{Block, Decrypted, writes, bad_key, panics, decrypt, block_size}
use readium_lcp_server.Crypto.Blocks.{IsCipher}
use readium_lcp_server.Crypto.RoundTrip.{decrypt-encrypt}
use readium_lcp_server.Packing.{
  Tools, Resource, Compression, Data, Epub, Entry, Package, resource_path_escape, data_for_file,
  must_compress, can_encrypt, no_compression, deflate_method, data_of, reader_of, encrypt_resource,
  copied, pack_resources, get_or_set_content_key, manifest_of, do_pack,
}
use readium_lcp_server.Packing.Texts.{Text, same_text, same_text_refl, same_text_comm}

-- A reader: what the manifest has no data for is in clear, the rest is decrypted, and decompressed where
-- the data say so.
abbrev pub plain : Decrypted → Option (List ℕ)
plain bad_key = none
plain panics = none
plain (writes bytes) = some bytes

abbrev pub is_compressed : List Compression → Bool
is_compressed [] = false
is_compressed (c ∷ rest) = c.method == deflate_method || is_compressed rest

abbrev pub decompressed : (List ℕ → Option (List ℕ)) → Data → Option (List ℕ) → Option (List ℕ)
decompressed inflate d none = none
decompressed inflate d (some bytes) =
    if is_compressed d.properties then inflate bytes else some bytes

module _ (t : Tools) (inflate : List ℕ → Option (List ℕ)) (key : List ℕ) where
  unfoldable pub opened : Option Data → Entry → Option (List ℕ)
  opened none entry = some entry.contents
  opened (some d) entry = decompressed inflate d (plain (decrypt t.new_cipher key entry.contents))

  unfoldable pub open_entry : List Data → Entry → Option (List ℕ)
  unfolding opened
  open_entry items entry = opened (data_for_file t items entry.path) entry

-- The libraries of ciphers, of random bytes and of compression do what their documentation says.
pub record IsSound (t : Tools) (inflate : List ℕ → Option (List ℕ)) (key : List ℕ) (b : Block)
    : Type 0 where
  pub iv_size : (n : ℕ) → length (t.random_iv n) ≡ block_size
  pub is_block : t.new_cipher key ≡ some b
  pub is_cipher : IsCipher b
  pub inflate-deflate : (bytes : List ℕ) → inflate (t.deflate bytes) ≡ some bytes

module _ (t : Tools) where
  abbrev uri_of : Text → Text
  uri_of path = resource_path_escape t.path_escape path

  -- No resource of the list has the URI.
  abbrev Apart : Text → List Resource → Type 0
  Apart uri [] = Unit {0}
  Apart uri (r ∷ rest) = (same_text (uri_of r.path) uri ≡ false) × Apart uri rest

  -- No two resources have the same URI.
  abbrev pub Distinct : List Resource → Type 0
  Distinct [] = Unit {0}
  Distinct (r ∷ rest) = Apart (uri_of r.path) rest × Distinct rest

  -- The manifest has no data for the resources.
  abbrev pub Fresh : List Data → List Resource → Type 0
  Fresh items [] = Unit {0}
  Fresh items (r ∷ rest) = (data_for_file t items r.path ≡ none) × Fresh items rest

  -- One more item in the manifest, for another path and for the same
  data_for_file-other :
      (items : List Data) (r : Resource) (path : Text)
      → same_text (uri_of r.path) (uri_of path) ≡ false
      → data_for_file t (items ++ data_of t r ∷ []) path ≡ data_for_file t items path
  unfolding data_for_file data_of
  data_for_file-other [] r path h = rw h refl
  data_for_file-other (d ∷ items) r path h = ground (arith, data_for_file-other items r path h)

  data_for_file-same :
      (items : List Data) (r : Resource)
      → data_for_file t items r.path ≡ none
      → data_for_file t (items ++ data_of t r ∷ []) r.path ≡ some (data_of t r)
  unfolding data_for_file data_of
  data_for_file-same items r h =
      find-append_none _ items (data_of t r ∷ []) h ∙ rw (same_text_refl (uri_of r.path)) refl

  Fresh-added :
      (items : List Data) (r : Resource) (rest : List Resource)
      → Apart (uri_of r.path) rest
      → Fresh items rest
      → Fresh (items ++ data_of t r ∷ []) rest
  Fresh-added items r [] apart fresh = tt
  Fresh-added items r (q ∷ rest) apart fresh = (
    data_for_file-other items r q.path (same_text_comm (uri_of r.path) (uri_of q.path) ∙ apart.0)
        ∙ fresh.0,
    Fresh-added items r rest apart.1 fresh.1,
  )

module _ (t : Tools) (inflate : List ℕ → Option (List ℕ)) (key : List ℕ) (b : Block)
    (ok : IsSound t inflate key b) where
  encrypt_resource-opened :
      (n : ℕ) (r : Resource)
      → (entry : Entry) × (encrypt_resource t n key r ≡ some entry)
        × (entry.path ≡ r.path)
        × (opened t inflate key (some (data_of t r)) entry ≡ some r.contents)
  unfolding encrypt_resource opened data_of
  encrypt_resource-opened n r = elim (Bool-cases (must_compress r)) [
    | inl compress ↦
        let (out, sealed, unsealed) =
          decrypt-encrypt t.new_cipher (t.random_pad n) (t.random_iv n) key
            (reader_of (t.deflate r.contents)) b ok.is_block ok.is_cipher (ok.iv_size n) in
        (
          record { path = r.path; method = no_compression; contents = out },
          rw (compress, sealed) refl,
          refl,
          rw (compress, unsealed) (ok.inflate-deflate r.contents),
        )
    | inr store ↦
        let (out, sealed, unsealed) =
          decrypt-encrypt t.new_cipher (t.random_pad n) (t.random_iv n) key (reader_of r.contents) b
            ok.is_block ok.is_cipher (ok.iv_size n) in
        (
          record { path = r.path; method = no_compression; contents = out },
          rw (store, sealed) refl,
          refl,
          rw (store, unsealed) refl,
        )
  ]

  Packs : ℕ → List Text → List Data → List Resource → Type 0
  Packs n cleartext items rs =
      (entries : List Entry) × (items' : List Data) × (pack_resources t n key cleartext items rs
        ≡ some (entries, items'))
      × ((path : Text)
          → Apart t (uri_of t path) rs
          → data_for_file t items' path ≡ data_for_file t items path)
      × (map (λ e. open_entry t inflate key items' e) entries
          ≡ map (λ (r : Resource). some r.contents) rs)

  pack_resources-Packs :
      (n : ℕ) (cleartext : List Text) (items : List Data) (rs : List Resource)
      → Fresh t items rs
      → Distinct t rs
      → Packs n cleartext items rs
  unfolding Packs pack_resources encrypt_resource open_entry opened
  pack_resources-Packs n cleartext items [] fresh distinct =
      ([], items, refl, λ path apart. refl, refl)
  pack_resources-Packs n cleartext items (r ∷ rest) fresh distinct =
      elim (Bool-cases (can_encrypt cleartext r.path)) [
        | inl may ↦
            let (entry, sealed, same_path, unsealed) = encrypt_resource-opened n r in
            let (entries, items', packs, unchanged, opens) =
              pack_resources-Packs (suc n) cleartext (items ++ data_of t r ∷ []) rest
                (Fresh-added t items r rest distinct.0 fresh.1) distinct.1 in
            let there : data_for_file t items' entry.path ≡ some (data_of t r) =
              ap (λ p. data_for_file t items' p) same_path
              ∙ unchanged r.path distinct.0
              ∙ data_for_file-same t items r fresh.0 in
            let first : open_entry t inflate key items' entry ≡ some r.contents =
              ap (λ o. opened t inflate key o entry) there ∙ unsealed in
            (
              entry ∷ entries,
              items',
              rw (fresh.0, may, sealed, packs) refl,
              λ path apart. unchanged path apart.1 ∙ data_for_file-other t items r path apart.0,
              ap (λ o. o ∷ map (λ e. open_entry t inflate key items' e) entries) first
                  ∙ ap (λ os. some r.contents ∷ os) opens,
            )
        | inr clear ↦
            let (entries, items', packs, unchanged, opens) =
              pack_resources-Packs n cleartext items rest fresh.1 distinct.1 in
            let first : open_entry t inflate key items' (copied r) ≡ some r.contents =
              ap (λ o. opened t inflate key o (copied r)) (unchanged r.path distinct.0 ∙ fresh.0) in
            (
              copied r ∷ entries,
              items',
              rw (fresh.0, clear, packs) refl,
              λ path apart. unchanged path apart.1,
              ap (λ o. o ∷ map (λ e. open_entry t inflate key items' e) entries) first
                  ∙ ap (λ os. some r.contents ∷ os) opens,
            )
      ]

  -- If the libraries do what they document, the given content key gives a block cipher, no two resources
  -- have the same URI, and the manifest of the EPUB has no data for them, then Do succeeds with that key,
  -- and a reader that has the key gets the contents of every resource back, in order, from the entries and
  -- the manifest that it has written.
  pub packed_opens :
      (content_key : Text) (ep : Epub)
      → get_or_set_content_key t content_key ≡ some key
      → Distinct t ep.resources
      → Fresh t (manifest_of ep.encryption) ep.resources
      → (p : Package) × (do_pack t content_key ep ≡ some p)
        × (p.key ≡ key)
        × (map (λ e. open_entry t inflate p.key p.manifest e) p.entries
            ≡ map (λ (r : Resource). some r.contents) ep.resources)
  unfolding do_pack get_or_set_content_key Packs
  packed_opens content_key ep is_key distinct fresh =
      let (entries, items', packs, unchanged, opens) =
        pack_resources-Packs 0 ep.cleartext_resources (manifest_of ep.encryption) ep.resources fresh
          distinct in
      (
        record { entries = entries; manifest = items'; key = key },
        rw (do_pack, is_key, packs) refl,
        refl,
        opens,
      )
