-- ===== src/Scenarios/Lending.antt =====
-- The theorems on the License Server, applied to a server that has a content and a license.
use readium_lcp_server.Prelude.{
  ℕ, ◌==◌, ◌≡◌, refl, sym, ◌∙◌, subst, String, Option, none, some, List, [], ◌∷◌, length, take,
  length-take, pos, if◌then◌else◌, Bool-cases, inl, inr, ==→eq, ==_true, arith,
}
use readium_lcp_server.Crypto.Cbc.{xor_bytes, Block, encrypt}
use readium_lcp_server.Crypto.Blocks.{IsCipher, xor_bytes-xor_bytes, length-xor_bytes}
use readium_lcp_server.Index.{Content, select_content}
use readium_lcp_server.LicenseStatuses.{select_ref}
use readium_lcp_server.Stores.{get_license, get_by_license_id}
use readium_lcp_server.Stores.Contents.{get_content}
use readium_lcp_server.LicenseServer.Input.{
  set_rights, check_generate_license_input, check_get_license_input, copy_input_to_license,
}
use readium_lcp_server.License.Build.{build_license, initialize}
use readium_lcp_server.Stores.Licenses.{add_license}
use readium_lcp_server.License.{License, select_license, no_key, no_encryption, new_license}
use readium_lcp_server.LicenseServer.Licenses.{
  decoded, get_license_request, generate, generate_license,
}
use readium_lcp_server.Server.{Env, World, Reply, license}
use readium_lcp_server.Server.Exec.{serve, pure, db_call, ◌>>=◌, or_500, ask, now, draw}
use readium_lcp_server.Scenarios.{sample_env, sample_world}
use readium_lcp_server.Licensing.{IsSound, Opens, Hidden, OnLicense}
use readium_lcp_server.Licensing.Answers.{Full, get_license_request-Opens, get_license_hides}
use readium_lcp_server.LsdServer.Fresh.{UserData, get_fresh, fetch_license, get_fresh_license}
use readium_lcp_server.Licensing.Fresh.{IsFresh, get_fresh_license-IsFresh}
use readium_lcp_server.Licensing.Generated.{IsGenerated, generate_license-Opens}

-- A cipher for keys of 32 bytes, and sixteen bytes to begin with
abbrev pub toy_cipher : List ℕ → Block
toy_cipher key = record {
  encrypt = λ xs. xor_bytes (take 16 key) xs;
  decrypt = λ xs. xor_bytes (take 16 key) xs;
}

abbrev pub passphrase_hash : List ℕ
passphrase_hash =
    1 ∷ 2 ∷ 3 ∷ 4 ∷ 5 ∷ 6 ∷ 7 ∷ 8 ∷ 9 ∷ 10 ∷ 11 ∷ 12 ∷ 13 ∷ 14 ∷ 15 ∷ 16 ∷ 17 ∷ 18 ∷ 19 ∷ 20 ∷ 21
    ∷ 22 ∷ 23 ∷ 24 ∷ 25 ∷ 26 ∷ 27 ∷ 28 ∷ 29 ∷ 30 ∷ 31 ∷ 32 ∷ []

abbrev pub lending_env : Env
lending_env = record sample_env {
  parse_url = λ s. some (record { scheme = "https"; with_slash = "https://files/" });
  utf8 = λ s. 76 ∷ 49 ∷ [];
  base64 = λ bytes. "sealed";
  random_iv = λ n. take 16 passphrase_hash;
  new_cipher = λ key. if length key == 32 then some (toy_cipher key) else none;
  sign = λ l. some (record { certificate = []; value = []; algorithm = "rsa" });
}

abbrev pub sample_content : Content
sample_content = record {
  id = "C1";
  encryption_key = 7 ∷ 8 ∷ 9 ∷ [];
  location = "https://files/C1";
  length = pos 1000;
  sha256 = "abc";
  type = "application/epub+zip";
}

abbrev pub lending_world : World
lending_world = record (sample_world 1) {
  tables = record (sample_world 1).tables { contents = sample_content ∷ [] };
}

abbrev pub partial_license : License
partial_license = record new_license {
  provider = "https://provider";
  encryption = record no_encryption {
    user_key = record no_key { hint = "a hint"; value = some passphrase_hash };
  };
  user = record { id = "U1"; email = "u@x"; name = "U"; encrypted = "Email" ∷ [] };
}

toy_cipher-IsSound : IsSound lending_env
toy_cipher-IsSound = record {
  iv_size = λ n. refl;
  is_key = λ key h. (toy_cipher key, rw (==_true (length key) 32 h) refl);
  is_cipher = λ key b h. elim (Bool-cases (length key == 32)) [
    | inl fits ↦
        let size : length (take 16 key) ≡ 16 =
          length-take 16 key (omega (arith, ==→eq (length key) 32 fits)) in
        let given : lending_env.new_cipher key ≡ some (toy_cipher key) = rw fits refl in
        let same : toy_cipher key ≡ b = cc in
        subst IsCipher same (record {
          whole = λ xs k. length-xor_bytes (take 16 key) xs (size ∙ sym k) ∙ k;
          inverse = λ xs k. xor_bytes-xor_bytes (take 16 key) xs (size ∙ sym k);
        })
    | inr wrong ↦ let given : lending_env.new_cipher key ≡ none = rw wrong refl in cc
  ];
}

abbrev license_in : Reply → License
license_in (license status l) = l
license_in _ = new_license

answer : Reply
answer = (serve (get_license_request "L1" (decoded partial_license)) lending_env lending_world).0

get_license_succeeds : answer ≡ license 200 (license_in answer)
unfolding answer get_license_request get_license select_license check_get_license_input
    build_license get_content select_content copy_input_to_license encrypt db_call pure ask draw
    ◌>>=◌
get_license_succeeds = refl

get_license_request-Opens_example :
    (v : List ℕ) × (c : Content) × Full lending_world.tables "L1"
      (decoded partial_license)
      (license_in answer)
      v
      c
    × Opens lending_env v c (license_in answer)
unfolding answer
get_license_request-Opens_example =
    get_license_request-Opens lending_env "L1" (decoded partial_license) lending_world
      toy_cipher-IsSound (license_in answer) get_license_succeeds

get_license_hides_example :
    ((serve (get_license_request "L1" (decoded partial_license)) lending_env lending_world).1.tables
      ≡ lending_world.tables)
    × OnLicense
        (λ status l. Hidden l)
        (Unit {0})
        (serve (get_license_request "L1" (decoded partial_license)) lending_env lending_world).0
get_license_hides_example =
    get_license_hides lending_env "L1" (decoded partial_license) lending_world

generated : Reply
generated = (serve (generate_license "C1" (decoded partial_license)) lending_env lending_world).0

generate_succeeds : generated ≡ license 201 (license_in generated)
unfolding generated generate_license generate check_generate_license_input initialize build_license
    get_content select_content select_license set_rights encrypt add_license or_500 db_call pure ask
    draw now ◌>>=◌
generate_succeeds = refl

generate_license-Opens_example :
    (v : List ℕ) × (c : Content) × IsGenerated lending_world.tables "C1"
      (decoded partial_license)
      (license_in generated)
      v
      c
    × Opens lending_env v c (license_in generated)
unfolding generated
generate_license-Opens_example =
    generate_license-Opens lending_env "C1" (decoded partial_license) lending_world
      toy_cipher-IsSound 201 (license_in generated) generate_succeeds

-- The CMS knows the passphrase of the user in hexadecimal code.
abbrev sample_cms : String → Option UserData
sample_cms id = some (record {
  id = "U1";
  name = "U";
  email = "u@x";
  passphrase_hash = "0102030405060708090a0b0c0d0e0f101112131415161718191A1B1C1D1E1F20";
  hint = "a hint";
})

abbrev fresh_env : Env
fresh_env = record lending_env {
  config = record lending_env.config { user_data_url = "https://cms/{license_id}" };
}

fresh : Reply
fresh = (serve (get_fresh_license sample_cms "L1") fresh_env lending_world).0

fresh_succeeds : fresh ≡ license 200 (license_in fresh)
unfolding fresh get_fresh_license get_by_license_id get_fresh fetch_license get_license_request
    get_license select_license check_get_license_input build_license get_content select_content
    copy_input_to_license encrypt select_ref db_call pure ask draw ◌>>=◌
fresh_succeeds = refl

fresh_env-IsSound : IsSound fresh_env
fresh_env-IsSound = record {
  iv_size = toy_cipher-IsSound.iv_size;
  is_key = toy_cipher-IsSound.is_key;
  is_cipher = toy_cipher-IsSound.is_cipher;
}

get_fresh_license-IsFresh_example :
    IsFresh fresh_env sample_cms "L1" lending_world.tables (license_in fresh)
unfolding fresh
get_fresh_license-IsFresh_example =
    get_fresh_license-IsFresh fresh_env sample_cms "L1" lending_world fresh_env-IsSound 200
      (license_in fresh) fresh_succeeds
