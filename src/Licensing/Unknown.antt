-- ===== src/Licensing/Unknown.antt =====
-- A name that is no field, in the list of the fields that `encryptFields` encrypts.
use readium_lcp_server.Prelude.{ℕ, suc, String, ◌≡◌, refl, Option, none, some, List, [], ◌∷◌, ◌++◌}
use readium_lcp_server.License.{UserInfo}
use readium_lcp_server.License.Fields.{
  encrypt_fields, encrypt_bytes, field_by_name, field_text, set_field, no_error,
}
use readium_lcp_server.Server.{Env, World}
use readium_lcp_server.Server.Exec.{Exec, Result, ok, stop, ask, ◌>>=◌, continue}

continue-cong :
    {A B : Type 0} (f g : A → Exec B) (e : Env)
    → ((a : A) (w : World) → f a e w ≡ g a e w)
    → (r : Result A) (w : World) → continue r f e w ≡ continue r g e w
continue-cong f g e h (ok a) w = h a w
continue-cong f g e h (stop r) w = refl

module _ {A B : Type 0} (m : Exec B) (f g : A → Exec B) (e : Env) where
  option-cong :
      ((a : A) (w : World) → f a e w ≡ g a e w)
      → (o : Option A) (w : World)
      → (elim o as (λ _. Exec B) [ none ↦ m | some a ↦ f a ]) e w
        ≡ (elim o as (λ _. Exec B) [ none ↦ m | some a ↦ g a ]) e w
  option-cong h none w = refl
  option-cong h (some a) w = h a w

  option-none :
      (o : Option A) (w : World)
      → o ≡ none
      → (elim o as (λ _. Exec B) [ none ↦ m | some a ↦ f a ]) e w
        ≡ (elim o as (λ _. Exec B) [ none ↦ m | some a ↦ g a ]) e w
  option-none none w h = refl
  option-none (some a) w h = cc

module _ (e : Env) (key : List ℕ) (unknown : String) (rest : List String)
    (no_field : field_by_name (e.title unknown) ≡ none) where
  -- encryptFields gives the same result and the same world whatever names stand behind one that is no
  -- field: it does not look at them.
  pub names_behind_unknown :
      (i : ℕ) (names : List String) (u : UserInfo) (w : World)
      → encrypt_fields key i (names ++ unknown ∷ rest) u e w
        ≡ encrypt_fields key i (names ++ unknown ∷ []) u e w
  unfolding encrypt_fields ◌>>=◌ ask
  names_behind_unknown i [] u w = option-none _ _ _ e (field_by_name (e.title unknown)) w no_field
  names_behind_unknown i (name ∷ names) u w =
      option-cong _ _ _ e
        (λ field w.
          let (r, w') = encrypt_bytes key (e.utf8 (field_text u field)) e w in
          continue-cong _ _ e
            (λ result w.
              option-cong _ _ _ e
                (λ bytes w.
                  let (r', w') = set_field field (e.base64 bytes) u e w in
                  continue-cong _ _ e (names_behind_unknown (suc i) names) r' w')
                (no_error result) w)
            r w')
        (field_by_name (e.title name)) w
