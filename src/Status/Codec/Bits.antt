-- ===== src/Status/Codec/Bits.antt =====
-- Which integers GetStatus decodes, and to what.
use mathlib.Core.List.{reverse-cons}
use native.Mathlib.Nat.{pow-suc, pow-le-pow_right}
use readium_lcp_server.Prelude.{
  ℕ, zero, suc, ◌+◌, ◌*◌, ◌/◌, ◌^◌, ◌<◌, ◌≤◌, Bool, true, false, ℤ, pos, negsuc, some, List, [],
  ◌∷◌, ◌++◌, reverse-reverse, ltb, leb, ◌==◌, if◌then◌else◌, count, ◌≡◌, refl, arith, Bool-cases,
  inl, inr, count-append,
}
use readium_lcp_server.Status.{
  Status, ready, active, revoked, returned, cancelled, expired, other, status_int, status_values,
}
use readium_lcp_server.Status.Codec.{
  low_digits, pick_status, value_or, is_one, index_one, get_status, set_status,
}

half_lt : (f n : ℕ) → n < 2 ^ suc f → n / 2 < 2 ^ f
half_lt f n h = let e : 2 ^ suc f ≡ 2 ^ f * 2 = pow-suc 2 f in omega arith

-- A number whose digits hold no 1 is zero, one whose digits hold a single 1 is a power of two.
low_digits-zero : (f n : ℕ) → n < 2 ^ f → count is_one (low_digits f n) ≡ 0 → n ≡ 0
unfolding low_digits
low_digits-zero zero n h e = omega arith
low_digits-zero (suc f) n h e = ground (arith, low_digits-zero f (n / 2), half_lt f n h)

low_digits-pow :
    (f n : ℕ) → n < 2 ^ f → count is_one (low_digits f n) ≡ 1 → n ≡ 2 ^ index_one (low_digits f n)
unfolding low_digits index_one
low_digits-pow zero n h e = absurd (omega arith)
low_digits-pow (suc f) n h e = ground (
  arith,
  low_digits-pow f (n / 2),
  low_digits-zero f (n / 2),
  half_lt f n h,
  pow-suc 2 (index_one (low_digits f (n / 2))),
)

-- The status that an integer stands for; any other leaves the status alone.
unfoldable pub decode : ℕ → Status → Status
decode n old =
    if n == 1
    then ready
    else if n == 2
    then active
    else if n == 4
    then revoked
    else if n == 8
    then returned
    else if n == 16
    then cancelled
    else if n == 32
    then expired
    else old

pow_large : (k : ℕ) → 64 ≤ 2 ^ suc (suc (suc (suc (suc (suc k)))))
pow_large k =
    let e : 2 ^ 6 ≤ 2 ^ suc (suc (suc (suc (suc (suc k))))) =
      pow-le-pow_right {n = 2} (omega arith) {i = 6} (omega arith) in
    omega arith

-- At a power of two, `decode` is the look-up in the table.
decode-pow :
    (k n : ℕ) (old : Status)
    → n ≡ 2 ^ k
    → decode n old ≡ (if leb (k + 1) 6 then value_or (status_values k) else old)
unfolding decode status_values
decode-pow zero n old e = ground arith
decode-pow (suc zero) n old e = ground arith
decode-pow (suc (suc zero)) n old e = ground arith
decode-pow (suc (suc (suc zero))) n old e = ground arith
decode-pow (suc (suc (suc (suc zero)))) n old e = ground arith
decode-pow (suc (suc (suc (suc (suc zero))))) n old e = ground arith
decode-pow (suc (suc (suc (suc (suc (suc k)))))) n old e = ground (arith, pow_large k)

abbrev one_digit : ℕ → Bool
one_digit n = count is_one (low_digits 64 n) == 1

one_digit_table :
    (one_digit 1 ≡ true)
    × (one_digit 2 ≡ true)
    × (one_digit 4 ≡ true)
    × (one_digit 8 ≡ true)
    × (one_digit 16 ≡ true)
    × (one_digit 32 ≡ true)
unfolding low_digits
one_digit_table = (refl, refl, refl, refl, refl, refl)

-- What has not exactly one digit 1 is none of the table's powers.
decode_none : (n : ℕ) (old : Status) → one_digit n ≡ false → decode n old ≡ old
unfolding decode
decode_none n old h = ground (arith, one_digit_table)

pick_status-low_digits :
    (n : ℕ) (old : Status) → n < 2 ^ 64 → pick_status (low_digits 64 n) old ≡ decode n old
unfolding pick_status
pick_status-low_digits n old h = elim (Bool-cases (one_digit n)) [
  | inl single ↦ rw (
    single,
    decode-pow (index_one (low_digits 64 n)) n old (low_digits-pow 64 n h (ground arith)),
  )
  | inr more ↦ rw (more, decode_none n old more)
]

index_one-append : (s t : List ℕ) → 0 < count is_one s → index_one (s ++ t) ≡ index_one s
unfolding index_one
index_one-append [] t h = absurd (omega arith)
index_one-append (c ∷ s) t h = ground (arith, index_one-append s t)

pick_status-sign :
    (s : List ℕ) (old : Status) → pick_status (s ++ b'-' ∷ []) old ≡ pick_status s old
unfolding pick_status
pick_status-sign s old =
    ground (arith, count-append is_one s (b'-' ∷ []), index_one-append s (b'-' ∷ []))

abbrev pub magnitude : ℤ → ℕ
magnitude (pos n) = n
magnitude (negsuc n) = n + 1

-- GetStatus looks at the magnitude of the stored integer alone, for every integer of magnitude
-- below 2 ^ 64: it sets the status when that is 1, 2, 4, 8, 16 or 32, as `decode` says, and otherwise
-- leaves what was there.
pub get_status-eq-decode :
    (z : ℤ) (old : Status) → magnitude z < 2 ^ 64 → get_status z old ≡ decode (magnitude z) old
unfolding get_status
get_status-eq-decode (pos n) old h = rw reverse-reverse (pick_status-low_digits n old h)
get_status-eq-decode (negsuc n) old h =
    rw (reverse-cons, reverse-reverse, pick_status-sign) (pick_status-low_digits (n + 1) old h)

-- SetStatus never fails, and GetStatus inverts it for the six values of a status. What SetStatus
-- makes of any other text, GetStatus does not decode: it leaves the status that was there.
pub get-set_status :
    (s old : Status)
    → (n : ℕ) × (set_status s ≡ some n)
      × (get_status (pos n) old ≡ (if ltb (status_int s) 6 then s else old))
unfolding set_status get_status
get-set_status ready old = (1, refl, refl)
get-set_status active old = (2, refl, refl)
get-set_status revoked old = (4, refl, refl)
get-set_status returned old = (8, refl, refl)
get-set_status cancelled old = (16, refl, refl)
get-set_status expired old = (32, refl, refl)
get-set_status (other s) old = (0, refl, refl)
