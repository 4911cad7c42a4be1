-- ===== src/Status/Codec.antt =====
-- GetStatus and SetStatus of status/status.go: a status is stored as an integer with one bit set.
-- The texts that strconv gives and takes are lists of code points.
pub mod Bits
use readium_lcp_server.Prelude.{
  ℕ, zero, suc, ◌+◌, ◌-◌, ◌*◌, ◌/◌, ◌%◌, ◌^◌, Bool, true, false, ℤ, pos, negsuc, Option, none, some,
  List, [], ◌∷◌, ◌++◌, map, reverse, ltb, leb, ◌==◌, ◌&&◌, if◌then◌else◌, count,
}
use readium_lcp_server.Status.{Status, other, same, status_values}

-- The binary digits of a number, the lowest first; an int64 has at most 64.
unfoldable pub low_digits : ℕ → ℕ → List ℕ
low_digits zero n = []
low_digits (suc f) n =
    let rest = low_digits f (n / 2) in if ltb n 2 then (48 + n) ∷ [] else (48 + n % 2) ∷ rest

-- strconv.FormatInt(n, 2)
unfoldable pub format_int : ℤ → List ℕ
unfolding low_digits
format_int (pos n) = reverse (low_digits 64 n)
format_int (negsuc n) = b'-' ∷ reverse (low_digits 64 (n + 1))

abbrev pub is_one : ℕ → Bool
is_one c = c == b'1'

-- strings.Index(s, "1"), where "1" occurs
unfoldable pub index_one : List ℕ → ℕ
index_one [] = 0
index_one (c ∷ s) = let i = index_one s in if is_one c then 0 else suc i

abbrev pub status_count : ℕ
status_count = 6

abbrev pub value_or : Option Status → Status
value_or none = other ""
value_or (some s) = s

-- The body of GetStatus, on the reversed text
unfoldable pub pick_status : List ℕ → Status → Status
unfolding index_one status_values
pick_status result old =
    if count is_one result == 1
    then (let index = index_one result in
        if leb (index + 1) status_count then value_or (status_values index) else old)
    else old

-- GetStatus: what `*status` holds afterwards, given what it held before
unfoldable pub get_status : ℤ → Status → Status
unfolding format_int pick_status
get_status n old = pick_status (reverse (format_int n)) old

-- One cell of `reg`: does StatusValues[key] equal the status?
abbrev reg_cell : Status → ℕ → ℕ
reg_cell s key = elim (status_values key) [ none ↦ b'0' | some v ↦ if same s v then b'1' else b'0' ]

-- strconv.ParseInt(s, 2, 64), for a text without a sign
unfoldable pub parse_from : ℕ → List ℕ → Option ℕ
parse_from acc [] = if ltb acc (2 ^ 63) then some acc else none
parse_from acc (c ∷ s) =
    let rest = parse_from (acc * 2 + (c - 48)) s in if leb 48 c && leb c 49 then rest else none

unfoldable pub parse_int : List ℕ → Option ℕ
unfolding parse_from
parse_int [] = none
parse_int (c ∷ s) = parse_from 0 (c ∷ s)

-- SetStatus. The loop over the map fills each cell of `reg` once, in whatever order.
unfoldable pub set_status : Status → Option ℕ
unfolding parse_int status_values
set_status s = parse_int (reverse (map (reg_cell s) (0 ∷ 1 ∷ 2 ∷ 3 ∷ 4 ∷ 5 ∷ [])))
