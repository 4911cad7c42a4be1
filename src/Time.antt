-- ===== src/Time.antt =====
-- The instants of Go's package time, as the handlers use them: `time.Time`, `Time.After`, `Before`,
-- `IsZero`, `Add` and `Truncate`, and the arithmetic of `time.Duration`, which is an int64.
use readium_lcp_server.Prelude.{
  ◌*◌, ◌/◌, ℕ, zero, suc, Bool, true, false, ℤ, pos, negsuc, ◌+ℤ◌, ◌*ℤ◌, ltb_ℤ, Option, none, some,
  not,
}
use readium_lcp_server.Prelude.Int.{wrap64}

-- Nanoseconds since the zero time, January 1 of year 1, 00:00:00 UTC.
abbrev pub Time : Type 0
Time = ℤ

-- t.After(u)
abbrev pub after : Time → Time → Bool
after t u = ltb_ℤ u t

-- t.Before(u)
abbrev pub before : Time → Time → Bool
before t u = ltb_ℤ t u

abbrev pub is_zero : Time → Bool
is_zero (pos n) = elim n [ zero ↦ true | suc m ↦ false ]
is_zero (negsuc n) = false

-- Is a pointer to a time neither nil nor the zero time?
abbrev pub is_set : Option Time → Bool
is_set none = false
is_set (some t) = not (is_zero t)

abbrev pub second : ℕ
second = 1_000_000_000

abbrev pub hour : ℕ
hour = 3600 * second

-- 24 * time.Hour * time.Duration(days), an int64 product
unfoldable pub days_duration : ℤ → ℤ
unfolding wrap64 ◌*ℤ◌
days_duration days = wrap64 (pos (24 * hour) *ℤ days)

-- t.Add(d)
unfoldable pub add : Time → ℤ → Time
unfolding ◌+ℤ◌
add t d = t +ℤ d

-- t.UTC().Truncate(time.Second) of an instant that the machine's clock can show
abbrev pub truncate : ℕ → ℕ
truncate n = n / second * second
