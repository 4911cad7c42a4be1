-- ===== src/Status.antt =====
-- status/status.go: the values of a license status, and their encoding in the database.
pub mod Codec
use readium_lcp_server.Prelude.{
  ℕ, zero, suc, Bool, true, false, String, ◌==◌, str_eq, Option, none, some, List, [], ◌∷◌,
  if◌then◌else◌, ◌&&◌,
}

-- A status is a Go string: one of the six values, or any other text, as a client may send it.
pub data Status : Type 0 where
  ready active revoked returned cancelled expired : Status
  other : String → Status

-- The text of a status.
unfoldable pub text : Status → String
text ready = "ready"
text active = "active"
text revoked = "revoked"
text returned = "returned"
text cancelled = "cancelled"
text expired = "expired"
text (other s) = s

-- The status that a text spells.
unfoldable pub of_text : String → Status
of_text s =
    if str_eq s "ready"
    then ready
    else if str_eq s "active"
    then active
    else if str_eq s "revoked"
    then revoked
    else if str_eq s "returned"
    then returned
    else if str_eq s "cancelled"
    then cancelled
    else if str_eq s "expired"
    then expired
    else other s

-- STATUS_READY_INT to STATUS_EXPIRED_INT; another text has no number.
abbrev pub status_int : Status → ℕ
status_int ready = 0
status_int active = 1
status_int revoked = 2
status_int returned = 3
status_int cancelled = 4
status_int expired = 5
status_int (other s) = 6

-- s == k, for one of the six values k.
abbrev pub same : Status → Status → Bool
same s k = status_int s == status_int k

abbrev pub event_renewed_int : ℕ
event_renewed_int = 6

-- StatusValues[key]
unfoldable pub status_values : ℕ → Option Status
status_values n =
    if n == 0
    then some ready
    else if n == 1
    then some active
    else if n == 2
    then some revoked
    else if n == 3
    then some returned
    else if n == 4
    then some cancelled
    else if n == 5
    then some expired
    else none

-- EventTypes[key]; a missing key gives the empty text.
unfoldable pub event_types : ℕ → String
event_types n =
    if n == 1
    then "register"
    else if n == 2
    then "revoke"
    else if n == 3
    then "return"
    else if n == 4
    then "cancel"
    else if n == 5
    then "expire"
    else if n == 6
    then "renew"
    else ""
