-- ===== src/Registry.antt =====
-- The table `event` as the register of a license's devices. An invariant of the table that every
-- insertion of the handlers keeps holds after any requests.
pub mod Steps
pub mod Handlers
pub mod Runs
pub mod Appended
pub mod Once
pub mod Refused
use readium_lcp_server.Prelude.{ℕ, String, ◌≡◌, ◌≤◌, List}
use readium_lcp_server.Transactions.{Event, EventRow, insert_event, device_status}

-- What an invariant has to stand: events of the types 2 to 6, and the registration (type 1)
-- of a device that has no event yet.
pub record IsInvariant (I : List EventRow → Type 0) : Type 0 where
  pub event_added :
      (rows : List EventRow) (ev : Event) (type : ℕ)
      → 2 ≤ type
      → type ≤ 6
      → I rows
      → I (insert_event ev type rows)
  pub device_added :
      (rows : List EventRow) (ev : Event)
      → device_status ev.license_status_fk ev.device_id rows ≡ ""
      → I rows
      → I (insert_event ev 1 rows)
