-- ===== src/Transactions.antt =====
-- transactions/transactions.go: the events of a license, and the queries on the table `event`.
use readium_lcp_server.Prelude.{
  ℕ, suc, max, String, str_eq, Bool, ◌==◌, ◌&&◌, Option, none, some, List, [], ◌∷◌, ◌++◌, map,
  filter, if◌then◌else◌, ltb_ℤ,
}
use readium_lcp_server.Time.{Time}
use readium_lcp_server.Status.{event_types}

pub record Device : Type 0 where
  pub device_id : String
  pub device_name : String
  pub timestamp : Time

pub record Event : Type 0 where
  pub id : ℕ
  pub device_name : String
  pub timestamp : Time
  pub type : String
  pub device_id : String
  pub license_status_fk : ℕ

-- A row of the table `event`.
pub record EventRow : Type 0 where
  pub id : ℕ
  pub device_name : String
  pub timestamp : Time
  pub type : ℕ
  pub device_id : String
  pub license_status_fk : ℕ

-- The key that a new row gets: an INTEGER PRIMARY KEY is one more than the largest.
abbrev pub next_event_id : List EventRow → ℕ
next_event_id [] = 1
next_event_id (r ∷ rows) = max (suc r.id) (next_event_id rows)

-- INSERT INTO event …
abbrev pub new_event : Event → ℕ → List EventRow → EventRow
new_event e event_type rows = record {
  id = next_event_id rows;
  device_name = e.device_name;
  timestamp = e.timestamp;
  type = event_type;
  device_id = e.device_id;
  license_status_fk = e.license_status_fk;
}

unfoldable pub insert_event : Event → ℕ → List EventRow → List EventRow
insert_event e event_type rows = rows ++ new_event e event_type rows ∷ []

abbrev pub scan_event : EventRow → Event
scan_event r = record {
  id = r.id;
  device_name = r.device_name;
  timestamp = r.timestamp;
  type = event_types r.type;
  device_id = r.device_id;
  license_status_fk = r.license_status_fk;
}

-- SELECT * FROM event WHERE license_status_fk = ?
unfoldable pub select_events : ℕ → List EventRow → List Event
select_events fk rows = map scan_event (filter (λ r. r.license_status_fk == fk) rows)

abbrev pub is_of_device : ℕ → String → EventRow → Bool
is_of_device fk device r = r.license_status_fk == fk && str_eq r.device_id device

-- ORDER BY timestamp DESC LIMIT 1, among the rows of a device
abbrev pub later : EventRow → Option EventRow → Option EventRow
later r none = some r
later r (some best) = if ltb_ℤ r.timestamp best.timestamp then some best else some r

unfoldable pub latest_of_device : ℕ → String → List EventRow → Option EventRow
latest_of_device fk device [] = none
latest_of_device fk device (r ∷ rows) =
    let best = latest_of_device fk device rows in
    if is_of_device fk device r then later r best else best

-- CheckDeviceStatus: the latest event's type, as a text, or the empty text
abbrev pub event_text : Option EventRow → String
event_text none = ""
event_text (some r) = event_types r.type

unfoldable pub device_status : ℕ → String → List EventRow → String
unfolding latest_of_device
device_status fk device rows = event_text (latest_of_device fk device rows)

abbrev pub is_registration : ℕ → EventRow → Bool
is_registration fk r = r.license_status_fk == fk && r.type == 1

-- SELECT … WHERE license_status_fk = ? AND type = 1
unfoldable pub select_devices : ℕ → List EventRow → List Device
select_devices fk rows =
    map
      (λ (r : EventRow). record {
        device_id = r.device_id;
        device_name = r.device_name;
        timestamp = r.timestamp;
      })
      (filter (is_registration fk) rows)
