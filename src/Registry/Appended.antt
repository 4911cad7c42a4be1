-- ===== src/Registry/Appended.antt =====
-- The table of events as a log: events are only appended.
use readium_lcp_server.Prelude.{ℕ, ◌≡◌, sym, ap, ◌∙◌, List, [], ◌∷◌, ◌++◌}
use mathlib.Core.List.{append_assoc, append-nil}
use readium_lcp_server.Transactions.{Event, EventRow, insert_event, new_event}
use readium_lcp_server.Server.{Env, World}
use readium_lcp_server.LsdServer.Routes.{Call, run}
use readium_lcp_server.Registry.Runs.{run-invariant}

-- The old events come first, unchanged.
abbrev pub Extends : List EventRow → List EventRow → Type 0
Extends old rows = (added : List EventRow) × (rows ≡ old ++ added)

Extends-insert_event :
    (old rows : List EventRow) (ev : Event) (type : ℕ)
    → Extends old rows
    → Extends old (insert_event ev type rows)
unfolding insert_event
Extends-insert_event old rows ev type (added, eq) = (
  added ++ new_event ev type rows ∷ [],
  ap (λ (q : List EventRow). q ++ new_event ev type rows ∷ []) eq ∙ append_assoc old added _,
)

-- Whatever requests the server gets, and whatever fails: the events that are there stay as they
-- are, in their order, and new ones come behind them.
pub events_only_appended :
    (e : Env) (calls : List Call) (w : World)
    → (added : List EventRow) × ((run e calls w).tables.events ≡ w.tables.events ++ added)
events_only_appended e calls w =
    run-invariant
      (record {
        event_added = λ rows ev type lo hi h. Extends-insert_event w.tables.events rows ev type h;
        device_added = λ rows ev new h. Extends-insert_event w.tables.events rows ev 1 h;
      })
      e calls w ([], sym (append-nil w.tables.events))
