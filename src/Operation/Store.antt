-- ===== src/Operation/Store.antt =====
-- manager/operation_engine.py: `OperationStore`, its two tables and what a restart does to them.
-- Of the texts of a document only the actor is free: all others are identifiers, constants of the
-- code or times, which the redaction of `sanitize_record` leaves alone. So `redact` acts on actors.
use fortifylab_archive.Operation.Types.{
  Document, Error, Event, State, cancellation_requested, integrity_error, interrupted, is_active,
  manager_restarted, operation_not_found, recovery_class,
}
use fortifylab_archive.Prelude.{
  Bool, List, Option, String, [], false, if◌then◌else◌, none, not, some, true, ℕ, ◌&&◌, ◌++◌, ◌==◌,
  ◌∷◌,
}
use fortifylab_archive.Prelude.Exec.{Outcome, after, ok, or_error, raised}
use fortifylab_archive.Prelude.Table.{Table, select, update}

-- A row of `lifecycle_operations`: the state column and the payload.
pub record Row : Type 0 where
  pub column : State
  pub payload : Document

pub record Store : Type 0 where
  pub rows : Table Row
  pub log : List (String × Event)

abbrev pub row_of : (String → String) → Document → Row
row_of redact document = record {
  column = document.state;
  payload = record document { actor = redact document.actor };
}

abbrev pub redacted : (String → String) → Event → Event
redacted redact (cancellation_requested actor at) = cancellation_requested (redact actor) at
redacted redact event = event

module _ (redact : String → String) where
  abbrev pub create_new : Option Row → Document → Store → Outcome Error Unit × Store
  create_new (some _) document s = (raised integrity_error, s)
  create_new none document s =
      (ok tt, record s { rows = s.rows ++ (document.id, row_of redact document) ∷ [] })

  unfoldable pub create : Document → Store → Outcome Error Unit × Store
  create document s = create_new (select document.id s.rows) document s

  unfoldable pub store_update : Document → Store → Store
  store_update document s = record s { rows = update document.id (row_of redact document) s.rows }

  unfoldable pub log_event : String → Event → Store → Store
  log_event operation_id event s = record s {
    log = s.log ++ (operation_id, redacted redact event) ∷ [];
  }

unfoldable pub get : String → Store → Outcome Error Document
get operation_id s =
    after (or_error (select operation_id s.rows) operation_not_found) (λ row. ok row.payload)

unfoldable pub events_of : String → List (String × Event) → List Event
events_of operation_id [] = []
events_of operation_id ((j, event) ∷ log) =
    let rest = events_of operation_id log in if j == operation_id then event ∷ rest else rest

-- The components of the operations whose state column is active.
unfoldable pub active_components : Table Row → List String
active_components [] = []
active_components ((_, row) ∷ rows) =
    let rest = active_components rows in
    if is_active row.column then row.payload.components ++ rest else rest

abbrev pub current_operation : Document → String
current_operation document = elim document.current_step [
  | none ↦ document.operation
  | some c ↦ c.operation
]

unfoldable pub set_interrupted_recovery : Document → Document
set_interrupted_recovery document = record document {
  recovery = record {
    required = true;
    boundary = recovery_class (current_operation document);
    next_action =
        some
          "Review retained evidence and authoritative health before retrying; a Manager restart does not prove rollback.";
  };
}

-- The UPDATE over the active rows at start-up.
abbrev pub interrupt_row : ℕ → Row → Row
interrupt_row now row =
    if is_active row.column
    then record {
      column = interrupted;
      payload = record row.payload {
        state = interrupted;
        error = some "Manager restarted before the operation completed";
        updated_at = now;
      };
    }
    else row

unfoldable pub interrupt_rows : ℕ → Table Row → Table Row
interrupt_rows now [] = []
interrupt_rows now ((k, row) ∷ rows) = (k, interrupt_row now row) ∷ interrupt_rows now rows

abbrev pub is_interrupted : State → Bool
is_interrupted interrupted = true
is_interrupted _ = false

-- The loop over the interrupted rows: those without a required recovery get one, and an event.
abbrev pub needs_recovery : Row → Bool
needs_recovery row = is_interrupted row.column && not row.payload.recovery.required

abbrev pub recover_row : Row → Row
recover_row row =
    if needs_recovery row
    then record row { payload = set_interrupted_recovery row.payload }
    else row

unfoldable pub recover_rows : Table Row → Table Row
recover_rows [] = []
recover_rows ((k, row) ∷ rows) = (k, recover_row row) ∷ recover_rows rows

unfoldable pub restart_events : Table Row → List (String × Event)
restart_events [] = []
restart_events ((k, row) ∷ rows) =
    let rest = restart_events rows in
    if needs_recovery row then (k, manager_restarted row.payload.updated_at) ∷ rest else rest

-- `OperationStore.__init__` on the tables that an earlier process left.
unfoldable pub reopen : ℕ → Store → Store
unfolding interrupt_rows recover_rows restart_events
reopen now s = record {
  rows = recover_rows (interrupt_rows now s.rows);
  log = s.log ++ restart_events (interrupt_rows now s.rows);
}
