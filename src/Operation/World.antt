-- ===== src/Operation/World.antt =====
-- manager/operation_engine.py: what the engine reads from its collaborators and from other
-- threads, as functions of a counter of such reads, and the state that the threads share.
use fortifylab_archive.Operation.Store.{Row, Store, log_event, store_update}
use fortifylab_archive.Operation.Types.{
  Document, Error, Step, cancellation_requested, cancelling, invalid_operation, is_terminal,
  operation_not_found,
}
use fortifylab_archive.Prelude.{
  List, Option, String, [], if◌then◌else◌, keep, none, not, some, suc, ℕ, ◌==◌, ◌∷◌,
}
use fortifylab_archive.Prelude.Exec.{Outcome, ok, raised}
use fortifylab_archive.Prelude.Table.{select}

-- What a call of the adapter or of the verifier does; the last three are exceptions.
pub data Effect : Type 0 where
  returns : Effect
  fails cancels times_out : Effect

pub data Verdict : Type 0 where
  satisfied unsatisfied : Verdict
  broken : Effect → Verdict

-- A call of `cancel` that another thread completes.
pub record Request : Type 0 where
  pub operation_id : String
  pub actor : String

pub record World : Type 0 where
  pub clock : ℕ → ℕ
  pub monotonic : ℕ → ℕ
  pub adapter : ℕ → Step → Effect
  pub verifier : ℕ → String → String → Verdict
  pub requests : ℕ → List Request
  pub redact : String → String

pub record Engine : Type 0 where
  pub store : Store
  pub cancelled_ids : List String
  pub reads : ℕ

abbrev pub tick : Engine → Engine
tick e = record e { reads = suc e.reads }

-- `self._cancelled.discard(operation_id)`
unfoldable pub discard : String → List String → List String
discard operation_id ids = keep (λ j. not (j == operation_id)) ids

module _ (world : World) where
  abbrev pub cancel_found : Option Row → String → String → Engine → Outcome Error Document × Engine
  cancel_found none operation_id actor e = (raised operation_not_found, e)
  cancel_found (some row) operation_id actor e =
      if is_terminal row.payload.state
      then (ok row.payload, e)
      else let now = world.clock e.reads in
        let document : Document = record row.payload { state = cancelling; updated_at = now } in
        (
          ok document,
          record e {
            store =
                log_event world.redact operation_id (cancellation_requested actor now)
                  (store_update world.redact document e.store);
            cancelled_ids = operation_id ∷ e.cancelled_ids;
            reads = suc e.reads;
          },
        )

  -- `cancel`, without the identity check of an engine that has an authorization service.
  unfoldable pub cancel : String → String → Engine → Outcome Error Document × Engine
  cancel operation_id actor e =
      if actor == ""
      then (raised invalid_operation, e)
      else cancel_found (select operation_id e.store.rows) operation_id actor e

  unfoldable pub cancel_each : List Request → Engine → Engine
  cancel_each [] e = e
  cancel_each (r ∷ rs) e = cancel_each rs (cancel r.operation_id r.actor e).1

  -- What other threads do before the running thread goes on.
  unfoldable pub others : Engine → Engine
  others e = cancel_each (world.requests e.reads) (tick e)
