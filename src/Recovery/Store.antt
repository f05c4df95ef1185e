-- ===== src/Recovery/Store.antt =====
-- manager/backup_restore.py: RecoveryStore, its two tables.
use fortifylab_archive.Prelude.{
  Bool, Option, String, [], if◌then◌else◌, none, not, some, ℕ, ◌&&◌, ◌∷◌,
}
use fortifylab_archive.Prelude.Exec.{Outcome, ok, or_error, raised}
use fortifylab_archive.Prelude.Table.{Table, put, select}
use fortifylab_archive.Recovery.Types.{
  Artifact, Operation, RecoveryError, incomplete_artifact, interrupted, is_terminal,
  recovery_failed,
}

-- A row of `recovery_artifacts`.
pub record ArtifactRow : Type 0 where
  pub complete : Bool
  pub payload : Artifact

pub record Store : Type 0 where
  pub operations : Table Operation
  pub artifacts : Table ArtifactRow

-- `RecoveryStore.__init__` on the rows of an earlier process. The column `state` always is the
-- state of the document, since both are written together.
abbrev pub interrupted_at : ℕ → Operation → Operation
interrupted_at now o = if is_terminal o.state then o else record o {
  state = interrupted;
  error = some "Manager restarted before recovery completed";
  updated_at = now;
}

unfoldable pub interrupt_all : ℕ → Table Operation → Table Operation
interrupt_all now [] = []
interrupt_all now ((id, o) ∷ rest) = (id, interrupted_at now o) ∷ interrupt_all now rest

unfoldable pub reopen : ℕ → Store → Store
unfolding interrupt_all
reopen now store = record store { operations = interrupt_all now store.operations }

-- `put_operation`, INSERT OR REPLACE.
unfoldable pub put_operation : Operation → Store → Store
unfolding put
put_operation document store = record store {
  operations = put document.id document store.operations;
}

unfoldable pub operation : String → Store → Outcome RecoveryError Operation
unfolding select
operation operation_id store =
    or_error (select operation_id store.operations)
      (recovery_failed "recovery operation was not found")

unfoldable pub put_artifact : Artifact → Bool → Store → Store
unfolding put
put_artifact document complete store = record store {
  artifacts = put document.id (record { complete = complete; payload = document }) store.artifacts;
}

abbrev pub usable : Bool → Option ArtifactRow → Outcome RecoveryError Artifact
usable require_complete none =
    raised (incomplete_artifact "backup artifact is unavailable or incomplete")
usable require_complete (some row) =
    if require_complete && not row.complete
    then raised (incomplete_artifact "backup artifact is unavailable or incomplete")
    else ok row.payload

unfoldable pub artifact : String → Bool → Store → Outcome RecoveryError Artifact
unfolding select
artifact backup_id require_complete store =
    usable require_complete (select backup_id store.artifacts)
