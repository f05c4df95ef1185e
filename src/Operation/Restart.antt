-- ===== src/Operation/Restart.antt =====
-- manager/operation_engine.py: what `OperationStore.__init__` makes of the rows that an earlier
-- process left behind.
use fortifylab_archive.Operation.Store.{
  Row, Store, active_components, current_operation, interrupt_row, interrupt_rows, is_interrupted,
  needs_recovery, recover_row, recover_rows, reopen, restart_events, set_interrupted_recovery,
}
use fortifylab_archive.Operation.Types.{
  Document, State, interrupted, is_active, manager_restarted, queued, recovery_class,
}
use fortifylab_archive.Prelude.{
  String, [], ap, arith, false, if◌then◌else◌, none, refl, some, subst, sym, true, ℕ, ◌++◌, ◌∙◌,
  ◌∷◌, ◌≡◌,
}
use fortifylab_archive.Prelude.Table.{Table, select}
use mathlib.Core.List.{append-nil}

-- A row after a restart.
abbrev pub restarted : ℕ → Row → Row
restarted now row = recover_row (interrupt_row now row)

pub select-reopen :
    (now : ℕ) (id : String) (t : Table Row)
    → select id (recover_rows (interrupt_rows now t))
      ≡ elim (select id t) [ none ↦ none | some row ↦ some (restarted now row) ]
unfolding select recover_rows interrupt_rows
select-reopen now id [] = refl
select-reopen now id ((k, row) ∷ t) = ground (arith, select-reopen now id t)

-- What is promised of a row: it is not active; it was interrupted if it was active, and then it
-- asks for recovery within the class of its current operation; and it is as it was if it had ended
-- in any other way.
pub record Settled (now : ℕ) (row row' : Row) : Type 0 where
  pub inactive : is_active row'.column ≡ false
  pub stopped : is_active row.column ≡ true → row'.column ≡ interrupted
  pub required : is_interrupted row'.column ≡ true → row'.payload.recovery.required ≡ true
  pub boundary :
      is_interrupted row'.column ≡ true
      → row.payload.recovery.required ≡ false
      → row'.payload.recovery.boundary ≡ recovery_class (current_operation row.payload)
  pub kept : is_active row.column ≡ false → is_interrupted row.column ≡ false → row' ≡ row

pub by_state :
    (now : ℕ) (column : State) (document : Document)
    → Settled now
        (record { column = column; payload = document })
        (restarted now (record { column = column; payload = document }))
unfolding set_interrupted_recovery
by_state now queued d = record {
  inactive = ground arith;
  stopped = λ h. ground arith;
  required = λ h. ground arith;
  boundary = λ h k. ground arith;
  kept = λ h k. ground arith;
}
by_state now column d = record {
  inactive = ground arith;
  stopped = λ h. ground arith;
  required = λ h. ground arith;
  boundary = λ h k. ground arith;
  kept = λ h k. ground arith;
}

active_recovered :
    (now : ℕ) (t : Table Row) → active_components (recover_rows (interrupt_rows now t)) ≡ []
unfolding active_components recover_rows interrupt_rows
active_recovered now [] = refl
active_recovered now ((k, row) ∷ t) =
    ground (arith, active_recovered now t, (by_state now row.column row.payload).inactive)

twice_row :
    (now now' : ℕ) (column : State) (document : Document)
    → restarted now' (restarted now (record { column = column; payload = document }))
      ≡ restarted now (record { column = column; payload = document })
unfolding set_interrupted_recovery
twice_row now now' queued d = ground arith
twice_row now now' column d = ground arith

rows_twice :
    (now now' : ℕ) (t : Table Row)
    → recover_rows (interrupt_rows now' (recover_rows (interrupt_rows now t)))
      ≡ recover_rows (interrupt_rows now t)
unfolding recover_rows interrupt_rows
rows_twice now now' [] = refl
rows_twice now now' ((k, row) ∷ t) =
    λ i. (k, twice_row now now' row.column row.payload i) ∷ rows_twice now now' t i

quiet_row :
    (now now' : ℕ) (column : State) (document : Document)
    → needs_recovery
        (interrupt_row now' (restarted now (record { column = column; payload = document })))
      ≡ false
unfolding set_interrupted_recovery
quiet_row now now' queued d = ground arith
quiet_row now now' column d = ground arith

events_twice :
    (now now' : ℕ) (t : Table Row)
    → restart_events (interrupt_rows now' (recover_rows (interrupt_rows now t))) ≡ []
unfolding restart_events recover_rows interrupt_rows
events_twice now now' [] = refl
events_twice now now' ((k, row) ∷ t) =
    subst
      (λ b.
        (if b
          then (k, manager_restarted (interrupt_row now' (restarted now row)).payload.updated_at)
            ∷ restart_events (interrupt_rows now' (recover_rows (interrupt_rows now t)))
          else restart_events (interrupt_rows now' (recover_rows (interrupt_rows now t))))
        ≡ [])
      (sym (quiet_row now now' row.column row.payload)) (events_twice now now' t)

-- Reopening the store after a restart leaves no component held by an active operation. Every
-- stored operation is settled, and keeps its identifier: an active one becomes interrupted, an
-- interrupted one asks for recovery, within the class of the operation of its current step if
-- nothing asked for it before, and any other is as it was. Reopening it once more changes nothing.
pub reopen-Settled :
    (now : ℕ) (s : Store)
    → (active_components (reopen now s).rows ≡ [])
      × ((id : String) (row : Row)
          → select id s.rows ≡ some row
          → (row' : Row) × (select id (reopen now s).rows ≡ some row') × Settled now row row')
      × ((now' : ℕ) → reopen now' (reopen now s) ≡ reopen now s)
unfolding reopen
reopen-Settled now s = (
  active_recovered now s.rows,
  λ id row found.
      (restarted now row, rw select-reopen (rw found refl), by_state now row.column row.payload),
  λ now'. λ i. record {
    rows = rows_twice now now' s.rows i;
    log =
        (ap (λ l. (s.log ++ restart_events (interrupt_rows now s.rows)) ++ l)
              (events_twice now now' s.rows)
            ∙ append-nil (s.log ++ restart_events (interrupt_rows now s.rows)))
          i;
  },
)
