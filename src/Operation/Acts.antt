-- ===== src/Operation/Acts.antt =====
-- manager/operation_engine.py: the engine between restarts, as a relation of the steps that its
-- threads take under the lock, and the promise that its components are never shared.
use fortifylab_archive.Authorization.Service.{now}
use fortifylab_archive.Operation.Bounds.{components_of}
use fortifylab_archive.Operation.Entry.{prepare_steps-Entered}
use fortifylab_archive.Operation.Occupancy.{
  IsSound, cancel-IsSound, reopened-IsSound, written-IsSound,
}
use fortifylab_archive.Operation.Store.{Row, reopen, row_of, store_update}
use fortifylab_archive.Operation.Submission.{Desk, Office, Submission, affected_of, prepare_steps}
use fortifylab_archive.Operation.Types.{Document, Error, Step, is_active, queued}
use fortifylab_archive.Operation.World.{cancel}
use fortifylab_archive.Prelude.{
  IsDistinct, List, String, [], distinct-IsDistinct, refl, some, subst, sym, true, ℕ, ◌≡◌,
}
use fortifylab_archive.Prelude.Exec.{ok, raised}
use fortifylab_archive.Prelude.Table.{select}

module _ (desk : Desk) where
  -- One step of some thread: a submission, a cancellation, a save by the thread that runs an
  -- active operation, of its own document, or a restart of the process.
  pub data Act : Office → Office → Type 0 where
    submits :
        (submission : Submission) (fresh : String) (steps : List Step) (o : Office)
        → Act o (prepare_steps desk submission fresh steps o).1
    cancels :
        (id actor : String) (o : Office)
        → Act o (record o { engine = (cancel desk.world id actor o.engine).1 })
    saves :
        (document : Document) (row : Row) (o : Office)
        → select document.id o.engine.store.rows ≡ some row
        → is_active row.column ≡ true
        → document.components ≡ row.payload.components
        → Act o (record o {
          engine = record o.engine {
            store = store_update desk.world.redact document o.engine.store;
          };
        })
    restarts :
        (now : ℕ) (o : Office)
        → Act o (record o {
          engine = record o.engine { store = reopen now o.engine.store; cancelled_ids = [] };
        })

  pub data Acts (o : Office) : Office → Type 0 where
    idle : Acts o o
    extended : {p q : Office} → Acts o p → Act p q → Acts o q

  Act-IsSound : {o p : Office} → Act o p → IsSound o.engine.store.rows → IsSound p.engine.store.rows
  unfolding store_update reopen
  Act-IsSound (submits submission fresh steps o) x =
      (prepare_steps-Entered desk submission fresh steps o).sound x
  Act-IsSound (cancels id actor o) x = cancel-IsSound desk.world id actor o.engine x
  Act-IsSound (saves document row o found active same) x =
      written-IsSound document.id row (row_of desk.world.redact document) o.engine.store.rows found
        same (λ _. active) (refl, refl) x
  Act-IsSound (restarts now o) x = reopened-IsSound now o.engine.store.rows x

  -- Whatever submissions, cancellations, saves of running operations and restarts follow each
  -- other on an engine that starts with no operation, two different operations that are queued,
  -- running or cancelling at one time have no component in common, and every row repeats the
  -- state and the identifier of its document.
  pub Acts-IsSound :
      (o p : Office) → o.engine.store.rows ≡ [] → Acts o p → IsSound p.engine.store.rows
  Acts-IsSound o p none_yet acts = follow acts
    where
      follow : {q : Office} → Acts o q → IsSound q.engine.store.rows
      follow idle = subst IsSound (sym none_yet) (record {
        exclusive = λ i j a b h. absurd (unfold select in cc);
        consistent = λ i a h. absurd (unfold select in cc);
      })
      follow (extended before act) = Act-IsSound act (follow before)

  -- A submission that conflicts with an active operation, is not authorised, has no steps or meets
  -- a used identifier changes no operation. One that returns a document has stored it as queued,
  -- under its fresh identifier, for the components of its steps, each once.
  pub prepare_steps-stored :
      (submission : Submission) (fresh : String) (steps : List Step) (o : Office)
      → ((e : Error)
          → (prepare_steps desk submission fresh steps o).0 ≡ raised e
          → (prepare_steps desk submission fresh steps o).1.engine.store ≡ o.engine.store)
        × ((document : Document)
            → (prepare_steps desk submission fresh steps o).0 ≡ ok document
            → (select fresh (prepare_steps desk submission fresh steps o).1.engine.store.rows
                ≡ some (row_of desk.world.redact document))
              × (document.id ≡ fresh)
              × (document.state ≡ queued)
              × (document.components ≡ affected_of steps)
              × IsDistinct document.components)
  prepare_steps-stored submission fresh steps o =
      let w = prepare_steps-Entered desk submission fresh steps o in
      (
        w.unchanged,
        λ document h.
            let (a, b, c, d) = w.present document h in
            (a, b, c, d, subst IsDistinct (sym d) (distinct-IsDistinct (components_of steps))),
      )
