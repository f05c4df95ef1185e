-- ===== src/Operation/Trials.antt =====
-- manager/operation_engine.py: runs, submissions, restarts and resumptions of a small profile.
use fortifylab_archive.Operation.Acts.{Acts-IsSound, extended, idle, prepare_steps-stored, submits}
use fortifylab_archive.Operation.Conclusion.{Finished, run-Finished}
use fortifylab_archive.Operation.Occupancy.{IsSound}
use fortifylab_archive.Operation.Plan.{greatest, intersects}
use fortifylab_archive.Operation.Progress.{Progress, succeeded_keys, successes}
use fortifylab_archive.Operation.Restart.{Settled, reopen-Settled}
use fortifylab_archive.Operation.Resume.{Resumes, resume_install, resume_install-Finished}
use fortifylab_archive.Operation.Run.{Run, run}
use fortifylab_archive.Operation.Samples.{planner, start_steps}
use fortifylab_archive.Operation.Store.{
  Row, Store, active_components, create, events_of, reopen, row_of,
}
use fortifylab_archive.Operation.Submission.{
  Desk, Office, Submission, affected_of, prepare_steps, queued_document,
}
use fortifylab_archive.Operation.Types.{
  Document, Error, Event, Step, attempt_failed, queued, reversible, step_succeeded, succeeded,
}
use fortifylab_archive.Operation.World.{World, fails, returns, satisfied}
use fortifylab_archive.Prelude.{
  IsDistinct, List, String, [], arith, contains, distinct, false, if◌then◌else◌, length, none, refl,
  some, ℕ, ◌-◌, ◌==◌, ◌∷◌, ◌≡◌,
}
use fortifylab_archive.Prelude.Exec.{ok, raised}
use fortifylab_archive.Prelude.Table.{select}

-- The adapter fails on every attempt at `ssc`.
abbrev plant : World
plant = record {
  clock = λ n. n;
  monotonic = λ n. n;
  adapter = λ n s. if s.component_id == "ssc" then fails else returns;
  verifier = λ n component check. satisfied;
  requests = λ n. [];
  redact = λ text. text;
}

abbrev desk : Desk
desk = record { planner = planner; world = plant; service = none; state_provider = none }

abbrev starting : Submission
starting = record {
  operation = "start";
  components = "ssc" ∷ [];
  actor = "ops";
  retry_of = none;
  identity = none;
  approval_id = none;
  workflow = none;
}

abbrev begin : Document
begin = queued_document desk starting "op" 0 start_steps reversible

abbrev office : Office
office = record {
  engine = record { store = record { rows = []; log = [] }; cancelled_ids = []; reads = 0 };
  ledger = record { approvals = []; audit = []; reads = 0 };
}

abbrev opened : Run
opened = record {
  engine = record {
    store = record { rows = ("op", row_of plant.redact begin) ∷ []; log = [] };
    cancelled_ids = [];
    reads = 1;
  };
  document = begin;
}

opened-Progress : Progress "op" [] 0 none opened
unfolding succeeded_keys successes events_of select
opened-Progress = record {
  same_id = refl;
  stored = refl;
  recorded = refl;
  counted = refl;
  at_step = refl;
}

run-Finished_example :
    Finished plant "op" [] 0 start_steps (run plant start_steps opened)
    × (select "op" (run plant start_steps opened).engine.store.rows
        ≡ some (row_of plant.redact (run plant start_steps opened).document))
run-Finished_example =
    run-Finished plant "op" start_steps [] 0 none opened opened-Progress (omega arith)

abbrev crashed : Store
crashed = opened.engine.store

reopen-Settled_example :
    (active_components (reopen 7 crashed).rows ≡ [])
    × ((id : String) (row : Row)
        → select id crashed.rows ≡ some row
        → (row' : Row) × (select id (reopen 7 crashed).rows ≡ some row') × Settled 7 row row')
    × ((now' : ℕ) → reopen now' (reopen 7 crashed) ≡ reopen 7 crashed)
reopen-Settled_example = reopen-Settled 7 crashed

abbrev submitted : Office
submitted = (prepare_steps desk starting "op" start_steps office).1

Acts-IsSound_example : IsSound submitted.engine.store.rows
Acts-IsSound_example =
    Acts-IsSound desk office submitted refl
      (extended idle (submits starting "op" start_steps office))

accepted : (prepare_steps desk starting "op" start_steps office).0 ≡ ok begin
unfolding prepare_steps intersects contains distinct select greatest active_components create
accepted = refl

prepare_steps-stored_example :
    ((e : Error)
      → (prepare_steps desk starting "op" start_steps office).0 ≡ raised e
      → submitted.engine.store ≡ office.engine.store)
    × ((document : Document)
        → (prepare_steps desk starting "op" start_steps office).0 ≡ ok document
        → (select "op" submitted.engine.store.rows ≡ some (row_of plant.redact document))
          × (document.id ≡ "op")
          × (document.state ≡ queued)
          × (document.components ≡ affected_of start_steps)
          × IsDistinct document.components)
prepare_steps-stored_example = prepare_steps-stored desk starting "op" start_steps office

-- The previous operation has started `mysql`, and then ended.
abbrev earlier : List Event
earlier = step_succeeded "mysql" "start" 1 3 ∷ attempt_failed "ssc" "start" 2 false 9 ∷ []

abbrev resumed : Run × List Step
resumed = resume_install plant earlier begin start_steps opened.engine

resume_install-Finished_example :
    Resumes earlier start_steps resumed.1
    × Finished plant "op" [] (2 - length resumed.1) resumed.1 (run plant resumed.1 resumed.0)
    × ((run plant resumed.1 resumed.0).document.state ≡ succeeded
        → (run plant resumed.1 resumed.0).document.completed_steps ≡ 2)
resume_install-Finished_example =
    resume_install-Finished plant "op" earlier begin start_steps opened.engine refl
      opened-Progress.stored opened-Progress.recorded (omega arith)
