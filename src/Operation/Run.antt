-- ===== src/Operation/Run.antt =====
-- manager/operation_engine.py: `_run` and `_execute_step`. The document is a local dictionary of
-- the running thread; what other threads do is let in before each save and each boundary check.
use fortifylab_archive.Operation.Plan.{step}
use fortifylab_archive.Operation.Store.{current_operation, log_event, store_update}
use fortifylab_archive.Operation.Types.{
  Boundary, Document, Error, Event, Step, attempt_failed, cancelled, compensating_action, failed,
  irreversible, operation_failed, recovery_class, restore_required, reversible, running,
  step_cancelled, step_succeeded, step_timed_out, succeeded, timed_out,
}
use fortifylab_archive.Operation.World.{
  Effect, Engine, Verdict, World, broken, cancels, discard, fails, others, returns, satisfied, tick,
  times_out, unsatisfied,
}
use fortifylab_archive.Prelude.{
  Bool, List, String, [], contains, false, if◌then◌else◌, leb, none, some, suc, true, zero, ℕ, ◌+◌,
  ◌∷◌,
}
use fortifylab_archive.Prelude.Exec.{Exec, Outcome, ok, pure, raise, raised, ◌>>=◌, ◌>>◌}

-- The engine and the document of the running operation.
pub record Run : Type 0 where
  pub engine : Engine
  pub document : Document

abbrev pub Action : Type 0 → Type 0
Action A = Exec Run Error A

abbrev pub modify : (Document → Document) → Action Unit
modify f r = (ok tt, record r { document = f r.document })

next_action : Boundary → String
next_action reversible =
    "Review evidence and retry the idempotent action or apply its declared inverse."
next_action compensating_action =
    "Review completed steps and run the documented compensating action."
next_action restore_required =
    "Do not claim Helm rollback; restore and verify the bound backup before retrying."
next_action irreversible = "Stop automation and follow the documented manual recovery procedure."

unfoldable pub set_recovery : Document → Document
unfolding next_action
set_recovery document =
    let boundary = recovery_class (current_operation document) in
    record document {
      recovery = record {
        required = true;
        boundary = boundary;
        next_action = some (next_action boundary);
      };
    }

module _ (world : World) where
  unfoldable pub save : Action Unit
  save r =
      let e = others world r.engine in
      let document : Document = record r.document { updated_at = world.clock e.reads } in
      (
        ok tt,
        record {
          engine = record e {
            store = store_update world.redact document e.store;
            reads = suc e.reads;
          };
          document = document;
        },
      )

  unfoldable pub record_event : (ℕ → Event) → Action Unit
  record_event event r =
      let e = r.engine in
      (
        ok tt,
        record r {
          engine = record e {
            store = log_event world.redact r.document.id (event (world.clock e.reads)) e.store;
            reads = suc e.reads;
          };
        },
      )

  abbrev checked : Bool → ℕ → Run → Outcome Error Unit × Run
  checked true deadline r = (raised step_cancelled, r)
  checked false deadline r =
      let after_read : Run = record r { engine = tick r.engine } in
      if leb deadline (world.monotonic r.engine.reads)
      then (raised step_timed_out, after_read)
      else (ok tt, after_read)

  unfoldable pub check_boundary : ℕ → Action Unit
  check_boundary deadline r =
      let e = others world r.engine in
      checked (contains e.cancelled_ids r.document.id) deadline (record r { engine = e })

  abbrev pub effect : Effect → Action Unit
  effect returns r = (ok tt, r)
  effect fails r = (raised operation_failed, r)
  effect cancels r = (raised step_cancelled, r)
  effect times_out r = (raised step_timed_out, r)

  unfoldable pub execute : Step → Action Unit
  execute step r = effect (world.adapter r.engine.reads step) (record r { engine = tick r.engine })

  abbrev pub judged : Verdict → Action Unit
  judged satisfied r = (ok tt, r)
  judged unsatisfied r = (raised operation_failed, r)
  judged (broken what) r = effect what r

  unfoldable pub verify_one : String → String → Action Unit
  verify_one component_id check_id r =
      judged (world.verifier r.engine.reads component_id check_id)
        (record r { engine = tick r.engine })

  unfoldable pub verify_all : String → List String → ℕ → Action Unit
  verify_all component_id [] deadline = pure tt
  verify_all component_id (check_id ∷ checks) deadline =
      let rest = verify_all component_id checks deadline in
      do check_boundary deadline; verify_one component_id check_id; rest

  abbrev pub numbered : ℕ → Document → Document
  numbered attempt document = elim document.current_step [
    | none ↦ document
    | some c ↦ record document { current_step = some (record c { attempt = attempt }) }
  ]

  abbrev pub deadline_of : Step → Action ℕ
  deadline_of step r = (
    ok (world.monotonic r.engine.reads + step.timeout_seconds),
    record r { engine = tick r.engine },
  )

  -- The body of the `try` in the loop over attempts.
  unfoldable pub attempt_once : Step → ℕ → ℕ → Action Unit
  attempt_once step attempt deadline = do
    check_boundary deadline
    execute step
    verify_all step.component_id step.verify deadline
    record_event (step_succeeded step.component_id step.operation attempt)

  -- The two `except` clauses. `left` counts the attempts after this one.
  unfoldable pub handled : Step → ℕ → ℕ → Action Unit → Outcome Error Unit → Action Unit
  handled step attempt left again (ok _) = pure tt
  handled step attempt left again (raised step_cancelled) = raise step_cancelled
  handled step attempt left again (raised step_timed_out) = raise step_timed_out
  handled step attempt zero again (raised e) =
      record_event (attempt_failed step.component_id step.operation attempt false) >> raise e
  handled step attempt (suc left) again (raised e) =
      record_event (attempt_failed step.component_id step.operation attempt true) >> again

  -- The loop over attempts, from the given one on; with no attempt left it falls through.
  unfoldable pub attempts_from : Step → ℕ → ℕ → Action Unit
  unfolding handled
  attempts_from step attempt zero = pure tt
  attempts_from step attempt (suc left) =
      let again = attempts_from step (suc attempt) left in
      do
        modify (numbered attempt)
        save
        deadline ← deadline_of step
        (λ r.
            let (result, r') = attempt_once step attempt deadline r in
            handled step attempt left again result r')

  unfoldable pub execute_step : Step → Action Unit
  execute_step step = attempts_from step 1 step.max_attempts

  abbrev pub started : ℕ → Step → Document → Document
  started number step document = record document {
    current_step = some (record {
      number = number;
      component = step.component_id;
      operation = step.operation;
      attempt = 0;
    });
  }

  unfoldable pub run_steps : ℕ → List Step → Action Unit
  run_steps number [] = pure tt
  run_steps number (step ∷ steps) =
      let rest = run_steps (suc number) steps in
      do
        modify (started number step)
        save
        execute_step step
        modify (λ d. record d { completed_steps = number })
        save
        rest

  -- The end of `_run`: the state for each way out of the `try`.
  unfoldable pub concluded : Outcome Error Unit → Document → Document
  concluded (ok _) d = record d { state = succeeded; current_step = none; error = none }
  concluded (raised step_cancelled) d =
      set_recovery (record d { state = cancelled; error = some "Operation was cancelled" })
  concluded (raised step_timed_out) d =
      set_recovery
        (record d { state = timed_out; error = some "A step exceeded its bounded deadline" })
  concluded (raised _) d = set_recovery (record d {
    state = failed;
    error = some "A lifecycle step failed; inspect sanitized events";
  })

  -- `finally`: the request for a cancellation is forgotten, and the document saved.
  unfoldable pub finish : Outcome Error Unit → Action Unit
  finish result r =
      let document = concluded result r.document in
      save (record {
        engine = record r.engine { cancelled_ids = discard document.id r.engine.cancelled_ids };
        document = document;
      })

  abbrev pub begun : Run → Run
  begun r = (save (record r { document = record r.document { state = running } })).1

  unfoldable pub run : List Step → Run → Run
  run steps r =
      let first = begun r in
      let (result, r') = run_steps (first.document.completed_steps + 1) steps first in
      (finish result r').1
