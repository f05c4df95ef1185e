-- ===== src/Operation/Attempts.antt =====
-- manager/operation_engine.py: `_execute_step` records the success of its step exactly if it
-- returns, whatever the attempts before it did.
use fortifylab_archive.Operation.Actions.{
  check_boundary-P, execute-P, failure-P, numbered-P, save-P, success-P, ticked-P, verify_all-P,
}
use fortifylab_archive.Operation.Progress.{Key, Progress, key}
use fortifylab_archive.Operation.Run.{
  Action, Run, attempt_once, attempts_from, check_boundary, deadline_of, execute, execute_step,
  handled, modify, numbered, record_event, save, verify_all,
}
use fortifylab_archive.Operation.Types.{
  Error, Step, attempt_failed, step_cancelled, step_succeeded, step_timed_out,
}
use fortifylab_archive.Operation.World.{World, tick}
use fortifylab_archive.Prelude.{
  List, Option, String, [], arith, false, suc, true, zero, ℕ, ◌++◌, ◌+◌, ◌<◌, ◌∷◌,
}
use fortifylab_archive.Prelude.Exec.{Outcome, ok, raise, raised, then_rule, ◌>>=◌, ◌>>◌}

module _ (world : World) (id : String) (done : List Key) (completed : ℕ)
    (current : Option Key) where
  abbrev P : Run → Type 0
  P = Progress id done completed current

  -- After an attempt, or a loop of attempts, at `s`: the success is recorded exactly if it returned.
  abbrev pub Attempted : Step → Outcome Error Unit → Run → Type 0
  Attempted s (ok _) r = Progress id (done ++ key s ∷ []) completed current r
  Attempted s (raised _) r = Progress id done completed current r

  attempt_once-P :
      (s : Step) (attempt deadline : ℕ) (r : Run)
      → P r
      → Attempted s
          (attempt_once world s attempt deadline r).0
          (attempt_once world s attempt deadline r).1
  unfolding attempt_once record_event
  attempt_once-P s attempt deadline =
      then_rule P (Attempted s) (check_boundary world deadline)
        (execute world s
          >> (verify_all world s.component_id s.verify deadline
              >> record_event world (step_succeeded s.component_id s.operation attempt)))
        (λ e t q. q) (check_boundary-P world id done completed current deadline)
        (then_rule P (Attempted s) (execute world s)
          (verify_all world s.component_id s.verify deadline
            >> record_event world (step_succeeded s.component_id s.operation attempt))
          (λ e t q. q) (execute-P world id done completed current s)
          (then_rule P (Attempted s) (verify_all world s.component_id s.verify deadline)
            (record_event world (step_succeeded s.component_id s.operation attempt)) (λ e t q. q)
            (verify_all-P world id done completed current s.component_id s.verify deadline)
            (success-P world id done completed current s.component_id s.operation attempt)))

  handled-P :
      (s : Step) (attempt left : ℕ) (again : Action Unit)
      → (0 < left → (r : Run) → P r → Attempted s (again r).0 (again r).1)
      → (result : Outcome Error Unit) (r : Run) → Attempted s result r
      → Attempted s
          (handled world s attempt left again result r).0
          (handled world s attempt left again result r).1
  unfolding handled
  handled-P s attempt left again retry (ok _) r p = p
  handled-P s attempt left again retry (raised step_cancelled) r p = p
  handled-P s attempt left again retry (raised step_timed_out) r p = p
  handled-P s attempt zero again retry (raised e) r p =
      then_rule P (Attempted s)
        (record_event world (attempt_failed s.component_id s.operation attempt false)) (raise e)
        (λ x t q. q)
        (failure-P world id done completed current s.component_id s.operation attempt false)
        (λ t q. q) r p
  handled-P s attempt (suc left) again retry (raised e) r p =
      then_rule P (Attempted s)
        (record_event world (attempt_failed s.component_id s.operation attempt true)) again
        (λ x t q. q)
        (failure-P world id done completed current s.component_id s.operation attempt true)
        (retry (omega arith)) r p

  attempts_from-P :
      (s : Step) (attempt left : ℕ)
      → 0 < left
      → (r : Run) → P r
      → Attempted s
          (attempts_from world s attempt left r).0
          (attempts_from world s attempt left r).1
  unfolding attempts_from
  attempts_from-P s attempt zero h = absurd (omega arith)
  attempts_from-P s attempt (suc left) h =
      then_rule P (Attempted s) (modify (numbered world attempt)) (save world >> tried) (λ e t q. q)
        (numbered-P world id done completed current attempt)
        (then_rule P (Attempted s) (save world) tried (λ e t q. q)
          (save-P world id done completed current)
          (λ t q.
            let deadline : ℕ = world.monotonic t.engine.reads + s.timeout_seconds in
            let t' : Run = record t { engine = tick t.engine } in
            handled-P s attempt left (attempts_from world s (suc attempt) left)
              (attempts_from-P s (suc attempt) left) (attempt_once world s attempt deadline t').0
              (attempt_once world s attempt deadline t').1
              (attempt_once-P s attempt deadline t'
                (ticked-P world id done completed current t q))))
    where
      tried : Action Unit
      tried = deadline_of world s >>= λ deadline r.
          let (result, r') = attempt_once world s attempt deadline r in
          handled world s attempt left (attempts_from world s (suc attempt) left) result r'

  -- A step with an attempt to make leaves the successes recorded before it, followed by its own
  -- exactly if it returns.
  pub execute_step-P :
      (s : Step)
      → 0 < s.max_attempts
      → (r : Run) → P r
      → Attempted s (execute_step world s r).0 (execute_step world s r).1
  unfolding execute_step
  execute_step-P s h = attempts_from-P s 1 s.max_attempts h
