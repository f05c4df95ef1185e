-- ===== src/Operation/Actions.antt =====
-- manager/operation_engine.py: each action of a run keeps the progress, but for the success of a
-- step, which is recorded and then counted.
use fortifylab_archive.Operation.Progress.{
  Key, Progress, Undisturbed, key, others-Undisturbed, quiet_event, recorded-store_update,
  rows-log_event, stored-store_update, succeeded_keys, success_event, successes,
}
use fortifylab_archive.Operation.Run.{
  Run, check_boundary, effect, execute, judged, modify, numbered, record_event, save, started,
  verify_all, verify_one,
}
use fortifylab_archive.Operation.Store.{log_event}
use fortifylab_archive.Operation.Types.{Step, attempt_failed, step_succeeded}
use fortifylab_archive.Operation.World.{
  Effect, Verdict, World, broken, cancel_each, cancels, fails, others, returns, satisfied, tick,
  times_out, unsatisfied,
}
use fortifylab_archive.Prelude.{
  Bool, Bool-cases, List, Option, Option-cases, String, [], ap, arith, contains, inl, inr, is_some,
  leb, refl, some, subst, sym, true, ℕ, ◌++◌, ◌∙◌, ◌∷◌, ◌≡◌,
}
use fortifylab_archive.Prelude.Exec.{Keeps, Keeps-then, ◌>>◌}
use fortifylab_archive.Prelude.Table.{select}

module _ (world : World) (id : String) (done : List Key) (completed : ℕ)
    (current : Option Key) where
  abbrev P : Run → Type 0
  P = Progress id done completed current

  pub others-P : (r : Run) → P r → P (record r { engine = others world r.engine })
  unfolding others
  others-P r p =
      let u : Undisturbed world id (tick r.engine)
          (cancel_each world (world.requests r.engine.reads) (tick r.engine)) =
        others-Undisturbed world id (world.requests r.engine.reads) (tick r.engine) in
      record {
        same_id = p.same_id;
        stored = u.stored p.stored;
        recorded = u.recorded ∙ p.recorded;
        counted = p.counted;
        at_step = p.at_step;
      }

  pub save-P : Keeps P (save world)
  unfolding save
  save-P r p =
      let q : P (record r { engine = others world r.engine }) = others-P r p in
      record {
        same_id = q.same_id;
        stored =
            stored-store_update world id
              (record r.document { updated_at = world.clock (others world r.engine).reads })
              (others world r.engine).store q.stored;
        recorded =
            recorded-store_update world id
              (record r.document { updated_at = world.clock (others world r.engine).reads })
              (others world r.engine).store
            ∙ q.recorded;
        counted = q.counted;
        at_step = q.at_step;
      }

  pub check_boundary-P : (deadline : ℕ) → Keeps P (check_boundary world deadline)
  unfolding check_boundary
  check_boundary-P deadline r p =
      let q : P (record r { engine = others world r.engine }) = others-P r p in
      elim (Bool-cases (contains (others world r.engine).cancelled_ids r.document.id)) [
        | inl stop ↦ rw stop q
        | inr go ↦
            rw go
              (elim (Bool-cases (leb deadline (world.monotonic (others world r.engine).reads))) [
                | inl late ↦ rw late (ticked (record r { engine = others world r.engine }) q)
                | inr early ↦ rw early (ticked (record r { engine = others world r.engine }) q)
              ])
      ]
    where
      ticked : (t : Run) → P t → P (record t { engine = tick t.engine })
      ticked t q = record {
        same_id = q.same_id;
        stored = q.stored;
        recorded = q.recorded;
        counted = q.counted;
        at_step = q.at_step;
      }

  pub ticked-P : (r : Run) → P r → P (record r { engine = tick r.engine })
  ticked-P r q = record {
    same_id = q.same_id;
    stored = q.stored;
    recorded = q.recorded;
    counted = q.counted;
    at_step = q.at_step;
  }

  effect-P : (what : Effect) → Keeps P (effect world what)
  effect-P returns r p = p
  effect-P fails r p = p
  effect-P cancels r p = p
  effect-P times_out r p = p

  judged-P : (v : Verdict) → Keeps P (judged world v)
  judged-P satisfied r p = p
  judged-P unsatisfied r p = p
  judged-P (broken what) r p = effect-P what r p

  pub execute-P : (s : Step) → Keeps P (execute world s)
  unfolding execute
  execute-P s r p =
      effect-P (world.adapter r.engine.reads s) (record r { engine = tick r.engine }) (ticked-P r p)

  verify_one-P : (component_id check_id : String) → Keeps P (verify_one world component_id check_id)
  unfolding verify_one
  verify_one-P component_id check_id r p =
      judged-P (world.verifier r.engine.reads component_id check_id)
        (record r { engine = tick r.engine }) (ticked-P r p)

  pub verify_all-P :
      (component_id : String) (checks : List String) (deadline : ℕ)
      → Keeps P (verify_all world component_id checks deadline)
  unfolding verify_all
  verify_all-P component_id [] deadline = λ r p. p
  verify_all-P component_id (check_id ∷ checks) deadline =
      Keeps-then P (check_boundary world deadline)
        (verify_one world component_id check_id >> verify_all world component_id checks deadline)
        (check_boundary-P deadline)
        (Keeps-then P (verify_one world component_id check_id)
          (verify_all world component_id checks deadline) (verify_one-P component_id check_id)
          (verify_all-P component_id checks deadline))

  -- A failed attempt is recorded, and is no success.
  pub failure-P :
      (component operation : String) (attempt : ℕ) (retrying : Bool)
      → Keeps P (record_event world (attempt_failed component operation attempt retrying))
  unfolding record_event
  failure-P component operation attempt retrying r p = record {
    same_id = p.same_id;
    stored =
        subst (λ t. is_some (select id t) ≡ true)
          (sym (
            rows-log_event world id r.document.id
              (attempt_failed component operation attempt retrying (world.clock r.engine.reads))
              r.engine.store))
          p.stored;
    recorded =
        quiet_event world.redact id r.document.id
          (attempt_failed component operation attempt retrying (world.clock r.engine.reads))
          r.engine.store (unfold successes in refl)
        ∙ p.recorded;
    counted = p.counted;
    at_step = p.at_step;
  }

  pub success-P :
      (component operation : String) (attempt : ℕ) (r : Run)
      → P r
      → Progress id
          (done ++ (component, operation) ∷ [])
          completed
          current
          (record_event world (step_succeeded component operation attempt) r).1
  unfolding record_event
  success-P component operation attempt r p = record {
    same_id = p.same_id;
    stored =
        subst (λ t. is_some (select id t) ≡ true)
          (sym (
            rows-log_event world id r.document.id
              (step_succeeded component operation attempt (world.clock r.engine.reads))
              r.engine.store))
          p.stored;
    recorded =
        subst
          (λ j.
            succeeded_keys id (
              log_event world.redact j
                (step_succeeded component operation attempt (world.clock r.engine.reads))
                r.engine.store)
            ≡ succeeded_keys id r.engine.store ++ (component, operation) ∷ [])
          (sym p.same_id)
          (success_event world.redact id component operation attempt (world.clock r.engine.reads)
            r.engine.store)
        ∙ ap (λ l. l ++ (component, operation) ∷ []) p.recorded;
    counted = p.counted;
    at_step = p.at_step;
  }

  pub numbered-P : (attempt : ℕ) → Keeps P (modify (numbered world attempt))
  numbered-P attempt r p = elim (Option-cases r.document.current_step) [
    | inl none_yet ↦ record {
      same_id = ground (arith, p.same_id);
      stored = p.stored;
      recorded = p.recorded;
      counted = ground (arith, p.counted);
      at_step = ground (arith, p.at_step);
    }
    | inr (c, found) ↦ record {
      same_id = ground (arith, p.same_id);
      stored = p.stored;
      recorded = p.recorded;
      counted = ground (arith, p.counted);
      at_step = ground (arith, p.at_step);
    }
  ]

  pub started-P :
      (number : ℕ) (s : Step) (r : Run)
      → P r
      → Progress id done completed (some (key s)) (modify (started world number s) r).1
  started-P number s r p = record {
    same_id = p.same_id;
    stored = p.stored;
    recorded = p.recorded;
    counted = p.counted;
    at_step = refl;
  }

  pub counted-P :
      (number : ℕ) (r : Run)
      → P r
      → Progress id done number current (modify (λ d. record d { completed_steps = number }) r).1
  counted-P number r p = record {
    same_id = p.same_id;
    stored = p.stored;
    recorded = p.recorded;
    counted = refl;
    at_step = p.at_step;
  }
