-- ===== src/Operation/Sequence.antt =====
-- manager/operation_engine.py: the loop of `_run` over the steps. The successes recorded are those
-- of the steps before the one that raised, in the order of the plan.
use fortifylab_archive.Operation.Actions.{counted-P, save-P, started-P}
use fortifylab_archive.Operation.Attempts.{Attempted, execute_step-P}
use fortifylab_archive.Operation.Progress.{Key, Progress, key, key_list}
use fortifylab_archive.Operation.Run.{Action, Run, execute_step, modify, run_steps, save, started}
use fortifylab_archive.Operation.Types.{Error, Step}
use fortifylab_archive.Operation.World.{World}
use fortifylab_archive.Prelude.{
  All, List, Option, String, [], ap, arith, length, refl, some, subst, suc, sym, ℕ, ◌++◌, ◌+◌, ◌<◌,
  ◌∙◌, ◌∷◌, ◌≡◌,
}
use fortifylab_archive.Prelude.Exec.{Outcome, ok, raised, resume, ◌>>◌}
use mathlib.Core.List.{append-nil, append_assoc}

module _ (world : World) (id : String) where
  -- The state after a loop over `steps`, by the way that it ended.
  abbrev pub Ran : List Key → ℕ → List Step → Outcome Error Unit → Run → Type 0
  Ran done completed steps (ok _) r =
      (current : Option Key) × Progress id (done ++ key_list steps) (completed + length steps)
        current r
  Ran done completed steps (raised _) r =
      (before : List Step) × (s : Step) × (rest : List Step) × (steps ≡ before ++ s ∷ rest)
      × Progress id (done ++ key_list before) (completed + length before) (some (key s)) r

  Ran-cons :
      (done : List Key) (completed : ℕ) (s : Step) (steps : List Step) (result : Outcome Error Unit)
      (r : Run)
      → Ran (done ++ key s ∷ []) (suc completed) steps result r
      → Ran done completed (s ∷ steps) result r
  Ran-cons done completed s steps (ok _) r (current, p) = (
    current,
    record {
      same_id = p.same_id;
      stored = p.stored;
      recorded = p.recorded ∙ append_assoc done (key s ∷ []) (key_list steps);
      counted = omega (arith, p.counted);
      at_step = p.at_step;
    },
  )
  Ran-cons done completed s steps (raised _) r (before, failing, rest, split, p) = (
    s ∷ before,
    failing,
    rest,
    ap (◌∷◌ s) split,
    record {
      same_id = p.same_id;
      stored = p.stored;
      recorded = p.recorded ∙ append_assoc done (key s ∷ []) (key_list before);
      counted = omega (arith, p.counted);
      at_step = p.at_step;
    },
  )

  nothing_done :
      (done : List Key) (completed : ℕ) (current : Option Key) (r : Run)
      → Progress id done completed current r
      → Progress id (done ++ []) (completed + 0) current r
  nothing_done done completed current r p = record {
    same_id = p.same_id;
    stored = p.stored;
    recorded = p.recorded ∙ sym (append-nil done);
    counted = omega (arith, p.counted);
    at_step = p.at_step;
  }

  -- A save always returns.
  pub save_then :
      (n : Action Unit) (t : Run)
      → ◌≡◌ {A = Outcome Error Unit × Run} ((save world >> n) t) (n (save world t).1)
  unfolding save
  save_then n t = refl

  -- After the execution of the first step.
  after_step :
      (done : List Key) (completed : ℕ) (s : Step) (steps : List Step)
      → ((current : Option Key) (t : Run)
          → Progress id (done ++ key s ∷ []) (suc completed) current t
          → Ran
              (done ++ key s ∷ [])
              (suc completed)
              steps
              (run_steps world (suc (suc completed)) steps t).0
              (run_steps world (suc (suc completed)) steps t).1)
      → (result : Outcome Error Unit) (t : Run)
      → Attempted world id done completed (some (key s)) s result t
      → Ran done completed
          (s ∷ steps)
          (resume result
            (λ _.
              modify (λ d. record d { completed_steps = suc completed })
              >> (save world >> run_steps world (suc (suc completed)) steps))
            t).0
          (resume result
            (λ _.
              modify (λ d. record d { completed_steps = suc completed })
              >> (save world >> run_steps world (suc (suc completed)) steps))
            t).1
  after_step done completed s steps later (ok _) t p =
      let t' : Run = (modify (λ d. record d { completed_steps = suc completed }) t).1 in
      let q : Progress id (done ++ key s ∷ []) (suc completed) (some (key s)) (save world t').1 =
        save-P world id (done ++ key s ∷ []) (suc completed) (some (key s)) t'
          (counted-P world id (done ++ key s ∷ []) completed (some (key s)) (suc completed) t p) in
      subst (λ o. Ran done completed (s ∷ steps) o.0 o.1)
        (sym (save_then (run_steps world (suc (suc completed)) steps) t'))
        (Ran-cons done completed s steps
          (run_steps world (suc (suc completed)) steps (save world t').1).0
          (run_steps world (suc (suc completed)) steps (save world t').1).1
          (later (some (key s)) (save world t').1 q))
  after_step done completed s steps later (raised _) t p =
      ([], s, steps, refl, nothing_done done completed (some (key s)) t p)

  pub run_steps-Ran :
      (steps : List Step) (done : List Key) (completed : ℕ) (current : Option Key) (r : Run)
      → Progress id done completed current r
      → All (λ s. 0 < s.max_attempts) steps
      → Ran done completed steps
          (run_steps world (suc completed) steps r).0
          (run_steps world (suc completed) steps r).1
  unfolding run_steps
  run_steps-Ran [] done completed current r p h = (current, nothing_done done completed current r p)
  run_steps-Ran (s ∷ steps) done completed current r p h =
      let t' : Run = (modify (started world (suc completed) s) r).1 in
      let q : Progress id done completed (some (key s)) (save world t').1 =
        save-P world id done completed (some (key s)) t'
          (started-P world id done completed current (suc completed) s r p) in
      subst (λ o. Ran done completed (s ∷ steps) o.0 o.1)
        (sym (
          save_then
            (execute_step world s
              >> (modify (λ d. record d { completed_steps = suc completed })
                  >> (save world >> run_steps world (suc (suc completed)) steps)))
            t'))
        (after_step done completed s steps
          (λ c t p'. run_steps-Ran steps (done ++ key s ∷ []) (suc completed) c t p' h.1)
          (execute_step world s (save world t').1).0 (execute_step world s (save world t').1).1
          (execute_step-P world id done completed (some (key s)) s h.0 (save world t').1 q))
