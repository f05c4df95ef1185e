-- ===== src/Operation/Conclusion.antt =====
-- manager/operation_engine.py: what `_run` leaves behind, however it ends.
use fortifylab_archive.Operation.Actions.{others-P, save-P}
use fortifylab_archive.Operation.Progress.{
  Key, Progress, current_key, key, key_list, succeeded_keys,
}
use fortifylab_archive.Operation.Run.{
  Run, begun, concluded, finish, run, run_steps, save, set_recovery,
}
use fortifylab_archive.Operation.Sequence.{Ran, run_steps-Ran}
use fortifylab_archive.Operation.Store.{Row, current_operation, row_of, store_update}
use fortifylab_archive.Operation.Types.{
  Document, Error, Step, cancelled, failed, recovery_class, running, step_cancelled, step_timed_out,
  succeeded, timed_out,
}
use fortifylab_archive.Operation.World.{World, discard, others}
use fortifylab_archive.Prelude.{
  All, List, Option, Option-cases, String, ap, arith, eq_iff, inl, inr, is_some, length, none, refl,
  some, subst, suc, sym, true, ℕ, ◌++◌, ◌+◌, ◌<◌, ◌∙◌, ◌∷◌, ◌≡◌, ◌⊎◌,
}
use fortifylab_archive.Prelude.Exec.{Outcome, ok, raised}
use fortifylab_archive.Prelude.Table.{Table, select, select-update, update}

-- A run that is over without success: why, at which step, and what recovery it asks for.
pub record Stopped (s : Step) (document : Document) : Type 0 where
  pub reason :
      (document.state ≡ cancelled) ⊎ (document.state ≡ timed_out) ⊎ (document.state ≡ failed)
  pub required : document.recovery.required ≡ true
  pub boundary : document.recovery.boundary ≡ recovery_class s.operation

at_current :
    (s : Step) (document : Document)
    → current_key document ≡ some (key s)
    → recovery_class (current_operation document) ≡ recovery_class s.operation
at_current s document h = elim (Option-cases document.current_step) [
  | inl none_yet ↦ absurd (ground (arith, none_yet, h))
  | inr (c, found) ↦ ap recovery_class (ground (arith, found, h))
]

row_present :
    (id j : String) (row : Row) (t : Table Row)
    → j ≡ id
    → is_some (select id t) ≡ true
    → select id (update j row t) ≡ some row
row_present id j row t same h =
    ground (arith, select-update j id row t, ap (λ k. select k t) same, same, eq_iff j id)

module _ (world : World) (id : String) where
  concluded-Stopped :
      (e : Error) (s : Step) (document : Document)
      → current_key document ≡ some (key s)
      → Stopped s (concluded world (raised e) document)
  unfolding concluded set_recovery
  concluded-Stopped step_cancelled s document h = record {
    reason = inl refl;
    required = refl;
    boundary = at_current s document h;
  }
  concluded-Stopped step_timed_out s document h = record {
    reason = inr (inl refl);
    required = refl;
    boundary = at_current s document h;
  }
  concluded-Stopped e s document h = record {
    reason = inr (inr refl);
    required = refl;
    boundary = at_current s document h;
  }

  -- A save leaves the document but for its time, and stores its redacted form.
  saved_row :
      (done : List Key) (completed : ℕ) (current : Option Key) (r : Run)
      → Progress id done completed current r
      → select id (save world r).1.engine.store.rows
        ≡ some (row_of world.redact (save world r).1.document)
  unfolding save store_update
  saved_row done completed current r p =
      let q : Progress id done completed current (record r { engine = others world r.engine }) =
        others-P world id done completed current r p in
      row_present id r.document.id
        (row_of world.redact
          (record r.document { updated_at = world.clock (others world r.engine).reads }))
        (others world r.engine).store.rows q.same_id q.stored

  -- The final state, by the steps that succeeded.
  abbrev pub Finished : List Key → ℕ → List Step → Run → Type 0
  Finished done completed steps r =
      ((r.document.state ≡ succeeded)
        × (succeeded_keys id r.engine.store ≡ done ++ key_list steps)
        × (r.document.completed_steps ≡ completed + length steps)
        × (r.document.current_step ≡ none))
      ⊎ ((before : List Step) × (s : Step) × (rest : List Step) × (steps ≡ before ++ s ∷ rest)
          × (succeeded_keys id r.engine.store ≡ done ++ key_list before)
          × (r.document.completed_steps ≡ completed + length before)
          × Stopped s r.document)

  concluded_frame :
      (result : Outcome Error Unit) (document : Document)
      → ((concluded world result document).id ≡ document.id)
        × ((concluded world result document).completed_steps ≡ document.completed_steps)
  unfolding concluded set_recovery
  concluded_frame (ok _) document = (refl, refl)
  concluded_frame (raised step_cancelled) document = (refl, refl)
  concluded_frame (raised step_timed_out) document = (refl, refl)
  concluded_frame (raised e) document = (refl, refl)

  -- The run just before the last save.
  abbrev closing : Outcome Error Unit → Run → Run
  closing result r =
      let document = concluded world result r.document in
      record {
        engine = record r.engine { cancelled_ids = discard document.id r.engine.cancelled_ids };
        document = document;
      }

  closing-P :
      (done : List Key) (completed : ℕ) (current : Option Key) (result : Outcome Error Unit)
      (r : Run)
      → Progress id done completed current r
      → Progress id done completed
          (current_key (concluded world result r.document))
          (closing result r)
  closing-P done completed current result r p = record {
    same_id = (concluded_frame result r.document).0 ∙ p.same_id;
    stored = p.stored;
    recorded = p.recorded;
    counted = (concluded_frame result r.document).1 ∙ p.counted;
    at_step = refl;
  }

  finish-Finished :
      (done : List Key) (completed : ℕ) (steps : List Step) (result : Outcome Error Unit) (r : Run)
      → Ran world id done completed steps result r
      → Finished done completed steps (finish world result r).1
        × (select id (finish world result r).1.engine.store.rows
            ≡ some (row_of world.redact (finish world result r).1.document))
  unfolding finish
  finish-Finished done completed steps (ok u) r (current, p) =
      let c : Option Key = current_key (concluded world (ok u) r.document) in
      let q : Progress id (done ++ key_list steps) (completed + length steps) c (closing (ok u) r) =
        closing-P (done ++ key_list steps) (completed + length steps) current (ok u) r p in
      let after_save : Progress id (done ++ key_list steps) (completed + length steps) c
          (save world (closing (ok u) r)).1 =
        save-P world id (done ++ key_list steps) (completed + length steps) c (closing (ok u) r)
          q in
      (
        inl (
          unfold save concluded in refl,
          after_save.recorded,
          after_save.counted,
          unfold save concluded in refl,
        ),
        saved_row (done ++ key_list steps) (completed + length steps) c (closing (ok u) r) q,
      )
  finish-Finished done completed steps (raised e) r (before, s, rest, split, p) =
      let c : Option Key = current_key (concluded world (raised e) r.document) in
      let q : Progress id (done ++ key_list before) (completed + length before) c
          (closing (raised e) r) =
        closing-P (done ++ key_list before) (completed + length before) (some (key s)) (raised e) r
          p in
      let after_save : Progress id (done ++ key_list before) (completed + length before) c
          (save world (closing (raised e) r)).1 =
        save-P world id (done ++ key_list before) (completed + length before) c
          (closing (raised e) r) q in
      let stop : Stopped s (concluded world (raised e) r.document) =
        concluded-Stopped e s r.document p.at_step in
      (
        inr (
          before,
          s,
          rest,
          split,
          after_save.recorded,
          after_save.counted,
          unfold save in
              record { reason = stop.reason; required = stop.required; boundary = stop.boundary },
        ),
        saved_row (done ++ key_list before) (completed + length before) c (closing (raised e) r) q,
      )

  begun-P :
      (done : List Key) (completed : ℕ) (current : Option Key) (r : Run)
      → Progress id done completed current r
      → Progress id done completed current (begun world r)
  begun-P done completed current r p =
      save-P world id done completed current
        (record r { document = record r.document { state = running } })
        (record {
          same_id = p.same_id;
          stored = p.stored;
          recorded = p.recorded;
          counted = p.counted;
          at_step = p.at_step;
        })

  -- A run of steps that allow at least one attempt each always ends, whatever the adapter, the
  -- verifier, the clocks and the cancellations of other threads do. It ends as succeeded, and then
  -- a success is recorded for every step, in the order of the plan, and all are counted. Or it
  -- ends as cancelled, timed out or failed at one step of the plan: the successes recorded and
  -- counted are those of the steps before that one, and recovery is required, with the boundary
  -- of the operation of that step. In both cases the store holds the final document, redacted.
  pub run-Finished :
      (steps : List Step) (done : List Key) (completed : ℕ) (current : Option Key) (r : Run)
      → Progress id done completed current r
      → All (λ s. 0 < s.max_attempts) steps
      → Finished done completed steps (run world steps r)
        × (select id (run world steps r).engine.store.rows
            ≡ some (row_of world.redact (run world steps r).document))
  unfolding run
  run-Finished steps done completed current r p h =
      let q : Progress id done completed current (begun world r) =
        begun-P done completed current r p in
      let number : (begun world r).document.completed_steps + 1 ≡ suc completed =
        omega (arith, q.counted) in
      finish-Finished done completed steps
        (run_steps world ((begun world r).document.completed_steps + 1) steps (begun world r)).0
        (run_steps world ((begun world r).document.completed_steps + 1) steps (begun world r)).1
        (subst
          (λ n.
            Ran world id done completed steps (run_steps world n steps (begun world r)).0
              (run_steps world n steps (begun world r)).1)
          (sym number) (run_steps-Ran world id steps done completed current (begun world r) q h))
