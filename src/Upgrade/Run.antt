-- ===== src/Upgrade/Run.antt =====
-- manager/profile_upgrade.py: `_run`.
use fortifylab_archive.Operation.Plan.{plan, step}
use fortifylab_archive.Prelude.{
  Bool, List, Option, [], contains, false, if◌then◌else◌, leb, none, not, some, true, ℕ, ◌++◌, ◌+◌,
  ◌∷◌,
}
use fortifylab_archive.Prelude.Table.{Table}
use fortifylab_archive.Upgrade.Rollback.{recover}
use fortifylab_archive.Upgrade.Types.{
  Body, Row, Step, Upgrade, cancelled, failed, health_verified, mutation_completed, running,
  succeeded, timed_out,
}
use fortifylab_archive.Upgrade.World.{Run, World, edit, note, or_false, save, tick}

-- How the loop over the steps ends.
pub data Ending : Type 0 where
  finished was_cancelled ran_out_of_time excepted : Ending

abbrev pub continue : Option Ending → Run → (Run → Ending × Run) → Ending × Run
continue (some ending) r rest = (ending, r)
continue none r rest = rest r

abbrev pub as_cancelled : Upgrade → Upgrade
as_cancelled d = record d { state = cancelled }

abbrev pub as_timed_out : Upgrade → Upgrade
as_timed_out d = record d {
  state = timed_out;
  error = some "profile upgrade exceeded its bounded timeout";
}

abbrev pub as_failed : Upgrade → Upgrade
as_failed d = record d {
  state = failed;
  error = some "upgrade failed; inspect component health and follow the plan recovery boundary";
}

module _ (world : World) where
  -- The adapter's call for a component that changes its version, and what is recorded of it.
  abbrev pub apply_change : Body → Step → Run → Bool × Run
  apply_change plan step r =
      let later = tick world r in
      let event = mutation_completed step.component step.recovery_class (world.now later.moment) in
      if not (contains plan.components step.component)
      then (true, r)
      else if world.upgrade later.moment step.component
      then (
        true,
        save world
            (edit (note event) (record later { mutated = later.mutated ++ step.component ∷ [] })),
      )
      else (false, later)

  abbrev pub completed : Step → Run → Run
  completed step r = save world (
      edit
        (λ d.
          note (health_verified step.component (world.now r.moment))
            (record d { completed_components = d.completed_components ++ step.component ∷ [] }))
        r)

  -- The test of the deadline and the verification, after the change.
  abbrev pub check_health : ℕ → Step → Run → Option Ending × Run
  check_health deadline step r =
      let later = tick world r in
      if leb deadline (world.monotonic later.moment)
      then (some ran_out_of_time, later)
      else if or_false (world.verify later.moment step.component)
      then (none, completed step later)
      else (some excepted, later)

  abbrev pub after_change : ℕ → Step → Bool × Run → Option Ending × Run
  after_change deadline step (true, changed) = check_health deadline step changed
  after_change deadline step (false, changed) = (some excepted, changed)

  abbrev pub begun : Step → Run → Run
  begun step r =
      save world (edit (λ d. record d { current_component = some step.component }) (tick world r))

  -- The body of the loop; `none` goes on.
  unfoldable pub run_step : Body → ℕ → Step → Run → Option Ending × Run
  unfolding save contains
  run_step plan deadline step r =
      if world.cancelled (tick world r).moment
      then (some was_cancelled, tick world r)
      else after_change deadline step (apply_change plan step (begun step r))

  unfoldable pub run_steps : Body → ℕ → List Step → Run → Ending × Run
  unfolding run_step
  run_steps plan deadline [] r = (finished, r)
  run_steps plan deadline (s ∷ ss) r =
      let (stop, next) = run_step plan deadline s r in
      continue stop next (run_steps plan deadline ss)

  -- What follows the loop, up to `finally`.
  abbrev pub concluded : Body → Ending → Run → Run
  concluded plan finished r = edit (λ d. record d { state = succeeded; current_component = none }) r
  concluded plan was_cancelled r = recover world plan (edit as_cancelled r)
  concluded plan ran_out_of_time r = recover world plan (edit as_timed_out r)
  concluded plan excepted r = recover world plan (edit as_failed r)

  -- `_run`, on the document that it reads from the store.
  unfoldable pub run : Body → Upgrade → ℕ → Table Row → Run
  unfolding save run_steps recover
  run plan document moment store =
      let first = save world (record {
        store = store;
        document = record document { state = running };
        mutated = [];
        moment = moment;
      }) in
      let deadline = world.monotonic first.moment + plan.timeout_seconds in
      let (ending, stopped) = run_steps plan deadline plan.steps first in
      save world (concluded plan ending stopped)
