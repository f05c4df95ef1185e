-- ===== src/Upgrade/Samples.antt =====
-- manager/profile_upgrade.py: an upgrade that succeeds, one that is rolled back, and one that is not.
use fortifylab_archive.Operation.Types.{Boundary, restore_required, reversible}
use fortifylab_archive.Prelude.{
  [], contains, false, keep, leb, none, not, refl, some, true, ℕ, ◌∷◌, ◌≡◌,
}
use fortifylab_archive.Prelude.Table.{put, select}
use fortifylab_archive.Upgrade.Outcome.{HasEnded, run-HasEnded}
use fortifylab_archive.Upgrade.Progress.{restored_in}
use fortifylab_archive.Upgrade.Rollback.{recover, roll_back}
use fortifylab_archive.Upgrade.Run.{run, run_step, run_steps}
use fortifylab_archive.Upgrade.Types.{
  Body, Upgrade, class_of, failed, not_required, operation_row, queued, restore_needed, rolled_back,
  succeeded, timed_out,
}
use fortifylab_archive.Upgrade.World.{World, save}

-- The upgrade of one component fails from a moment on, where the verifier finds nothing wrong.
abbrev pub world_until : ℕ → World
world_until n = record {
  others = λ m t. t;
  cancelled = λ m. false;
  upgrade = λ m c. not (leb n m);
  rollback = some (λ m c. true);
  verify = λ m c. some true;
  monotonic = λ m. m;
  now = λ m. m;
}

abbrev body_of : Boundary → ℕ → Body
body_of b timeout = record {
  source_profile = record { id = "24.4"; versions = [] };
  target_profile = record { id = "24.5"; versions = [] };
  components = "mysql" ∷ "ssc" ∷ [];
  dependency_impact = "mysql" ∷ "ssc" ∷ [];
  capacity = [];
  current_health = [];
  dependency_state = [];
  backup_evidence = none;
  migration = record { required = false; items = []; rollback = b; recovery = "see the guide" };
  steps =
      record { number = 1; component = "mysql"; changes_version = true; recovery_class = b }
      ∷ record {
        number = 2;
        component = "ssc";
        changes_version = true;
        recovery_class = reversible;
      }
      ∷ [];
  recovery_boundary = b;
  expected_downtime = "one hour";
  timeout_seconds = timeout;
}

abbrev two_steps : Boundary → Body
two_steps b = body_of b 60

abbrev waiting : Upgrade
waiting = record {
  id = "u1";
  plan_id = "p1";
  plan_digest = "d";
  source_profile_id = "24.4";
  target_profile_id = "24.5";
  actor = "ann";
  confirmation_source = "web";
  state = queued;
  current_component = none;
  completed_components = [];
  error = none;
  created_at = 0;
  updated_at = 0;
  rollback = reversible;
  recovery = record {
    required = false;
    boundary = reversible;
    backup_id = none;
    backup_verified = true;
    action = none;
    status = not_required;
  };
  evidence = [];
}

program : Unit {0}
unfolding run run_steps run_step save recover roll_back class_of contains keep put select
program = tt

abbrev ended : ℕ → Boundary → Upgrade
ended n b = (run (world_until n) (two_steps b) waiting 0 []).document

succeeds_when_all_is_well :
    ((ended 100 reversible).state ≡ succeeded)
    × ((ended 100 reversible).completed_components ≡ "mysql" ∷ "ssc" ∷ [])
unfolding program
succeeds_when_all_is_well = (refl, refl)

-- The second component fails: it is rolled back first, then the first one.
failure_is_rolled_back :
    ((ended 5 reversible).state ≡ failed)
    × ((ended 5 reversible).completed_components ≡ "mysql" ∷ [])
    × ((ended 5 reversible).recovery.status ≡ rolled_back)
    × (restored_in (ended 5 reversible).evidence ≡ "ssc" ∷ "mysql" ∷ [])
unfolding program
failure_is_rolled_back = (refl, refl, refl, refl)

restore_class_blocks_the_rollback :
    ((ended 5 restore_required).recovery.status ≡ restore_needed)
    × (restored_in (ended 5 restore_required).evidence ≡ [])
unfolding program
restore_class_blocks_the_rollback = (refl, refl)

timeout_is_recovered :
    (run (world_until 100) (body_of reversible 2) waiting 0 []).document.state ≡ timed_out
unfolding program
timeout_is_recovered = refl

run-HasEnded_example :
    (select
        (run (world_until 5) (two_steps reversible) waiting 0 []).document.id
        (run (world_until 5) (two_steps reversible) waiting 0 []).store
      ≡ some (operation_row (run (world_until 5) (two_steps reversible) waiting 0 []).document))
    × HasEnded
        (two_steps reversible)
        (run (world_until 5) (two_steps reversible) waiting 0 []).document
run-HasEnded_example =
    run-HasEnded (world_until 5) (two_steps reversible) waiting 0 [] refl refl refl
