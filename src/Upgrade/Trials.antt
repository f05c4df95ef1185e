-- ===== src/Upgrade/Trials.antt =====
-- manager/profile_upgrade.py: the plan of an upgrade of a lab with two components, its submission, its
-- execution and a restart.
use fortifylab_archive.Authorization.Policy.{ActorIdentity}
use fortifylab_archive.Operation.Types.{compensating_action}
use fortifylab_archive.Prelude.{
  List, String, [], all, any, arith, contains, distinct, false, if◌then◌else◌, keep, none, refl,
  some, true, ℕ, ◌==◌, ◌∷◌, ◌≡◌, ◌≢◌, ◌⊎◌,
}
use fortifylab_archive.Prelude.Exec.{Outcome, ok, raised}
use fortifylab_archive.Prelude.Table.{Table, put, select, update}
use fortifylab_archive.Registry.Closure.{closure_of}
use fortifylab_archive.Registry.Components.{Component, Registry, component}
use fortifylab_archive.Registry.Order.{
  dependency_order, drain, edges, edges_from, link, link_all, release, release_all, sort_closure,
  zeroed,
}
use fortifylab_archive.Upgrade.Acceptance.{Judged, submit-Judged}
use fortifylab_archive.Upgrade.Boundaries.{planned_upgrade-ends}
use fortifylab_archive.Upgrade.Cancellation.{cancel, cancel_loaded, reopen}
use fortifylab_archive.Upgrade.Evidence.{
  Observation, Profile, Transition, UpgradeError, lacks_capacity, stale_plan, transition_of,
  validated_observation, versions_of,
}
use fortifylab_archive.Upgrade.Outcome.{HasStopped, HasSucceeded}
use fortifylab_archive.Upgrade.Planning.{
  UpgradeService, changed_components, full_order, numbered_steps, plan, planned_body,
  rollback_class, target_reason,
}
use fortifylab_archive.Upgrade.Promise.{plan-submit}
use fortifylab_archive.Upgrade.Restart.{IsCutOff, has_ended, reopen-Restarted}
use fortifylab_archive.Upgrade.Rollback.{recover, roll_back}
use fortifylab_archive.Upgrade.Run.{run, run_step, run_steps}
use fortifylab_archive.Upgrade.Samples.{world_until}
use fortifylab_archive.Upgrade.SingleUse.{cancelled_by, here, next, restarted, submit_once}
use fortifylab_archive.Upgrade.Submission.{
  consume_plan, queued_upgrade, request_reason, still_valid, submit, submit_loaded,
}
use fortifylab_archive.Upgrade.Types.{
  Plan, Row, Upgrade, class_of, failed, is_blocking, operation_row, plan_row, queued,
  restore_needed, rolled_back,
}
use fortifylab_archive.Upgrade.World.{Run, save}

abbrev component_of : String → List String → Component
component_of id needs = record {
  id = id;
  display_name = id;
  host_label = none;
  dependencies = needs;
  operations = [];
  checks = [];
}

abbrev lab : Registry
lab = record {
  components = ("ssc", component_of "ssc" ("mysql" ∷ [])) ∷ ("mysql", component_of "mysql" []) ∷ [];
  walk = distinct;
}

abbrev profile_of : String → String → List Transition → Profile
profile_of id version transitions = record {
  id = id;
  maturity = "validated";
  evidence_level = "licensed-live";
  components = ("ssc", version) ∷ ("mysql", "8.0") ∷ [];
  capacity = ("cpuCores", 8) ∷ [];
  allowed_sources = "24.4" ∷ [];
  transitions = transitions;
}

abbrev tested : Transition
tested = record {
  source = "24.4";
  timeout_seconds = 60;
  expected_downtime = "one hour";
  backup_required = true;
  migrations =
      record { component = "ssc"; kind = "application"; rollback = compensating_action } ∷ [];
  recovery = "see the guide";
}

abbrev newer : Profile
newer = profile_of "24.5" "24.5.1" (tested ∷ [])

abbrev service : UpgradeService
service = record {
  registry = lab;
  profile = profile_of "24.4" "24.4.2" [];
  load = λ id. if id == "24.5" then some newer else none;
  digest = λ b. if lacks_capacity b.capacity (("cpuCores", 16) ∷ []) then "small" else "large";
  plan_ttl = 600;
  confirmation_age = 300;
}

abbrev seen_with : ℕ → Observation
seen_with cores = record {
  profile_id = some "24.4";
  versions = ("mysql", "8.0") ∷ ("ssc", "24.4.2") ∷ [];
  capacity = ("cpuCores", cores) ∷ [];
  health = ("state", "healthy") ∷ [];
  dependencies = ("mysql", "ready") ∷ ("ssc", "ready") ∷ [];
  backup =
      some (record { id = some "b1"; profile_id = some "24.4"; complete = true; verified = true });
}

abbrev operator : ActorIdentity
operator = record { actor = "ann"; source = "web"; session_id = "s1"; authenticated_at = 950 }

abbrev made : Outcome UpgradeError Plan × Table Row
made = plan service "24.5" (some (seen_with 8)) 1000 "p1" []

trial : Unit {0}
unfolding plan submit cancel reopen run run_steps run_step save recover roll_back class_of contains
    keep put select update any all distinct dependency_order component closure_of sort_closure edges
    drain link_all edges_from link zeroed release_all release full_order transition_of
    validated_observation target_reason changed_components numbered_steps rollback_class versions_of
    submit_loaded still_valid request_reason consume_plan lacks_capacity
trial = tt

-- The plan as it is returned; the steps are in dependency order.
abbrev upgrade_plan : Plan
upgrade_plan = record {
  id = "p1";
  body =
      planned_body service.profile newer tested (seen_with 8) ("mysql" ∷ "ssc" ∷ []) ("ssc" ∷ []);
  plan_digest = "small";
  created_at = 1000;
  expires_at = 1600;
  confirmation = "UPGRADE 24.4 TO 24.5 small";
  state = none;
  error = none;
  updated_at = none;
}

plan_is_made : made ≡ (ok upgrade_plan, ("p1", plan_row upgrade_plan) ∷ [])
unfolding trial
plan_is_made = refl

abbrev submitted_with : ℕ → String → Outcome UpgradeError Upgrade × Table Row
submitted_with cores fresh =
    submit service "p1" operator (some "UPGRADE 24.4 TO 24.5 small") (some (seen_with cores)) 1100
      fresh made.1

other_capacity_is_stale :
    (submitted_with 32 "u1").0
    ≡ raised (
        stale_plan
          "profile versions, state, capacity, health, dependencies, or backup evidence changed")
unfolding trial
other_capacity_is_stale = refl

abbrev accepted_upgrade : Upgrade
accepted_upgrade = queued_upgrade "p1" upgrade_plan operator 1100 "u1"

abbrev accepted_store : Table Row
accepted_store =
    ("p1", plan_row (record upgrade_plan { state = some "consumed" }))
    ∷ ("u1", operation_row accepted_upgrade)
    ∷ []

submission_is_accepted : submitted_with 8 "u1" ≡ (ok accepted_upgrade, accepted_store)
unfolding trial
submission_is_accepted = refl

submit-Judged_example :
    Judged service "p1" operator
      (some "UPGRADE 24.4 TO 24.5 small")
      (some (seen_with 8))
      1100
      "u1"
      (("p1", plan_row upgrade_plan) ∷ [])
      (submit service "p1" operator
        (some "UPGRADE 24.4 TO 24.5 small")
        (some (seen_with 8))
        1100
        "u1"
        (("p1", plan_row upgrade_plan) ∷ []))
unfolding select
submit-Judged_example =
    submit-Judged service "p1" operator (some "UPGRADE 24.4 TO 24.5 small") (some (seen_with 8))
      1100 "u1" (("p1", plan_row upgrade_plan) ∷ []) refl

-- The operation is cancelled, and the Manager is restarted.
abbrev cancelled_store : Table Row
cancelled_store =
    (cancel_loaded "u1" 1200 (operation_row accepted_upgrade)
      (record { cancelled_ids = []; store = accepted_store })).1.store

abbrev restarted_store : Table Row
restarted_store = reopen (λ id. 1300) cancelled_store

submit_once_example :
    (e : UpgradeError) × (submit_loaded service "p1" operator
        (some "UPGRADE 24.4 TO 24.5 small")
        (some (seen_with 8))
        1400
        "u2"
        (plan_row upgrade_plan)
        restarted_store
      ≡ (raised e, restarted_store))
unfolding trial
submit_once_example =
    submit_once service "p1" operator operator (some "UPGRADE 24.4 TO 24.5 small")
      (some "UPGRADE 24.4 TO 24.5 small") (some (seen_with 8)) (some (seen_with 8)) 1100 1400 "u1"
      "u2" (plan_row upgrade_plan) accepted_upgrade (("p1", plan_row upgrade_plan) ∷ [])
      accepted_store restarted_store refl refl
      (next (next here (cancelled_by "u1" 1200 (operation_row accepted_upgrade) []))
        (restarted (λ id. 1300)))

plan-submit_example :
    (submit service "p1" operator
      (some "UPGRADE 24.4 TO 24.5 small")
      (some (seen_with 8))
      1100
      "u1"
      (("p1", plan_row upgrade_plan) ∷ [])).0
    ≡ ok (queued_upgrade "p1" upgrade_plan operator 1100 "u1")
unfolding trial
plan-submit_example =
    plan-submit service operator 1100 "24.5" (some (seen_with 8)) 1000 "p1" (λ t h. cc) []
      (("p1", plan_row upgrade_plan) ∷ []) (("p1", plan_row upgrade_plan) ∷ []) upgrade_plan "u1"
      plan_is_made refl refl (omega arith) (omega arith)

-- The only change fails: the component is rolled back.
abbrev executed : Run
executed = run (world_until 3) upgrade_plan.body accepted_upgrade 0 accepted_store

planned_upgrade-ends_example :
    (select executed.document.id executed.store ≡ some (operation_row executed.document))
    × (HasSucceeded upgrade_plan.body executed.document
        ⊎ (HasStopped upgrade_plan.body executed.document
            × ((is_blocking (some upgrade_plan.body.recovery_boundary) ≡ true)
                ⊎ (executed.document.recovery.status ≢ restore_needed))))
unfolding trial
planned_upgrade-ends_example =
    planned_upgrade-ends service "24.5" (some (seen_with 8)) 1000 "p1" []
      (("p1", plan_row upgrade_plan) ∷ []) upgrade_plan operator (some "UPGRADE 24.4 TO 24.5 small")
      (some (seen_with 8)) 1100 "u1" (("p1", plan_row upgrade_plan) ∷ []) accepted_store
      accepted_upgrade (world_until 3) 0 plan_is_made refl refl submission_is_accepted

failed_upgrade_is_rolled_back :
    (executed.document.state ≡ failed) × (executed.document.recovery.status ≡ rolled_back)
unfolding trial
failed_upgrade_is_rolled_back = (refl, refl)

reopen-Restarted_example :
    (d' : Upgrade) × (select "u1" (reopen (λ id. 1300) accepted_store) ≡ some (operation_row d'))
    × (((has_ended queued ≡ true) × (d' ≡ accepted_upgrade))
        ⊎ ((has_ended queued ≡ false) × IsCutOff accepted_upgrade d'))
unfolding select
reopen-Restarted_example = reopen-Restarted (λ id. 1300) "u1" accepted_store accepted_upgrade refl
