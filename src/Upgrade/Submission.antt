-- ===== src/Upgrade/Submission.antt =====
-- manager/profile_upgrade.py: `submit` and `consume_plan`. The part of `submit` after the read takes
-- what was read, so that other threads may act between.
use fortifylab_archive.Authorization.Policy.{ActorIdentity}
use fortifylab_archive.Prelude.{
  Bool, List, Option, String, [], contains, false, if◌then◌else◌, is_some, leb, ltb, none, not,
  some, true, ℕ, ◌+◌, ◌==◌, ◌∷◌,
}
use fortifylab_archive.Prelude.Exec.{Outcome, after, ok, or_error, raised}
use fortifylab_archive.Prelude.Table.{Table, put, select, update}
use fortifylab_archive.Upgrade.Evidence.{
  Observation, Profile, Transition, UpgradeError, is_text, profile_error, stale_plan, transition_of,
  upgrade_error, validated_observation, versions_of,
}
use fortifylab_archive.Upgrade.Planning.{UpgradeService, full_order, plan}
use fortifylab_archive.Upgrade.Types.{
  Backup, Body, Plan, Row, Upgrade, not_required, operation_row, plan_row, queued,
}

abbrev pub strong_sources : List String
strong_sources = "web" ∷ "local-cli" ∷ []

-- The body of a plan made anew, from the profiles and the observation as they are now.
abbrev pub fresh_body : Profile → Profile → Transition → Observation → List String → Body → Body
fresh_body source target transition observed order body = record {
  source_profile = versions_of source;
  target_profile = versions_of target;
  components = body.components;
  dependency_impact = order;
  capacity = observed.capacity;
  current_health = observed.health;
  dependency_state = observed.dependencies;
  backup_evidence = observed.backup;
  migration = body.migration;
  steps = body.steps;
  recovery_boundary = body.recovery_boundary;
  expected_downtime = transition.expected_downtime;
  timeout_seconds = transition.timeout_seconds;
}

abbrev pub backup_id_of : Option Backup → Option String
backup_id_of none = none
backup_id_of (some b) = b.id

abbrev pub is_verified : Option Backup → Bool
is_verified none = false
is_verified (some b) = b.verified

abbrev pub queued_upgrade : String → Plan → ActorIdentity → ℕ → String → Upgrade
queued_upgrade plan_id plan identity now fresh = record {
  id = fresh;
  plan_id = plan_id;
  plan_digest = plan.plan_digest;
  source_profile_id = plan.body.source_profile.id;
  target_profile_id = plan.body.target_profile.id;
  actor = identity.actor;
  confirmation_source = identity.source;
  state = queued;
  current_component = none;
  completed_components = [];
  error = none;
  created_at = now;
  updated_at = now;
  rollback = plan.body.migration.rollback;
  recovery = record {
    required = false;
    boundary = plan.body.recovery_boundary;
    backup_id = backup_id_of plan.body.backup_evidence;
    backup_verified = is_verified plan.body.backup_evidence;
    action = none;
    status = not_required;
  };
  evidence = [];
}

abbrev pub is_unused : Option Row → Bool
is_unused none = false
is_unused (some (operation_row _)) = false
is_unused (some (plan_row p)) = not (is_some p.state)

abbrev pub mark_consumed : Row → Row
mark_consumed (operation_row d) = operation_row d
mark_consumed (plan_row p) = plan_row (record p { state = some "consumed" })

abbrev pub consume_row : String → Option Row → Table Row → Bool × Table Row
consume_row plan_id none store = (false, store)
consume_row plan_id (some row) store =
    if is_unused (some row)
    then (true, update plan_id (mark_consumed row) store)
    else (false, store)

-- `consume_plan`: one UPDATE, whose count of rows is the answer.
unfoldable pub consume_plan : String → Table Row → Bool × Table Row
unfolding select update
consume_plan plan_id store = consume_row plan_id (select plan_id store) store

module _ (service : UpgradeService) where
  -- What is asked of the person who submits, and of the age of the plan.
  unfoldable pub request_reason : ActorIdentity → Option String → ℕ → Plan → Option UpgradeError
  unfolding contains
  request_reason identity confirmation now plan =
      if not (contains strong_sources identity.source)
      then some (upgrade_error "profile upgrades require Web UI or local CLI confirmation")
      else if ltb (identity.authenticated_at + service.confirmation_age) now
      then some (upgrade_error "profile upgrade requires fresh authentication")
      else if not (is_text confirmation plan.confirmation)
      then some (upgrade_error "profile upgrade confirmation did not match")
      else if leb plan.expires_at now
      then some (stale_plan "upgrade plan has expired")
      else none

  abbrev pub loaded_target : String → Outcome UpgradeError Profile
  loaded_target id = or_error (service.load id) profile_error

  abbrev pub same_digest : Body → Plan → Outcome UpgradeError (Unit {0})
  same_digest body plan =
      if not (service.digest body == plan.plan_digest)
      then raised (
          stale_plan
            "profile versions, state, capacity, health, dependencies, or backup evidence changed")
      else ok tt

  -- The comparison of the plan with the state of the platform as it is observed now.
  unfoldable pub still_valid : Option Observation → Plan → Outcome UpgradeError (Unit {0})
  unfolding transition_of validated_observation full_order
  still_valid observation plan = after (loaded_target plan.body.target_profile.id) λ target.
      after (transition_of target service.profile.id) λ transition.
        after (validated_observation service.registry service.profile target transition observation)
          λ observed. after (full_order service.registry) λ order.
            same_digest (fresh_body service.profile target transition observed order plan.body) plan

  abbrev pub checked :
      Option UpgradeError → Option Observation → Plan → Outcome UpgradeError (Unit {0})
  checked (some e) observation plan = raised e
  checked none observation plan = still_valid observation plan

  -- The plan is consumed, and the operation is stored, if it was not consumed before.
  abbrev pub enqueue :
      String
      → Plan
      → ActorIdentity
      → ℕ
      → String
      → Bool × Table Row
      → Outcome UpgradeError Upgrade × Table Row
  enqueue plan_id plan identity now fresh (false, store) =
      (raised (stale_plan "upgrade plan was already consumed or changed"), store)
  enqueue plan_id plan identity now fresh (true, store) =
      let document = queued_upgrade plan_id plan identity now fresh in
      (ok document, put fresh (operation_row document) store)

  abbrev pub submit_checked :
      String
      → ActorIdentity
      → ℕ
      → String
      → Plan
      → Outcome UpgradeError (Unit {0})
      → Table Row
      → Outcome UpgradeError Upgrade × Table Row
  submit_checked plan_id identity now fresh plan (raised e) store = (raised e, store)
  submit_checked plan_id identity now fresh plan (ok _) store =
      enqueue plan_id plan identity now fresh (consume_plan plan_id store)

  -- `submit` after the read of the plan.
  unfoldable pub submit_loaded :
      String
      → ActorIdentity
      → Option String
      → Option Observation
      → ℕ
      → String
      → Row
      → Table Row
      → Outcome UpgradeError Upgrade × Table Row
  unfolding request_reason still_valid consume_plan put
  submit_loaded plan_id identity confirmation observation now fresh (operation_row d) store =
      (raised (upgrade_error "upgrade plan is invalid"), store)
  submit_loaded plan_id identity confirmation observation now fresh (plan_row plan) store =
      submit_checked plan_id identity now fresh plan
        (checked (request_reason identity confirmation now plan) observation plan) store

  abbrev pub submit_found :
      String
      → ActorIdentity
      → Option String
      → Option Observation
      → ℕ
      → String
      → Option Row
      → Table Row
      → Outcome UpgradeError Upgrade × Table Row
  submit_found plan_id identity confirmation observation now fresh none store =
      (raised (upgrade_error "upgrade plan or operation was not found"), store)
  submit_found plan_id identity confirmation observation now fresh (some row) store =
      submit_loaded plan_id identity confirmation observation now fresh row store

  unfoldable pub submit :
      String
      → ActorIdentity
      → Option String
      → Option Observation
      → ℕ
      → String
      → Table Row
      → Outcome UpgradeError Upgrade × Table Row
  unfolding submit_loaded select
  submit plan_id identity confirmation observation now fresh store =
      submit_found plan_id identity confirmation observation now fresh (select plan_id store) store
