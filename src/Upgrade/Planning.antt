-- ===== src/Upgrade/Planning.antt =====
-- manager/profile_upgrade.py: `plan`, and the rows of UpgradeStore.
use fortifylab_archive.Operation.Types.{
  Boundary, compensating_action, irreversible, restore_required, reversible,
}
use fortifylab_archive.Prelude.{
  Bool, List, Option, String, [], any, contains, false, if◌then◌else◌, none, nonempty, not, some,
  true, ℕ, ◌+◌, ◌==◌, ◌||◌, ◌∷◌,
}
use fortifylab_archive.Prelude.Exec.{Outcome, after, ok, raised}
use fortifylab_archive.Prelude.Table.{Table, put}
use fortifylab_archive.Prelude.Texts.{joined}
use fortifylab_archive.Registry.Components.{Registry, RegistryError}
use fortifylab_archive.Registry.Order.{dependency_order}
use fortifylab_archive.Upgrade.Evidence.{
  Observation, Profile, Transition, UpgradeError, component_version, registry_raised, transition_of,
  upgrade_error, validated_observation, versions_of,
}
use fortifylab_archive.Upgrade.Types.{Body, Migration, Plan, Row, Step, plan_row}

-- What `ProfileUpgradeService` was built with; a profile that cannot be loaded is `none`.
pub record UpgradeService : Type 0 where
  pub registry : Registry
  pub profile : Profile
  pub load : String → Option Profile
  pub digest : Body → String
  pub plan_ttl : ℕ
  pub confirmation_age : ℕ

abbrev pub in_order : Outcome RegistryError (List String) → Outcome UpgradeError (List String)
in_order (ok order) = ok order
in_order (raised e) = raised (registry_raised e)

-- `self._registry.dependency_order()`
unfoldable pub full_order : Registry → Outcome UpgradeError (List String)
unfolding dependency_order
full_order registry = in_order (dependency_order registry [])

-- The components whose versions differ.
unfoldable pub changed_components :
    Profile → Profile → List String → Outcome UpgradeError (List String)
unfolding component_version
changed_components source target [] = ok []
changed_components source target (c ∷ cs) = after (component_version source c) λ old.
    after (component_version target c) λ new.
      after (changed_components source target cs) λ rest. ok (if old == new then rest else c ∷ rest)

-- `migration_by_component`, whose later entries win.
unfoldable pub migration_by_component : List Migration → String → Option Boundary
migration_by_component [] c = none
migration_by_component (m ∷ ms) c =
    let rest = migration_by_component ms c in
    elim rest [ some b ↦ some b | none ↦ if m.component == c then some m.rollback else none ]

abbrev pub or_reversible : Option Boundary → Boundary
or_reversible none = reversible
or_reversible (some b) = b

unfoldable pub numbered_steps : ℕ → List String → List Migration → List String → List Step
unfolding contains migration_by_component
numbered_steps number changed migrations [] = []
numbered_steps number changed migrations (c ∷ cs) =
    record {
      number = number;
      component = c;
      changes_version = contains changed c;
      recovery_class = or_reversible (migration_by_component migrations c);
    }
    ∷ numbered_steps (number + 1) changed migrations cs

abbrev pub is_class : Boundary → Migration → Bool
is_class irreversible m = elim m.rollback [ irreversible ↦ true | _ ↦ false ]
is_class restore_required m = elim m.rollback [ restore_required ↦ true | _ ↦ false ]
is_class compensating_action m = elim m.rollback [ compensating_action ↦ true | _ ↦ false ]
is_class reversible m = elim m.rollback [ reversible ↦ true | _ ↦ false ]

-- `_rollback_class`
unfoldable pub rollback_class : List Migration → Boundary
unfolding any
rollback_class migrations =
    if any (is_class irreversible) migrations
    then irreversible
    else if any (is_class restore_required) migrations
    then restore_required
    else if any (is_class compensating_action) migrations
    then compensating_action
    else reversible

abbrev pub planned_body :
    Profile → Profile → Transition → Observation → List String → List String → Body
planned_body source target transition observed order changed = record {
  source_profile = versions_of source;
  target_profile = versions_of target;
  components = changed;
  dependency_impact = order;
  capacity = observed.capacity;
  current_health = observed.health;
  dependency_state = observed.dependencies;
  backup_evidence = observed.backup;
  migration = record {
    required = nonempty transition.migrations;
    items = transition.migrations;
    rollback = rollback_class transition.migrations;
    recovery = transition.recovery;
  };
  steps = numbered_steps 1 changed transition.migrations order;
  recovery_boundary = rollback_class transition.migrations;
  expected_downtime = transition.expected_downtime;
  timeout_seconds = transition.timeout_seconds;
}

-- `f"UPGRADE {source.id} TO {target.id} {digest}"`
abbrev pub confirmation_for : Profile → Profile → String → String
confirmation_for source target digest =
    joined "UPGRADE " (joined source.id (joined " TO " (joined target.id (joined " " digest))))

-- Why a loaded target is refused before its transition is looked at.
unfoldable pub target_reason : Profile → Profile → Option String
unfolding contains
target_reason source target =
    if target.id == source.id || target.maturity == "unsupported"
    then some "source and target platform profiles are not an allowed transition"
    else if not (contains ("validated" ∷ "recommended" ∷ []) target.maturity)
        || not (target.evidence_level == "licensed-live")
    then some "target profile transition lacks licensed-live validation"
    else none

module _ (service : UpgradeService) where
  abbrev pub drawn_up :
      Profile
      → Transition
      → Observation
      → List String
      → ℕ
      → String
      → List String
      → Outcome UpgradeError Plan
  drawn_up target transition observed order now fresh [] =
      raised (upgrade_error "target platform profile has no component version changes")
  drawn_up target transition observed order now fresh (c ∷ cs) =
      let body = planned_body service.profile target transition observed order (c ∷ cs) in
      ok (record {
        id = fresh;
        body = body;
        plan_digest = service.digest body;
        created_at = now;
        expires_at = now + service.plan_ttl;
        confirmation = confirmation_for service.profile target (service.digest body);
        state = none;
        error = none;
        updated_at = none;
      })

  abbrev pub plan_allowed :
      Profile → Option Observation → ℕ → String → Option String → Outcome UpgradeError Plan
  plan_allowed target observation now fresh (some reason) = raised (upgrade_error reason)
  plan_allowed target observation now fresh none =
      after (transition_of target service.profile.id) λ transition.
        after (validated_observation service.registry service.profile target transition observation)
          λ observed. after (full_order service.registry) λ order.
            after (changed_components service.profile target order)
              λ changed. drawn_up target transition observed order now fresh changed

  abbrev pub plan_for : Option Profile → Option Observation → ℕ → String → Outcome UpgradeError Plan
  plan_for none observation now fresh =
      raised (upgrade_error "target platform profile is unavailable or invalid")
  plan_for (some target) observation now fresh =
      plan_allowed target observation now fresh (target_reason service.profile target)

  abbrev pub kept_plan :
      Outcome UpgradeError Plan → Table Row → Outcome UpgradeError Plan × Table Row
  kept_plan (ok p) store = (ok p, put p.id (plan_row p) store)
  kept_plan (raised e) store = (raised e, store)

  -- `plan`, under the fresh identifier.
  unfoldable pub plan :
      String → Option Observation → ℕ → String → Table Row → Outcome UpgradeError Plan × Table Row
  unfolding target_reason transition_of validated_observation full_order changed_components
      numbered_steps rollback_class versions_of put
  plan target_profile_id observation now fresh store =
      kept_plan (plan_for (service.load target_profile_id) observation now fresh) store
