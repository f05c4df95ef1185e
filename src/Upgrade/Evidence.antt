-- ===== src/Upgrade/Evidence.antt =====
-- manager/profile_upgrade.py: profiles, their transitions, and the observation of the platform.
use fortifylab_archive.Prelude.{
  Bool, List, Option, String, [], all, contains, false, if◌then◌else◌, keep, ltb, none, not, some,
  true, ℕ, ◌&&◌, ◌==◌, ◌||◌, ◌∷◌,
}
use fortifylab_archive.Prelude.Exec.{Outcome, ok, or_error, raised}
use fortifylab_archive.Prelude.Table.{Table, select}
use fortifylab_archive.Prelude.Texts.{sorted_texts}
use fortifylab_archive.Registry.Components.{Registry, RegistryError, component_ids, keys}
use fortifylab_archive.Upgrade.Types.{Backup, Migration, Versions}

-- `UpgradeError` with its message, `StaleUpgradePlan`, and what is raised elsewhere: the errors of
-- profiles and of the registry, and Python's on a missing key.
pub data UpgradeError : Type 0 where
  upgrade_error stale_plan : String → UpgradeError
  profile_error : UpgradeError
  key_error : String → UpgradeError
  registry_raised : RegistryError → UpgradeError

-- An entry of `transitions`.
pub record Transition : Type 0 where
  pub source : String
  pub timeout_seconds : ℕ
  pub expected_downtime : String
  pub backup_required : Bool
  pub migrations : List Migration
  pub recovery : String

-- `PlatformProfile`, as its schema has it; the version of a component is its canonical JSON.
pub record Profile : Type 0 where
  pub id : String
  pub maturity : String
  pub evidence_level : String
  pub components : Table String
  pub capacity : Table ℕ
  pub allowed_sources : List String
  pub transitions : List Transition

-- What the code reads of an observation; a dictionary that is not there is empty, and the versions
-- are in the order of their names.
pub record Observation : Type 0 where
  pub profile_id : Option String
  pub versions : Table String
  pub capacity : Table ℕ
  pub health : Table String
  pub dependencies : Table String
  pub backup : Option Backup

-- `PlatformProfile.component_version`
unfoldable pub component_version : Profile → String → Outcome UpgradeError String
component_version profile c = or_error (select c profile.components) profile_error

abbrev pub version_entry : Profile → String → String × String
version_entry profile c = (c, elim (select c profile.components) [ none ↦ "" | some v ↦ v ])

unfoldable pub version_entries : Profile → List String → Table String
version_entries profile [] = []
version_entries profile (c ∷ cs) = version_entry profile c ∷ version_entries profile cs

-- `_versions`, whose names are those of the components.
unfoldable pub versions_of : Profile → Versions
unfolding version_entries sorted_texts
versions_of profile = record {
  id = profile.id;
  versions = version_entries profile (sorted_texts (keys profile.components));
}

unfoldable pub same_table : Table String → Table String → Bool
same_table [] [] = true
same_table [] (_ ∷ _) = false
same_table (_ ∷ _) [] = false
same_table ((k, v) ∷ t) ((j, w) ∷ u) = let rest = same_table t u in k == j && v == w && rest

abbrev pub is_text : Option String → String → Bool
is_text none s = false
is_text (some t) s = t == s

-- `capacity.get(key, -1) < value`
abbrev pub falls_short : Option ℕ → ℕ → Bool
falls_short none value = true
falls_short (some n) value = ltb n value

unfoldable pub lacks_capacity : Table ℕ → Table ℕ → Bool
unfolding select
lacks_capacity capacity [] = false
lacks_capacity capacity ((key, value) ∷ needed) =
    let rest = lacks_capacity capacity needed in falls_short (select key capacity) value || rest

unfoldable pub all_ready : Table String → Bool
all_ready [] = true
all_ready ((_, state) ∷ t) = let rest = all_ready t in state == "ready" && rest

-- Equality of the sets of two lists.
abbrev pub same_set : List String → List String → Bool
same_set xs ys = all (contains ys) xs && all (contains xs) ys

abbrev pub is_proven : Option Backup → String → Bool
is_proven none source_id = false
is_proven (some b) source_id = is_text b.profile_id source_id && b.complete && b.verified

-- The reason why an observation is refused, if there is one.
unfoldable pub observation_reason :
    Registry → Profile → Profile → Transition → Observation → Option String
unfolding versions_of same_table lacks_capacity all_ready select all contains
observation_reason registry source target transition observed =
    if not (is_text observed.profile_id source.id)
    then some "observed source profile does not match"
    else if not (same_table observed.versions (versions_of source).versions)
    then some "observed component versions drift from the source profile"
    else if lacks_capacity observed.capacity target.capacity
    then some "available capacity does not satisfy the target profile"
    else if not (is_text (select "state" observed.health) "healthy")
    then some "current platform health is not ready for upgrade"
    else if not (same_set (keys observed.dependencies) (component_ids registry))
        || not (all_ready observed.dependencies)
    then some "component dependency state is incomplete or unhealthy"
    else if transition.backup_required && not (is_proven observed.backup source.id)
    then some "a complete verified source-profile backup is required"
    else none

abbrev pub accepted : Option String → Observation → Outcome UpgradeError Observation
accepted none observed = ok observed
accepted (some reason) observed = raised (upgrade_error reason)

-- `_validated_observation`; an observation that raises is `none`.
unfoldable pub validated_observation :
    Registry
    → Profile
    → Profile
    → Transition
    → Option Observation
    → Outcome UpgradeError Observation
unfolding observation_reason
validated_observation registry source target transition none =
    raised (upgrade_error "current platform evidence is unavailable")
validated_observation registry source target transition (some observed) =
    accepted (observation_reason registry source target transition observed) observed

abbrev pub the_only : List Transition → Outcome UpgradeError Transition
the_only (t ∷ []) = ok t
the_only _ = raised (upgrade_error "target profile lacks one explicit tested transition")

-- `_transition`
unfoldable pub transition_of : Profile → String → Outcome UpgradeError Transition
unfolding contains keep
transition_of target source_id =
    if not (contains target.allowed_sources source_id)
    then raised (upgrade_error "target profile does not allow the source profile")
    else the_only (keep (λ t. t.source == source_id) target.transitions)
