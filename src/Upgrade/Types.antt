-- ===== src/Upgrade/Types.antt =====
-- manager/profile_upgrade.py: steps, operations, their evidence and their recovery.
use fortifylab_archive.Operation.Types.{Boundary, irreversible, restore_required}
use fortifylab_archive.Prelude.{
  Bool, List, Option, String, [], false, if◌then◌else◌, none, some, true, ℕ, ◌==◌, ◌∷◌,
}
use fortifylab_archive.Prelude.Table.{Table}

pub record Step : Type 0 where
  pub number : ℕ
  pub component : String
  pub changes_version : Bool
  pub recovery_class : Boundary

-- The id of a profile, and the versions of its components in the order of their names, each as
-- its canonical JSON.
pub record Versions : Type 0 where
  pub id : String
  pub versions : Table String

-- An entry of `migrations`.
pub record Migration : Type 0 where
  pub component : String
  pub kind : String
  pub rollback : Boundary

pub record MigrationPlan : Type 0 where
  pub required : Bool
  pub items : List Migration
  pub rollback : Boundary
  pub recovery : String

-- What the code reads of the evidence of a backup.
pub record Backup : Type 0 where
  pub id : Option String
  pub profile_id : Option String
  pub complete : Bool
  pub verified : Bool

-- What the digest of a plan covers.
pub record Body : Type 0 where
  pub source_profile : Versions
  pub target_profile : Versions
  pub components : List String
  pub dependency_impact : List String
  pub capacity : Table ℕ
  pub current_health : Table String
  pub dependency_state : Table String
  pub backup_evidence : Option Backup
  pub migration : MigrationPlan
  pub steps : List Step
  pub recovery_boundary : Boundary
  pub expected_downtime : String
  pub timeout_seconds : ℕ

-- A plan; the last three fields are not there at first.
pub record Plan : Type 0 where
  pub id : String
  pub body : Body
  pub plan_digest : String
  pub created_at : ℕ
  pub expires_at : ℕ
  pub confirmation : String
  pub state : Option String
  pub error : Option String
  pub updated_at : Option ℕ

pub data State : Type 0 where
  queued running cancelling succeeded failed cancelled timed_out interrupted : State

-- Entries of `evidence`, each with its time.
pub data Event : Type 0 where
  mutation_completed : String → Boundary → ℕ → Event
  health_verified rollback_verified : String → ℕ → Event
  recovery_not_required : ℕ → Event
  automatic_rollback_blocked : List String → Boundary → ℕ → Event
  rollback_failed : List String → ℕ → Event
  manager_restarted : ℕ → Event

pub data RecoveryStatus : Type 0 where
  not_required restore_needed compensation_needed rolled_back review_needed : RecoveryStatus

pub record Recovery : Type 0 where
  pub required : Bool
  pub boundary : Boundary
  pub backup_id : Option String
  pub backup_verified : Bool
  pub action : Option String
  pub status : RecoveryStatus

pub record Upgrade : Type 0 where
  pub id : String
  pub plan_id : String
  pub plan_digest : String
  pub source_profile_id : String
  pub target_profile_id : String
  pub actor : String
  pub confirmation_source : String
  pub state : State
  pub current_component : Option String
  pub completed_components : List String
  pub error : Option String
  pub created_at : ℕ
  pub updated_at : ℕ
  pub rollback : Boundary
  pub recovery : Recovery
  pub evidence : List Event

-- A row of `profile_upgrades`: its kind, and the document of its payload. The columns of the state
-- and of the id are those of the document.
pub data Row : Type 0 where
  plan_row : Plan → Row
  operation_row : Upgrade → Row

-- `classes[component]`; every component of a plan has a step.
unfoldable pub class_of : List Step → String → Option Boundary
class_of [] c = none
class_of (s ∷ ss) c =
    let rest = class_of ss c in
    elim rest [ some b ↦ some b | none ↦ if s.component == c then some s.recovery_class else none ]

-- No rollback leads back from these.
abbrev pub is_blocking : Option Boundary → Bool
is_blocking none = false
is_blocking (some b) = elim b [ restore_required ↦ true | irreversible ↦ true | _ ↦ false ]
