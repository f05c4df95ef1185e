-- ===== src/Recovery/Types.antt =====
-- manager/backup_restore.py: scopes, states, destinations, operations and artifacts.
use Prim.Native.String.{count}
use fortifylab_archive.Availability.Routes.{codes}
use fortifylab_archive.Prelude.{
  Bool, List, Option, String, [], all, contains, eqb, false, if◌then◌else◌, leb, ltb, not, true, ℕ,
  ◌&&◌, ◌==◌, ◌||◌, ◌∷◌,
}
use fortifylab_archive.Prelude.Exec.{Outcome, ok, raised}

pub data Scope : Type 0 where
  manager_state configuration_metadata mysql_ssc ssc_secret_key postgresql_dast : Scope

-- `BACKUP_SCOPES`
abbrev pub backup_scopes : List Scope
backup_scopes =
    manager_state ∷ configuration_metadata ∷ mysql_ssc ∷ ssc_secret_key ∷ postgresql_dast ∷ []

abbrev pub restore_confirmation : String
restore_confirmation = "RESTORE VERIFIED PLATFORM BACKUP"

pub data Status : Type 0 where
  queued running verifying : Status
  succeeded failed interrupted cancelled : Status

-- `TERMINAL_STATES`
abbrev pub is_terminal : Status → Bool
is_terminal queued = false
is_terminal running = false
is_terminal verifying = false
is_terminal _ = true

-- `RecoveryError` and its subclasses with their messages, and any other exception.
pub data RecoveryError : Type 0 where
  recovery_failed incompatible_backup incomplete_artifact : String → RecoveryError
  other_exception : RecoveryError

-- `ValueError` of a destination.
pub data DestinationError : Type 0 where
  invalid_destination : DestinationError

pub record Destination : Type 0 where
  pub id : String
  pub storage_class : String
  pub retention_days : ℕ

-- "." and "-" are the other characters of an identifier; `is_alnum` is Python's, on code points.
abbrev pub id_character : (ℕ → Bool) → ℕ → Bool
id_character is_alnum c = is_alnum c || eqb c b'.' || eqb c b'-'

-- `Destination.__post_init__`
unfoldable pub destination : (ℕ → Bool) → String → String → ℕ → Outcome DestinationError Destination
unfolding all contains
destination is_alnum id storage_class retention_days =
    if id == ""
      || ltb 64 (count id)
      || not (all (id_character is_alnum) (codes id))
      || not (contains ("local-protected" ∷ "removable" ∷ "object" ∷ []) storage_class)
      || not (leb 1 retention_days && leb retention_days 3650)
    then raised invalid_destination
    else ok (record { id = id; storage_class = storage_class; retention_days = retention_days })

pub data RecoveryAction : Type 0 where
  backup_action restore_action : RecoveryAction

-- An entry of the evidence of a verification.
pub record Passed : Type 0 where
  pub check : Option String
  pub state : Option String
  pub code : Option String

-- A document of a recovery operation; times are numbers.
pub record Operation : Type 0 where
  pub id : String
  pub action : RecoveryAction
  pub backup_id : String
  pub profile_id : String
  pub actor : String
  pub state : Status
  pub current_scope : Option Scope
  pub completed_scopes : List Scope
  pub cancellation_requested : Bool
  pub created_at : ℕ
  pub updated_at : ℕ
  pub evidence : List Passed
  pub error : Option String

pub record Artifact : Type 0 where
  pub id : String
  pub profile_id : String
  pub scope : List Scope
  pub destination : Destination
  pub created_at : ℕ
  pub checksums : List (Scope × String)
  pub manifest_digest : Option String
