-- ===== src/Operation/Types.antt =====
-- manager/operation_engine.py: constants, errors, steps and the documents of operations.
use fortifylab_archive.Authorization.Policy as Authorization
use fortifylab_archive.Prelude.{
  Bool, List, Option, String, [], false, none, some, true, ℕ, ◌++◌, ◌∷◌,
}
use fortifylab_archive.Prelude.Table.{Table, select}
use fortifylab_archive.Registry.Components.{RegistryError}

abbrev pub start_operations : List String
start_operations = "install" ∷ "configure" ∷ "start" ∷ "upgrade" ∷ []

abbrev pub stop_operations : List String
stop_operations = "stop" ∷ "uninstall" ∷ "delete-data" ∷ []

abbrev pub request_operations : List String
request_operations = start_operations ++ stop_operations ++ "restart" ∷ []

abbrev pub lab_actions : Table String
lab_actions = ("deploy", "install") ∷ ("start", "start") ∷ ("suspend", "stop") ∷ []

-- The boundary of a recovery, in the order of `_plan_recovery_boundary`.
pub data Boundary : Type 0 where
  reversible compensating_action restore_required irreversible : Boundary

abbrev pub recovery_class_by_operation : Table Boundary
recovery_class_by_operation =
    ("install", compensating_action)
    ∷ ("configure", reversible)
    ∷ ("start", reversible)
    ∷ ("stop", reversible)
    ∷ ("restart", reversible)
    ∷ ("upgrade", restore_required)
    ∷ ("uninstall", compensating_action)
    ∷ ("delete-data", irreversible)
    ∷ []

abbrev or_irreversible : Option Boundary → Boundary
or_irreversible none = irreversible
or_irreversible (some b) = b

-- `RECOVERY_CLASS_BY_OPERATION.get(operation, "irreversible")`
unfoldable pub recovery_class : String → Boundary
unfolding select
recovery_class operation = or_irreversible (select operation recovery_class_by_operation)

abbrev pub precedence : Boundary → ℕ
precedence reversible = 0
precedence compensating_action = 1
precedence restore_required = 2
precedence irreversible = 3

-- The classes of `OperationError`, the errors of the registry and of the authorization service,
-- and what SQLite and Python raise.
pub data Error : Type 0 where
  operation_failed invalid_operation dependency_blocked operation_conflict : Error
  operation_not_found preflight_blocked existing_installation : Error
  step_timed_out step_cancelled integrity_error value_error : Error
  registry_error : RegistryError → Error
  authorization_error : Authorization.Error → Error

pub record Step : Type 0 where
  pub component_id : String
  pub operation : String
  pub adapter : String
  pub timeout_seconds : ℕ
  pub verify : List String
  pub max_attempts : ℕ
  pub recovery : Boundary

pub data State : Type 0 where
  queued running cancelling succeeded failed timed_out cancelled interrupted : State

abbrev pub is_terminal : State → Bool
is_terminal succeeded = true
is_terminal failed = true
is_terminal timed_out = true
is_terminal cancelled = true
is_terminal interrupted = true
is_terminal _ = false

-- `state IN ('queued','running','cancelling')`
abbrev pub is_active : State → Bool
is_active queued = true
is_active running = true
is_active cancelling = true
is_active _ = false

pub record CurrentStep : Type 0 where
  pub number : ℕ
  pub component : String
  pub operation : String
  pub attempt : ℕ

pub record Recovery : Type 0 where
  pub required : Bool
  pub boundary : Boundary
  pub next_action : Option String

-- `apiVersion` and `kind` are constants of every document.
pub record Document : Type 0 where
  pub id : String
  pub operation : String
  pub components : List String
  pub requested_targets : List String
  pub actor : String
  pub state : State
  pub created_at : ℕ
  pub updated_at : ℕ
  pub current_step : Option CurrentStep
  pub completed_steps : ℕ
  pub total_steps : ℕ
  pub retry_of : Option String
  pub error : Option String
  pub recovery : Recovery
  pub workflow : Option String
  pub lab_action : Option String
  pub selected_component : Option String

-- The events of an operation, each with its time.
pub data Event : Type 0 where
  manager_restarted : (at : ℕ) → Event
  step_succeeded : (component operation : String) (attempt at : ℕ) → Event
  step_resumed : (component operation : String) (at : ℕ) → Event
  attempt_failed : (component operation : String) (attempt : ℕ) (retrying : Bool) (at : ℕ) → Event
  cancellation_requested : (actor : String) (at : ℕ) → Event
