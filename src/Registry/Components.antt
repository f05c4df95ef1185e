-- ===== src/Registry/Components.antt =====
-- manager/component_registry.py: components, their capabilities and checks, and the look-ups.
use fortifylab_archive.Prelude.{Bool, List, Option, String, [], ℕ, ◌∷◌}
use fortifylab_archive.Prelude.Exec.{Outcome, after, ok, or_error}
use fortifylab_archive.Prelude.Table.{Table, put, select}

-- An entry of `operations`; durations are in one unit, as are the clocks that they bound.
pub record Capability : Type 0 where
  pub id : String
  pub adapter : String
  pub timeout_seconds : ℕ
  pub verify : List String
  pub idempotent : Bool

-- An entry of `health.checks`.
pub record Check : Type 0 where
  pub id : String
  pub check_type : String
  pub target : String
  pub timeout_seconds : ℕ
  pub required : Bool

pub record Component : Type 0 where
  pub id : String
  pub display_name : String
  pub host_label : Option String
  pub dependencies : List String
  pub operations : List Capability
  pub checks : List Check

pub data RegistryError : Type 0 where
  unknown_component : String → RegistryError
  dependency_cycle : List String → RegistryError
  unbounded_timeout out_of_fuel : RegistryError

-- `_components`, and the order in which Python walks a set that was filled in the given order.
pub record Registry : Type 0 where
  pub components : Table Component
  pub walk : List String → List String

-- `{component["id"]: component for component in components}`
unfoldable pub by_id : Table Component → List Component → Table Component
by_id table [] = table
by_id table (c ∷ cs) = by_id (put c.id c table) cs

abbrev pub keys {ℓ} : {V : Type ℓ} → Table V → List String
keys [] = []
keys ((k, _) ∷ t) = k ∷ keys t

abbrev pub component_ids : Registry → List String
component_ids registry = keys registry.components

unfoldable pub component : Registry → String → Outcome RegistryError Component
component registry component_id =
    or_error (select component_id registry.components) (unknown_component component_id)

unfoldable pub lifecycle_operations : Registry → String → Outcome RegistryError (List Capability)
lifecycle_operations registry component_id =
    after (component registry component_id) (λ c. ok c.operations)

unfoldable pub monitoring_checks : Registry → String → Outcome RegistryError (List Check)
monitoring_checks registry component_id = after (component registry component_id) (λ c. ok c.checks)
