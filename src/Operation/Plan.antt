-- ===== src/Operation/Plan.antt =====
-- manager/operation_engine.py: from a request to the ordered steps of its plan.
use fortifylab_archive.Operation.Identifier.{is_identifier}
use fortifylab_archive.Operation.Types.{
  Boundary, Error, Step, dependency_blocked, invalid_operation, precedence, recovery_class,
  registry_error, request_operations, start_operations, value_error,
}
use fortifylab_archive.Prelude.{
  Bool, List, Option, String, [], any, contains, distinct, eqb, false, if◌then◌else◌, keep, length,
  ltb, min, none, not, some, true, ℕ, ◌++◌, ◌==◌, ◌||◌, ◌∷◌,
}
use fortifylab_archive.Prelude.Exec.{Outcome, after, ok, raised}
use fortifylab_archive.Prelude.Table.{Table, put, select}
use fortifylab_archive.Registry.Components.{
  Capability, Registry, RegistryError, component, component_ids, lifecycle_operations,
  unbounded_timeout,
}
use fortifylab_archive.Registry.Order.{dependency_order}
use mathlib.Core.List.{reverse}

-- The constructor's bounds, and the registry.
pub record Planner : Type 0 where
  pub registry : Registry
  pub max_attempts : ℕ
  pub max_step_timeout : ℕ

abbrev pub Plan : Type 0 → Type 0
Plan A = Outcome Error A

-- An error of the registry passes through the engine unchanged.
abbrev pub from_registry : {A : Type 0} → Outcome RegistryError A → Plan A
from_registry (ok a) = ok a
from_registry (raised e) = raised (registry_error e)

-- The dictionary from identifier to capability: the last of two equal identifiers counts.
unfoldable pub capabilities : Table Capability → List Capability → Table Capability
capabilities table [] = table
capabilities table (c ∷ cs) = capabilities (put c.id c table) cs

unfoldable pub map_steps : (String → Plan Step) → List String → Plan (List Step)
map_steps f [] = ok []
map_steps f (c ∷ cs) = after (f c) (λ s. after (map_steps f cs) (λ rest. ok (s ∷ rest)))

-- The filter of a list comprehension whose test may raise.
unfoldable pub filter_plan : (String → Plan Bool) → List String → Plan (List String)
filter_plan test [] = ok []
filter_plan test (c ∷ cs) =
    after (test c) (λ b. after (filter_plan test cs) (λ rest. ok (if b then c ∷ rest else rest)))

unfoldable pub intersects : List String → List String → Bool
unfolding contains
intersects [] ys = false
intersects (x ∷ xs) ys = contains ys x || intersects xs ys

module _ (planner : Planner) where
  -- Every operation that a plan asks for has a recovery class, so the look-up never fails.
  abbrev bounded : ℕ → String → String → Capability → Plan Step
  bounded timeout component_id operation capability =
      if eqb timeout 0
      then raised (registry_error unbounded_timeout)
      else ok (record {
        component_id = component_id;
        operation = operation;
        adapter = capability.adapter;
        timeout_seconds = timeout;
        verify = capability.verify;
        max_attempts = if capability.idempotent then planner.max_attempts else 1;
        recovery = recovery_class operation;
      })

  abbrev pub declared : String → String → Option Capability → Plan Step
  declared component_id operation none = raised invalid_operation
  declared component_id operation (some capability) =
      bounded (min capability.timeout_seconds planner.max_step_timeout) component_id operation
        capability

  unfoldable pub step : String → String → Plan Step
  step component_id operation =
      after (from_registry (lifecycle_operations planner.registry component_id))
        (λ items. declared component_id operation (select operation (capabilities [] items)))

  unfoldable pub transitive_dependencies : String → Plan (List String)
  transitive_dependencies component_id =
      after (from_registry (dependency_order planner.registry (component_id ∷ [])))
        (λ order. ok (keep (λ d. not (d == component_id)) order))

  -- A component outside the selection that depends on a selected one.
  unfoldable pub is_missing_consumer : List String → String → Plan Bool
  is_missing_consumer selected component_id =
      if contains selected component_id
      then ok false
      else after (transitive_dependencies component_id) (λ deps. ok (intersects selected deps))

  unfoldable pub ordered_steps : String → List String → Bool → Plan (List Step)
  ordered_steps operation requested true =
      after (from_registry (dependency_order planner.registry requested))
        (map_steps (λ c. step c operation))
  ordered_steps operation requested false =
      after (filter_plan (is_missing_consumer requested) (component_ids planner.registry))
        (λ missing. elim missing [
          | _ ∷ _ ↦ raised dependency_blocked
          | [] ↦ after (from_registry (dependency_order planner.registry requested)) (λ order.
              map_steps (λ c. step c operation) (keep (contains requested) (reverse order)))
        ])

  unfoldable pub all_registered : List String → Plan Unit
  all_registered [] = ok tt
  all_registered (c ∷ cs) =
      after (from_registry (component planner.registry c)) (λ _. all_registered cs)

  unfoldable pub plan_steps : String → List String → Plan (List Step)
  unfolding contains
  plan_steps operation requested = after (all_registered requested) (λ _.
      if operation == "restart"
      then after (ordered_steps "stop" requested false)
          (λ stop. after (ordered_steps "start" requested true) (λ start. ok (stop ++ start)))
      else ordered_steps operation requested (contains start_operations operation))

  -- `plan`, up to the description of the steps.
  unfoldable pub plan : String → List String → Plan (List Step)
  unfolding contains any distinct
  plan operation component_ids =
      if not (contains request_operations operation)
      then raised invalid_operation
      else if eqb (length (distinct component_ids)) 0
          || any (λ c. not (is_identifier c)) (distinct component_ids)
      then raised invalid_operation
      else plan_steps operation (distinct component_ids)

-- `max(…, key=precedence)`: the first of the greatest; an empty plan raises `ValueError`.
unfoldable pub greatest : Boundary → List Step → Boundary
greatest b [] = b
greatest b (s ∷ steps) =
    greatest (if ltb (precedence b) (precedence s.recovery) then s.recovery else b) steps

unfoldable pub plan_recovery_boundary : List Step → Plan Boundary
unfolding greatest
plan_recovery_boundary [] = raised value_error
plan_recovery_boundary (s ∷ steps) = ok (greatest s.recovery steps)
