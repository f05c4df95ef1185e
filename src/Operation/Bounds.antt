-- ===== src/Operation/Bounds.antt =====
-- manager/operation_engine.py: every step of a plan is bounded and recoverable as declared.
use fortifylab_archive.Operation.Plan.{
  Planner, capabilities, declared, from_registry, map_steps, step,
}
use fortifylab_archive.Operation.Types.{Step, recovery_class}
use fortifylab_archive.Prelude.{
  All, List, Option, String, [], ap, arith, none, refl, some, subst, ◌++◌, ◌<◌, ◌∷◌, ◌≡◌, ◌≤◌, ◌⊎◌,
}
use fortifylab_archive.Prelude.Exec.{after, after-eq-ok, ok}
use fortifylab_archive.Prelude.Table.{select}
use fortifylab_archive.Registry.Components.{Capability, lifecycle_operations}

-- What `_step` promises of a step for an operation.
pub record IsBounded (planner : Planner) (operation : String) (s : Step) : Type 0 where
  pub operation_of : s.operation ≡ operation
  pub positive : 0 < s.timeout_seconds
  pub within : s.timeout_seconds ≤ planner.max_step_timeout
  pub attempts : (s.max_attempts ≡ planner.max_attempts) ⊎ (s.max_attempts ≡ 1)
  pub class : s.recovery ≡ recovery_class operation

abbrev pub components_of : List Step → List String
components_of [] = []
components_of (s ∷ steps) = s.component_id ∷ components_of steps

pub components_of-append :
    (xs ys : List Step) → components_of (xs ++ ys) ≡ components_of xs ++ components_of ys
components_of-append [] ys = refl
components_of-append (x ∷ xs) ys = ap (◌∷◌ x.component_id) (components_of-append xs ys)

module _ (planner : Planner) (operation : String) where
  declared-ok :
      (component_id : String) (found : Option Capability) (s : Step)
      → declared planner component_id operation found ≡ ok s
      → (s.component_id ≡ component_id) × IsBounded planner operation s
  declared-ok component_id none s h = absurd (cc)
  declared-ok component_id (some capability) s h = (
    ground arith,
    record {
      operation_of = ground arith;
      positive = ground arith;
      within = ground arith;
      attempts = ground arith;
      class = ground arith;
    },
  )

  step-ok :
      (component_id : String) (s : Step)
      → step planner component_id operation ≡ ok s
      → (s.component_id ≡ component_id) × IsBounded planner operation s
  unfolding step
  step-ok component_id s h =
      let (items, _, rest) =
        after-eq-ok (from_registry (lifecycle_operations planner.registry component_id))
          (λ items.
            declared planner component_id operation (select operation (capabilities [] items)))
          h in
      declared-ok component_id (select operation (capabilities [] items)) s rest

  -- The steps for a list of components are one bounded step for each of them, in its order.
  pub map_steps-ok :
      (cs : List String) (steps : List Step)
      → map_steps (λ c. step planner c operation) cs ≡ ok steps
      → (components_of steps ≡ cs) × All (IsBounded planner operation) steps
  unfolding map_steps
  map_steps-ok [] steps h =
      let same : [] ≡ steps = ground arith in
      (ground arith, subst (All (IsBounded planner operation)) same tt)
  map_steps-ok (c ∷ cs) steps h =
      let (s, first, h') =
        after-eq-ok (step planner c operation)
          (λ s. after (map_steps (λ c'. step planner c' operation) cs) (λ rest. ok (s ∷ rest))) h in
      let (rest, others, h'') =
        after-eq-ok (map_steps (λ c'. step planner c' operation) cs) (λ rest. ok (s ∷ rest)) h' in
      let (here, bounded_step) = step-ok c s first in
      let (there, bounded_rest) = map_steps-ok cs rest others in
      let same : s ∷ rest ≡ steps = ground arith in
      subst (λ l. (components_of l ≡ c ∷ cs) × All (IsBounded planner operation) l) same
        (ground (arith, here, there), (bounded_step, bounded_rest))
