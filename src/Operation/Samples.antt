-- ===== src/Operation/Samples.antt =====
-- manager/operation_engine.py: the plans of a small profile.
use fortifylab_archive.Operation.Bounds.{IsBounded, components_of}
use fortifylab_archive.Operation.Coverage.{Declares, plan_recovery_boundary-covers}
use fortifylab_archive.Operation.Ordering.{ConsumersFirst}
use fortifylab_archive.Operation.Plan.{
  Planner, capabilities, filter_plan, intersects, is_missing_consumer, map_steps, ordered_steps,
  plan_recovery_boundary, step, transitive_dependencies,
}
use fortifylab_archive.Operation.Suspension.{ordered_steps_start, ordered_steps_stop}
use fortifylab_archive.Operation.Types.{
  Boundary, Step, dependency_blocked, recovery_class, reversible,
}
use fortifylab_archive.Prelude.{
  All, Bool, IsDistinct, List, String, [], contains, contains-distinct, distinct, false, keep, none,
  refl, sym, true, ℕ, ◌↔◌, ◌∙◌, ◌∷◌, ◌≡◌, ◌≢◌,
}
use fortifylab_archive.Prelude.Exec.{each, ok, raised}
use fortifylab_archive.Prelude.Table.{put, select}
use fortifylab_archive.Registry.Closure.{closure_of, include}
use fortifylab_archive.Registry.Components.{
  Capability, Component, Registry, by_id, component, component_ids, lifecycle_operations,
}
use fortifylab_archive.Registry.DependencyOrder.{DependenciesFirst, IsWalk}
use fortifylab_archive.Registry.Members.{IsDistinct-keys-by_id, Within}
use fortifylab_archive.Registry.Order.{
  chosen, dependency_order, drain, edges, edges_from, link, link_all, release, release_all,
  sort_closure, zeroed,
}
use fortifylab_archive.Registry.Reach.{Included, Needs}

abbrev able : String → Bool → Capability
able id idempotent = record {
  id = id;
  adapter = "helm";
  timeout_seconds = 900;
  idempotent = idempotent;
  verify = "ready" ∷ [];
}

abbrev part : String → List String → Component
part id dependencies = record {
  id = id;
  display_name = id;
  host_label = none;
  dependencies = dependencies;
  operations = able "start" true ∷ able "stop" true ∷ able "install" false ∷ [];
  checks = [];
}

abbrev parts : List Component
parts = part "ssc" ("mysql" ∷ []) ∷ part "mysql" [] ∷ []

abbrev profile : Registry
profile = record { components = by_id [] parts; walk = distinct }

abbrev pub planner : Planner
planner = record { registry = profile; max_attempts = 2; max_step_timeout = 600 }

profile_unique : IsDistinct (component_ids profile)
unfolding by_id put
profile_unique = IsDistinct-keys-by_id [] parts tt

profile_walks : IsWalk profile
profile_walks = record {
  onto = λ xs x p. contains-distinct xs x ∙ p;
  into = λ xs x p. sym (contains-distinct xs x) ∙ p;
}

abbrev planned : String → String → ℕ → Step
planned component operation attempts = record {
  component_id = component;
  operation = operation;
  adapter = "helm";
  timeout_seconds = 600;
  verify = "ready" ∷ [];
  max_attempts = attempts;
  recovery = reversible;
}

abbrev pub start_steps : List Step
start_steps = planned "mysql" "start" 2 ∷ planned "ssc" "start" 2 ∷ []

abbrev stop_steps : List Step
stop_steps = planned "ssc" "stop" 2 ∷ planned "mysql" "stop" 2 ∷ []

program : Unit {0}
unfolding dependency_order closure_of sort_closure include each component select put by_id distinct
    drain release_all release link_all link edges edges_from zeroed keep contains ordered_steps step
    map_steps filter_plan is_missing_consumer transitive_dependencies lifecycle_operations
    capabilities recovery_class intersects
program = tt

plans :
    (ordered_steps planner "start" ("ssc" ∷ []) true ≡ ok start_steps)
    × (ordered_steps planner "stop" ("mysql" ∷ "ssc" ∷ []) false ≡ ok stop_steps)
    × (ordered_steps planner "stop" ("mysql" ∷ []) false ≡ raised dependency_blocked)
unfolding program
plans = (refl, refl, refl)

ordered_steps_start_example :
    IsDistinct (components_of start_steps)
    × DependenciesFirst profile [] (components_of start_steps)
    × ((y : String)
        → Included (components_of start_steps) y
          ↔ ((x : String) × Included (chosen profile ("ssc" ∷ [])) x × Needs profile x y))
    × All (IsBounded planner "start") start_steps
ordered_steps_start_example =
    ordered_steps_start planner profile_unique profile_walks "start" ("ssc" ∷ []) start_steps
      plans.0

ordered_steps_stop_example :
    ConsumersFirst profile (components_of stop_steps)
    × Within (components_of stop_steps) ("mysql" ∷ "ssc" ∷ [])
    × All (IsBounded planner "stop") stop_steps
    × ((c d : String)
        → Included (component_ids profile) c
        → Included ("mysql" ∷ "ssc" ∷ []) d
        → Needs profile c d
        → Included ("mysql" ∷ "ssc" ∷ []) c)
ordered_steps_stop_example =
    ordered_steps_stop planner profile_unique profile_walks "stop" ("mysql" ∷ "ssc" ∷ []) stop_steps
      plans.1

plan_recovery_boundary-covers_example :
    ((b : Boundary) → plan_recovery_boundary start_steps ≡ ok b → Declares b start_steps)
    × (start_steps ≢ [] → (b : Boundary) × (plan_recovery_boundary start_steps ≡ ok b))
plan_recovery_boundary-covers_example = plan_recovery_boundary-covers start_steps
