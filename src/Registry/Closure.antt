-- ===== src/Registry/Closure.antt =====
-- manager/component_registry.py: `include` of `dependency_order`, the transitive closure of the
-- requested components. The code's recursion is bounded by fuel, one unit for each nesting.
use fortifylab_archive.Prelude.{
  List, String, [], contains, if◌then◌else◌, length, suc, zero, ℕ, ◌+◌, ◌∷◌,
}
use fortifylab_archive.Prelude.Exec.{Outcome, after, each, ok, raised}
use fortifylab_archive.Registry.Components.{
  Component, Registry, RegistryError, component, component_ids, out_of_fuel,
}

module _ (registry : Registry) where
  unfoldable pub include : ℕ → String → List String → Outcome RegistryError (List String)
  include zero component_id closure = raised out_of_fuel
  include (suc fuel) component_id closure =
      let below = λ (c : Component). each (include fuel) c.dependencies (component_id ∷ closure) in
      after (component registry component_id)
        (λ c. if contains closure component_id then ok closure else below c)

  -- Every nesting adds a component, so this is enough.
  abbrev pub include_fuel : ℕ
  include_fuel = length (component_ids registry) + 1

  unfoldable pub closure_of : List String → Outcome RegistryError (List String)
  unfolding include each
  closure_of requested = each (include include_fuel) (registry.walk requested) []
