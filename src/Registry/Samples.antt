-- ===== src/Registry/Samples.antt =====
-- manager/component_registry.py: a small registry, and the orders that the code computes on it.
use fortifylab_archive.Prelude.{
  IsDistinct, List, String, [], arith, contains, contains-distinct, distinct, eq_iff, if◌then◌else◌,
  keep, none, refl, sym, ℕ, ◌<◌, ◌==◌, ◌↔◌, ◌∙◌, ◌∷◌, ◌≡◌, ◌≢◌,
}
use fortifylab_archive.Prelude.Exec.{each, ok, raised}
use fortifylab_archive.Prelude.Table.{put, select}
use fortifylab_archive.Prelude.Texts.{insert_text, sorted_texts}
use fortifylab_archive.Registry.Closure.{closure_of, include}
use fortifylab_archive.Registry.Components.{
  Component, Registry, by_id, component, component_ids, dependency_cycle, out_of_fuel,
  unknown_component,
}
use fortifylab_archive.Registry.DependencyOrder.{DependenciesFirst, IsWalk}
use fortifylab_archive.Registry.Guarantees.{
  dependency_order_fueled, dependency_order_sorts, dependency_order_total,
}
use fortifylab_archive.Registry.Members.{IsDistinct-keys-by_id}
use fortifylab_archive.Registry.Order.{
  chosen, dependency_order, drain, edges, edges_from, link, link_all, release, release_all,
  sort_closure, zeroed,
}
use fortifylab_archive.Registry.Reach.{Included, Needs}

abbrev part : String → List String → Component
part id dependencies = record {
  id = id;
  display_name = id;
  host_label = none;
  dependencies = dependencies;
  operations = [];
  checks = [];
}

abbrev pub lab_components : List Component
lab_components =
    part "ssc" ("mysql" ∷ [])
    ∷ part "mysql" []
    ∷ part "sast" ("ssc" ∷ "mysql" ∷ [])
    ∷ part "lim" []
    ∷ []

abbrev pub lab : Registry
lab = record { components = by_id [] lab_components; walk = distinct }

abbrev cyclic : Registry
cyclic = record {
  components = by_id [] (part "a" ("b" ∷ []) ∷ part "b" ("a" ∷ []) ∷ []);
  walk = distinct;
}

program : Unit {0}
unfolding sorted_texts insert_text dependency_order closure_of sort_closure include each component
    select put by_id distinct drain release_all release link_all link edges edges_from zeroed keep
    contains
program = tt

orders :
    (dependency_order lab ("sast" ∷ []) ≡ ok ("mysql" ∷ "ssc" ∷ "sast" ∷ []))
    × (dependency_order lab [] ≡ ok ("mysql" ∷ "lim" ∷ "ssc" ∷ "sast" ∷ []))
    × (dependency_order lab ("nexus" ∷ []) ≡ raised (unknown_component "nexus"))
    × (dependency_order cyclic ("a" ∷ []) ≡ raised (dependency_cycle ("a" ∷ "b" ∷ [])))
unfolding program
orders = (refl, refl, refl, refl)

pub lab_unique : IsDistinct (component_ids lab)
unfolding by_id put
lab_unique = IsDistinct-keys-by_id [] lab_components tt

pub lab_walks : IsWalk lab
lab_walks = record {
  onto = λ xs x p. contains-distinct xs x ∙ p;
  into = λ xs x p. sym (contains-distinct xs x) ∙ p;
}

abbrev rank : String → ℕ
rank x = if x == "sast" then 2 else if x == "ssc" then 1 else 0

rank_falls :
    (a d : String) (c : Component)
    → component lab a ≡ ok c
    → Included c.dependencies d
    → rank d < rank a
unfolding component select contains by_id put
rank_falls a d c found dep = ground (
  arith,
  eq_iff "mysql" "ssc",
  eq_iff "mysql" "sast",
  eq_iff "ssc" "sast",
  eq_iff "lim" "ssc",
  eq_iff "lim" "sast",
  eq_iff "ssc" "mysql",
  eq_iff "sast" "mysql",
  eq_iff "sast" "ssc",
  eq_iff "ssc" a,
  eq_iff "mysql" a,
  eq_iff "sast" a,
  eq_iff "lim" a,
  eq_iff a "sast",
  eq_iff a "ssc",
  eq_iff "mysql" d,
  eq_iff "ssc" d,
  eq_iff d "sast",
  eq_iff d "ssc",
)

closes : closure_of lab ("sast" ∷ []) ≡ ok ("mysql" ∷ "ssc" ∷ "sast" ∷ [])
unfolding program
closes = refl

abbrev sast_order : List String
sast_order = "mysql" ∷ "ssc" ∷ "sast" ∷ []

dependency_order_sorts_example :
    IsDistinct sast_order
    × DependenciesFirst lab [] sast_order
    × ((y : String)
        → Included sast_order y
          ↔ ((x : String) × Included (chosen lab ("sast" ∷ [])) x × Needs lab x y))
dependency_order_sorts_example =
    dependency_order_sorts lab lab_unique lab_walks ("sast" ∷ []) sast_order orders.0

dependency_order_total_example :
    (order : List String) × (dependency_order lab ("sast" ∷ []) ≡ ok order)
dependency_order_total_example =
    dependency_order_total lab lab_unique lab_walks ("sast" ∷ []) rank sast_order rank_falls closes

dependency_order_fueled_example : dependency_order lab ("sast" ∷ []) ≢ raised out_of_fuel
dependency_order_fueled_example = dependency_order_fueled lab lab_unique lab_walks ("sast" ∷ [])
