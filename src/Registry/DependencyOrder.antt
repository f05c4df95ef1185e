-- ===== src/Registry/DependencyOrder.antt =====
-- manager/component_registry.py: what `dependency_order` returns, and when.
use fortifylab_archive.Prelude.{
  Bool, IsDistinct, List, String, [], ap, arith, contains, eq_iff, eqb, keep, length, some, ℕ, ◌&&◌,
  ◌++◌, ◌+◌, ◌∷◌, ◌≡◌,
}
use fortifylab_archive.Prelude.Exec.{ok}
use fortifylab_archive.Prelude.Table.{Table}
use fortifylab_archive.Registry.Components.{Component, Registry, component, component_ids}
use fortifylab_archive.Registry.Counting.{
  consumers-link_all, consumers-zeroed, edges_between, indegree-link_all, indegree-zeroed, missing,
  missing-zero, occurrences,
}
use fortifylab_archive.Registry.Edges.{IsGraphOf}
use fortifylab_archive.Registry.Fuel.{component-Included}
use fortifylab_archive.Registry.Kahn.{Inv, IsOrdered}
use fortifylab_archive.Registry.Members.{Included-keep, IsDistinct-keep, Within, keep-Included}
use fortifylab_archive.Registry.Order.{
  Edge, Graph, Queue, count_of, drain, link_all, listed, zeroed,
}
use fortifylab_archive.Registry.Reach.{Included, IsSupported}
use fortifylab_archive.Registry.Topology.{IsSortedPart, drain_sorts}

-- Walking a set reaches its elements, and nothing else.
pub record IsWalk (registry : Registry) : Type 0 where
  pub onto : (xs : List String) → Within xs (registry.walk xs)
  pub into : (xs : List String) → Within (registry.walk xs) xs

-- Every component of the list has all its dependencies before it.
abbrev pub DependenciesFirst : Registry → List String → List String → Type 0
DependenciesFirst registry seen [] = Unit
DependenciesFirst registry seen (x ∷ xs) =
    ((c : Component) → component registry x ≡ ok c → Within c.dependencies seen)
    × DependenciesFirst registry (seen ++ x ∷ []) xs

module _ (registry : Registry) (unique : IsDistinct (component_ids registry))
    (walks : IsWalk registry) (closure : List String)
    (supported : (x : String) → Included closure x → IsSupported registry closure x)
    (es : List Edge) (graph : IsGraphOf registry (registry.walk closure) es) where
  abbrev pub linked : Graph
  linked = link_all es (zeroed (registry.walk closure))

  abbrev is_ready : String → Bool
  is_ready k = contains closure k && eqb (count_of linked.indegree k) 0

  abbrev pub first_queue : Queue
  first_queue = record {
    indegree = linked.indegree;
    ready = keep is_ready (component_ids registry);
    ordered = [];
  }

  start_counts : (c : String) → count_of linked.indegree c ≡ missing [] c es
  start_counts c = omega (
    arith,
    indegree-link_all es (zeroed (registry.walk closure)) c,
    indegree-zeroed (registry.walk closure) c,
  )

  pub start_due : (c d : String) → occurrences c (listed linked.consumers d) ≡ edges_between c d es
  unfolding occurrences
  start_due c d = omega (
    arith,
    consumers-link_all es (zeroed (registry.walk closure)) c d,
    ap (occurrences c) (consumers-zeroed (registry.walk closure) d),
  )

  start-Inv : Inv es closure [] first_queue
  unfolding occurrences
  start-Inv = record {
    counts = λ c. omega (arith, start_counts c);
    released = λ c p. ground (arith, Included-keep is_ready (component_ids registry) c p);
    distinct = IsDistinct-keep is_ready (component_ids registry) unique;
    within = λ c p. ground (arith, Included-keep is_ready (component_ids registry) c p);
    sorted = tt;
    complete = λ c p z.
        keep-Included is_ready (component_ids registry) c (ground arith)
          (component-Included registry c (supported c p).definition (supported c p).registered);
  }

  pub drained :
      (result : List String × Table ℕ) × (drain (length closure + 1) linked.consumers first_queue
        ≡ some result)
      × IsSortedPart es closure linked.consumers start_due
          (λ c d p. walks.into closure c (graph.from c d p))
          result.0
  drained =
      drain_sorts es closure linked.consumers start_due
        (λ c d p. walks.into closure c (graph.from c d p)) (length closure + 1) first_queue
        (omega arith) start-Inv

  pub sorted-DependenciesFirst :
      (seen xs : List String)
      → Within xs closure
      → IsOrdered es seen xs
      → DependenciesFirst registry seen xs
  unfolding contains
  sorted-DependenciesFirst seen [] w o = tt
  sorted-DependenciesFirst seen (x ∷ xs) w o = (
    λ c found d dep.
        missing-zero seen x d es o.0 (
          graph.complete x d c (walks.onto closure x (w x (ground (arith, eq_iff x x)))) found dep),
    sorted-DependenciesFirst (seen ++ x ∷ []) xs (λ y p. w y (ground arith)) o.1,
  )
