-- ===== src/Registry/Order.antt =====
-- manager/component_registry.py: the second half of `dependency_order`, Kahn's algorithm.
use fortifylab_archive.Prelude.{
  Bool, List, Option, String, [], contains, eqb, if◌then◌else◌, keep, length, ltb, none, some, suc,
  zero, ℕ, ◌&&◌, ◌++◌, ◌+◌, ◌-◌, ◌∷◌,
}
use fortifylab_archive.Prelude.Exec.{Outcome, after, ok, raised}
use fortifylab_archive.Prelude.Table.{Table, put, select}
use fortifylab_archive.Prelude.Texts.{sorted_texts}
use fortifylab_archive.Registry.Closure.{closure_of}
use fortifylab_archive.Registry.Components.{
  Registry, RegistryError, component, component_ids, dependency_cycle, keys, out_of_fuel,
}

-- A loop iteration for each pair of a component and one of its dependencies.
abbrev pub Edge : Type 0
Edge = String × String

pub record Graph : Type 0 where
  pub indegree : Table ℕ
  pub consumers : Table (List String)

abbrev pub count_of : Table ℕ → String → ℕ
count_of table k = elim (select k table) [ none ↦ 0 | some n ↦ n ]

abbrev pub listed : Table (List String) → String → List String
listed table k = elim (select k table) [ none ↦ [] | some xs ↦ xs ]

unfoldable pub zeroed : List String → Graph
zeroed [] = record { indegree = []; consumers = [] }
zeroed (k ∷ ks) =
    let rest = zeroed ks in
    record { indegree = (k, 0) ∷ rest.indegree; consumers = (k, []) ∷ rest.consumers }

-- `indegree[component_id] += 1` and `consumers[dependency].append(component_id)`
unfoldable pub link : Edge → Graph → Graph
link (component_id, dependency) g = record {
  indegree = put component_id (count_of g.indegree component_id + 1) g.indegree;
  consumers = put dependency (listed g.consumers dependency ++ component_id ∷ []) g.consumers;
}

unfoldable pub link_all : List Edge → Graph → Graph
link_all [] g = g
link_all (e ∷ es) g = link_all es (link e g)

unfoldable pub edges_from : String → List String → List Edge
edges_from component_id [] = []
edges_from component_id (d ∷ ds) = (component_id, d) ∷ edges_from component_id ds

module _ (registry : Registry) where
  unfoldable pub edges : List String → Outcome RegistryError (List Edge)
  edges [] = ok []
  edges (c ∷ cs) =
      after (component registry c)
        (λ found. after (edges cs) (λ rest. ok (edges_from c found.dependencies ++ rest)))

pub record Queue : Type 0 where
  pub indegree : Table ℕ
  pub ready : List String
  pub ordered : List String

-- `indegree[consumer] -= 1`, and the append to `ready` when it is 0. The counter is positive here.
unfoldable pub release : String → Queue → Queue
release consumer q =
    let left = count_of q.indegree consumer - 1 in
    let lowered = put consumer left q.indegree in
    if eqb left 0
    then record q { indegree = lowered; ready = q.ready ++ consumer ∷ [] }
    else record q { indegree = lowered }

unfoldable pub release_all : List String → Queue → Queue
release_all [] q = q
release_all (c ∷ cs) q = release_all cs (release c q)

-- `while ready`, one unit of fuel a round.
unfoldable pub drain : ℕ → Table (List String) → Queue → Option (List String × Table ℕ)
drain zero consumers q = none
drain (suc fuel) consumers q =
    let next = λ (d : String) (rest : List String). drain fuel consumers (
      release_all (listed consumers d)
        (record q { ready = rest; ordered = q.ordered ++ d ∷ [] })) in
    elim q.ready [ [] ↦ some (q.ordered, q.indegree) | d ∷ rest ↦ next d rest ]

abbrev pub ordered_or_cycle :
    List String → Option (List String × Table ℕ) → Outcome RegistryError (List String)
ordered_or_cycle closure none = raised out_of_fuel
ordered_or_cycle closure (some (ordered, indegree)) =
    if eqb (length ordered) (length closure)
    then ok ordered
    else raised
        (dependency_cycle (sorted_texts (keep (λ k. ltb 0 (count_of indegree k)) (keys indegree))))

module _ (registry : Registry) where
  -- The two dictionaries when the loops over the closure are done.
  abbrev pub graph_of : List String → List Edge → Graph
  graph_of closure es = link_all es (zeroed (registry.walk closure))

  abbrev pub is_ready : List String → List Edge → String → Bool
  is_ready closure es k = contains closure k && eqb (count_of (graph_of closure es).indegree k) 0

  abbrev pub queue_of : List String → List Edge → Queue
  queue_of closure es = record {
    indegree = (graph_of closure es).indegree;
    ready = keep (is_ready closure es) (component_ids registry);
    ordered = [];
  }

  unfoldable pub sort_closure : List String → Outcome RegistryError (List String)
  unfolding sorted_texts
  sort_closure closure = after (edges registry (registry.walk closure)) (λ es.
      ordered_or_cycle closure
        (drain (length closure + 1) (graph_of closure es).consumers (queue_of closure es)))

  -- `selected or self._components`: no selection, or an empty one, selects every component.
  abbrev pub chosen : List String → List String
  chosen [] = component_ids registry
  chosen (x ∷ xs) = x ∷ xs

  unfoldable pub dependency_order : List String → Outcome RegistryError (List String)
  dependency_order selected = after (closure_of registry (chosen selected)) sort_closure
