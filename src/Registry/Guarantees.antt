-- ===== src/Registry/Guarantees.antt =====
-- manager/component_registry.py: the promises of `dependency_order`.
use fortifylab_archive.Prelude.{
  Bool-cases, IsDistinct, List, String, [], arith, contains, distinct, false, false≢true, inl, inr,
  length, refl, some, subst, suc, sym, zero, ℕ, ◌+◌, ◌<◌, ◌↔◌, ◌∙◌, ◌≡◌, ◌≢◌, ◌≤◌,
}
use fortifylab_archive.Prelude.Exec.{Outcome-cases, after-eq-ok, ok, raised}
use fortifylab_archive.Prelude.Table.{Table}
use fortifylab_archive.Registry.Closure.{closure_of}
use fortifylab_archive.Registry.Components.{
  Component, Registry, component, component_ids, out_of_fuel,
}
use fortifylab_archive.Registry.Counting.{missing, missing-pos}
use fortifylab_archive.Registry.DependencyOrder.{
  DependenciesFirst, IsWalk, drained, sorted-DependenciesFirst,
}
use fortifylab_archive.Registry.Edges.{IsGraphOf, edges-IsGraphOf}
use fortifylab_archive.Registry.Fuel.{closure_of_fueled}
use fortifylab_archive.Registry.Members.{Within, distinct-covers, distinct-length-le}
use fortifylab_archive.Registry.Minimal.{closure_of_exact}
use fortifylab_archive.Registry.Order.{
  Edge, chosen, dependency_order, drain, edges, graph_of, ordered_or_cycle, queue_of, sort_closure,
}
use fortifylab_archive.Registry.Reach.{
  Included, IsSupported, Needs, closure_of-IsSupported, closure_of_distinct,
}

module _ (registry : Registry) (unique : IsDistinct (component_ids registry))
    (walks : IsWalk registry) (closure : List String)
    (supported : (x : String) → Included closure x → IsSupported registry closure x) where
  sort_closure_steps :
      (es : List Edge) (result : List String × Table ℕ)
      → edges registry (registry.walk closure) ≡ ok es
      → drain
          (length closure + 1)
          (graph_of registry closure es).consumers
          (queue_of registry closure es)
        ≡ some result
      → sort_closure registry closure ≡ ordered_or_cycle closure (some result)
  unfolding sort_closure
  sort_closure_steps es result e returned = rw e (rw returned refl)

  -- A component that is not placed waits for another one.
  abbrev IsStuck : List String → Type 0
  IsStuck ordered =
      (c : String)
      → Included closure c
      → contains ordered c ≡ false
      → (definition : Component) × (d : String) × (component registry c ≡ ok definition)
        × Included definition.dependencies d
        × Included closure d
        × (contains ordered d ≡ false)

  record Sorting : Type 0 where
    result : List String × Table ℕ
    distinct : IsDistinct result.0
    within : Within result.0 closure
    first : DependenciesFirst registry [] result.0
    stuck : IsStuck result.0
    tested : sort_closure registry closure ≡ ordered_or_cycle closure (some result)

  waits :
      (es : List Edge) (graph : IsGraphOf registry (registry.walk closure) es)
      (ordered : List String)
      → ((c : String) → Included closure c → missing ordered c es ≡ 0 → Included ordered c)
      → IsStuck ordered
  waits es graph ordered complete c inside outside =
      let s : IsSupported registry closure c = supported c inside in
      let some_missing : 0 < missing ordered c es = ground (arith, complete c inside) in
      let (d, between, unplaced) = missing-pos ordered c es some_missing in
      let dep : Included s.definition.dependencies d =
        graph.dependency c d s.definition s.registered between in
      (s.definition, d, s.registered, dep, s.complete d dep, unplaced)

  sorting : Sorting
  sorting =
      let (es, e, graph) = edges-IsGraphOf registry (registry.walk closure) (λ k p. (
        (supported k (walks.into closure k p)).definition,
        (supported k (walks.into closure k p)).registered,
      )) in
      let (result, returned, part) = drained registry unique walks closure supported es graph in
      record {
        result = result;
        distinct = part.distinct;
        within = part.within;
        first =
            sorted-DependenciesFirst registry unique walks closure supported es graph [] result.0
              part.within part.sorted;
        stuck = waits es graph result.0 part.complete;
        tested = sort_closure_steps es result e returned;
      }

  sort_closure_sorts :
      (order : List String)
      → sort_closure registry closure ≡ ok order
      → IsDistinct order
        × Within order closure
        × Within closure order
        × DependenciesFirst registry [] order
  sort_closure_sorts order h =
      let s : Sorting = sorting in
      let same : s.result.0 ≡ order = ground (arith, s.tested) in
      let full : length s.result.0 ≡ length closure = ground (arith, s.tested) in
      subst
        (λ o. IsDistinct o × Within o closure × Within closure o × DependenciesFirst registry [] o)
        same
        (s.distinct, s.within, distinct-covers s.result.0 closure s.distinct s.within full, s.first)

  -- With a rank that falls along dependencies nothing can be stuck.
  module _ (rank : String → ℕ)
      (falls : (a d : String) (c : Component)
        → component registry a ≡ ok c
        → Included c.dependencies d
        → rank d < rank a) where
    all_placed :
        (ordered : List String)
        → IsStuck ordered
        → (bound : ℕ) (c : String) → rank c < bound
        → Included closure c
        → Included ordered c
    all_placed ordered stuck zero c below inside = absurd (omega arith)
    all_placed ordered stuck (suc bound) c below inside = elim (Bool-cases (contains ordered c)) [
      | inl placed ↦ placed
      | inr outside ↦
          let (definition, d, found, dep, inside', unplaced) = stuck c inside outside in
          absurd (
            false≢true (
              sym unplaced
              ∙ all_placed ordered stuck bound d (omega (arith, falls c d definition found dep))
                  inside'))
    ]

    sort_closure_total :
        IsDistinct closure → (order : List String) × (sort_closure registry closure ≡ ok order)
    sort_closure_total distinct =
        let s : Sorting = sorting in
        let most : length closure ≤ length s.result.0 =
          distinct-length-le closure s.result.0 distinct
            (λ c p. all_placed s.result.0 s.stuck (suc (rank c)) c (omega arith) p) in
        let least : length s.result.0 ≤ length closure =
          distinct-length-le s.result.0 closure s.distinct s.within in
        (s.result.0, ground (arith, s.tested))

module _ (registry : Registry) (unique : IsDistinct (component_ids registry))
    (walks : IsWalk registry) (selection : List String) where
  -- The order that `dependency_order` returns holds exactly the components that the selection
  -- needs, each once, and every component comes after all of its dependencies.
  pub dependency_order_sorts :
      (order : List String)
      → dependency_order registry selection ≡ ok order
      → IsDistinct order
        × DependenciesFirst registry [] order
        × ((y : String)
            → Included order y
              ↔ ((x : String) × Included (chosen registry selection) x × Needs registry x y))
  unfolding dependency_order
  dependency_order_sorts order h =
      let (closure, closed, sorts) =
        after-eq-ok (closure_of registry (chosen registry selection)) (sort_closure registry) h in
      let (distinct, within, covers, first) =
        sort_closure_sorts registry unique walks closure
          (closure_of-IsSupported registry (chosen registry selection) closure closed) order
          sorts in
      let exact = closure_of_exact registry (chosen registry selection) closure closed in
      (
        distinct,
        first,
        λ y. (
          λ p.
              let (x, picked, needs) = (exact y).0 (within y p) in
              (x, walks.into (chosen registry selection) x picked, needs),
          λ n. covers y ((exact y).1 (n.0, walks.onto (chosen registry selection) n.0 n.1, n.2)),
        ),
      )

  -- On a registry whose dependencies have a rank, so that there is no cycle, `dependency_order`
  -- returns an order whenever the selection and what it needs are registered.
  pub dependency_order_total :
      (rank : String → ℕ) (closure : List String)
      → ((a d : String) (c : Component)
          → component registry a ≡ ok c
          → Included c.dependencies d
          → rank d < rank a)
      → closure_of registry (chosen registry selection) ≡ ok closure
      → (order : List String) × (dependency_order registry selection ≡ ok order)
  unfolding dependency_order
  dependency_order_total rank closure falls closed =
      let (order, sorts) =
        sort_closure_total registry unique walks closure
          (closure_of-IsSupported registry (chosen registry selection) closure closed) rank falls
          (closure_of_distinct registry (chosen registry selection) closure closed) in
      (order, rw closed sorts)

  -- The bounds on the recursion and on the loop are never reached.
  pub dependency_order_fueled : dependency_order registry selection ≢ raised out_of_fuel
  unfolding dependency_order
  dependency_order_fueled h =
      elim (Outcome-cases (closure_of registry (chosen registry selection))) [
        | inr (e, failed) ↦ closure_of_fueled registry (chosen registry selection) (ground arith)
        | inl (closure, closed) ↦
            let tested = Sorting.tested (
              sorting registry unique walks closure
                (closure_of-IsSupported registry (chosen registry selection) closure closed)) in
            ground arith
      ]
