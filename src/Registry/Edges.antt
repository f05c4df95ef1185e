-- ===== src/Registry/Edges.antt =====
-- manager/component_registry.py: the edges of a closure, and the state before the first round.
use fortifylab_archive.Prelude.{
  Bool-cases, List, String, [], ap, arith, contains, eq_iff, inl, inr, refl, ◌++◌, ◌+◌, ◌<◌, ◌==◌,
  ◌∷◌, ◌≡◌,
}
use fortifylab_archive.Prelude.Exec.{ok}
use fortifylab_archive.Registry.Components.{Component, Registry, component}
use fortifylab_archive.Registry.Counting.{edges_between}
use fortifylab_archive.Registry.Order.{Edge, edges, edges_from}
use fortifylab_archive.Registry.Reach.{Included}

edges_from_self :
    (c d : String) (ds : List String) → Included ds d → 0 < edges_between c d (edges_from c ds)
unfolding edges_from edges_between contains
edges_from_self c d [] h = absurd (cc)
edges_from_self c d (x ∷ ds) h = ground (arith, eq_iff c c, edges_from_self c d ds)

edges_from_other :
    (a c d : String) (ds : List String) → 0 < edges_between c d (edges_from a ds) → a ≡ c
unfolding edges_from edges_between
edges_from_other a c d [] h = absurd (omega arith)
edges_from_other a c d (x ∷ ds) h = ground (arith, eq_iff a c, edges_from_other a c d ds)

edges_between-append :
    (c d : String) (es fs : List Edge)
    → edges_between c d (es ++ fs) ≡ edges_between c d es + edges_between c d fs
unfolding edges_between
edges_between-append c d [] fs = omega arith
edges_between-append c d ((a, b) ∷ es) fs = ground (arith, edges_between-append c d es fs)

edges_from_dep :
    (c d : String) (ds : List String) → 0 < edges_between c d (edges_from c ds) → Included ds d
unfolding edges_from edges_between contains
edges_from_dep c d [] h = absurd (omega arith)
edges_from_dep c d (x ∷ ds) h = ground (arith, eq_iff x d, edges_from_dep c d ds)

module _ (registry : Registry) where
  -- The edges of a walk: those of its components to their dependencies.
  pub record IsGraphOf (ks : List String) (es : List Edge) : Type 0 where
    pub from : (c d : String) → 0 < edges_between c d es → Included ks c
    pub dependency :
        (c d : String) (definition : Component)
        → component registry c ≡ ok definition
        → 0 < edges_between c d es
        → Included definition.dependencies d
    pub complete :
        (c d : String) (definition : Component)
        → Included ks c
        → component registry c ≡ ok definition
        → Included definition.dependencies d
        → 0 < edges_between c d es

  none_between : (c d : String) → edges_between c d [] ≡ 0
  unfolding edges_between
  none_between c d = refl

  IsGraphOf-cons :
      (k : String) (ks : List String) (es : List Edge) (definition : Component)
      → component registry k ≡ ok definition
      → IsGraphOf ks es
      → IsGraphOf (k ∷ ks) (edges_from k definition.dependencies ++ es)
  unfolding contains
  IsGraphOf-cons k ks es definition found g = record {
    from = λ c d p. ground (
      arith,
      edges_between-append c d (edges_from k definition.dependencies) es,
      edges_from_other k c d definition.dependencies,
      eq_iff k c,
      g.from c d,
    );
    dependency = λ c d other found' p. elim (Bool-cases (k == c)) [
      | inl same ↦
          let e : k ≡ c = (eq_iff k c).0 same in
          let agree : definition ≡ other = ground (arith, ap (component registry) e) in
          ground (
            arith,
            edges_between-append c d (edges_from k definition.dependencies) es,
            edges_from_dep c d other.dependencies,
            ap (λ x. edges_between c d (edges_from x definition.dependencies)) e,
            ap (λ (x : Component). edges_between c d (edges_from c x.dependencies)) agree,
            g.dependency c d other found',
          )
      | inr differ ↦ ground (
        arith,
        edges_between-append c d (edges_from k definition.dependencies) es,
        edges_from_other k c d definition.dependencies,
        eq_iff k c,
        g.dependency c d other found',
      )
    ];
    complete = λ c d other inside found' dep. elim (Bool-cases (k == c)) [
      | inl same ↦
          let e : k ≡ c = (eq_iff k c).0 same in
          let agree : definition ≡ other = ground (arith, ap (component registry) e) in
          ground (
            arith,
            edges_between-append c d (edges_from k definition.dependencies) es,
            edges_from_self c d other.dependencies dep,
            ap (λ x. edges_between c d (edges_from x definition.dependencies)) e,
            ap (λ (x : Component). edges_between c d (edges_from c x.dependencies)) agree,
          )
      | inr differ ↦ ground (
        arith,
        edges_between-append c d (edges_from k definition.dependencies) es,
        g.complete c d other (ground arith) found' dep,
      )
    ];
  }

  pub edges-IsGraphOf :
      (ks : List String)
      → ((k : String) → Included ks k → (c : Component) × (component registry k ≡ ok c))
      → (es : List Edge) × (edges registry ks ≡ ok es) × IsGraphOf ks es
  unfolding edges contains
  edges-IsGraphOf [] registered = (
    [],
    refl,
    record {
      from = λ c d p. absurd (omega (arith, none_between c d));
      dependency = λ c d definition found p. absurd (omega (arith, none_between c d));
      complete = λ c d definition inside found dep. absurd (cc);
    },
  )
  edges-IsGraphOf (k ∷ ks) registered =
      let (definition, found) = registered k (ground (arith, eq_iff k k)) in
      let (es, e, g) = edges-IsGraphOf ks (λ j p. registered j (ground arith)) in
      (
        edges_from k definition.dependencies ++ es,
        rw (found, e) refl,
        IsGraphOf-cons k ks es definition found g,
      )
