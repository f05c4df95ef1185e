-- ===== src/Registry/Reach.antt =====
-- manager/component_registry.py: the closure holds exactly the components that the request needs.
use fortifylab_archive.Prelude.{
  Bool-cases, IsDistinct, List, String, [], all, arith, contains, eq_iff, if◌then◌else◌, inl, inr,
  subst, suc, true, zero, ℕ, ◌==◌, ◌∷◌, ◌≡◌, ◌⊎◌,
}
use fortifylab_archive.Prelude.Exec.{Outcome, after-eq-ok, each, ok}
use fortifylab_archive.Registry.Closure.{closure_of, include, include_fuel}
use fortifylab_archive.Registry.Components.{Component, Registry, RegistryError, component}

abbrev pub Included : List String → String → Type 0
Included xs x = contains xs x ≡ true

module _ (registry : Registry) where
  -- `a` needs `b`: they are equal, or `a` has a dependency that needs `b`.
  pub data Needs : String → String → Type 0 where
    itself : {a : String} → Needs a a
    via :
        {a b : String} (c : Component) (d : String)
        → component registry a ≡ ok c
        → Included c.dependencies d
        → Needs d b
        → Needs a b

  -- The component is registered, and the list has its dependencies.
  pub record IsSupported (closure : List String) (x : String) : Type 0 where
    pub definition : Component
    pub registered : component registry x ≡ ok definition
    pub complete : (d : String) → Included definition.dependencies d → Included closure d

  -- What a call of `include`, or a loop of calls, adds to a closure.
  pub record Grows (closure closure' : List String) : Type 0 where
    pub kept : (x : String) → Included closure x → Included closure' x
    pub supported : (x : String) → Included closure' x → Included closure x ⊎ IsSupported closure' x

  IsSupported-mono :
      {closure closure' : List String} {x : String}
      → ((y : String) → Included closure y → Included closure' y)
      → IsSupported closure x
      → IsSupported closure' x
  IsSupported-mono kept s = record {
    definition = s.definition;
    registered = s.registered;
    complete = λ d h. kept d (s.complete d h);
  }

  Grows-refl : (closure : List String) → Grows closure closure
  Grows-refl closure = record { kept = λ x h. h; supported = λ x h. inl h }

  Grows-trans : {a b c : List String} → Grows a b → Grows b c → Grows a c
  Grows-trans g h = record {
    kept = λ x p. h.kept x (g.kept x p);
    supported = λ x p. elim (h.supported x p) [
      | inr s ↦ inr s
      | inl q ↦ elim (g.supported x q) [ inl r ↦ inl r | inr s ↦ inr (IsSupported-mono h.kept s) ]
    ];
  }

  -- A body that grows the closure and leaves its item in it does so for every item of a loop.
  each-Grows :
      (body : String → List String → Outcome RegistryError (List String))
      (body_grows : (x : String) (c c' : List String)
        → body x c ≡ ok c'
        → Grows c c' × Included c' x)
      (xs : List String) (c c' : List String)
      → each body xs c ≡ ok c'
      → Grows c c' × ((x : String) → Included xs x → Included c' x)
  unfolding each contains
  each-Grows body body_grows [] c c' h =
      (subst (Grows c) (ground arith) (Grows-refl c), λ x p. absurd (cc))
  each-Grows body body_grows (x ∷ xs) c c' h =
      let (m, first, rest) = after-eq-ok (body x c) (each body xs) h in
      let (grown, here) = body_grows x c m first in
      let (grown', there) = each-Grows body body_grows xs m c' rest in
      (
        Grows-trans grown grown',
        λ y p. elim (Bool-cases (x == y)) [
          | inl same ↦ subst (Included c') ((eq_iff x y).0 same) (grown'.kept x here)
          | inr other ↦ there y (ground arith)
        ],
      )

  added-Grows :
      (x : String) (definition : Component) (c c' : List String)
      → component registry x ≡ ok definition
      → Grows (x ∷ c) c'
      → ((d : String) → Included definition.dependencies d → Included c' d)
      → Grows c c' × Included c' x
  unfolding contains
  added-Grows x definition c c' found g deps = (
    record {
      kept = λ y p. g.kept y (ground arith);
      supported = λ y p. elim (g.supported y p) [
        | inr s ↦ inr s
        | inl q ↦ elim (Bool-cases (x == y)) [
          | inl same ↦ inr (record {
            definition = definition;
            registered = rw (← (eq_iff x y).0 same) found;
            complete = deps;
          })
          | inr other ↦ inl (ground arith)
        ]
      ];
    },
    g.kept x (ground (arith, eq_iff x x)),
  )

  pub include-Grows :
      (fuel : ℕ) (x : String) (c c' : List String)
      → include registry fuel x c ≡ ok c'
      → Grows c c' × Included c' x
  unfolding include
  include-Grows zero x c c' h = absurd (cc)
  include-Grows (suc fuel) x c c' h =
      let (definition, found, rest) =
        after-eq-ok (component registry x)
          (λ d. if contains c x then ok c else each (include registry fuel) d.dependencies (x ∷ c))
          h in
      elim (Bool-cases (contains c x)) [
        | inl old ↦
            let same : c ≡ c' = ground arith in
            (subst (Grows c) same (Grows-refl c), subst (λ l. Included l x) same old)
        | inr new ↦
            let (g, deps) =
              each-Grows (include registry fuel) (include-Grows fuel) definition.dependencies
                (x ∷ c) c' (ground arith) in
            added-Grows x definition c c' found g deps
      ]

  -- Whatever a component of the closure needs is in the closure.
  pub Needs-Included :
      (closure : List String)
      → ((x : String) → Included closure x → IsSupported closure x)
      → {a b : String} → Needs a b
      → Included closure a
      → Included closure b
  Needs-Included closure all itself h = h
  Needs-Included closure all (via {a} {b} c d found dep n) h =
      let s = all a h in
      let same : s.definition ≡ c = ground (arith, s.registered) in
      Needs-Included closure all n (s.complete d (rw same dep))

  pub closure_of-Grows :
      (selection closure : List String)
      → closure_of registry selection ≡ ok closure
      → Grows [] closure
        × ((x : String) → Included (registry.walk selection) x → Included closure x)
  unfolding closure_of
  closure_of-Grows selection closure h =
      each-Grows (include registry (include_fuel registry)) (include-Grows (include_fuel registry))
        (registry.walk selection) [] closure h

  pub closure_of-IsSupported :
      (selection closure : List String)
      → closure_of registry selection ≡ ok closure
      → (x : String) → Included closure x
      → IsSupported closure x
  unfolding contains
  closure_of-IsSupported selection closure h x p =
      elim ((closure_of-Grows selection closure h).0.supported x p) [
        | inl nothing ↦ absurd (cc)
        | inr s ↦ s
      ]

  each_distinct :
      (body : String → List String → Outcome RegistryError (List String))
      (body_distinct : (x : String) (c c' : List String)
        → body x c ≡ ok c'
        → IsDistinct c
        → IsDistinct c')
      (xs c c' : List String)
      → each body xs c ≡ ok c'
      → IsDistinct c
      → IsDistinct c'
  unfolding each
  each_distinct body body_distinct [] c c' h d = subst IsDistinct (ground arith) d
  each_distinct body body_distinct (x ∷ xs) c c' h d =
      let (m, first, rest) = after-eq-ok (body x c) (each body xs) h in
      each_distinct body body_distinct xs m c' rest (body_distinct x c m first d)

  include_distinct :
      (fuel : ℕ) (x : String) (c c' : List String)
      → include registry fuel x c ≡ ok c'
      → IsDistinct c
      → IsDistinct c'
  unfolding include
  include_distinct zero x c c' h d = absurd (cc)
  include_distinct (suc fuel) x c c' h d =
      let (definition, found, rest) =
        after-eq-ok (component registry x)
          (λ f. if contains c x then ok c else each (include registry fuel) f.dependencies (x ∷ c))
          h in
      elim (Bool-cases (contains c x)) [
        | inl old ↦ subst IsDistinct (ground arith) d
        | inr new ↦
            each_distinct (include registry fuel) (include_distinct fuel) definition.dependencies
              (x ∷ c) c' (ground arith) (new, d)
      ]

  pub closure_of_distinct :
      (selection closure : List String)
      → closure_of registry selection ≡ ok closure
      → IsDistinct closure
  unfolding closure_of
  closure_of_distinct selection closure h =
      each_distinct (include registry (include_fuel registry))
        (include_distinct (include_fuel registry)) (registry.walk selection) [] closure h tt
