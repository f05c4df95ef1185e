-- ===== src/Registry/Minimal.antt =====
-- manager/component_registry.py: the closure holds nothing that the request does not need.
use fortifylab_archive.Prelude.{
  Bool-cases, List, String, [], arith, contains, eq_iff, if◌then◌else◌, inl, inr, subst, suc, zero,
  ℕ, ◌==◌, ◌↔◌, ◌∷◌, ◌≡◌, ◌⊎◌,
}
use fortifylab_archive.Prelude.Exec.{Outcome, after-eq-ok, each, ok}
use fortifylab_archive.Registry.Closure.{closure_of, include, include_fuel}
use fortifylab_archive.Registry.Components.{Registry, RegistryError, component}
use fortifylab_archive.Registry.Reach.{
  Included, Needs, Needs-Included, closure_of-IsSupported, closure_of-Grows, itself, via,
}

module _ (registry : Registry) where
  -- A member that `closure'` has and `closure` had not is needed by one of `xs`.
  abbrev Explained : List String → List String → List String → Type 0
  Explained xs closure closure' =
      (y : String)
      → Included closure' y
      → Included closure y ⊎ ((x : String) × Included xs x × Needs registry x y)

  Explained-here :
      (x : String) (xs closure closure' : List String)
      → ((y : String) → Included closure' y → Included closure y ⊎ Needs registry x y)
      → Explained (x ∷ xs) closure closure'
  unfolding contains
  Explained-here x xs closure closure' h y p = elim (h y p) [
    | inl old ↦ inl old
    | inr n ↦ inr (x, ground (arith, eq_iff x x), n)
  ]

  each-Explained :
      (body : String → List String → Outcome RegistryError (List String))
      (explains : (x : String) (c c' : List String)
        → body x c ≡ ok c'
        → (y : String) → Included c' y
        → Included c y ⊎ Needs registry x y)
      (xs c c' : List String)
      → each body xs c ≡ ok c'
      → Explained xs c c'
  unfolding each contains
  each-Explained body explains [] c c' h y p = inl (subst (λ l. Included l y) (ground arith) p)
  each-Explained body explains (x ∷ xs) c c' h y p =
      let (m, first, rest) = after-eq-ok (body x c) (each body xs) h in
      elim (each-Explained body explains xs m c' rest y p) [
        | inl q ↦ Explained-here x xs c m (explains x c m first) y q
        | inr (z, inside, n) ↦ inr (z, ground arith, n)
      ]

  include-Explained :
      (fuel : ℕ) (x : String) (c c' : List String)
      → include registry fuel x c ≡ ok c'
      → (y : String) → Included c' y
      → Included c y ⊎ Needs registry x y
  unfolding include contains
  include-Explained zero x c c' h y p = absurd (cc)
  include-Explained (suc fuel) x c c' h y p =
      let (definition, found, rest) =
        after-eq-ok (component registry x)
          (λ d. if contains c x then ok c else each (include registry fuel) d.dependencies (x ∷ c))
          h in
      elim (Bool-cases (contains c x)) [
        | inl old ↦ inl (subst (λ l. Included l y) (ground arith) p)
        | inr new ↦
            elim (each-Explained (include registry fuel) (include-Explained fuel)
              definition.dependencies (x ∷ c) c' (ground arith) y p) [
                | inr (d, dep, n) ↦ inr (via definition d found dep n)
                | inl q ↦ elim (Bool-cases (x == y)) [
                  | inl same ↦ inr (subst (Needs registry x) ((eq_iff x y).0 same) itself)
                  | inr other ↦ inl (ground arith)
                ]
              ]
      ]

  -- The closure of a selection holds exactly the components that a selected one needs.
  pub closure_of_exact :
      (selection closure : List String)
      → closure_of registry selection ≡ ok closure
      → (y : String)
      → Included closure y
        ↔ ((x : String) × Included (registry.walk selection) x × Needs registry x y)
  unfolding closure_of contains
  closure_of_exact selection closure h y = (
    λ p.
        elim (each-Explained (include registry (include_fuel registry))
          (include-Explained (include_fuel registry)) (registry.walk selection) [] closure h y p) [
            | inl nothing ↦ absurd (cc)
            | inr needed ↦ needed
          ],
    λ needed.
        Needs-Included registry closure (closure_of-IsSupported registry selection closure h)
          needed.2 ((closure_of-Grows registry selection closure h).1 needed.0 needed.1),
  )
