-- ===== src/Registry/Fuel.antt =====
-- manager/component_registry.py: `include` never needs more nestings than there are components.
use fortifylab_archive.Prelude.{
  Bool, Bool-cases, List, String, [], arith, contains, eq_iff, false, inl, inr, keep, length,
  length-keep-le, not, some, suc, true, zero, ℕ, ◌<◌, ◌==◌, ◌∷◌, ◌≡◌, ◌≢◌, ◌≤◌,
}
use fortifylab_archive.Prelude.Exec.{Outcome, Outcome-cases, each, ok, raised}
use fortifylab_archive.Prelude.Table.{Table, select}
use fortifylab_archive.Registry.Closure.{closure_of, include, include_fuel}
use fortifylab_archive.Registry.Components.{
  Component, Registry, RegistryError, component, component_ids, keys, out_of_fuel,
}
use fortifylab_archive.Registry.Reach.{Grows, Included, include-Grows}

module _ {ℓ} {A : Type ℓ} where
  pub length-keep_mono :
      (p q : A → Bool) (xs : List A)
      → ((x : A) → p x ≡ true → q x ≡ true)
      → length (keep p xs) ≤ length (keep q xs)
  unfolding keep
  length-keep_mono p q [] h = omega arith
  length-keep_mono p q (x ∷ xs) h = ground (arith, h x, length-keep_mono p q xs h)

length-keep-lt :
    (p q : String → Bool) (xs : List String) (y : String)
    → ((x : String) → p x ≡ true → q x ≡ true)
    → Included xs y
    → p y ≡ false
    → q y ≡ true
    → length (keep p xs) < length (keep q xs)
unfolding keep contains
length-keep-lt p q [] y h inside no_p has_q = absurd (cc)
length-keep-lt p q (x ∷ xs) y h inside no_p has_q = elim (Bool-cases (x == y)) [
  | inl same ↦ let e : x ≡ y = (eq_iff x y).0 same in ground (arith, length-keep_mono p q xs h)
  | inr other ↦ ground (arith, h x, length-keep-lt p q xs y h)
]

module _ (registry : Registry) where
  abbrev unseen : List String → ℕ
  unseen closure = length (keep (λ k. not (contains closure k)) (component_ids registry))

  unseen_mono :
      (c c' : List String) → ((x : String) → Included c x → Included c' x) → unseen c' ≤ unseen c
  unseen_mono c c' h =
      length-keep_mono (λ k. not (contains c' k)) (λ k. not (contains c k)) (component_ids registry)
        (λ x p. ground (arith, h x))

  unseen-lt :
      (c : List String) (x : String)
      → Included (component_ids registry) x
      → contains c x ≡ false
      → unseen (x ∷ c) < unseen c
  unfolding contains
  unseen-lt c x inside new =
      length-keep-lt (λ k. not (contains (x ∷ c) k)) (λ k. not (contains c k))
        (component_ids registry) x (λ y p. ground arith) inside (ground (arith, eq_iff x x))
        (ground arith)

  Included-keys :
      {V : Type 0} (t : Table V) (x : String) (v : V) → select x t ≡ some v → Included (keys t) x
  unfolding select contains
  Included-keys [] x v h = absurd (cc)
  Included-keys ((k, w) ∷ t) x v h = ground (arith, Included-keys t x v)

  pub component-Included :
      (x : String) (c : Component)
      → component registry x ≡ ok c
      → Included (component_ids registry) x
  unfolding component
  component-Included x c h = Included-keys registry.components x c (ground arith)

  not-out_of_fuel_component : (x : String) → component registry x ≢ raised out_of_fuel
  unfolding component
  not-out_of_fuel_component x h = ground arith

  each_fueled :
      (body : String → List String → Outcome RegistryError (List String)) (fuel : ℕ)
      (fueled : (x : String) (c : List String) → unseen c < fuel → body x c ≢ raised out_of_fuel)
      (body_grows : (x : String) (c c' : List String)
        → body x c ≡ ok c'
        → Grows registry c c' × Included c' x)
      (xs c : List String)
      → unseen c < fuel
      → each body xs c ≢ raised out_of_fuel
  unfolding each
  each_fueled body fuel fueled body_grows [] c enough h = cc
  each_fueled body fuel fueled body_grows (x ∷ xs) c enough h = elim (Outcome-cases (body x c)) [
    | inl (m, first) ↦
        each_fueled body fuel fueled body_grows xs m
          (omega (arith, unseen_mono c m ((body_grows x c m first).0.kept))) (rw first at h)
    | inr (e, failed) ↦ fueled x c enough (ground arith)
  ]

  include_fueled :
      (fuel : ℕ) (x : String) (c : List String)
      → unseen c < fuel
      → include registry fuel x c ≢ raised out_of_fuel
  unfolding include
  include_fueled zero x c enough h = absurd (omega arith)
  include_fueled (suc fuel) x c enough h = elim (Outcome-cases (component registry x)) [
    | inr (e, failed) ↦ not-out_of_fuel_component x (ground arith)
    | inl (definition, found) ↦ elim (Bool-cases (contains c x)) [
      | inl old ↦ ground arith
      | inr new ↦
          each_fueled (include registry fuel) fuel (include_fueled fuel)
            (include-Grows registry fuel) definition.dependencies (x ∷ c)
            (omega (arith, unseen-lt c x (component-Included x definition found) new))
            (ground arith)
    ]
  ]

  -- The closure is computed within the fuel, whatever the registry and the selection.
  pub closure_of_fueled :
      (selection : List String) → closure_of registry selection ≢ raised out_of_fuel
  unfolding closure_of
  closure_of_fueled selection =
      each_fueled (include registry (include_fuel registry)) (include_fuel registry)
        (include_fueled (include_fuel registry)) (include-Grows registry (include_fuel registry))
        (registry.walk selection) []
        (omega (arith, length-keep-le (λ k. not (contains [] k)) (component_ids registry)))
