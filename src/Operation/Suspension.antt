-- ===== src/Operation/Suspension.antt =====
-- manager/operation_engine.py: what the plans of `_ordered_steps` guarantee, for operations that
-- bring their dependencies along, and for those that must not leave a consumer behind.
use fortifylab_archive.Operation.Bounds.{IsBounded, components_of, map_steps-ok}
use fortifylab_archive.Operation.Ordering.{
  ConsumersFirst, ConsumersFirst-keep, ConsumersFirst-reverse,
}
use fortifylab_archive.Operation.Plan.{
  Plan, Planner, filter_plan, from_registry, intersects, is_missing_consumer, map_steps,
  ordered_steps, step, transitive_dependencies,
}
use fortifylab_archive.Operation.Types.{Step}
use fortifylab_archive.Prelude.{
  All, Bool, Bool-cases, IsDistinct, List, String, [], ap, arith, contains, distinct, eq_iff, false,
  false≢true, if◌then◌else◌, inl, inr, keep, not, subst, sym, true, ◌==◌, ◌↔◌, ◌∙◌, ◌∷◌, ◌≡◌,
}
use fortifylab_archive.Prelude.Exec.{Outcome, Outcome-cases, after, after-eq-ok, ok, raised}
use fortifylab_archive.Registry.Components.{RegistryError, component_ids}
use fortifylab_archive.Registry.DependencyOrder.{DependenciesFirst, IsWalk}
use fortifylab_archive.Registry.Guarantees.{dependency_order_sorts}
use fortifylab_archive.Registry.Members.{Included-keep, Within, keep-Included}
use fortifylab_archive.Registry.Order.{chosen, dependency_order, listed}
use fortifylab_archive.Registry.Reach.{Included, Needs}
use mathlib.Core.List.{reverse}

filter_plan-nil :
    (test : String → Plan Bool) (cs : List String)
    → filter_plan test cs ≡ ok []
    → (c : String) → Included cs c
    → test c ≡ ok false
unfolding filter_plan contains
filter_plan-nil test [] h c p = absurd (cc)
filter_plan-nil test (x ∷ cs) h c p =
    let (b, first, h') =
      after-eq-ok (test x)
        (λ b. after (filter_plan test cs) (λ rest. ok (if b then x ∷ rest else rest))) h in
    let (rest, others, h'') =
      after-eq-ok (filter_plan test cs) (λ rest. ok (if b then x ∷ rest else rest)) h' in
    let off : b ≡ false = ground arith in
    let empty : rest ≡ [] = ground arith in
    elim (Bool-cases (x == c)) [
      | inl same ↦ subst (λ k. test k ≡ ok false) ((eq_iff x c).0 same) (first ∙ ap ok off)
      | inr other ↦ filter_plan-nil test cs (others ∙ ap ok empty) c (ground arith)
    ]

intersects_found :
    (xs ys : List String) (d : String) → Included xs d → Included ys d → intersects xs ys ≡ true
unfolding intersects contains
intersects_found [] ys d p q = absurd (cc)
intersects_found (x ∷ xs) ys d p q = elim (Bool-cases (x == d)) [
  | inl same ↦ ground (arith, ap (contains ys) ((eq_iff x d).0 same))
  | inr other ↦ ground (arith, intersects_found xs ys d)
]

from_registry-ok :
    {A : Type 0} (r : Outcome RegistryError A) {a : A} → from_registry r ≡ ok a → r ≡ ok a
from_registry-ok (ok a) h = ground arith
from_registry-ok (raised e) h = absurd (cc)

module _ (planner : Planner) (unique : IsDistinct (component_ids planner.registry))
    (walks : IsWalk planner.registry) where
  abbrev Needed : List String → String → Type 0
  Needed requested y =
      (x : String) × Included (chosen planner.registry requested) x × Needs planner.registry x y

  -- Installing, configuring, starting and upgrading: the steps are those of the requested
  -- components and of everything that they need, each once, dependencies first, and all bounded.
  pub ordered_steps_start :
      (operation : String) (requested : List String) (steps : List Step)
      → ordered_steps planner operation requested true ≡ ok steps
      → IsDistinct (components_of steps)
        × DependenciesFirst planner.registry [] (components_of steps)
        × ((y : String) → Included (components_of steps) y ↔ Needed requested y)
        × All (IsBounded planner operation) steps
  unfolding ordered_steps
  ordered_steps_start operation requested steps h =
      let (order, sorted, mapped) =
        after-eq-ok (from_registry (dependency_order planner.registry requested))
          (map_steps (λ c. step planner c operation)) h in
      let (same, bounded_steps) = map_steps-ok planner operation order steps mapped in
      let (distinct, first, exact) =
        dependency_order_sorts planner.registry unique walks requested order
          (from_registry-ok (dependency_order planner.registry requested) sorted) in
      subst
        (λ l.
          IsDistinct l
          × DependenciesFirst planner.registry [] l
          × ((y : String) → Included l y ↔ Needed requested y)
          × All (IsBounded planner operation) steps)
        (sym same) (distinct, first, exact, bounded_steps)

  -- A registered component outside the selection needs none of the selected ones.
  no_consumer :
      (requested : List String) (c d : String)
      → is_missing_consumer planner requested c ≡ ok false
      → contains requested c ≡ false
      → Included requested d
      → ¬ Needs planner.registry c d
  unfolding is_missing_consumer transitive_dependencies
  no_consumer requested c d h outside inside needs =
      let asked : after (transitive_dependencies planner c) (λ deps. ok (intersects requested deps))
          ≡ ok false =
        ground arith in
      let (deps, listed, answer) =
        after-eq-ok (transitive_dependencies planner c) (λ deps. ok (intersects requested deps))
          asked in
      let (order, sorted, kept) =
        after-eq-ok (from_registry (dependency_order planner.registry (c ∷ [])))
          (λ order. ok (keep (λ x. not (x == c)) order)) listed in
      let (distinct, first, exact) =
        dependency_order_sorts planner.registry unique walks (c ∷ []) order
          (from_registry-ok (dependency_order planner.registry (c ∷ [])) sorted) in
      let here : Included (c ∷ []) c = unfold contains in ground (arith, eq_iff c c) in
      let reached : Included order d = (exact d).1 (c, here, needs) in
      let other : (d == c) ≡ false = elim (Bool-cases (d == c)) [
        | inr no_match ↦ no_match
        | inl same ↦
            absurd
              (false≢true (sym outside ∙ subst (Included requested) ((eq_iff d c).0 same) inside))
      ] in
      let same : keep (λ x. not (x == c)) order ≡ deps = ground arith in
      let passes : not (d == c) ≡ true = ground arith in
      let dep : Included deps d =
        subst (λ l. Included l d) same (keep-Included (λ x. not (x == c)) order d passes reached) in
      let off : intersects requested deps ≡ false = ground arith in
      absurd (false≢true (sym off ∙ intersects_found requested deps d inside dep))

  -- Stopping, uninstalling and deleting data: the steps are those of the requested components
  -- alone, consumers before their dependencies, all bounded; and no registered component that
  -- needs a requested one is left out of the request.
  pub ordered_steps_stop :
      (operation : String) (requested : List String) (steps : List Step)
      → ordered_steps planner operation requested false ≡ ok steps
      → ConsumersFirst planner.registry (components_of steps)
        × Within (components_of steps) requested
        × All (IsBounded planner operation) steps
        × ((c d : String)
            → Included (component_ids planner.registry) c
            → Included requested d
            → Needs planner.registry c d
            → Included requested c)
  unfolding ordered_steps
  ordered_steps_stop operation requested steps h =
      elim (Outcome-cases
        (filter_plan (is_missing_consumer planner requested) (component_ids planner.registry))) [
          | inr (e, wrong) ↦ absurd (ground arith)
          | inl (x ∷ left_out, found) ↦ absurd (ground arith)
          | inl ([], found) ↦
              let asked : after (from_registry (dependency_order planner.registry requested))
                    (λ order.
                      map_steps (λ c. step planner c operation)
                        (keep (contains requested) (reverse order)))
                  ≡ ok steps =
                ground arith in
              let (order, sorted, mapped) =
                after-eq-ok (from_registry (dependency_order planner.registry requested))
                  (λ order.
                    map_steps (λ c. step planner c operation)
                      (keep (contains requested) (reverse order)))
                  asked in
              let (same, bounded_steps) =
                map_steps-ok planner operation (keep (contains requested) (reverse order)) steps
                  mapped in
              let (distinct, first, exact) =
                dependency_order_sorts planner.registry unique walks requested order
                  (from_registry-ok (dependency_order planner.registry requested) sorted) in
              (
                rw same (
                    ConsumersFirst-keep planner.registry (contains requested) (reverse order)
                      (ConsumersFirst-reverse planner.registry [] order distinct first)),
                rw same (λ y p. (Included-keep (contains requested) (reverse order) y p).0),
                bounded_steps,
                λ c d known inside needs. elim (Bool-cases (contains requested c)) [
                  | inl included ↦ included
                  | inr outside ↦ absurd (
                      no_consumer requested c d
                        (filter_plan-nil (is_missing_consumer planner requested)
                          (component_ids planner.registry) found c known)
                        outside inside needs)
                ],
              )
        ]
