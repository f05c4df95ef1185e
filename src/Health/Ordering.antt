-- ===== src/Health/Ordering.antt =====
-- manager/health.py: the subjects come in an order in which their dependencies are known, so that
-- the document is always produced.
use fortifylab_archive.Health.Completeness.{DependenciesKnown, evaluate_all-total, subject_ids}
use fortifylab_archive.Health.Document.{
  Engine, EnvironmentHealth, document, environment, ids_of, with_impact,
}
use fortifylab_archive.Health.Evaluation.{Item, Subject}
use fortifylab_archive.Health.Checks.{CheckSpec, ProbeResult, answered}
use fortifylab_archive.Health.Roots.{IsCounted}
use fortifylab_archive.Health.States.{Layer, is_storage, is_workload}
use fortifylab_archive.Health.Subjects.{
  check_dependencies, check_spec, check_specs, component_layer, component_subjects, from_registry,
  infrastructure_subjects, subjects,
}
use fortifylab_archive.Prelude.{
  All, Bool-cases, IsDistinct, List, String, [], ap, arith, contains, contains-distinct, distinct,
  eq_iff, if-eq_false, if-eq_true, inl, inr, member_cons, member_snoc, refl, sym, true, ℕ, ◌++◌,
  ◌==◌, ◌∙◌, ◌∷◌, ◌≡◌, ◌⊎◌,
}
use fortifylab_archive.Prelude.Exec.{Outcome, after-eq-ok, ok, ok_subst, raised}
use fortifylab_archive.Registry.Components.{
  Check, Registry, RegistryError, component, component_ids,
}
use fortifylab_archive.Registry.DependencyOrder.{DependenciesFirst, IsWalk}
use fortifylab_archive.Registry.Guarantees.{dependency_order_sorts}
use fortifylab_archive.Registry.Members.{Within}
use fortifylab_archive.Registry.Order.{dependency_order, listed}
use fortifylab_archive.Registry.Reach.{Included}

abbrev platform_ids : List String
platform_ids = "tls" ∷ "ingress" ∷ "dns" ∷ "storage" ∷ "microk8s-node" ∷ []

-- A check of a component needs nothing but the platform and the dependencies of the component.
check_dependencies-within :
    (layer : Layer) (needs : List String) (x : String)
    → Included (check_dependencies layer needs) x
    → Included platform_ids x ⊎ Included needs x
unfolding contains
check_dependencies-within layer needs x h = elim (Bool-cases (is_workload layer)) [
  | inl at_workload ↦ inl (ground (arith, h, at_workload))
  | inr other ↦ elim (Bool-cases (is_storage layer)) [
    | inl at_storage ↦ inl (ground (arith, h, other, at_storage))
    | inr neither ↦
        let all_needs : List String = "microk8s-node" ∷ "dns" ∷ needs in
        let listed : contains (distinct all_needs) x ≡ true = ground (arith, h, other, neither) in
        let known : contains all_needs x ≡ true = sym (contains-distinct all_needs x) ∙ listed in
        elim (Bool-cases ("microk8s-node" == x)) [
          | inl node ↦ inl (ground (arith, eq_iff "microk8s-node" x, eq_iff "dns" x))
          | inr no_node ↦ elim (Bool-cases ("dns" == x)) [
            | inl dns ↦ inl (ground (arith, eq_iff "dns" x))
            | inr no_dns ↦ inr (ground (arith, known))
          ]
        ]
  ]
]

check_spec-Within :
    (id : String) (needs placed_before : List String) (c : Check) (spec : CheckSpec)
    → check_spec id needs c ≡ ok spec
    → ((x : String) → Included platform_ids x → Included placed_before x)
    → Within needs placed_before
    → Within spec.dependencies placed_before
unfolding check_spec
check_spec-Within id needs placed_before c spec h platform within =
    let (layer, _, h') = after-eq-ok (component_layer c.check_type) _ h in
    ok_subst (λ (s : CheckSpec). Within s.dependencies placed_before) h'
      (λ x p. elim (check_dependencies-within layer needs x p) [
        | inl of_platform ↦ platform x of_platform
        | inr own ↦ within x own
      ])

check_specs-Within :
    (id : String) (needs placed_before : List String) (cs : List Check) (specs : List CheckSpec)
    → check_specs id needs cs ≡ ok specs
    → ((x : String) → Included platform_ids x → Included placed_before x)
    → Within needs placed_before
    → All (λ c. Within c.dependencies placed_before) specs
unfolding check_specs
check_specs-Within id needs placed_before [] specs h platform within =
    ok_subst (All (λ c. Within c.dependencies placed_before)) h tt
check_specs-Within id needs placed_before (c ∷ cs) specs h platform within =
    elim (Bool-cases c.required) [
      | inr optional ↦
          check_specs-Within id needs placed_before cs specs (if-eq_false _ _ optional h) platform
            within
      | inl mandatory ↦
          let (spec, one, h') =
            after-eq-ok (check_spec id needs c) _ (if-eq_true _ _ mandatory h) in
          let (rest, others, h'') = after-eq-ok (check_specs id needs cs) _ h' in
          ok_subst (All (λ c. Within c.dependencies placed_before)) h'' (
            check_spec-Within id needs placed_before c spec one platform within,
            check_specs-Within id needs placed_before cs rest others platform within,
          )
    ]

from_registry-ok :
    {A : Type 0} (r : Outcome RegistryError A) (a : A) → from_registry r ≡ ok a → r ≡ ok a
from_registry-ok (ok a) b h = cc
from_registry-ok (raised e) b h = absurd (cc)

-- Along an order with dependencies first, all dependencies are known.
component_subjects-known :
    (registry : Registry) (placed placed_before order : List String) (ss : List Subject)
    → DependenciesFirst registry placed order
    → Within placed placed_before
    → ((x : String) → Included platform_ids x → Included placed_before x)
    → component_subjects registry order ≡ ok ss
    → DependenciesKnown placed_before ss
unfolding component_subjects contains
component_subjects-known registry placed placed_before [] ss first within platform h =
    ok_subst (DependenciesKnown placed_before) h tt
component_subjects-known registry placed placed_before (id ∷ ids) ss first within platform h =
    let (c, found, h') = after-eq-ok (from_registry (component registry id)) _ h in
    let (checks, specs, h'') = after-eq-ok (check_specs id c.dependencies c.checks) _ h' in
    let (rest, others, h3) = after-eq-ok (component_subjects registry ids) _ h'' in
    ok_subst (DependenciesKnown placed_before) h3 (
      check_specs-Within id c.dependencies placed_before c.checks checks specs platform
          (λ x p. within x (first.0 c (from_registry-ok (component registry id) c found) x p)),
      component_subjects-known registry (placed ++ id ∷ []) (id ∷ placed_before) ids rest first.1
          (λ x p. elim (member_snoc placed id x p) [
            | inl old ↦ member_cons id placed_before x (within x old)
            | inr new ↦ ground (arith, eq_iff id x)
          ])
          (λ x p. member_cons id placed_before x (platform x p)) others,
    )

platform_known :
    (rest : List Subject)
    → DependenciesKnown platform_ids rest
    → DependenciesKnown [] (infrastructure_subjects ++ rest)
unfolding contains
platform_known rest known = (
  ((λ x p. p), tt),
  (
    ((λ x p. p), tt),
    (
      ((λ x p. ground (arith, p)), tt),
      (((λ x p. ground (arith, p)), tt), (((λ x p. ground (arith, p)), tt), known)),
    ),
  ),
)

module _ (registry : Registry) (unique : IsDistinct (component_ids registry))
    (walks : IsWalk registry) where
  pub subjects-known : (ss : List Subject) → subjects registry ≡ ok ss → DependenciesKnown [] ss
  unfolding subjects contains
  subjects-known ss h =
      let (order, ordered, h') = after-eq-ok (from_registry (dependency_order registry [])) _ h in
      let (rest, others, h'') = after-eq-ok (component_subjects registry order) _ h' in
      let sorts =
        dependency_order_sorts registry unique walks [] order
          (from_registry-ok (dependency_order registry []) order ordered) in
      let known =
        component_subjects-known registry [] platform_ids order rest sorts.1 (λ x p. absurd (cc))
          (λ x p. p) others in
      ok_subst (DependenciesKnown []) h'' (platform_known rest known)

ids_of-with_impact : (known is : List Item) → ids_of (with_impact known is) ≡ ids_of is
unfolding ids_of with_impact
ids_of-with_impact known [] = refl
ids_of-with_impact known (i ∷ is) = ap (λ l. i.id ∷ l) (ids_of-with_impact known is)

-- On a registry with distinct identifiers whose subjects can be listed, the document is always
-- produced, whatever the probe answers, as long as a workload that is present with a desired number
-- of replicas has a number of ready ones. It has one item for each subject, in their order.
pub document-total :
    (engine : Engine) (now : ℕ) (ss : List Subject)
    → IsDistinct (component_ids engine.registry)
    → IsWalk engine.registry
    → ((c : CheckSpec) (r : ProbeResult) → (engine.probe c).answer ≡ answered r → IsCounted r)
    → subjects engine.registry ≡ ok ss
    → (d : EnvironmentHealth) × (document engine now ≡ ok d) × (ids_of d.items ≡ subject_ids ss)
unfolding document
document-total engine now ss unique walks counted listed =
    let (items, evaluated, ids) =
      evaluate_all-total engine now counted ss [] [] (λ x p. unfold contains in absurd (cc))
        (subjects-known engine.registry unique walks ss listed) in
    (environment engine now items, rw (listed, evaluated), ids_of-with_impact items items ∙ ids)
