-- ===== src/Operation/Ordering.antt =====
-- manager/operation_engine.py: the order of the steps of a plan.
use fortifylab_archive.Prelude.{
  Bool, Bool-cases, IsDistinct, List, String, [], arith, contains, eq_iff, false, false≢true, inl,
  inr, keep, member_cons, member_snoc, subst, sym, ◌++◌, ◌∙◌, ◌∷◌, ◌≡◌,
}
use fortifylab_archive.Prelude.Exec.{ok}
use fortifylab_archive.Registry.Components.{Component, Registry, component}
use fortifylab_archive.Registry.DependencyOrder.{DependenciesFirst}
use fortifylab_archive.Registry.Members.{Included-keep, Included-reverse, IsDistinct-disjoint}
use fortifylab_archive.Registry.Reach.{Included}
use mathlib.Core.List.{append_assoc, reverse, reverse-cons}

-- No component stands before another one that depends on it.
abbrev pub ConsumersFirst : Registry → List String → Type 0
ConsumersFirst registry [] = Unit
ConsumersFirst registry (x ∷ xs) =
    ((y : String) (c : Component)
      → Included xs y
      → component registry y ≡ ok c
      → contains c.dependencies x ≡ false)
    × ConsumersFirst registry xs

module _ (registry : Registry) where
  ConsumersFirst-snoc :
      (xs : List String) (y : String)
      → ConsumersFirst registry xs
      → ((x : String) (c : Component)
          → Included xs x
          → component registry y ≡ ok c
          → contains c.dependencies x ≡ false)
      → ConsumersFirst registry (xs ++ y ∷ [])
  unfolding contains
  ConsumersFirst-snoc [] y first h = (λ z c p found. absurd (cc), tt)
  ConsumersFirst-snoc (x ∷ xs) y first h = (
    λ z c p found. elim (member_snoc xs y z p) [
      | inl old ↦ first.0 z c old found
      | inr new ↦
          h x c (ground (arith, eq_iff x x))
            (subst (λ k. component registry k ≡ ok c) (sym new) found)
    ],
    ConsumersFirst-snoc xs y first.1 (λ z c p found. h z c (ground arith) found),
  )

  -- A list with the dependencies first, each component once, has its consumers first in reverse.
  pub ConsumersFirst-reverse :
      (seen xs : List String)
      → IsDistinct (seen ++ xs)
      → DependenciesFirst registry seen xs
      → ConsumersFirst registry (reverse xs)
  ConsumersFirst-reverse seen [] d f = tt
  ConsumersFirst-reverse seen (x ∷ xs) d f = rw reverse-cons (
      ConsumersFirst-snoc (reverse xs) x
        (ConsumersFirst-reverse (seen ++ x ∷ []) xs
          (subst IsDistinct (sym (append_assoc seen (x ∷ []) xs)) d) f.1)
        (λ z c p found. outside z c p found))
    where
      outside :
          (z : String) (c : Component)
          → Included (reverse xs) z
          → component registry x ≡ ok c
          → contains c.dependencies z ≡ false
      outside z c p found = elim (Bool-cases (contains c.dependencies z)) [
        | inr no_dep ↦ no_dep
        | inl dep ↦ absurd (
            false≢true (
              sym (IsDistinct-disjoint seen (x ∷ xs) z d (f.0 c found z dep))
              ∙ member_cons x xs z (Included-reverse xs z p)))
      ]

  pub ConsumersFirst-keep :
      (p : String → Bool) (xs : List String)
      → ConsumersFirst registry xs
      → ConsumersFirst registry (keep p xs)
  unfolding keep
  ConsumersFirst-keep p [] f = tt
  ConsumersFirst-keep p (x ∷ xs) f = elim (Bool-cases (p x)) [
    | inl kept ↦
        rw kept
          (λ y c q found. f.0 y c (Included-keep p xs y q).1 found, ConsumersFirst-keep p xs f.1)
    | inr dropped ↦ rw dropped (ConsumersFirst-keep p xs f.1)
  ]
