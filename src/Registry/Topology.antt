-- ===== src/Registry/Topology.antt =====
-- manager/component_registry.py: `dependency_order` places dependencies before their consumers.
use fortifylab_archive.Prelude.{
  IsDistinct, List, List-cases, String, [], ap, arith, inl, inr, length, length-append, refl, some,
  subst, suc, zero, ℕ, ◌++◌, ◌+◌, ◌<◌, ◌∙◌, ◌∷◌, ◌≡◌,
}
use fortifylab_archive.Prelude.Table.{Table}
use fortifylab_archive.Registry.Counting.{edges_between, missing, occurrences}
use fortifylab_archive.Registry.Kahn.{Inv, IsOrdered, place-Inv, release_all-Inv}
use fortifylab_archive.Registry.Members.{
  IsDistinct-prefix, Within, Within-prefix, distinct-length-le,
}
use fortifylab_archive.Registry.Order.{Edge, Queue, drain, listed, release, release_all}
use fortifylab_archive.Registry.Reach.{Included}
use mathlib.Core.List.{append-nil}

module _ (es : List Edge) (closure : List String) (consumers : Table (List String))
    (due : (c d : String) → occurrences c (listed consumers d) ≡ edges_between c d es)
    (known : (c d : String) → 0 < edges_between c d es → Included closure c) where
  no_occurrences : (c : String) → occurrences c [] ≡ 0
  unfolding occurrences
  no_occurrences c = refl

  round-Inv :
      (d : String) (rest : List String) (q : Queue)
      → q.ready ≡ d ∷ rest
      → Inv es closure [] q
      → Inv es closure [] (
          release_all
            (listed consumers d)
            (record q { ready = rest; ordered = q.ordered ++ d ∷ [] }))
  round-Inv d rest q e inv =
      release_all-Inv es closure (listed consumers d)
        (record q { ready = rest; ordered = q.ordered ++ d ∷ [] })
        (λ x p. known x d (omega (arith, due x d)))
        (place-Inv es closure d rest q (listed consumers d) e (λ c. due c d) inv)

  ordered-release :
      (pending : List String) (q : Queue) → (release_all pending q).ordered ≡ q.ordered
  unfolding release_all release
  ordered-release [] q = refl
  ordered-release (c ∷ pending) q = ground (arith, ordered-release pending (release c q))

  drain_empty :
      (fuel : ℕ) (q : Queue)
      → q.ready ≡ []
      → drain (suc fuel) consumers q ≡ some (q.ordered, q.indegree)
  unfolding drain
  drain_empty fuel q e = ground arith

  drain_round :
      (fuel : ℕ) (d : String) (rest : List String) (q : Queue)
      → q.ready ≡ d ∷ rest
      → drain (suc fuel) consumers q
        ≡ drain fuel consumers (
            release_all
              (listed consumers d)
              (record q { ready = rest; ordered = q.ordered ++ d ∷ [] }))
  unfolding drain
  drain_round fuel d rest q e = ground arith

  -- What holds of the list that the loop returns.
  pub record IsSortedPart (ordered : List String) : Type 0 where
    pub distinct : IsDistinct ordered
    pub within : Within ordered closure
    pub sorted : IsOrdered es [] ordered
    pub complete : (c : String) → Included closure c → missing ordered c es ≡ 0 → Included ordered c

  -- The loop ends within its fuel, with a sorted part of the closure.
  pub drain_sorts :
      (fuel : ℕ) (q : Queue)
      → length closure < fuel + length q.ordered
      → Inv es closure [] q
      → (result : List String × Table ℕ) × (drain fuel consumers q ≡ some result)
        × IsSortedPart result.0
  unfolding drain
  drain_sorts zero q enough inv = absurd (
      omega (
        arith,
        distinct-length-le q.ordered closure (IsDistinct-prefix q.ordered q.ready inv.distinct)
            (Within-prefix q.ordered q.ready closure inv.within),
      ))
  drain_sorts (suc fuel) q enough inv = elim (List-cases q.ready) [
    | inl empty ↦ (
      (q.ordered, q.indegree),
      drain_empty fuel q empty,
      record {
        distinct = IsDistinct-prefix q.ordered q.ready inv.distinct;
        within = Within-prefix q.ordered q.ready closure inv.within;
        sorted = inv.sorted;
        complete = λ c p z.
            subst (λ l. Included l c) (ap (λ l. q.ordered ++ l) empty ∙ append-nil q.ordered)
              (inv.complete c p (omega (arith, inv.counts c, no_occurrences c)));
      },
    )
    | inr (d, rest, e) ↦
        let placed : Queue = record q { ready = rest; ordered = q.ordered ++ d ∷ [] } in
        let longer : length closure
            < fuel + length (release_all (listed consumers d) placed).ordered =
          omega (
            arith,
            ap length (ordered-release (listed consumers d) placed),
            length-append q.ordered (d ∷ []),
          ) in
        let (result, returned, part) =
          drain_sorts fuel (release_all (listed consumers d) placed) longer
            (round-Inv d rest q e inv) in
        (result, drain_round fuel d rest q e ∙ returned, part)
  ]
