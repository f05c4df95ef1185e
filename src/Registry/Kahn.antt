-- ===== src/Registry/Kahn.antt =====
-- manager/component_registry.py: the invariant of Kahn's algorithm, over the edges `es` of a
-- closure. `pending` are the consumers of the placed component that are still to be released.
use fortifylab_archive.Prelude.{
  Bool-cases, IsDistinct, List, String, [], ap, arith, contains, contains-append, eq_iff, eqb,
  false, if◌then◌else◌, inl, inr, member_snoc, subst, sym, true, ◌++◌, ◌+◌, ◌-◌, ◌<◌, ◌==◌, ◌∙◌,
  ◌∷◌, ◌≡◌,
}
use fortifylab_archive.Prelude.Table.{select-put}
use fortifylab_archive.Registry.Counting.{edges_between, missing, missing-snoc, occurrences}
use fortifylab_archive.Registry.Members.{IsDistinct-snoc, IsDistinct-before, Within, contains_ne}
use fortifylab_archive.Registry.Order.{Edge, Queue, count_of, release, release_all}
use fortifylab_archive.Registry.Reach.{Included}
use mathlib.Core.List.{append-nil, append_assoc}

abbrev pub IsOrdered : List Edge → List String → List String → Type 0
IsOrdered es seen [] = Unit
IsOrdered es seen (x ∷ xs) = (missing seen x es ≡ 0) × IsOrdered es (seen ++ x ∷ []) xs

pub IsOrdered-snoc :
    (es : List Edge) (seen xs : List String) (x : String)
    → IsOrdered es seen xs
    → missing (seen ++ xs) x es ≡ 0
    → IsOrdered es seen (xs ++ x ∷ [])
IsOrdered-snoc es seen [] x o h = (subst (λ l. missing l x es ≡ 0) (append-nil seen) h, tt)
IsOrdered-snoc es seen (y ∷ xs) x o h =
    (o.0, IsOrdered-snoc es (seen ++ y ∷ []) xs x o.1 (rw append_assoc h))

module _ (es : List Edge) (closure : List String) where
  pub record Inv (pending : List String) (q : Queue) : Type 0 where
    pub counts :
        (c : String) → count_of q.indegree c ≡ missing q.ordered c es + occurrences c pending
    pub released : (c : String) → Included (q.ordered ++ q.ready) c → count_of q.indegree c ≡ 0
    pub distinct : IsDistinct (q.ordered ++ q.ready)
    pub within : Within (q.ordered ++ q.ready) closure
    pub sorted : IsOrdered es [] q.ordered
    pub complete :
        (c : String)
        → Included closure c
        → count_of q.indegree c ≡ 0
        → Included (q.ordered ++ q.ready) c

  module _ (c : String) (pending : List String) (q : Queue) (inv : Inv (c ∷ pending) q) where
    -- The released counter is positive, so the subtraction of the code is exact.
    counter_pos : 0 < count_of q.indegree c
    unfolding occurrences
    counter_pos = ground (arith, inv.counts c, eq_iff c c)

    not_queued : contains (q.ordered ++ q.ready) c ≡ false
    not_queued = elim (Bool-cases (contains (q.ordered ++ q.ready) c)) [
      | inl inside ↦ absurd (omega (arith, inv.released c inside, counter_pos))
      | inr outside ↦ outside
    ]

    release_counts :
        (x : String)
        → count_of (release c q).indegree x
          ≡ missing (release c q).ordered x es + occurrences x pending
    unfolding release occurrences
    release_counts x = ground (
      arith,
      inv.counts x,
      counter_pos,
      eq_iff c x,
      select-put c x (count_of q.indegree c - 1) q.indegree,
    )

    release_sorted : IsOrdered es [] (release c q).ordered
    unfolding release
    release_sorted = ground (arith, inv.sorted)

    queued_zero :
        eqb (count_of q.indegree c - 1) 0 ≡ true
        → (release c q).ordered ++ (release c q).ready ≡ (q.ordered ++ q.ready) ++ c ∷ []
    unfolding release
    queued_zero zero_left = rw zero_left (sym (append_assoc q.ordered q.ready (c ∷ [])))

    queued_more :
        eqb (count_of q.indegree c - 1) 0 ≡ false
        → (release c q).ordered ++ (release c q).ready ≡ q.ordered ++ q.ready
    unfolding release
    queued_more more = rw more

    indegree_lowered :
        (x : String)
        → count_of (release c q).indegree x
          ≡ (if c == x then count_of q.indegree c - 1 else count_of q.indegree x)
    unfolding release
    indegree_lowered x = ground (arith, select-put c x (count_of q.indegree c - 1) q.indegree)

    module _ (inside : Included closure c) where
      free_zero :
          eqb (count_of q.indegree c - 1) 0 ≡ true
          → (x : String) → Included ((q.ordered ++ q.ready) ++ c ∷ []) x
          → (count_of (release c q).indegree x ≡ 0) × Included closure x
      free_zero zero_left x p = elim (member_snoc (q.ordered ++ q.ready) c x p) [
        | inl old ↦ (
          ground (arith, indegree_lowered x, inv.released x old, zero_left, eq_iff c x),
          inv.within x old,
        )
        | inr here ↦ (
          ground (arith, indegree_lowered x, zero_left, eq_iff c x),
          subst (Included closure) here inside,
        )
      ]

      complete_zero :
          eqb (count_of q.indegree c - 1) 0 ≡ true
          → (x : String) → Included closure x
          → count_of (release c q).indegree x ≡ 0
          → Included ((q.ordered ++ q.ready) ++ c ∷ []) x
      unfolding contains
      complete_zero zero_left x p z = ground (
        arith,
        indegree_lowered x,
        inv.complete x p,
        eq_iff c x,
        contains-append (q.ordered ++ q.ready) (c ∷ []) x,
      )

      complete_more :
          eqb (count_of q.indegree c - 1) 0 ≡ false
          → (x : String) → Included closure x
          → count_of (release c q).indegree x ≡ 0
          → Included (q.ordered ++ q.ready) x
      complete_more more x p z = ground (arith, indegree_lowered x, inv.complete x p, more)

      release-Inv : Inv pending (release c q)
      release-Inv = elim (Bool-cases (eqb (count_of q.indegree c - 1) 0)) [
        | inl zero_left ↦ record {
          counts = release_counts;
          released = λ x p.
              (free_zero zero_left x (subst (λ l. Included l x) (queued_zero zero_left) p)).0;
          distinct =
              rw (queued_zero zero_left)
                (IsDistinct-snoc (q.ordered ++ q.ready) c inv.distinct not_queued);
          within = λ x p.
              (free_zero zero_left x (subst (λ l. Included l x) (queued_zero zero_left) p)).1;
          sorted = release_sorted;
          complete = λ x p z. rw (queued_zero zero_left) (complete_zero zero_left x p z);
        }
        | inr more ↦ record {
          counts = release_counts;
          released = λ x p.
              let old : Included (q.ordered ++ q.ready) x =
                subst (λ l. Included l x) (queued_more more) p in
              ground (
                arith,
                indegree_lowered x,
                inv.released x old,
                contains_ne (q.ordered ++ q.ready) c x not_queued old,
                eq_iff c x,
              );
          distinct = rw (queued_more more) inv.distinct;
          within = λ x p. inv.within x (subst (λ l. Included l x) (queued_more more) p);
          sorted = release_sorted;
          complete = λ x p z. rw (queued_more more) (complete_more more x p z);
        }
      ]

  pub release_all-Inv :
      (pending : List String) (q : Queue)
      → ((x : String) → 0 < occurrences x pending → Included closure x)
      → Inv pending q
      → Inv [] (release_all pending q)
  unfolding release_all occurrences
  release_all-Inv [] q known inv = inv
  release_all-Inv (c ∷ pending) q known inv =
      release_all-Inv pending (release c q) (λ x p. known x (ground arith))
        (release-Inv c pending q inv (known c (ground (arith, eq_iff c c))))

  -- One round: the first ready component is placed and its consumers are due.
  pub place-Inv :
      (d : String) (rest : List String) (q : Queue) (consumers : List String)
      → q.ready ≡ d ∷ rest
      → ((c : String) → occurrences c consumers ≡ edges_between c d es)
      → Inv [] q
      → Inv consumers (record q { ready = rest; ordered = q.ordered ++ d ∷ [] })
  unfolding occurrences contains
  place-Inv d rest q consumers e due inv =
      let same : (q.ordered ++ d ∷ []) ++ rest ≡ q.ordered ++ q.ready =
        append_assoc q.ordered (d ∷ []) rest ∙ ap (λ l. q.ordered ++ l) (sym e) in
      let fresh : contains q.ordered d ≡ false =
        IsDistinct-before q.ordered d rest
          (subst (λ l. IsDistinct (q.ordered ++ l)) e inv.distinct) in
      let queued : Included (q.ordered ++ q.ready) d =
        ground (arith, contains-append q.ordered q.ready d, ap (λ l. contains l d) e, eq_iff d d) in
      record {
        counts = λ c. omega (arith, due c, inv.counts c, missing-snoc q.ordered c d es fresh);
        released = λ x p. inv.released x (subst (λ l. Included l x) same p);
        distinct = subst IsDistinct (sym same) inv.distinct;
        within = λ x p. inv.within x (subst (λ l. Included l x) same p);
        sorted =
            IsOrdered-snoc es [] q.ordered d inv.sorted
              (omega (arith, inv.counts d, inv.released d queued));
        complete = λ x p z. subst (λ l. Included l x) (sym same) (inv.complete x p z);
      }
