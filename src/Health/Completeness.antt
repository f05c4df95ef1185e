-- ===== src/Health/Completeness.antt =====
-- manager/health.py: the document is complete: no look-up of a dependency fails.
use fortifylab_archive.Health.Document.{
  Engine, all_blockers, blocked_checks, blockers, evaluate_all, evaluate_subject, evidence_for,
  ids_of,
}
use fortifylab_archive.Health.Evaluation.{Item, Subject, dependency_blocks}
use fortifylab_archive.Health.Checks.{CheckSpec, ProbeResult, answered}
use fortifylab_archive.Health.Ranking.{seen}
use fortifylab_archive.Health.Roots.{IsCounted, IsFound, evaluate-total, evidence_for-IsComparable}
use fortifylab_archive.Prelude.{
  All, All-mono, Bool, Bool-cases, List, Option-cases, String, [], arith, contains, contains-append,
  contains-distinct, distinct, inl, inr, keep, refl, some, subst, sym, ℕ, ◌==◌, ◌∙◌, ◌∷◌, ◌≡◌,
}
use fortifylab_archive.Prelude.Exec.{ok}
use fortifylab_archive.Prelude.Table.{Table, put, select, select-put}
use fortifylab_archive.Registry.Members.{Within}
use fortifylab_archive.Registry.Reach.{Included}
use mathlib.Core.Path.{ap₂}

-- All entries of a table of blockers name results.
abbrev AreFound : Table Item → Table (List String) → Type 0
AreFound results table =
    (id : String) (ds : List String) (x : String)
    → select id table ≡ some ds
    → Included ds x
    → IsFound results x

Included-keep_of :
    (p : String → Bool) (ds : List String) (x : String) → Included (keep p ds) x → Included ds x
unfolding keep contains
Included-keep_of p [] x h = h
Included-keep_of p (d ∷ ds) x h = ground (arith, Included-keep_of p ds x)

module _ (results : Table Item) where
  blocked_checks-AreFound :
      (cs : List CheckSpec) (table : Table (List String))
      → All (λ c. (x : String) → Included c.dependencies x → IsFound results x) cs
      → AreFound results table
      → AreFound results (blocked_checks results cs table)
  unfolding blocked_checks
  blocked_checks-AreFound [] table found old = old
  blocked_checks-AreFound (c ∷ cs) table found old =
      blocked_checks-AreFound cs _ found.1 (λ id ds x at here.
        let own = keep (dependency_blocks results) c.dependencies in
        let step = select-put c.id id own table in
        elim (Bool-cases (c.id == id)) [
          | inl same ↦
              let e : own ≡ ds = ground (arith, step) in
              found.0 x (
                Included-keep_of (dependency_blocks results) c.dependencies x
                  (subst (λ l. Included l x) (sym e) here))
          | inr other ↦ old id ds x (ground (arith, step)) here
        ])

  all_blockers-IsFound :
      (table : Table (List String)) (cs : List CheckSpec) (x : String)
      → AreFound results table
      → Included (all_blockers table cs) x
      → IsFound results x
  unfolding all_blockers contains
  all_blockers-IsFound table [] x found h = absurd (cc)
  all_blockers-IsFound table (c ∷ cs) x found h =
      let split = contains-append (blockers table c) (all_blockers table cs) x in
      elim (Bool-cases (contains (all_blockers table cs) x)) [
        | inl later ↦ all_blockers-IsFound table cs x found later
        | inr none_later ↦ elim (Option-cases (select c.id table)) [
          | inl missing_key ↦ absurd (ground arith)
          | inr (ds, at) ↦ found c.id ds x at (ground arith)
        ]
      ]

-- Every dependency of a check of a subject is the platform's, or a subject that stands before it.
abbrev pub DependenciesKnown : List String → List Subject → Type 0
DependenciesKnown seen [] = Unit
DependenciesKnown seen (s ∷ ss) =
    All (λ c. Within c.dependencies seen) s.checks × DependenciesKnown (s.id ∷ seen) ss

abbrev pub subject_ids : List Subject → List String
subject_ids [] = []
subject_ids (s ∷ ss) = s.id ∷ subject_ids ss

module _ (engine : Engine) (now : ℕ)
    (counted : (c : CheckSpec) (r : ProbeResult)
      → (engine.probe c).answer ≡ answered r
      → IsCounted r) where
  evaluate_subject-total :
      (s : Subject) (results : Table Item) (seen : List String)
      → ((x : String) → Included seen x → IsFound results x)
      → All (λ c. Within c.dependencies seen) s.checks
      → (item : Item) × (evaluate_subject engine now s results ≡ ok item) × (item.id ≡ s.id)
  unfolding evaluate_subject
  evaluate_subject-total s results seen found known =
      let table = blocked_checks results s.checks [] in
      let entries =
        blocked_checks-AreFound results s.checks []
          (All-mono (λ (c : CheckSpec). Within c.dependencies seen)
            (λ c. (x : String) → Included c.dependencies x → IsFound results x) s.checks
            (λ c within x h. found x (within x h)) known)
          (λ id ds x at here. unfold select in absurd (ground arith)) in
      evaluate-total (engine.texts.render now) s (evidence_for engine now table s) results
        (distinct (all_blockers table s.checks))
        (evidence_for-IsComparable engine now counted table s)
        (λ x h.
          all_blockers-IsFound results table s.checks x entries
            (sym (contains-distinct (all_blockers table s.checks) x) ∙ h))

  pub evaluate_all-total :
      (ss : List Subject) (results : Table Item) (seen : List String)
      → ((x : String) → Included seen x → IsFound results x)
      → DependenciesKnown seen ss
      → (items : List Item) × (evaluate_all engine now ss results ≡ ok items)
        × (ids_of items ≡ subject_ids ss)
  unfolding evaluate_all ids_of contains
  evaluate_all-total [] results seen found known = ([], refl, refl)
  evaluate_all-total (s ∷ ss) results seen found known =
      let (item, first, same) = evaluate_subject-total s results seen found known.0 in
      let (items, later, ids) =
        evaluate_all-total ss (put s.id item results) (s.id ∷ seen)
          (λ x h.
            let step = select-put s.id x item results in
            elim (Bool-cases (s.id == x)) [
              | inl here ↦ (item, ground (arith, step))
              | inr there ↦ let (old, at) = found x (ground arith) in (old, ground (arith, step))
            ])
          known.1 in
      (item ∷ items, rw (first, later), ap₂ ◌∷◌ same ids)
