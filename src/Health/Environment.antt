-- ===== src/Health/Environment.antt =====
-- manager/health.py: the whole environment is healthy exactly if all its evidence is.
use fortifylab_archive.Health.Document.{
  Engine, EnvironmentHealth, aggregate, all_blockers, blocked_checks, document, evaluate_all,
  evaluate_subject, evidence_for, item_states, with_impact,
}
use fortifylab_archive.Health.Evaluation.{Item, Subject}
use fortifylab_archive.Health.Ranking.{aggregate-cons, gravity, worse}
use fortifylab_archive.Health.States.{
  HealthState, aggregate_precedence, blocked, degraded, first_of, healthy, misconfigured, stale,
  starting, stopped, unhealthy, unknown, unreachable,
}
use fortifylab_archive.Health.Subjects.{subjects}
use fortifylab_archive.Health.Verdict.{AllHealthy, IsJudged, evaluate-IsJudged}
use fortifylab_archive.Prelude.{
  All, List, [], any, arith, distinct, none, refl, sym, ℕ, ◌↔◌, ◌∙◌, ◌∷◌, ◌≡◌,
}
use fortifylab_archive.Prelude.Exec.{after-eq-ok, ok, ok_subst}
use fortifylab_archive.Prelude.Table.{Table, put}

module _ (engine : Engine) (now : ℕ) where
  pub evaluate_all-All :
      (P : Item → Type 0)
      → ((s : Subject) (results : Table Item) (item : Item)
          → evaluate_subject engine now s results ≡ ok item
          → P item)
      → (ss : List Subject) (results : Table Item) (items : List Item)
      → evaluate_all engine now ss results ≡ ok items
      → All P items
  unfolding evaluate_all
  evaluate_all-All P each_one [] results items h = ok_subst (All P) h tt
  evaluate_all-All P each_one (s ∷ ss) results items h =
      let (item, first, h') = after-eq-ok (evaluate_subject engine now s results) _ h in
      let (rest, later, h'') =
        after-eq-ok (evaluate_all engine now ss (put s.id item results)) _ h' in
      ok_subst (All P) h'' (
        each_one s results item first,
        evaluate_all-All P each_one ss (put s.id item results) rest later,
      )

  evaluate_subject-IsJudged :
      (s : Subject) (results : Table Item) (item : Item)
      → evaluate_subject engine now s results ≡ ok item
      → IsJudged item
  unfolding evaluate_subject
  evaluate_subject-IsJudged s results item h =
      let table = blocked_checks results s.checks [] in
      evaluate-IsJudged (engine.texts.render now) s (evidence_for engine now table s) results
        (distinct (all_blockers table s.checks)) item h

with_impact-IsJudged :
    (known is : List Item) → All IsJudged is → All IsJudged (with_impact known is)
unfolding with_impact
with_impact-IsJudged known [] h = tt
with_impact-IsJudged known (i ∷ is) h = (h.0, with_impact-IsJudged known is h.1)

-- Every piece of evidence is healthy, and no subject is blocked.
abbrev pub IsClear : Item → Type 0
IsClear item = AllHealthy item.evidence × (item.blocked_by ≡ none)

gravity-zero : (a : HealthState) → gravity a ≡ 0 → a ≡ healthy
gravity-zero healthy h = refl
gravity-zero starting h = absurd (omega arith)
gravity-zero degraded h = absurd (omega arith)
gravity-zero blocked h = absurd (omega arith)
gravity-zero misconfigured h = absurd (omega arith)
gravity-zero stopped h = absurd (omega arith)
gravity-zero unreachable h = absurd (omega arith)
gravity-zero unhealthy h = absurd (omega arith)
gravity-zero unknown h = absurd (omega arith)
gravity-zero stale h = absurd (omega arith)

worse-healthy :
    (a b : HealthState) → (worse gravity a b ≡ healthy) ↔ ((a ≡ healthy) × (b ≡ healthy))
worse-healthy a b = (λ h. ground (arith, gravity-zero a, gravity-zero b), λ h. rw (h.0, h.1))

aggregate-healthy : (is : List Item) → All IsJudged is → (aggregate is ≡ healthy) ↔ All IsClear is
unfolding aggregate first_of any
aggregate-healthy [] h = (λ _. tt, λ _. refl)
aggregate-healthy (i ∷ is) h =
    let step = aggregate-cons i.state (item_states is) in
    let both = worse-healthy i.state (first_of aggregate_precedence (item_states is)) in
    (
      λ all_fine.
          let (a, b) = both.0 (sym step ∙ all_fine) in (h.0.0 a, (aggregate-healthy is h.1).0 b),
      λ clear. step ∙ both.1 (h.0.1 clear.0, (aggregate-healthy is h.1).1 clear.1),
    )

-- The environment is reported healthy exactly if every piece of evidence of every subject is
-- healthy and no subject is blocked by a dependency.
pub document-healthy :
    (engine : Engine) (now : ℕ) (d : EnvironmentHealth)
    → document engine now ≡ ok d
    → (d.state ≡ healthy) ↔ All IsClear d.items
unfolding document
document-healthy engine now d h =
    let (ss, _, h') = after-eq-ok (subjects engine.registry) _ h in
    let (items, evaluated, h'') = after-eq-ok (evaluate_all engine now ss []) _ h' in
    let judged_items =
      evaluate_all-All engine now IsJudged (evaluate_subject-IsJudged engine now) ss [] items
        evaluated in
    ok_subst (λ d. (d.state ≡ healthy) ↔ All IsClear d.items) h''
      (aggregate-healthy (with_impact items items) (with_impact-IsJudged items items judged_items))
