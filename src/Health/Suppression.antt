-- ===== src/Health/Suppression.antt =====
-- manager/health.py: a check with an unhealthy dependency is not probed, and says so.
use fortifylab_archive.Health.Blocking.{IsBlockedExactly, blocking, blocking-exact}
use fortifylab_archive.Health.Checks.{CheckSpec, Reply}
use fortifylab_archive.Health.Dimensions.{dimensions}
use fortifylab_archive.Health.Document.{
  Engine, all_blockers, blocked_checks, blockers, evaluate_subject, evidence_for, is_runnable,
  probed, unavailable,
}
use fortifylab_archive.Health.Evaluation.{Item, Subject, dependency_roots, evaluate, first_text}
use fortifylab_archive.Health.Evidence.{Evidence, result, unavailable_evidence}
use fortifylab_archive.Health.External.{external_evidence}
use fortifylab_archive.Health.States.{unknown}
use fortifylab_archive.Prelude.{
  All, All-mono, Any, Any-append_left, Any-append_right, Bool-cases, IsDistinct, List, List-cases,
  String, [], ap, arith, contains, distinct, eq_iff, false, if◌then◌else◌, inl, inr, keep, nonempty,
  not, refl, subst, sym, true, ℕ, ◌++◌, ◌∙◌, ◌∷◌, ◌≡◌, ◌≢◌,
}
use fortifylab_archive.Prelude.Exec.{after-eq-ok, ok, ok_subst}
use fortifylab_archive.Prelude.Table.{Table, put, select, select-put}
use mathlib.Core.Path.{ap₂}

abbrev pub check_ids : List CheckSpec → List String
check_ids [] = []
check_ids (c ∷ cs) = c.id ∷ check_ids cs

module _ (results : Table Item) where
  select-blocked_checks :
      (cs : List CheckSpec) (table : Table (List String)) (id : String)
      → contains (check_ids cs) id ≡ false
      → select id (blocked_checks results cs table) ≡ select id table
  unfolding blocked_checks contains
  select-blocked_checks [] table id h = refl
  select-blocked_checks (c ∷ cs) table id h =
      select-blocked_checks cs (put c.id (blocking results c) table) id (ground arith)
      ∙ ground (arith, select-put c.id id (blocking results c) table)

  -- With distinct identifiers, the table has for each check what blocks it.
  blockers-exact :
      (cs : List CheckSpec) (table : Table (List String))
      → IsDistinct (check_ids cs)
      → All (λ c. blockers (blocked_checks results cs table) c ≡ blocking results c) cs
  unfolding blocked_checks
  blockers-exact [] table distinct_ids = tt
  blockers-exact (c ∷ cs) table distinct_ids =
      let own = blocking results c in
      let later = select-blocked_checks cs (put c.id own table) c.id distinct_ids.0 in
      let here = select-put c.id c.id own table in
      (
        ground (arith, later, here, eq_iff c.id c.id),
        blockers-exact cs (put c.id own table) distinct_ids.1,
      )

module _ (engine : Engine) (now : ℕ) (other : CheckSpec → Reply) (results : Table Item)
    (table : Table (List String)) where
  abbrev changed : Engine
  changed = record engine { probe = other }

  probed-changed :
      (cs : List CheckSpec)
      → All (λ c. blockers table c ≡ blocking results c) cs
      → All (λ c. blocking results c ≡ [] → engine.probe c ≡ other c) cs
      → probed engine now (keep (is_runnable table) cs)
        ≡ probed changed now (keep (is_runnable table) cs)
  unfolding probed keep
  probed-changed [] exact same = refl
  probed-changed (c ∷ cs) exact same = elim (List-cases (blocking results c)) [
    | inl clear ↦
        let runs : is_runnable table c ≡ true = ap (λ l. not (nonempty l)) (exact.0 ∙ clear) in
        rw runs (
          ap₂ ◌∷◌ (ap (result engine.texts now engine.stale_after c) (same.0 clear))
            (probed-changed cs exact.1 same.1))
    | inr (d, ds, held) ↦
        let waits : is_runnable table c ≡ false = ap (λ l. not (nonempty l)) (exact.0 ∙ held) in
        rw waits (probed-changed cs exact.1 same.1)
  ]

  unavailable-changed :
      (cs : List CheckSpec) → unavailable engine now table cs ≡ unavailable changed now table cs
  unfolding unavailable
  unavailable-changed [] = refl
  unavailable-changed (c ∷ cs) =
      ap (λ l. unavailable_evidence engine.texts now c (blockers table c) ∷ l)
        (unavailable-changed cs)

-- Evidence of a check that was not obtained because of the given dependencies.
abbrev pub IsUnobtained : CheckSpec → List String → Evidence → Type 0
IsUnobtained c ds e = (e.id ≡ c.id) × (e.state ≡ unknown) × (e.derived ≡ true) × (e.blocked_by ≡ ds)

-- A check that is blocked has evidence that says so.
abbrev pub IsTold : Table Item → List Evidence → CheckSpec → Type 0
IsTold results es c = blocking results c ≢ [] → Any (IsUnobtained c (blocking results c)) es

abbrev stuck_evidence : Engine → ℕ → Table (List String) → List CheckSpec → List Evidence
stuck_evidence engine now table cs =
    unavailable engine now table (keep (λ c. nonempty (blockers table c)) cs)

stuck_evidence-cons :
    (engine : Engine) (now : ℕ) (table : Table (List String)) (c : CheckSpec) (cs : List CheckSpec)
    → stuck_evidence engine now table (c ∷ cs) ≡ (
        if nonempty (blockers table c)
        then unavailable_evidence engine.texts now c (blockers table c)
          ∷ stuck_evidence engine now table cs
        else stuck_evidence engine now table cs)
unfolding unavailable keep
stuck_evidence-cons engine now table c cs = elim (Bool-cases (nonempty (blockers table c))) [
  | inl stuck ↦ rw stuck
  | inr free ↦ rw free
]

stuck_evidence-IsTold :
    (engine : Engine) (now : ℕ) (results : Table Item) (table : Table (List String))
    (cs : List CheckSpec)
    → All (λ c. blockers table c ≡ blocking results c) cs
    → All (IsTold results (stuck_evidence engine now table cs)) cs
unfolding unavailable_evidence
stuck_evidence-IsTold engine now results table [] exact = tt
stuck_evidence-IsTold engine now results table (c ∷ cs) exact =
    let rest = stuck_evidence-IsTold engine now results table cs exact.1 in
    let step = stuck_evidence-cons engine now table c cs in
    let own = unavailable_evidence engine.texts now c (blockers table c) in
    let others = stuck_evidence engine now table cs in
    let goal = λ (es : List Evidence). All (IsTold results es) (c ∷ cs) in
    elim (List-cases (blocking results c)) [
      | inl clear ↦
          let e = step ∙ ap (λ l. if nonempty l then own ∷ others else others) (exact.0 ∙ clear) in
          subst goal (sym e) ((λ held. absurd (held clear)), rest)
      | inr (d, ds, found) ↦
          let e = step ∙ ap (λ l. if nonempty l then own ∷ others else others) (exact.0 ∙ found) in
          subst goal (sym e) (
            (λ held. inl (refl, refl, refl, exact.0)),
            All-mono (IsTold results others) (IsTold results (own ∷ others)) cs
                (λ c' later held. inr (later held)) rest,
          )
    ]

evidence_for_lem :
    (engine : Engine) (now : ℕ) (table : Table (List String)) (s : Subject)
    → evidence_for engine now table s
      ≡ probed engine now (keep (is_runnable table) s.checks)
        ++ (unavailable engine now table (keep (λ c. nonempty (blockers table c)) s.checks)
            ++ external_evidence engine.texts now engine.stale_after engine.availability s.id)
unfolding evidence_for
evidence_for_lem engine now table s = refl

evaluate_subject_lem :
    (engine : Engine) (now : ℕ) (s : Subject) (results : Table Item)
    → evaluate_subject engine now s results
      ≡ evaluate
          (engine.texts.render now)
          s
          (evidence_for engine now (blocked_checks results s.checks []) s)
          results
          (distinct (all_blockers (blocked_checks results s.checks []) s.checks))
unfolding evaluate_subject
evaluate_subject_lem engine now s results = refl

evaluate-evidence :
    (at : String) (s : Subject) (es : List Evidence) (results : Table Item) (ds : List String)
    (item : Item)
    → evaluate at s es results ds ≡ ok item
    → es ≡ item.evidence
unfolding evaluate
evaluate-evidence at s es results ds item h =
    let (roots, _, h') = after-eq-ok (dependency_roots results ds) _ h in
    let (dims, _, h'') = after-eq-ok (dimensions es (first_text ds)) _ h' in
    ok_subst (λ item. es ≡ item.evidence) h'' refl

module _ (engine : Engine) (now : ℕ) (other : CheckSpec → Reply) (s : Subject)
    (results : Table Item) (distinct_ids : IsDistinct (check_ids s.checks)) where
  abbrev table : Table (List String)
  table = blocked_checks results s.checks []

  evidence-changed :
      All (λ c. blocking results c ≡ [] → engine.probe c ≡ other c) s.checks
      → evidence_for engine now table s ≡ evidence_for (record engine { probe = other }) now table s
  unfolding evidence_for unavailable
  evidence-changed same =
      evidence_for_lem engine now table s
      ∙ ap
          (λ l.
            l
            ++ (unavailable engine now table (keep (λ c. nonempty (blockers table c)) s.checks)
                ++ external_evidence engine.texts now engine.stale_after engine.availability s.id))
          (probed-changed engine now other results table s.checks
            (blockers-exact results s.checks [] distinct_ids) same)
      ∙ ap
          (λ l.
            probed (changed engine now other results table) now (keep (is_runnable table) s.checks)
            ++ (l
                ++ external_evidence engine.texts now engine.stale_after engine.availability s.id))
          (unavailable-changed engine now other results table
            (keep (λ c. nonempty (blockers table c)) s.checks))

  -- A check is probed only if no dependency blocks it: the answers of the probe to other checks
  -- make no difference. A blocked check appears as unknown evidence that names exactly the
  -- dependencies by which it is blocked: those of which nothing is known yet, or whose item blocks.
  -- The checks of the subject have distinct identifiers.
  pub evaluate_subject_suppresses :
      (item : Item)
      → All (λ c. blocking results c ≡ [] → engine.probe c ≡ other c) s.checks
      → evaluate_subject engine now s results ≡ ok item
      → (evaluate_subject (record engine { probe = other }) now s results ≡ ok item)
        × All (IsTold results item.evidence) s.checks
        × All (IsBlockedExactly results) s.checks
  evaluate_subject_suppresses item same h =
      let exact = blockers-exact results s.checks [] distinct_ids in
      let evaluated = sym (evaluate_subject_lem engine now s results) ∙ h in
      let es = evidence_for engine now table s in
      let ds = distinct (all_blockers table s.checks) in
      (
        evaluate_subject_lem (record engine { probe = other }) now s results
            ∙ rw (← (evidence-changed same)) evaluated,
        All-mono (IsTold results (stuck_evidence engine now table s.checks))
            (IsTold results item.evidence) s.checks
            (λ c told held.
              subst (Any (IsUnobtained c (blocking results c)))
                (evaluate-evidence (engine.texts.render now) s es results ds item evaluated)
                (rw (evidence_for_lem engine now table s)
                  (Any-append_right _ _ _ (Any-append_left _ _ _ (told held)))))
            (stuck_evidence-IsTold engine now results table s.checks exact),
        blocking-exact results s.checks,
      )
