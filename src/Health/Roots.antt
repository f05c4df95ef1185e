-- ===== src/Health/Roots.antt =====
-- manager/health.py: every subject that blocks another has been evaluated before it.
use fortifylab_archive.Health.Checks.{
  Answer, CheckSpec, ProbeResult, answered, failed, pending, timed_out,
}
use fortifylab_archive.Health.Dimensions.{
  Dimensions, application_state, compared, dimensions, is_short, mismatch, workload_state,
}
use fortifylab_archive.Health.Document.{
  Engine, blockers, evidence_for, is_runnable, probed, unavailable,
}
use fortifylab_archive.Health.Evaluation.{
  Item, Subject, dependency_roots, evaluate, evaluated_item, first_text, root_of,
}
use fortifylab_archive.Health.Evidence.{
  Evidence, answered_evidence, evidence_of, missing_evidence, result, unavailable_evidence,
}
use fortifylab_archive.Health.External.{
  ExternalItem, external_evidence, external_item_evidence, find_external, has_tls,
}
use fortifylab_archive.Health.States.{is_application, is_workload}
use fortifylab_archive.Prelude.{
  All, All-append, Bool, Bool-cases, List, Option, String, [], arith, contains, eq_iff, false, inl,
  inr, keep, ltb, none, nonempty, refl, some, true, ℕ, ◌∷◌, ◌≡◌, ◌≢◌,
}
use fortifylab_archive.Prelude.Exec.{ok}
use fortifylab_archive.Prelude.Table.{Table, select}
use fortifylab_archive.Registry.Reach.{Included}

abbrev pub IsFound : Table Item → String → Type 0
IsFound results x = (item : Item) × (select x results ≡ some item)

dependency_roots-total :
    (results : Table Item) (ds : List String)
    → ((x : String) → Included ds x → IsFound results x)
    → (roots : List String) × (dependency_roots results ds ≡ ok roots)
unfolding dependency_roots contains
dependency_roots-total results [] found = ([], refl)
dependency_roots-total results (d ∷ ds) found =
    let (item, here) = found d (ground (arith, eq_iff d d)) in
    let (roots, later) = dependency_roots-total results ds (λ x p. found x (ground arith)) in
    (root_of d item ∷ roots, rw (here, later))

-- Python can compare the replicas that the probe reports.
abbrev pub IsCounted : ProbeResult → Type 0
IsCounted r = r.workload_present ≡ some true → r.desired_replicas ≢ none → r.ready_replicas ≢ none

abbrev IsComparable : Evidence → Type 0
IsComparable e = (short : Bool) × (is_short e.workload ≡ ok short)

compared-total :
    (present : Option Bool) (desired ready : Option ℕ)
    → (present ≡ some true → desired ≢ none → ready ≢ none)
    → (short : Bool) × (compared present desired ready ≡ ok short)
compared-total (some true) (some n) (some m) h = (ltb m n, refl)
compared-total (some true) (some n) none h = absurd (h refl (λ e. cc) refl)
compared-total (some true) none ready h = (false, refl)
compared-total (some false) desired ready h = (false, refl)
compared-total none desired ready h = (false, refl)

mismatch-total :
    (es : List Evidence) → All IsComparable es → (short : Bool) × (mismatch es ≡ ok short)
unfolding mismatch
mismatch-total [] h = (false, refl)
mismatch-total (e ∷ es) ((true, here), later) = (true, rw here)
mismatch-total (e ∷ es) ((false, here), later) =
    let (short, rest) = mismatch-total es later in (short, rw here rest)

All-keep :
    (P : Evidence → Type 0) (p : Evidence → Bool) (es : List Evidence)
    → All P es
    → All P (keep p es)
unfolding keep
All-keep P p [] h = tt
All-keep P p (e ∷ es) h = elim (Bool-cases (p e)) [
  | inl kept ↦ rw kept (h.0, All-keep P p es h.1)
  | inr left ↦ rw left (All-keep P p es h.1)
]

pub evaluate-total :
    (at : String) (s : Subject) (es : List Evidence) (results : Table Item) (ds : List String)
    → All IsComparable es
    → ((x : String) → Included ds x → IsFound results x)
    → (item : Item) × (evaluate at s es results ds ≡ ok item) × (item.id ≡ s.id)
unfolding evaluate dimensions
evaluate-total at s es results ds comparable found =
    let (roots, rooted) = dependency_roots-total results ds found in
    let entries = keep (λ (e : Evidence). is_workload e.layer) es in
    let (short, counted) =
      mismatch-total entries (All-keep IsComparable (λ e. is_workload e.layer) es comparable) in
    let dims : Dimensions = record {
      blocked_by = first_text ds;
      workload = workload_state entries short;
      application = application_state (keep (λ e. is_application e.layer) es);
    } in
    (evaluated_item at s es ds roots dims, rw (rooted, counted), refl)

module _ (engine : Engine) (now : ℕ)
    (counted : (c : CheckSpec) (r : ProbeResult)
      → (engine.probe c).answer ≡ answered r
      → IsCounted r) where
  answer-IsComparable :
      (check : CheckSpec) (elapsed : ℕ) (a : Answer)
      → ((r : ProbeResult) → a ≡ answered r → IsCounted r)
      → IsComparable (evidence_of engine.texts now engine.stale_after check elapsed a)
  unfolding answered_evidence missing_evidence
  answer-IsComparable check elapsed (answered r) h = elim (Bool-cases (is_workload check.layer)) [
    | inl yes_workload ↦
        rw yes_workload
          (compared-total r.workload_present r.desired_replicas r.ready_replicas (h r refl))
    | inr other ↦ rw other (false, refl)
  ]
  answer-IsComparable check elapsed timed_out h = (false, refl)
  answer-IsComparable check elapsed failed h = (false, refl)
  answer-IsComparable check elapsed pending h = (false, refl)

  probed-IsComparable : (cs : List CheckSpec) → All IsComparable (probed engine now cs)
  unfolding probed result
  probed-IsComparable [] = tt
  probed-IsComparable (c ∷ cs) = (
    answer-IsComparable c (engine.probe c).elapsed (engine.probe c).answer (counted c),
    probed-IsComparable cs,
  )

  unavailable-IsComparable :
      (table : Table (List String)) (cs : List CheckSpec)
      → All IsComparable (unavailable engine now table cs)
  unfolding unavailable unavailable_evidence
  unavailable-IsComparable table [] = tt
  unavailable-IsComparable table (c ∷ cs) = ((false, refl), unavailable-IsComparable table cs)

  external-IsComparable :
      (item : Option ExternalItem)
      → All IsComparable (external_item_evidence engine.texts now engine.stale_after item)
  external-IsComparable none = tt
  external-IsComparable (some item) = elim (Bool-cases (has_tls item.tls)) [
    | inl with_tls ↦ rw with_tls ((false, refl), ((false, refl), tt))
    | inr without_tls ↦ rw without_tls ((false, refl), tt)
  ]

  pub evidence_for-IsComparable :
      (table : Table (List String)) (s : Subject)
      → All IsComparable (evidence_for engine now table s)
  unfolding evidence_for external_evidence
  evidence_for-IsComparable table s =
      let runnable = keep (is_runnable table) s.checks in
      let stuck = keep (λ c. nonempty (blockers table c)) s.checks in
      All-append IsComparable (probed engine now runnable) _ (probed-IsComparable runnable) (
        All-append IsComparable (unavailable engine now table stuck) _
          (unavailable-IsComparable table stuck)
          (external-IsComparable (find_external s.id engine.availability)))
