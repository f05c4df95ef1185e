-- ===== src/Health/Verdict.antt =====
-- manager/health.py: when a subject, and when the whole environment, is healthy.
use fortifylab_archive.Health.Dimensions.{dimensions, is_unhealthy, rank_state, states_of}
use fortifylab_archive.Health.Evaluation.{
  Item, Subject, access_of, chosen_state, dependency_roots, direct_of, evaluate, first_text,
  required_of, subject_state,
}
use fortifylab_archive.Health.Evidence.{Evidence}
use fortifylab_archive.Health.Ranking.{direct-cons}
use fortifylab_archive.Health.States.{
  HealthState, blocked, degraded, first_of, healthy, is_access, is_healthy, misconfigured, stale,
  starting, stopped, unhealthy, unknown, unreachable,
}
use fortifylab_archive.Prelude.{
  All, Bool, Bool-cases, List, String, [], any, arith, false, inl, inr, keep, none, nonempty, not,
  refl, sym, true, ◌↔◌, ◌∙◌, ◌∷◌, ◌≡◌,
}
use fortifylab_archive.Prelude.Exec.{after-eq-ok, ok, ok_subst}
use fortifylab_archive.Prelude.Table.{Table}

abbrev pub AllHealthy : List Evidence → Type 0
AllHealthy evidence = All (λ e. e.state ≡ healthy) evidence

healthy-lem : (s : HealthState) → is_healthy s ≡ true → s ≡ healthy
healthy-lem healthy h = refl
healthy-lem starting h = absurd (cc)
healthy-lem degraded h = absurd (cc)
healthy-lem blocked h = absurd (cc)
healthy-lem misconfigured h = absurd (cc)
healthy-lem stopped h = absurd (cc)
healthy-lem unreachable h = absurd (cc)
healthy-lem unhealthy h = absurd (cc)
healthy-lem unknown h = absurd (cc)
healthy-lem stale h = absurd (cc)

all_healthy-any : (es : List Evidence) → (any is_unhealthy es ≡ false) ↔ AllHealthy es
unfolding any
all_healthy-any [] = (λ _. tt, λ _. refl)
all_healthy-any (e ∷ es) = (
  λ h. (healthy-lem e.state (ground arith), (all_healthy-any es).0 (ground arith)),
  λ h. rw h.0 ((all_healthy-any es).1 h.1),
)

AllHealthy-keep :
    (p : Evidence → Bool) (es : List Evidence) → AllHealthy es → AllHealthy (keep p es)
unfolding keep
AllHealthy-keep p [] h = tt
AllHealthy-keep p (e ∷ es) h = elim (Bool-cases (p e)) [
  | inl kept ↦ rw kept (h.0, AllHealthy-keep p es h.1)
  | inr left ↦ rw left (AllHealthy-keep p es h.1)
]

rank_state-healthy : (es : List Evidence) → AllHealthy es → rank_state es ≡ healthy
unfolding rank_state first_of any
rank_state-healthy [] h = refl
rank_state-healthy (e ∷ es) h =
    direct-cons e.state (states_of es) ∙ rw (h.0, rank_state-healthy es h.1)

chosen_state-healthy :
    (direct_state : HealthState) (is_blocked : Bool) (access_state : HealthState)
    (any_unhealthy : Bool)
    → chosen_state direct_state is_blocked access_state any_unhealthy ≡ healthy
    → (is_blocked ≡ false) × (any_unhealthy ≡ false)
chosen_state-healthy direct_state is_blocked access_state any_unhealthy h =
    elim (Bool-cases (is_healthy direct_state)) [
      | inl fine ↦ ground arith
      | inr bad ↦ let e : direct_state ≡ healthy = ground arith in absurd (ground arith)
    ]

nonempty-false : (ds : List String) → nonempty ds ≡ false → ds ≡ []
nonempty-false [] h = refl
nonempty-false (_ ∷ _) h = absurd (cc)

subject_state_lem :
    (es : List Evidence) (ds : List String)
    → subject_state es ds
      ≡ chosen_state
          (rank_state (direct_of es))
          (nonempty ds)
          (rank_state (access_of es))
          (any is_unhealthy es)
unfolding subject_state
subject_state_lem es ds = refl

direct-healthy : (es : List Evidence) → AllHealthy es → rank_state (direct_of es) ≡ healthy
direct-healthy es h =
    rank_state-healthy (direct_of es) (
      AllHealthy-keep (λ e. not e.derived) (required_of es)
        (AllHealthy-keep (λ e. e.required) es h))

access-healthy : (es : List Evidence) → AllHealthy es → rank_state (access_of es) ≡ healthy
access-healthy es h = rank_state-healthy (access_of es) (
    AllHealthy-keep (λ e. is_access e.layer) (required_of es)
      (AllHealthy-keep (λ e. e.required) es h))

-- A subject is healthy exactly if all its evidence is healthy and no dependency blocks it.
pub subject_state-healthy :
    (es : List Evidence) (ds : List String)
    → (subject_state es ds ≡ healthy) ↔ (AllHealthy es × (ds ≡ []))
subject_state-healthy es ds = (
  λ h.
      let (clear, fine) =
        chosen_state-healthy (rank_state (direct_of es)) (nonempty ds) (rank_state (access_of es))
          (any is_unhealthy es) (sym (subject_state_lem es ds) ∙ h) in
      ((all_healthy-any es).0 fine, nonempty-false ds clear),
  λ (h, clear). rw (
    subject_state_lem es ds,
    direct-healthy es h,
    access-healthy es h,
    clear,
    (all_healthy-any es).1 h,
  ),
)

-- A document of a subject that is healthy exactly if its evidence is and nothing blocks it.
abbrev pub IsJudged : Item → Type 0
IsJudged item = (item.state ≡ healthy) ↔ (AllHealthy item.evidence × (item.blocked_by ≡ none))

first_text-none : (ds : List String) → (ds ≡ []) ↔ (first_text ds ≡ none)
first_text-none [] = (λ h. refl, λ h. refl)
first_text-none (d ∷ ds) = (λ h. absurd (cc), λ h. absurd (cc))

judged :
    (es : List Evidence) (ds : List String)
    → (subject_state es ds ≡ healthy) ↔ (AllHealthy es × (first_text ds ≡ none))
judged es ds = (
  λ h. let (a, b) = (subject_state-healthy es ds).0 h in (a, (first_text-none ds).0 b),
  λ h. (subject_state-healthy es ds).1 (h.0, (first_text-none ds).1 h.1),
)

pub evaluate-IsJudged :
    (at : String) (subject : Subject) (es : List Evidence) (results : Table Item) (ds : List String)
    (item : Item)
    → evaluate at subject es results ds ≡ ok item
    → IsJudged item
unfolding evaluate
evaluate-IsJudged at subject es results ds item h =
    let (roots, _, h') = after-eq-ok (dependency_roots results ds) _ h in
    let (dims, _, h'') = after-eq-ok (dimensions es (first_text ds)) _ h' in
    ok_subst IsJudged h'' (judged es ds)
