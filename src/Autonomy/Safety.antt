-- ===== src/Autonomy/Safety.antt =====
-- supervisor/autonomy_policy.py: what every effective policy guarantees.
use fortifylab_archive.Autonomy.Policy.{
  Clockwork, Decision, Scalar, actions, all_known, all_protected, approval, automatic, decided,
  decision_of, default_decisions, disabled, is_approval, override, profile_defaults,
  protected_actions, unsafe_combination,
}
use fortifylab_archive.Prelude.{
  All, Bool-cases, List, Option, String, [], ap, arith, if◌then◌else◌, inl, inr, is_some, none,
  refl, some, subst, true, ◌==◌, ◌∙◌, ◌∷◌, ◌≡◌,
}
use fortifylab_archive.Prelude.Exec.{after, after-eq-ok, ok, raised}
use fortifylab_archive.Prelude.Table.{Table, put, select, select-put}

approved_of : (found : Option Decision) → is_approval found ≡ true → found ≡ some approval
approved_of (some approval) h = refl
approved_of (some automatic) h = absurd (cc)
approved_of (some disabled) h = absurd (cc)
approved_of none h = absurd (cc)

approved-select :
    (actions : List String) (decisions : Table Decision)
    → all_protected actions decisions ≡ true
    → All (λ a. select a decisions ≡ some approval) actions
unfolding all_protected
approved-select [] decisions h = tt
approved-select (a ∷ rest) decisions h = (
  approved_of (select a decisions) (ground (arith, h)),
  approved-select rest decisions (ground (arith, h)),
)

-- The overrides only replace decisions: what had one still has one.
override-is_some :
    (overrides : Table Scalar) (before decisions : Table Decision) (a : String)
    → override overrides before ≡ ok decisions
    → is_some (select a before) ≡ true
    → is_some (select a decisions) ≡ true
unfolding override
override-is_some [] before decisions a h p =
    let same : before ≡ decisions = ground (arith, h) in
    subst (λ d. is_some (select a d) ≡ true) same p
override-is_some ((action, value) ∷ rest) before decisions a h p =
    let (d, _, h') = after-eq-ok (decision_of value) (λ d. override rest (put action d before)) h in
    override-is_some rest (put action d before) decisions a h' (elim (Bool-cases (action == a)) [
      | inl same ↦ ground (arith, select-put action a d before, same)
      | inr other ↦ ground (arith, select-put action a d before, other, p)
    ])

-- What the defaults and the overrides lead to.
pub decided-guarantees :
    (clockwork : Clockwork) (overrides : Option (Table Scalar)) (before decisions : Table Decision)
    → decided clockwork overrides before ≡ ok decisions
    → All (λ a. select a decisions ≡ some approval) protected_actions
      × ((a : String) → is_some (select a before) ≡ true → is_some (select a decisions) ≡ true)
unfolding decided
decided-guarantees clockwork none before decisions h = absurd (cc)
decided-guarantees clockwork (some overrides) before decisions h =
    elim (Bool-cases (all_known overrides)) [
      | inr unknown ↦ absurd (ground (arith, h, unknown))
      | inl known ↦
          let asked : after (override overrides before) (λ decisions.
            if all_protected protected_actions decisions
            then ok decisions
            else raised unsafe_combination)
              ≡ ok decisions =
            ground (arith, h, known) in
          let (ds, made, tested) =
            after-eq-ok (override overrides before)
              (λ decisions.
                if all_protected protected_actions decisions
                then ok decisions
                else raised unsafe_combination)
              asked in
          elim (Bool-cases (all_protected protected_actions ds)) [
            | inr bad ↦ absurd (ground (arith, tested, bad))
            | inl good ↦
                let same : ds ≡ decisions = ground (arith, tested, good) in
                (
                  approved-select protected_actions decisions
                      (subst (λ d. all_protected protected_actions d ≡ true) same good),
                  λ a p. override-is_some overrides before decisions a (made ∙ ap ok same) p,
                )
          ]
    ]

abbrev pub HasAll : Table Decision → Type 0
HasAll decisions = All (λ a. is_some (select a decisions) ≡ true) actions

default_decisions-HasAll : (usual merge : Decision) → HasAll (default_decisions usual merge)
unfolding select
default_decisions-HasAll usual merge =
    (refl, (refl, (refl, (refl, (refl, (refl, (refl, (refl, tt))))))))

pub profile_defaults-HasAll :
    (profile : String) (before : Table Decision)
    → select profile profile_defaults ≡ some before
    → HasAll before
unfolding select
profile_defaults-HasAll profile before h = elim (Bool-cases ("manual" == profile)) [
  | inl manual ↦
      subst HasAll
        (let same : default_decisions approval approval ≡ before = ground (arith, h, manual) in
          same)
        (default_decisions-HasAll approval approval)
  | inr other ↦ elim (Bool-cases ("assisted" == profile)) [
    | inl assisted ↦
        subst HasAll
          (let same : default_decisions automatic approval ≡ before =
              ground (arith, h, other, assisted) in
            same)
          (default_decisions-HasAll automatic approval)
    | inr third ↦ elim (Bool-cases ("autonomous" == profile)) [
      | inl autonomous ↦
          subst HasAll
            (let same : default_decisions automatic automatic ≡ before =
                ground (arith, h, other, third, autonomous) in
              same)
            (default_decisions-HasAll automatic automatic)
      | inr no_match ↦ absurd (ground (arith, h, other, third, no_match))
    ]
  ]
]
