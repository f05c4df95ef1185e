-- ===== src/Operation/Coverage.antt =====
-- manager/operation_engine.py: the recovery boundary of a plan.
use fortifylab_archive.Operation.Plan.{greatest, plan_recovery_boundary}
use fortifylab_archive.Operation.Types.{
  Boundary, Step, compensating_action, irreversible, precedence, restore_required, reversible,
}
use fortifylab_archive.Prelude.{
  All, Any, Bool-cases, List, [], ap, arith, if◌then◌else◌, inl, inr, ltb, refl, subst, sym, ◌++◌,
  ◌∷◌, ◌≡◌, ◌≢◌, ◌≤◌, ◌⊎◌,
}
use fortifylab_archive.Prelude.Exec.{ok}

abbrev higher : Boundary → Boundary → Boundary
higher b r = if ltb (precedence b) (precedence r) then r else b

higher-ge :
    (b r : Boundary)
    → (precedence b ≤ precedence (higher b r)) × (precedence r ≤ precedence (higher b r))
higher-ge b r = elim (Bool-cases (ltb (precedence b) (precedence r))) [
  | inl above ↦ rw above (ground (arith, above), omega arith)
  | inr below ↦ rw below (omega arith, ground (arith, below))
]

greatest-ge :
    (b : Boundary) (steps : List Step)
    → (precedence b ≤ precedence (greatest b steps))
      × All (λ s. precedence s.recovery ≤ precedence (greatest b steps)) steps
unfolding greatest
greatest-ge b [] = (omega arith, tt)
greatest-ge b (s ∷ steps) =
    let (least, rest) = greatest-ge (higher b s.recovery) steps in
    let (old, new) = higher-ge b s.recovery in
    (omega (arith, least, old), (omega (arith, least, new), rest))

-- The boundary is that of some step of the plan.
abbrev IsOneOf : Boundary → List Step → Type 0
IsOneOf b steps =
    (before : List Step) × (s : Step) × (rest : List Step) × (steps ≡ before ++ s ∷ rest)
    × (s.recovery ≡ b)

later_one : (b : Boundary) (s : Step) (steps : List Step) → IsOneOf b steps → IsOneOf b (s ∷ steps)
later_one b s steps (before, t, rest, split, same) = (s ∷ before, t, rest, ap (◌∷◌ s) split, same)

greatest-attained :
    (b : Boundary) (steps : List Step) → (greatest b steps ≡ b) ⊎ IsOneOf (greatest b steps) steps
unfolding greatest
greatest-attained b [] = inl refl
greatest-attained b (s ∷ steps) = elim (Bool-cases (ltb (precedence b) (precedence s.recovery))) [
  | inl above ↦ rw above (elim (greatest-attained s.recovery steps) [
    | inl same ↦ inr ([], s, steps, refl, sym same)
    | inr found ↦ inr (later_one (greatest s.recovery steps) s steps found)
  ])
  | inr below ↦ rw below (elim (greatest-attained b steps) [
    | inl same ↦ inl same
    | inr found ↦ inr (later_one (greatest b steps) s steps found)
  ])
]

-- What the boundaries of the steps say of that of the plan: irreversible if any step is, else a
-- restore if any step requires one, else a compensating action if any step does, else reversible.
abbrev pub Declares : Boundary → List Step → Type 0
Declares irreversible steps = Any (λ s. s.recovery ≡ irreversible) steps
Declares restore_required steps =
    Any (λ s. s.recovery ≡ restore_required) steps × All (λ s. s.recovery ≢ irreversible) steps
Declares compensating_action steps =
    Any (λ s. s.recovery ≡ compensating_action) steps
    × All (λ s. (s.recovery ≢ irreversible) × (s.recovery ≢ restore_required)) steps
Declares reversible steps = All (λ s. s.recovery ≡ reversible) steps

IsOneOf-Any : (b : Boundary) (steps : List Step) → IsOneOf b steps → Any (λ s. s.recovery ≡ b) steps
IsOneOf-Any b steps (before, s, rest, split, same) =
    subst (Any (λ t. t.recovery ≡ b)) (sym split) (found before)
  where
    found : (before : List Step) → Any (λ t. t.recovery ≡ b) (before ++ s ∷ rest)
    found [] = inl same
    found (t ∷ before) = inr (found before)

All-map :
    {P Q : Step → Type 0}
    → ((s : Step) → P s → Q s)
    → (steps : List Step) → All P steps
    → All Q steps
All-map f [] h = tt
All-map f (s ∷ steps) h = (f s h.0, All-map f steps h.1)

covered-Declares :
    (b : Boundary) (steps : List Step)
    → IsOneOf b steps
    → All (λ s. precedence s.recovery ≤ precedence b) steps
    → Declares b steps
covered-Declares irreversible steps one below = IsOneOf-Any irreversible steps one
covered-Declares restore_required steps one below =
    (IsOneOf-Any restore_required steps one, All-map (λ s le e. ground (arith, le, e)) steps below)
covered-Declares compensating_action steps one below = (
  IsOneOf-Any compensating_action steps one,
  All-map (λ s le. ((λ e. ground (arith, le, e)), (λ e. ground (arith, le, e)))) steps below,
)
covered-Declares reversible steps one below = All-map (λ s le. lowest s.recovery le) steps below
  where
    lowest : (b : Boundary) → precedence b ≤ precedence reversible → b ≡ reversible
    lowest reversible h = refl
    lowest compensating_action h = absurd (ground (arith, h))
    lowest restore_required h = absurd (ground (arith, h))
    lowest irreversible h = absurd (ground (arith, h))

-- The recovery boundary of a plan is irreversible if any step is, else that of a restore if any
-- step requires one, else that of a compensating action if any step does, else reversible; and
-- every plan with a step has one.
pub plan_recovery_boundary-covers :
    (steps : List Step)
    → ((b : Boundary) → plan_recovery_boundary steps ≡ ok b → Declares b steps)
      × (steps ≢ [] → (b : Boundary) × (plan_recovery_boundary steps ≡ ok b))
unfolding plan_recovery_boundary
plan_recovery_boundary-covers [] = (λ b h. absurd (cc), λ some_step. absurd (some_step refl))
plan_recovery_boundary-covers (s ∷ steps) = (
  λ b h.
      let same : greatest s.recovery steps ≡ b = ground (arith, h) in
      subst (λ c. Declares c (s ∷ steps)) same
        (covered-Declares (greatest s.recovery steps) (s ∷ steps)
          (elim (greatest-attained s.recovery steps) [
            | inl first ↦ ([], s, steps, refl, sym first)
            | inr found ↦ later_one (greatest s.recovery steps) s steps found
          ])
          (greatest-ge s.recovery steps)),
  λ some_step. (greatest s.recovery steps, refl),
)
