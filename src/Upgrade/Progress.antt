-- ===== src/Upgrade/Progress.antt =====
-- manager/profile_upgrade.py: how far an upgrade has come, and what it may have changed.
use fortifylab_archive.Prelude.{
  Bool-cases, List, Option, String, [], ap, arith, contains, eq_iff, if◌then◌else◌, inl, inr, keep,
  none, refl, some, sym, true, ◌++◌, ◌∙◌, ◌∷◌, ◌≡◌, ◌≢◌, ◌⊎◌,
}
use fortifylab_archive.Upgrade.Rollback.{suspected}
use fortifylab_archive.Upgrade.Run.{Ending, finished, was_cancelled}
use fortifylab_archive.Upgrade.Types.{
  Body, Event, Step, automatic_rollback_blocked, health_verified, manager_restarted,
  mutation_completed, recovery_not_required, rollback_failed, rollback_verified,
}
use fortifylab_archive.Upgrade.World.{Run}
use mathlib.Core.List.{append-nil}
use mathlib.Core.Path.{ap₂}

abbrev pub names : List Step → List String
names [] = []
names (s ∷ ss) = s.component ∷ names ss

-- The components of a list that change their version.
abbrev pub changing : Body → List String → List String
changing plan cs = keep (contains plan.components) cs

pub changing-append :
    (plan : Body) (xs ys : List String)
    → changing plan (xs ++ ys) ≡ changing plan xs ++ changing plan ys
unfolding keep
changing-append plan [] ys = refl
changing-append plan (x ∷ xs) ys = ground (arith, changing-append plan xs ys)

abbrev pub touched : Body → Run → List String
touched plan r = suspected plan r.document.current_component r.mutated

-- The components whose rollback was verified, in order.
abbrev pub restored_in : List Event → List String
restored_in [] = []
restored_in (rollback_verified c t ∷ es) = c ∷ restored_in es
restored_in (mutation_completed c b t ∷ es) = restored_in es
restored_in (health_verified c t ∷ es) = restored_in es
restored_in (recovery_not_required t ∷ es) = restored_in es
restored_in (automatic_rollback_blocked cs b t ∷ es) = restored_in es
restored_in (rollback_failed cs t ∷ es) = restored_in es
restored_in (manager_restarted t ∷ es) = restored_in es

pub restored_in-append :
    (es fs : List Event) → restored_in (es ++ fs) ≡ restored_in es ++ restored_in fs
restored_in-append [] fs = refl
restored_in-append (rollback_verified c t ∷ es) fs = ap (λ l. c ∷ l) (restored_in-append es fs)
restored_in-append (mutation_completed c b t ∷ es) fs = restored_in-append es fs
restored_in-append (health_verified c t ∷ es) fs = restored_in-append es fs
restored_in-append (recovery_not_required t ∷ es) fs = restored_in-append es fs
restored_in-append (automatic_rollback_blocked cs b t ∷ es) fs = restored_in-append es fs
restored_in-append (rollback_failed cs t ∷ es) fs = restored_in-append es fs
restored_in-append (manager_restarted t ∷ es) fs = restored_in-append es fs

-- No rollback has begun.
abbrev pub IsQuiet : Run → Type 0
IsQuiet r = restored_in r.document.evidence ≡ []

pub note-quiet :
    (es : List Event) (e : Event)
    → restored_in es ≡ []
    → restored_in (e ∷ []) ≡ []
    → restored_in (es ++ e ∷ []) ≡ []
note-quiet es e h k = restored_in-append es (e ∷ []) ∙ ap₂ ◌++◌ h k

-- The given components are done, and those of them that change are recorded as changed.
pub record Going (plan : Body) (done : List String) (r : Run) : Type 0 where
  pub completed : r.document.completed_components ≡ done
  pub mutated : r.mutated ≡ changing plan done
  pub settled : touched plan r ≡ r.mutated
  pub quiet : IsQuiet r

-- Stopped at a component after the given ones: it may have been changed, unless the run was
-- cancelled.
pub record Stopped (plan : Body) (done : List String) (c : String) (ending : Ending) (r : Run)
    : Type 0 where
  pub completed : r.document.completed_components ≡ done
  pub suspects :
      (touched plan r ≡ changing plan done) ⊎ (touched plan r ≡ changing plan (done ++ c ∷ []))
  pub spared : ending ≡ was_cancelled → touched plan r ≡ changing plan done
  pub covers :
      ending ≢ was_cancelled
      → contains plan.components c ≡ true
      → contains (touched plan r) c ≡ true
  pub quiet : IsQuiet r

abbrev pub StepEnds : Body → List String → Step → Option Ending → Run → Type 0
StepEnds plan done step none r = Going plan (done ++ step.component ∷ []) r
StepEnds plan done step (some finished) r = ⊥
StepEnds plan done step (some ending) r = Stopped plan done step.component ending r

pub contains-snoc : (xs : List String) (c : String) → contains (xs ++ c ∷ []) c ≡ true
unfolding contains
contains-snoc [] c = ground (arith, eq_iff c c)
contains-snoc (x ∷ xs) c = ground (arith, contains-snoc xs c)

pub suspected-settled :
    (plan : Body) (c : String) (mutated : List String)
    → (contains plan.components c ≡ true → contains mutated c ≡ true)
    → suspected plan (some c) mutated ≡ mutated
suspected-settled plan c mutated h = elim (Bool-cases (contains plan.components c)) [
  | inr unchanged ↦ rw unchanged refl
  | inl changes ↦ rw (changes, h changes) refl
]

pub changing-snoc :
    (plan : Body) (done : List String) (c : String)
    → changing plan (done ++ c ∷ [])
      ≡ (if contains plan.components c then changing plan done ++ c ∷ [] else changing plan done)
changing-snoc plan done c = elim (Bool-cases (contains plan.components c)) [
  | inl changes ↦ rw changes (changing-append plan done (c ∷ []) ∙ unfold keep in rw changes refl)
  | inr unchanged ↦
      rw unchanged (changing-append plan done (c ∷ []) ∙ unfold keep in rw unchanged (append-nil _))
]

pub suspected-covers :
    (plan : Body) (c : String) (mutated : List String)
    → contains plan.components c ≡ true
    → contains (suspected plan (some c) mutated) c ≡ true
suspected-covers plan c mutated changes = elim (Bool-cases (contains mutated c)) [
  | inl known ↦ rw (changes, known) known
  | inr fresh ↦ rw (changes, fresh) (contains-snoc mutated c)
]

pub suspected-cases :
    (plan : Body) (done : List String) (c : String)
    → (suspected plan (some c) (changing plan done) ≡ changing plan done)
      ⊎ (suspected plan (some c) (changing plan done) ≡ changing plan (done ++ c ∷ []))
suspected-cases plan done c = elim (Bool-cases (contains plan.components c)) [
  | inr unchanged ↦ inl (rw unchanged refl)
  | inl changes ↦ elim (Bool-cases (contains (changing plan done) c)) [
    | inl known ↦ inl (rw (changes, known) refl)
    | inr fresh ↦ inr (rw (changes, fresh) (sym (changing-snoc plan done c ∙ rw changes refl)))
  ]
]
