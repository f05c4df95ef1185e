-- ===== src/Upgrade/Boundaries.antt =====
-- manager/profile_upgrade.py: the boundary that a plan declares, and the recovery of its upgrade.
use fortifylab_archive.Authorization.Policy.{ActorIdentity}
use fortifylab_archive.Operation.Plan.{declared}
use fortifylab_archive.Operation.Types.{Boundary, irreversible, restore_required}
use fortifylab_archive.Prelude.{
  Bool, Bool-cases, List, Option, Option-cases, String, [], any, ap, arith, false, inl, inr, keep,
  none, refl, some, subst, sym, true, ℕ, ◌+◌, ◌==◌, ◌∙◌, ◌∷◌, ◌≡◌, ◌≢◌, ◌⊎◌,
}
use fortifylab_archive.Prelude.Exec.{ok, ok_subst}
use fortifylab_archive.Prelude.Table.{Table, select}
use fortifylab_archive.Upgrade.Acceptance.{Judged, submit-Judged}
use fortifylab_archive.Upgrade.Evidence.{Observation}
use fortifylab_archive.Upgrade.Outcome.{HasStopped, HasSucceeded, run-HasEnded}
use fortifylab_archive.Upgrade.Planned.{Planned, plan-Planned}
use fortifylab_archive.Upgrade.Planning.{
  UpgradeService, drawn_up, is_class, migration_by_component, numbered_steps, or_reversible, plan,
  rollback_class,
}
use fortifylab_archive.Upgrade.Progress.{restored_in}
use fortifylab_archive.Upgrade.Recovery.{blockers}
use fortifylab_archive.Upgrade.Run.{run}
use fortifylab_archive.Upgrade.Submission.{submit}
use fortifylab_archive.Upgrade.Types.{
  Migration, Plan, Row, Upgrade, class_of, is_blocking, operation_row, plan_row, restore_needed,
}
use fortifylab_archive.Upgrade.World.{World}

-- A boundary from which no rollback leads back is not hidden by the class of the whole plan.
blocking-any :
    (ms : List Migration)
    → is_blocking (some (rollback_class ms)) ≡ false
    → (any (is_class irreversible) ms ≡ false) × (any (is_class restore_required) ms ≡ false)
unfolding rollback_class
blocking-any ms h = elim (Bool-cases (any (is_class irreversible) ms)) [
  | inl some_irreversible ↦ let e = rw some_irreversible at h in absurd (cc)
  | inr no_irreversible ↦ elim (Bool-cases (any (is_class restore_required) ms)) [
    | inl some_restore ↦ let e = rw (no_irreversible, some_restore) at h in absurd (cc)
    | inr no_restore ↦ (no_irreversible, no_restore)
  ]
]

class-blocks :
    (m : Migration)
    → is_class irreversible m ≡ false
    → is_class restore_required m ≡ false
    → is_blocking (some m.rollback) ≡ false
class-blocks m h k = ground arith

migration-free :
    (ms : List Migration) (c : String)
    → any (is_class irreversible) ms ≡ false
    → any (is_class restore_required) ms ≡ false
    → is_blocking (migration_by_component ms c) ≡ false
unfolding any migration_by_component
migration-free [] c h k = refl
migration-free (m ∷ ms) c h k = elim (Option-cases (migration_by_component ms c)) [
  | inr (b, later) ↦
      rw later (ap is_blocking (sym later) ∙ migration-free ms c (ground arith) (ground arith))
  | inl none_later ↦ rw none_later (elim (Bool-cases (m.component == c)) [
    | inr other ↦ rw other refl
    | inl same ↦ rw same (class-blocks m (ground arith) (ground arith))
  ])
]

or_reversible-free :
    (o : Option Boundary) → is_blocking o ≡ false → is_blocking (some (or_reversible o)) ≡ false
or_reversible-free none h = refl
or_reversible-free (some b) h = h

steps-free :
    (n : ℕ) (changed : List String) (ms : List Migration) (order : List String) (c : String)
    → any (is_class irreversible) ms ≡ false
    → any (is_class restore_required) ms ≡ false
    → is_blocking (class_of (numbered_steps n changed ms order) c) ≡ false
unfolding class_of numbered_steps
steps-free n changed ms [] c h k = refl
steps-free n changed ms (d ∷ order) c h k =
    let ih = steps-free (n + 1) changed ms order c h k in
    elim (Option-cases (class_of (numbered_steps (n + 1) changed ms order) c)) [
      | inr (b, later) ↦ rw later (ap is_blocking (sym later) ∙ ih)
      | inl none_later ↦ rw none_later (elim (Bool-cases (d == c)) [
        | inr other ↦ rw other refl
        | inl same ↦
            rw same (or_reversible-free (migration_by_component ms d) (migration-free ms d h k))
      ])
    ]

keep-none : (p : String → Bool) (xs : List String) → ((x : String) → p x ≡ false) → keep p xs ≡ []
unfolding keep
keep-none p [] h = refl
keep-none p (x ∷ xs) h = rw (h x) (keep-none p xs h)

module _ (service : UpgradeService) (target_profile_id : String) (observation : Option Observation)
    (now : ℕ) (fresh : String) where
  Planned-unblocked :
      (p : Plan) (cs : List String)
      → Planned service target_profile_id observation now fresh p
      → is_blocking (some p.body.recovery_boundary) ≡ false
      → blockers p.body cs ≡ []
  Planned-unblocked p cs h = drawn-unblocked h.changed h.made
    where
      drawn-unblocked :
          (changed : List String)
          → drawn_up service h.target h.transition h.observed h.order now fresh changed ≡ ok p
          → is_blocking (some p.body.recovery_boundary) ≡ false
          → blockers p.body cs ≡ []
      drawn-unblocked [] made = absurd (cc)
      drawn-unblocked (c ∷ more) made =
          ok_subst
            (λ v. is_blocking (some v.body.recovery_boundary) ≡ false → blockers v.body cs ≡ [])
            made
            (λ mild.
              let (h1, h2) = blocking-any h.transition.migrations mild in
              keep-none _ cs (λ x. steps-free 1 (c ∷ more) h.transition.migrations h.order x h1 h2))

  -- An upgrade that was planned, submitted and executed ends, with its final document stored, whatever
  -- other threads did to the store before, as long as the plan is still there and the identifier of
  -- the operation is not taken, and do to it in the meantime. It has succeeded with all steps of the
  -- plan done, or it has stopped, and then its recovery asks for a restore only if the boundary that
  -- the plan declares is blocking, that is irreversible or one of a restore.
  pub planned_upgrade-ends :
      (store planned_store : Table Row) (p : Plan) (identity : ActorIdentity)
      (confirmation : Option String) (current_observation : Option Observation) (later : ℕ)
      (fresh_operation : String) (current submitted_store : Table Row) (document : Upgrade)
      (world : World) (moment : ℕ)
      → plan service target_profile_id observation now fresh store ≡ (ok p, planned_store)
      → select p.id current ≡ some (plan_row p)
      → select fresh_operation current ≡ none
      → submit service p.id identity confirmation current_observation later fresh_operation current
        ≡ (ok document, submitted_store)
      → (select
            (run world p.body document moment submitted_store).document.id
            (run world p.body document moment submitted_store).store
          ≡ some (operation_row (run world p.body document moment submitted_store).document))
        × (HasSucceeded p.body (run world p.body document moment submitted_store).document
            ⊎ (HasStopped p.body (run world p.body document moment submitted_store).document
                × ((is_blocking (some p.body.recovery_boundary) ≡ true)
                    ⊎ ((run world p.body document moment submitted_store).document.recovery.status
                        ≢ restore_needed))))
  planned_upgrade-ends store planned_store p identity confirmation current_observation later
        fresh_operation current submitted_store document world moment made stored unknown
        accepted_so =
      let h =
        plan-Planned service target_profile_id observation now fresh store p planned_store made in
      let s =
        subst
          (λ out.
            Judged service p.id identity confirmation current_observation later fresh_operation
              current out)
          accepted_so
          (submit-Judged service p.id identity confirmation current_observation later
            fresh_operation current unknown) in
      let quiet = ap restored_in s.no_evidence in
      let (kept, ended) =
        run-HasEnded world p.body document moment submitted_store s.nothing_done s.nothing_begun
          quiet in
      (
        kept,
        elim ended [
          | inl succeeded_so ↦ inl succeeded_so
          | inr stopped ↦ inr (
            stopped,
            elim (Bool-cases (is_blocking (some p.body.recovery_boundary))) [
              | inl declared ↦ inl declared
              | inr mild ↦ inr (λ asks.
                  stopped.recovered.restore_only asks (Planned-unblocked p stopped.touched h mild))
            ],
          )
        ],
      )
