-- ===== src/Recovery/Requests.antt =====
-- manager/backup_restore.py: what a request for a restore needs, and what requests change.
use fortifylab_archive.Prelude.{
  Bool, Bool-cases, Option, String, [], ap, arith, eq_iff, false, if◌then◌else◌, inl, inr, none,
  refl, some, sym, true, ℕ, ◌==◌, ◌↔◌, ◌∙◌, ◌≡◌,
}
use fortifylab_archive.Prelude.Exec.{
  Outcome, Outcome-cases, after-eq-ok, ok, ok_subst, raised, resume,
}
use fortifylab_archive.Prelude.Table.{select, select-put_self}
use fortifylab_archive.Recovery.Restoring.{IsUsable}
use fortifylab_archive.Recovery.Service.{
  RestorePlan, Service, begin_restore, is_exact, new_operation, restore_plan, submit_confirmed,
  submit_restore,
}
use fortifylab_archive.Recovery.Store.{artifact, put_operation, usable}
use fortifylab_archive.Recovery.Types.{
  Artifact, Operation, RecoveryError, queued, recovery_failed, restore_action, restore_confirmation,
}

is_exact-lem :
    (confirmation : Option String)
    → is_exact confirmation ≡ true
    → confirmation ≡ some restore_confirmation
is_exact-lem none h = absurd (cc)
is_exact-lem (some t) h = ap some ((eq_iff t restore_confirmation).0 h)

restore_plan-compatible :
    (backup_id : String) (service : Service) (plan : RestorePlan)
    → restore_plan backup_id service ≡ ok plan
    → plan.compatible ≡ true
    → IsUsable backup_id service
unfolding restore_plan
restore_plan-compatible backup_id service plan h fits =
    let (found, at, h') = after-eq-ok (artifact backup_id true service.store) _ h in
    let same =
      ok_subst (λ (p : RestorePlan). (found.profile_id == service.profile_id) ≡ p.compatible) h'
        refl in
    (found, at, (eq_iff found.profile_id service.profile_id).0 (same ∙ fits))

-- An accepted request is stored as queued and changes nothing else; a refused one changes nothing.
abbrev pub IsRecorded : String → Service → Outcome RecoveryError Operation → Service → Type 0
IsRecorded id service (ok document) after_it =
    (document.state ≡ queued)
    × (document.completed_scopes ≡ [])
    × (select id after_it.store.operations ≡ some document)
    × (after_it.store.artifacts ≡ service.store.artifacts)
    × (after_it.cancelled ≡ service.cancelled)
IsRecorded id service (raised e) after_it = after_it ≡ service

module _ (id backup_id actor : String) (confirmation : Option String) (now : ℕ)
    (service : Service) where
  abbrev asked : Outcome RecoveryError Operation × Service
  asked = submit_restore id backup_id actor confirmation now service

  begin_restore-IsRecorded :
      (plan : RestorePlan)
      → IsRecorded id service
          (begin_restore id backup_id actor now plan service).0
          (begin_restore id backup_id actor now plan service).1
  unfolding new_operation put_operation
  begin_restore-IsRecorded plan = elim (Bool-cases plan.compatible) [
    | inr unfit ↦ rw unfit refl
    | inl fits ↦ rw fits (refl, refl, select-put_self id id _ _ refl, refl, refl)
  ]

  submit_confirmed-IsRecorded :
      IsRecorded id service
        (submit_confirmed id backup_id actor now service).0
        (submit_confirmed id backup_id actor now service).1
  submit_confirmed-IsRecorded = elim (Outcome-cases (restore_plan backup_id service)) [
    | inr (e, refused) ↦ unfold submit_confirmed in rw refused refl
    | inl (plan, planned) ↦ unfold submit_confirmed in rw planned (begin_restore-IsRecorded plan)
  ]

  asked-IsRecorded : IsRecorded id service asked.0 asked.1
  unfolding submit_restore
  asked-IsRecorded = elim (Bool-cases (is_exact confirmation)) [
    | inl exact ↦ rw exact submit_confirmed-IsRecorded
    | inr inexact ↦ rw inexact refl
  ]

  begin_restore-fits :
      (plan : RestorePlan) (document : Operation)
      → (begin_restore id backup_id actor now plan service).0 ≡ ok document
      → plan.compatible ≡ true
  begin_restore-fits plan document h = ground arith

  submit_confirmed_lem :
      submit_confirmed id backup_id actor now service
      ≡ resume (restore_plan backup_id service) (begin_restore id backup_id actor now) service
  unfolding submit_confirmed
  submit_confirmed_lem = refl

  planned_lem :
      (r : Outcome RecoveryError RestorePlan)
      → restore_plan backup_id service ≡ r
      → (submit_confirmed id backup_id actor now service).0
        ≡ (resume r (begin_restore id backup_id actor now) service).0
  planned_lem r planned =
      ap (λ x. x.0) submit_confirmed_lem
      ∙ ap (λ r. (resume r (begin_restore id backup_id actor now) service).0) planned

  submit_confirmed-IsUsable :
      (document : Operation)
      → (submit_confirmed id backup_id actor now service).0 ≡ ok document
      → IsUsable backup_id service
  submit_confirmed-IsUsable document h = elim (Outcome-cases (restore_plan backup_id service)) [
    | inr (e, refused) ↦ let stopped = sym (planned_lem (raised e) refused) ∙ h in absurd (cc)
    | inl (plan, planned) ↦
        restore_plan-compatible backup_id service plan planned
          (begin_restore-fits plan document (sym (planned_lem (ok plan) planned) ∙ h))
  ]

  abbrev plan_for : Artifact → RestorePlan
  plan_for found =
      let compatible = found.profile_id == service.profile_id in
      record {
        backup_id = backup_id;
        artifact_profile_id = found.profile_id;
        current_profile_id = service.profile_id;
        compatible = compatible;
        blocked_reason = if compatible then none else some "platform profile does not match";
        scope = found.scope;
      }

  usable-accepted :
      IsUsable backup_id service
      → (document : Operation) × ((submit_confirmed id backup_id actor now service).0 ≡ ok document)
  unfolding restore_plan
  usable-accepted (found, at, same) =
      let planned : restore_plan backup_id service ≡ ok (plan_for found) = rw at refl in
      let fits : (plan_for found).compatible ≡ true =
        (eq_iff found.profile_id service.profile_id).1 same in
      (
        new_operation restore_action id backup_id service.profile_id actor now,
        planned_lem (ok (plan_for found)) planned ∙ rw fits refl,
      )

  asked_lem :
      (exact : Bool)
      → is_exact confirmation ≡ exact
      → asked.0 ≡ (
          if exact
          then (submit_confirmed id backup_id actor now service).0
          else raised (recovery_failed "restore requires the exact typed confirmation"))
  unfolding submit_restore
  asked_lem true exact = rw exact refl
  asked_lem false inexact = rw inexact refl

  -- A restore is accepted exactly with the exact confirmation and an artifact that is complete and of
  -- the profile of the service. An accepted request is stored as queued and leaves artifacts and
  -- cancellations as they were; a refused one leaves everything as it was.
  pub submit_restore-guarded :
      IsRecorded id service
        (submit_restore id backup_id actor confirmation now service).0
        (submit_restore id backup_id actor confirmation now service).1
      × (((document : Operation) × ((submit_restore id backup_id actor confirmation now service).0
              ≡ ok document))
          ↔ ((confirmation ≡ some restore_confirmation) × IsUsable backup_id service))
  submit_restore-guarded = (
    asked-IsRecorded,
    (
      λ (document, h). elim (Bool-cases (is_exact confirmation)) [
        | inl exact ↦ (
          is_exact-lem confirmation exact,
          submit_confirmed-IsUsable document (sym (asked_lem true exact) ∙ h),
        )
        | inr inexact ↦ let stopped = sym (asked_lem false inexact) ∙ h in absurd (cc)
      ],
      λ (exact, usable).
          let (document, h) = usable-accepted usable in
          (document, asked_lem true (ap is_exact exact) ∙ h),
    ),
  )
