-- ===== src/Upgrade/Promise.antt =====
-- manager/profile_upgrade.py: a plan can be submitted while nothing changes.
use fortifylab_archive.Authorization.Policy.{ActorIdentity}
use fortifylab_archive.Prelude.{
  Bool, List, Option, String, [], ap, arith, contains, eq_iff, false, none, refl, some, true, ℕ,
  ◌+◌, ◌<◌, ◌∙◌, ◌∷◌, ◌≡◌, ◌≤◌,
}
use fortifylab_archive.Prelude.Exec.{ok, ok_subst}
use fortifylab_archive.Prelude.Table.{Table, select}
use fortifylab_archive.Upgrade.Evidence.{Observation, Profile, versions_of}
use fortifylab_archive.Upgrade.Planned.{Planned, plan-Planned}
use fortifylab_archive.Upgrade.Planning.{UpgradeService, drawn_up, plan, planned_body}
use fortifylab_archive.Upgrade.Submission.{
  consume_plan, enqueue, queued_upgrade, request_reason, still_valid, strong_sources, submit,
  submit_loaded,
}
use fortifylab_archive.Upgrade.Types.{Plan, Row, plan_row}
use text.Mathlib.TextPositions.{eq_refl}

consume_plan_unused :
    (p : Plan) (store : Table Row)
    → select p.id store ≡ some (plan_row p)
    → p.state ≡ none
    → (consume_plan p.id store).0 ≡ true
unfolding consume_plan
consume_plan_unused p store stored unused = rw stored (ground arith)

enqueue-ok :
    (service : UpgradeService) (id : String) (p : Plan) (identity : ActorIdentity) (now : ℕ)
    (fresh : String) (consumed : Bool × Table Row)
    → consumed.0 ≡ true
    → (enqueue service id p identity now fresh consumed).0
      ≡ ok (queued_upgrade id p identity now fresh)
enqueue-ok service id p identity now fresh (false, store) h = absurd (cc)
enqueue-ok service id p identity now fresh (true, store) h = refl

module _ (service : UpgradeService) (identity : ActorIdentity) (later : ℕ) where
  request_reason-free :
      (p : Plan)
      → contains strong_sources identity.source ≡ true
      → later ≤ identity.authenticated_at + service.confirmation_age
      → later < p.expires_at
      → request_reason service identity (some p.confirmation) later p ≡ none
  unfolding request_reason
  request_reason-free p strong recent in_time = ground (arith, eq_iff p.confirmation p.confirmation)

  module _ (target_profile_id : String) (observation : Option Observation) (now : ℕ)
      (fresh : String)
      (named : (target : Profile)
        → service.load target_profile_id ≡ some target
        → target.id ≡ target_profile_id) where
    Planned-still_valid :
        (p : Plan)
        → Planned service target_profile_id observation now fresh p
        → still_valid service observation p ≡ ok tt
    unfolding still_valid versions_of
    Planned-still_valid p h = drawn-still_valid h.changed h.made
      where
        drawn-still_valid :
            (changed : List String)
            → drawn_up service h.target h.transition h.observed h.order now fresh changed ≡ ok p
            → still_valid service observation p ≡ ok tt
        drawn-still_valid [] made = absurd (cc)
        drawn-still_valid (c ∷ cs) made =
            let loaded : service.load h.target.id ≡ some h.target =
              ap service.load (named h.target h.loaded) ∙ h.loaded in
            let body =
              planned_body service.profile h.target h.transition h.observed h.order (c ∷ cs) in
            ok_subst (λ v. still_valid service observation v ≡ ok tt) made
              (rw (loaded, h.at, h.valid, h.ordered, eq_refl (service.digest body)) refl)

    Planned-unused :
        (p : Plan) → Planned service target_profile_id observation now fresh p → p.state ≡ none
    Planned-unused p h = drawn-unused h.changed h.made
      where
        drawn-unused :
            (changed : List String)
            → drawn_up service h.target h.transition h.observed h.order now fresh changed ≡ ok p
            → p.state ≡ none
        drawn-unused [] made = absurd (cc)
        drawn-unused (c ∷ cs) made = ok_subst (λ v. v.state ≡ none) made refl

    -- A plan that was returned is accepted when it is submitted with its own confirmation, as long as
    -- its row is still the same, it has not expired, the platform is observed as it was, and the
    -- person came from the Web UI or the local command line and has authenticated recently, provided
    -- that a profile is loaded by its own name. The operation is queued for the plan.
    pub plan-submit :
        (store after_it current : Table Row) (p : Plan) (fresh_operation : String)
        → plan service target_profile_id observation now fresh store ≡ (ok p, after_it)
        → select p.id current ≡ some (plan_row p)
        → contains strong_sources identity.source ≡ true
        → later ≤ identity.authenticated_at + service.confirmation_age
        → later < p.expires_at
        → (submit service p.id identity
            (some p.confirmation)
            observation
            later
            fresh_operation
            current).0
          ≡ ok (queued_upgrade p.id p identity later fresh_operation)
    unfolding submit submit_loaded
    plan-submit store after_it current p fresh_operation made stored strong recent in_time =
        let h =
          plan-Planned service target_profile_id observation now fresh store p after_it made in
        rw (stored, request_reason-free p strong recent in_time, Planned-still_valid p h)
          (enqueue-ok service p.id p identity later fresh_operation (consume_plan p.id current)
            (consume_plan_unused p current stored (Planned-unused p h)))
