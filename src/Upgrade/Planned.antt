-- ===== src/Upgrade/Planned.antt =====
-- manager/profile_upgrade.py: what is known of a plan that `plan` returned, and its submission.
use fortifylab_archive.Prelude.{List, Option, String, ap, none, refl, some, ℕ, ◌≡◌}
use fortifylab_archive.Prelude.Exec.{Outcome, after-eq-ok, ok, raised}
use fortifylab_archive.Prelude.Table.{Table}
use fortifylab_archive.Upgrade.Evidence.{
  Observation, Profile, Transition, UpgradeError, transition_of, validated_observation,
}
use fortifylab_archive.Upgrade.Planning.{
  UpgradeService, changed_components, drawn_up, full_order, kept_plan, plan, plan_allowed, plan_for,
  target_reason,
}
use fortifylab_archive.Upgrade.Types.{Plan, Row}

-- What a returned plan was made of.
pub record Planned (service : UpgradeService) (target_profile_id : String)
    (observation : Option Observation) (now : ℕ) (fresh : String) (p : Plan) : Type 0 where
  pub target : Profile
  pub loaded : service.load target_profile_id ≡ some target
  pub transition : Transition
  pub at : transition_of target service.profile.id ≡ ok transition
  pub observed : Observation
  pub valid :
      validated_observation service.registry service.profile target transition observation
      ≡ ok observed
  pub order : List String
  pub ordered : full_order service.registry ≡ ok order
  pub changed : List String
  pub made : drawn_up service target transition observed order now fresh changed ≡ ok p

module _ (service : UpgradeService) (target_profile_id : String) (observation : Option Observation)
    (now : ℕ) (fresh : String) where
  allowed-Planned :
      (target : Profile) (reason : Option String) {p : Plan}
      → service.load target_profile_id ≡ some target
      → plan_allowed service target observation now fresh reason ≡ ok p
      → Planned service target_profile_id observation now fresh p
  allowed-Planned target (some reason) loaded h = absurd (cc)
  allowed-Planned target none loaded h =
      let (transition, at, h1) = after-eq-ok (transition_of target service.profile.id) _ h in
      let (observed, valid, h2) =
        after-eq-ok
          (validated_observation service.registry service.profile target transition observation) _
          h1 in
      let (order, ordered, h3) = after-eq-ok (full_order service.registry) _ h2 in
      let (changed, _, h4) = after-eq-ok (changed_components service.profile target order) _ h3 in
      record {
        target = target;
        loaded = loaded;
        transition = transition;
        at = at;
        observed = observed;
        valid = valid;
        order = order;
        ordered = ordered;
        changed = changed;
        made = h4;
      }

  for-Planned :
      (found : Option Profile) {p : Plan}
      → service.load target_profile_id ≡ found
      → plan_for service found observation now fresh ≡ ok p
      → Planned service target_profile_id observation now fresh p
  for-Planned none loaded h = absurd (cc)
  for-Planned (some target) loaded h =
      allowed-Planned target (target_reason service.profile target) loaded h

  kept_plan-ok :
      (made : Outcome UpgradeError Plan) (store : Table Row) {p : Plan} {t : Table Row}
      → kept_plan service made store ≡ (ok p, t)
      → made ≡ ok p
  kept_plan-ok (ok q) store h = ap (λ v. v.0) h
  kept_plan-ok (raised e) store h = absurd (cc)

  pub plan-Planned :
      (store : Table Row) (p : Plan) (t : Table Row)
      → plan service target_profile_id observation now fresh store ≡ (ok p, t)
      → Planned service target_profile_id observation now fresh p
  unfolding plan
  plan-Planned store p t h =
      for-Planned (service.load target_profile_id) refl (kept_plan-ok _ store h)
