-- ===== src/Upgrade/Acceptance.antt =====
-- manager/profile_upgrade.py: what `submit` accepts, and what it changes.
use fortifylab_archive.Authorization.Policy.{ActorIdentity}
use fortifylab_archive.Authorization.Service.{confirmed}
use fortifylab_archive.Prelude.{
  Bool-cases, List, Option, Option-cases, String, [], arith, contains, eq_iff, false, inl, inr,
  keep, none, refl, some, true, ℕ, ◌+◌, ◌<◌, ◌==◌, ◌∷◌, ◌≡◌, ◌≤◌,
}
use fortifylab_archive.Prelude.Exec.{Outcome, Outcome-cases, after-eq-ok, ok, or_error, raised}
use fortifylab_archive.Prelude.Table.{
  Table, select, select-put, select-put_self, select-update, update,
}
use fortifylab_archive.Registry.Components.{RegistryError}
use fortifylab_archive.Registry.Counting.{missing}
use fortifylab_archive.Registry.Order.{dependency_order}
use fortifylab_archive.Upgrade.Evidence.{
  Observation, Profile, Transition, UpgradeError, profile_error, transition_of,
  validated_observation,
}
use fortifylab_archive.Upgrade.Planning.{UpgradeService, full_order, in_order, plan}
use fortifylab_archive.Upgrade.Readiness.{
  IsReady, is_text_lem, transition_of-ok, validated_observation-ok,
}
use fortifylab_archive.Upgrade.Submission.{
  checked, consume_plan, enqueue, fresh_body, loaded_target, queued_upgrade, request_reason,
  same_digest, still_valid, strong_sources, submit, submit_loaded,
}
use fortifylab_archive.Upgrade.Types.{Body, Plan, Row, Upgrade, operation_row, plan_row, queued}

-- The target is loaded, has one transition from the profile in use, the observation is ready for it,
-- and the body made anew has the digest of the plan.
pub record StillValid (service : UpgradeService) (observation : Option Observation) (plan : Plan)
    : Type 0 where
  pub target : Profile
  pub loaded : service.load plan.body.target_profile.id ≡ some target
  pub transition : Transition
  pub allowed : contains target.allowed_sources service.profile.id ≡ true
  pub only : keep (λ t. t.source == service.profile.id) target.transitions ≡ transition ∷ []
  pub observed : Observation
  pub seen : observation ≡ some observed
  pub ready : IsReady service.registry service.profile target transition observed
  pub order : List String
  pub ordered : dependency_order service.registry [] ≡ ok order
  pub same :
      service.digest (fresh_body service.profile target transition observed order plan.body)
      ≡ plan.plan_digest

-- The plan that an accepted request was for, and the state of the platform that it was compared with.
pub record Submitted (service : UpgradeService) (plan_id : String) (identity : ActorIdentity)
    (confirmation : Option String) (observation : Option Observation) (now : ℕ) (fresh : String)
    (store : Table Row) (document : Upgrade) (after_it : Table Row) : Type 0 where
  pub plan : Plan
  pub stored : select plan_id store ≡ some (plan_row plan)
  pub unused : plan.state ≡ none
  pub strong : contains strong_sources identity.source ≡ true
  pub recent : now ≤ identity.authenticated_at + service.confirmation_age
  pub confirmed : confirmation ≡ some plan.confirmation
  pub in_time : now < plan.expires_at
  pub still : StillValid service observation plan
  pub queued_now : document.state ≡ queued
  pub bound : document.plan_digest ≡ plan.plan_digest
  pub nothing_done : document.completed_components ≡ []
  pub nothing_begun : document.current_component ≡ none
  pub no_evidence : document.evidence ≡ []
  pub spent : select plan_id after_it ≡ some (plan_row (record plan { state = some "consumed" }))
  pub kept : select fresh after_it ≡ some (operation_row document)
  pub others :
      (key : String)
      → (plan_id == key) ≡ false
      → (fresh == key) ≡ false
      → select key after_it ≡ select key store

or_error_lem :
    (o : Option Profile) (e : UpgradeError) {p : Profile} → or_error o e ≡ ok p → o ≡ some p
or_error_lem none e h = absurd (cc)
or_error_lem (some q) e h = cc

in_order_lem :
    (r : Outcome RegistryError (List String)) {order : List String}
    → in_order r ≡ ok order
    → r ≡ ok order
in_order_lem (ok xs) h = cc
in_order_lem (raised e) h = absurd (cc)

-- A refused request changes nothing.
abbrev pub Judged :
    UpgradeService
    → String
    → ActorIdentity
    → Option String
    → Option Observation
    → ℕ
    → String
    → Table Row
    → Outcome UpgradeError Upgrade × Table Row
    → Type 0
Judged service plan_id identity confirmation observation now fresh store (ok document, after_it) =
    Submitted service plan_id identity confirmation observation now fresh store document after_it
Judged service plan_id identity confirmation observation now fresh store (raised e, after_it) =
    after_it ≡ store

module _ (service : UpgradeService) where
  same_digest_lem :
      (body : Body) (plan : Plan)
      → same_digest service body plan ≡ ok tt
      → service.digest body ≡ plan.plan_digest
  same_digest_lem body plan h = elim (Bool-cases (service.digest body == plan.plan_digest)) [
    | inl same ↦ (eq_iff (service.digest body) plan.plan_digest).0 same
    | inr other ↦ let e = rw other at h in absurd (cc)
  ]

  pub still_valid-StillValid :
      (observation : Option Observation) (plan : Plan)
      → still_valid service observation plan ≡ ok tt
      → StillValid service observation plan
  unfolding still_valid full_order
  still_valid-StillValid observation plan h =
      let (target, loaded, h1) =
        after-eq-ok (loaded_target service plan.body.target_profile.id) _ h in
      let (transition, at, h2) = after-eq-ok (transition_of target service.profile.id) _ h1 in
      let (observed, valid, h3) =
        after-eq-ok
          (validated_observation service.registry service.profile target transition observation) _
          h2 in
      let (order, ordered, h4) =
        after-eq-ok (in_order (dependency_order service.registry [])) _ h3 in
      let (allowed, only) = transition_of-ok target service.profile.id at in
      let (seen, ready) =
        validated_observation-ok service.registry service.profile target transition observation
          valid in
      record {
        target = target;
        loaded = or_error_lem (service.load plan.body.target_profile.id) profile_error loaded;
        transition = transition;
        allowed = allowed;
        only = only;
        observed = observed;
        seen = seen;
        ready = ready;
        order = order;
        ordered = in_order_lem (dependency_order service.registry []) ordered;
        same =
            same_digest_lem (fresh_body service.profile target transition observed order plan.body)
              plan h4;
      }

  module _ (plan_id : String) (identity : ActorIdentity) (confirmation : Option String)
      (observation : Option Observation) (now : ℕ) (fresh : String) (store : Table Row)
      (unknown : select fresh store ≡ none) where
    abbrev J : Outcome UpgradeError Upgrade × Table Row → Type 0
    J = Judged service plan_id identity confirmation observation now fresh store

    request_reason-none :
        (plan : Plan)
        → request_reason service identity confirmation now plan ≡ none
        → (contains strong_sources identity.source ≡ true)
          × (now ≤ identity.authenticated_at + service.confirmation_age)
          × (confirmation ≡ some plan.confirmation)
          × (now < plan.expires_at)
    unfolding request_reason
    request_reason-none plan h = (
      ground arith,
      ground arith,
      is_text_lem confirmation plan.confirmation (ground arith),
      ground arith,
    )

    checked-ok :
        (plan : Plan) (reason : Option UpgradeError)
        → checked service reason observation plan ≡ ok tt
        → (reason ≡ none) × StillValid service observation plan
    checked-ok plan none h = (refl, still_valid-StillValid observation plan h)
    checked-ok plan (some e) h = absurd (cc)

    enqueued :
        (plan : Plan)
        → select plan_id store ≡ some (plan_row plan)
        → checked service (request_reason service identity confirmation now plan) observation plan
          ≡ ok tt
        → J (enqueue service plan_id plan identity now fresh (consume_plan plan_id store))
    unfolding consume_plan
    enqueued plan stored fine = elim (Option-cases plan.state) [
      | inr (state, used) ↦ rw (stored, used) refl
      | inl unused ↦
          let (reason, still) =
            checked-ok plan (request_reason service identity confirmation now plan) fine in
          let (strong, recent, confirmed, in_time) = request_reason-none plan reason in
          let row = plan_row (record plan { state = some "consumed" }) in
          let document = operation_row (queued_upgrade plan_id plan identity now fresh) in
          let spent = update plan_id row store in
          let apart : (fresh == plan_id) ≡ false =
            ground (arith, eq_iff fresh plan_id, stored, unknown) in
          rw (stored, unused)
            (record {
              plan = plan;
              stored = stored;
              unused = unused;
              strong = strong;
              recent = recent;
              confirmed = confirmed;
              in_time = in_time;
              still = still;
              queued_now = refl;
              bound = refl;
              nothing_done = refl;
              nothing_begun = refl;
              no_evidence = refl;
              spent = ground (
                arith,
                select-put fresh plan_id document spent,
                select-update plan_id plan_id row store,
                eq_iff plan_id plan_id,
              );
              kept = select-put_self fresh fresh document spent refl;
              others = λ key other_plan other_document.
                  ground (
                    arith,
                    select-put fresh key document spent,
                    select-update plan_id key row store,
                  );
            })
    ]

    submit_row :
        (row : Row)
        → select plan_id store ≡ some row
        → J (submit_loaded service plan_id identity confirmation observation now fresh row store)
    unfolding submit_loaded
    submit_row (operation_row d) stored = refl
    submit_row (plan_row plan) stored =
        let reason = request_reason service identity confirmation now plan in
        elim (Outcome-cases (checked service reason observation plan)) [
          | inr (e, refused) ↦ rw refused refl
          | inl (done, fine) ↦ rw fine (enqueued plan stored fine)
        ]

    -- A request that is refused leaves the store as it was. One that is accepted was for a stored plan
    -- that was never consumed and has not expired, came from the Web UI or the local command line with
    -- a recent authentication and the exact confirmation of the plan, and found the platform as the
    -- plan has it: the target can be loaded and has one transition from the profile in use, the
    -- observation has the profile, its versions, the capacity, the health, the ready dependencies and
    -- the verified backup that the transition asks for, and the plan made anew has the same digest.
    -- The plan is then stored as consumed, the operation as queued with nothing done, and nothing else
    -- is changed.
    pub submit-Judged :
        Judged service plan_id identity confirmation observation now fresh store
          (submit service plan_id identity confirmation observation now fresh store)
    unfolding submit
    submit-Judged = elim (Option-cases (select plan_id store)) [
      | inl missing ↦ rw missing refl
      | inr (row, stored) ↦ rw stored (submit_row row stored)
    ]
