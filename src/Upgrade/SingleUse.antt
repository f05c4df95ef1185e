-- ===== src/Upgrade/SingleUse.antt =====
-- manager/profile_upgrade.py: a plan is used once, also when calls of several threads, the workers and
-- restarts interleave.
use fortifylab_archive.Authorization.Policy.{ActorIdentity}
use fortifylab_archive.Prelude.{
  Bool, List, Option, String, [], false, inl, inr, none, refl, some, subst, sym, true, ℕ, ◌∷◌, ◌≡◌,
}
use fortifylab_archive.Prelude.Exec.{Outcome, Outcome-cases, after-eq-ok, ok, ok_subst, raised}
use fortifylab_archive.Prelude.Table.{Table, put, select}
use fortifylab_archive.Upgrade.Acceptance.{Judged, submit-Judged}
use fortifylab_archive.Upgrade.Cancellation.{cancel_loaded, reopen}
use fortifylab_archive.Upgrade.Evidence.{
  Observation, Profile, Transition, UpgradeError, stale_plan, transition_of, upgrade_error,
  validated_observation,
}
use fortifylab_archive.Upgrade.Planning.{
  UpgradeService, changed_components, drawn_up, full_order, kept_plan, plan, plan_allowed, plan_for,
  target_reason,
}
use fortifylab_archive.Upgrade.Spending.{
  Spent, cancel_loaded-Spent, consume_plan-free, consume_row-Spent, put-Spent, put_fresh-Spent,
  select-reopen,
}
use fortifylab_archive.Upgrade.Submission.{
  checked, consume_plan, enqueue, request_reason, submit, submit_loaded,
}
use fortifylab_archive.Upgrade.Types.{Plan, Row, Upgrade, operation_row, plan_row}

module _ (service : UpgradeService) where
  -- One atomic change of the store. A thread may have loaded the row that it acts on at any earlier
  -- time, a worker saves any document, and new identifiers are not in use.
  pub data Move (store : Table Row) : Table Row → Type 0 where
    planned :
        (target_profile_id : String) (observation : Option Observation) (now : ℕ) (fresh : String)
        → select fresh store ≡ none
        → Move store (plan service target_profile_id observation now fresh store).1
    submitted :
        (plan_id : String) (identity : ActorIdentity) (confirmation : Option String)
        (observation : Option Observation) (now : ℕ) (fresh : String) (row : Row)
        → select fresh store ≡ none
        → Move store
            (submit_loaded service plan_id identity confirmation observation now fresh row store).1
    cancelled_by :
        (id : String) (now : ℕ) (row : Row) (ids : List String)
        → Move store
            (cancel_loaded id now row (record { cancelled_ids = ids; store = store })).1.store
    saved : (document : Upgrade) → Move store (put document.id (operation_row document) store)
    restarted : (now : String → ℕ) → Move store (reopen now store)

  pub data Moves (store : Table Row) : Table Row → Type 0 where
    here : Moves store store
    next : {t u : Table Row} → Moves store t → Move t u → Moves store u

module _ (service : UpgradeService) (id : String) where
  enqueue-Spent :
      (plan_id : String) (plan : Plan) (identity : ActorIdentity) (now : ℕ) (fresh : String)
      (consumed : Bool × Table Row)
      → select fresh consumed.1 ≡ none
      → Spent id consumed.1
      → Spent id (enqueue service plan_id plan identity now fresh consumed).1
  enqueue-Spent plan_id plan identity now fresh (false, store) free s = s
  enqueue-Spent plan_id plan identity now fresh (true, store) free s =
      put_fresh-Spent id fresh _ store free s

  kept_plan-Spent :
      (made : Outcome UpgradeError Plan) (store : Table Row)
      → ((p : Plan) → made ≡ ok p → select p.id store ≡ none)
      → Spent id store
      → Spent id (kept_plan service made store).1
  kept_plan-Spent (raised e) store free s = s
  kept_plan-Spent (ok p) store free s = put_fresh-Spent id p.id (plan_row p) store (free p refl) s

  drawn_up_id :
      (target : Profile) (transition : Transition) (observed : Observation) (order : List String)
      (now : ℕ) (fresh : String) (changed : List String) {p : Plan}
      → drawn_up service target transition observed order now fresh changed ≡ ok p
      → p.id ≡ fresh
  drawn_up_id target transition observed order now fresh [] h = absurd (cc)
  drawn_up_id target transition observed order now fresh (c ∷ cs) h =
      ok_subst (λ v. v.id ≡ fresh) h refl

  -- A plan that is made has the fresh identifier.
  plan_allowed_id :
      (target : Profile) (observation : Option Observation) (now : ℕ) (fresh : String)
      (reason : Option String) {p : Plan}
      → plan_allowed service target observation now fresh reason ≡ ok p
      → p.id ≡ fresh
  plan_allowed_id target observation now fresh (some reason) h = absurd (cc)
  plan_allowed_id target observation now fresh none h =
      let (transition, _, h1) = after-eq-ok (transition_of target service.profile.id) _ h in
      let (observed, _, h2) =
        after-eq-ok
          (validated_observation service.registry service.profile target transition observation) _
          h1 in
      let (order, _, h3) = after-eq-ok (full_order service.registry) _ h2 in
      let (changed, _, h4) = after-eq-ok (changed_components service.profile target order) _ h3 in
      drawn_up_id target transition observed order now fresh changed h4

  plan_for_id :
      (target : Option Profile) (observation : Option Observation) (now : ℕ) (fresh : String)
      {p : Plan}
      → plan_for service target observation now fresh ≡ ok p
      → p.id ≡ fresh
  plan_for_id none observation now fresh h = absurd (cc)
  plan_for_id (some target) observation now fresh h =
      plan_allowed_id target observation now fresh (target_reason service.profile target) h

  plan-Spent :
      (target_profile_id : String) (observation : Option Observation) (now : ℕ) (fresh : String)
      (store : Table Row)
      → select fresh store ≡ none
      → Spent id store
      → Spent id (plan service target_profile_id observation now fresh store).1
  unfolding plan
  plan-Spent target_profile_id observation now fresh store free s =
      kept_plan-Spent (plan_for service (service.load target_profile_id) observation now fresh)
        store
        (λ p made.
          subst (λ k. select k store ≡ none)
            (sym (plan_for_id (service.load target_profile_id) observation now fresh made)) free)
        s

  submit_loaded-Spent :
      (plan_id : String) (identity : ActorIdentity) (confirmation : Option String)
      (observation : Option Observation) (now : ℕ) (fresh : String) (row : Row) (store : Table Row)
      → select fresh store ≡ none
      → Spent id store
      → Spent id
          (submit_loaded service plan_id identity confirmation observation now fresh row store).1
  unfolding submit_loaded consume_plan
  submit_loaded-Spent plan_id identity confirmation observation now fresh (operation_row d) store
        free s =
      s
  submit_loaded-Spent plan_id identity confirmation observation now fresh (plan_row p) store free
        s =
      let reason = request_reason service identity confirmation now p in
      elim (Outcome-cases (checked service reason observation p)) [
        | inr (e, refused) ↦ rw refused s
        | inl (done, fine) ↦ rw fine (
            enqueue-Spent plan_id p identity now fresh (consume_plan plan_id store)
              (consume_plan-free plan_id fresh store free)
              (consume_row-Spent id plan_id (select plan_id store) store s))
      ]

  Move-Spent : {t u : Table Row} → Move service t u → Spent id t → Spent id u
  Move-Spent {t} (planned target_profile_id observation now fresh free) s =
      plan-Spent target_profile_id observation now fresh t free s
  Move-Spent {t} (submitted plan_id identity confirmation observation now fresh row free) s =
      submit_loaded-Spent plan_id identity confirmation observation now fresh row t free s
  Move-Spent {t} (cancelled_by key now row ids) s =
      cancel_loaded-Spent id key now row (record { cancelled_ids = ids; store = t }) s
  Move-Spent {t} (saved document) s = put-Spent id document.id (operation_row document) t refl s
  Move-Spent {t} (restarted now) s = select-reopen now id t s

  Moves-Spent : {t u : Table Row} → Moves service t u → Spent id t → Spent id u
  Moves-Spent here s = s
  Moves-Spent (next earlier move) s = Move-Spent move (Moves-Spent earlier s)

  refused-Spent :
      (identity : ActorIdentity) (confirmation : Option String) (observation : Option Observation)
      (now : ℕ) (fresh : String) (row : Row) (store : Table Row)
      → Spent id store
      → (e : UpgradeError) × (submit_loaded service id identity confirmation observation now fresh
            row store
          ≡ (raised e, store))
  unfolding submit_loaded consume_plan
  refused-Spent identity confirmation observation now fresh (operation_row d) store s =
      (upgrade_error "upgrade plan is invalid", refl)
  refused-Spent identity confirmation observation now fresh (plan_row p) store
        (old, stored, spent) =
      let reason = request_reason service identity confirmation now p in
      elim (Outcome-cases (checked service reason observation p)) [
        | inr (e, refused) ↦ (e, rw refused refl)
        | inl (done, fine) ↦ (
          stale_plan "upgrade plan was already consumed or changed",
          rw (fine, stored, spent) refl,
        )
      ]

  -- Once a submission of a plan is accepted, every later one of the same plan is refused and changes
  -- nothing, whoever submits it, whatever row its thread had loaded before, and whatever other
  -- threads, the workers and restarts did to the store in between.
  pub submit_once :
      (identity identity' : ActorIdentity) (confirmation confirmation' : Option String)
      (observation observation' : Option Observation) (now now' : ℕ) (fresh fresh' : String)
      (row : Row) (document : Upgrade) (s t u : Table Row)
      → select fresh s ≡ none
      → submit service id identity confirmation observation now fresh s ≡ (ok document, t)
      → Moves service t u
      → (e : UpgradeError) × (submit_loaded service id identity' confirmation' observation' now'
            fresh' row u
          ≡ (raised e, u))
  submit_once identity identity' confirmation confirmation' observation observation' now now' fresh
        fresh' row document s t u free accepted_before between =
      let h =
        subst (λ out. Judged service id identity confirmation observation now fresh s out)
          accepted_before
          (submit-Judged service id identity confirmation observation now fresh s free) in
      refused-Spent identity' confirmation' observation' now' fresh' row u
        (Moves-Spent between (plan_row (record h.plan { state = some "consumed" }), h.spent, refl))
