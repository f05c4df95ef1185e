-- ===== src/Health/Dimensions.antt =====
-- manager/health.py: the ranking of evidence, and the domains and dimensions of a subject.
use fortifylab_archive.Health.Checks.{HealthError, type_error}
use fortifylab_archive.Health.Evidence.{Evidence, Workload}
use fortifylab_archive.Health.States.{
  Domain, HealthState, direct_precedence, first_of, is_application, is_healthy, is_state,
  is_workload, layers_of, stale, unknown,
}
use fortifylab_archive.Prelude.{
  Bool, List, Option, String, [], all, any, false, if◌then◌else◌, keep, ltb, none, nonempty, not,
  some, true, ℕ, ◌&&◌, ◌||◌, ◌∷◌,
}
use fortifylab_archive.Prelude.Exec.{Outcome, after, ok, raised}

abbrev pub states_of : List Evidence → List HealthState
states_of [] = []
states_of (e ∷ es) = e.state ∷ states_of es

-- `_rank_state`
unfoldable pub rank_state : List Evidence → HealthState
unfolding first_of
rank_state evidence = first_of direct_precedence (states_of evidence)

pub data DomainState : Type 0 where
  not_applicable : DomainState
  ranked : HealthState → DomainState

pub record DomainReport : Type 0 where
  pub state : DomainState
  pub root_cause : Option String
  pub direct : Bool

abbrev pub is_unhealthy : Evidence → Bool
is_unhealthy e = not (is_healthy e.state)

-- `next((entry for entry in entries if entry["state"] != "healthy"), None)`
unfoldable pub first_failed : List Evidence → Option String
first_failed [] = none
first_failed (e ∷ es) = let rest = first_failed es in if is_unhealthy e then some e.id else rest

abbrev pub domain_report : List Evidence → DomainReport
domain_report [] = record { state = not_applicable; root_cause = none; direct = true }
domain_report (e ∷ es) = record {
  state = ranked (rank_state (e ∷ es));
  root_cause = first_failed (e ∷ es);
  direct = not (any (λ entry. entry.derived) (e ∷ es));
}

-- `_domains`, a dictionary that has every domain as a key.
unfoldable pub domains : List Evidence → Domain → DomainReport
unfolding rank_state first_failed any keep
domains evidence name = domain_report (keep (λ e. layers_of name e.layer) evidence)

pub data WorkloadState : Type 0 where
  workload_absent workload_not_ready workload_ready workload_unknown : WorkloadState

pub data ApplicationState : Type 0 where
  application_healthy application_unhealthy application_unknown : ApplicationState

pub record Dimensions : Type 0 where
  pub blocked_by : Option String
  pub workload : WorkloadState
  pub application : ApplicationState

abbrev pub is_absent : Option Workload → Bool
is_absent none = false
is_absent (some w) = elim w.present [ none ↦ false | some p ↦ not p ]

-- `ready < desired`, which Python refuses if the first is None.
abbrev pub fewer : Option ℕ → ℕ → Outcome HealthError Bool
fewer none desired = raised type_error
fewer (some ready) desired = ok (ltb ready desired)

abbrev pub compared : Option Bool → Option ℕ → Option ℕ → Outcome HealthError Bool
compared (some true) (some desired) ready = fewer ready desired
compared (some true) none ready = ok false
compared (some false) desired ready = ok false
compared none desired ready = ok false

abbrev pub is_short : Option Workload → Outcome HealthError Bool
is_short none = ok false
is_short (some w) = compared w.present w.desired_replicas w.ready_replicas

-- `any` stops at the first entry that is short of replicas.
unfoldable pub mismatch : List Evidence → Outcome HealthError Bool
mismatch [] = ok false
mismatch (e ∷ es) =
    let rest = mismatch es in after (is_short e.workload) (λ short. if short then ok true else rest)

abbrev pub workload_state : List Evidence → Bool → WorkloadState
workload_state entries short =
    if any (λ e. is_absent e.workload) entries
    then workload_absent
    else if short
    then workload_not_ready
    else if nonempty entries && all (λ e. is_healthy e.state) entries
    then workload_ready
    else workload_unknown

abbrev pub application_state : List Evidence → ApplicationState
application_state entries =
    if not (nonempty entries)
      || any (λ e. is_state unknown e.state || is_state stale e.state) entries
    then application_unknown
    else if all (λ e. is_healthy e.state) entries
    then application_healthy
    else application_unhealthy

-- `_dimensions`
unfoldable pub dimensions : List Evidence → Option String → Outcome HealthError Dimensions
unfolding mismatch any all keep
dimensions evidence blocked_by =
    let entries = keep (λ e. is_workload e.layer) evidence in
    after (mismatch entries) (λ short. ok (record {
      blocked_by = blocked_by;
      workload = workload_state entries short;
      application = application_state (keep (λ e. is_application e.layer) evidence);
    }))
