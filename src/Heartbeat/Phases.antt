-- ===== src/Heartbeat/Phases.antt =====
-- manager/runner_heartbeat.py: phases, validation states and the classification by age. Times are
-- in microseconds, and stamps in seconds.
use fortifylab_archive.Prelude.{
  Bool, Option, arith, eqb, false, if◌then◌else◌, leb, none, refl, some, true, ℕ, ◌*◌, ◌≡◌, ◌≤◌,
}

pub data Phase : Type 0 where
  preparing inspecting planning implementing testing validating : Phase
  scanning committing pushing creating_pr waiting_for_ci waiting_for_approval : Phase
  completed failed : Phase

-- The index in `PHASES`; a terminal phase stands behind them all.
abbrev pub index_of : Phase → ℕ
index_of preparing = 0
index_of inspecting = 1
index_of planning = 2
index_of implementing = 3
index_of testing = 4
index_of validating = 5
index_of scanning = 6
index_of committing = 7
index_of pushing = 8
index_of creating_pr = 9
index_of waiting_for_ci = 10
index_of waiting_for_approval = 11
index_of completed = 12
index_of failed = 12

abbrev pub is_terminal_phase : Phase → Bool
is_terminal_phase completed = true
is_terminal_phase failed = true
is_terminal_phase _ = false

abbrev pub next_transitions : Phase → Option Phase
next_transitions preparing = some inspecting
next_transitions inspecting = some planning
next_transitions planning = some implementing
next_transitions implementing = some testing
next_transitions testing = some validating
next_transitions validating = some scanning
next_transitions scanning = some committing
next_transitions committing = some pushing
next_transitions pushing = some creating_pr
next_transitions creating_pr = some waiting_for_ci
next_transitions waiting_for_ci = some waiting_for_approval
next_transitions waiting_for_approval = some completed
next_transitions completed = none
next_transitions failed = none

unfoldable pub phase_eq : Phase → Phase → Bool
phase_eq completed completed = true
phase_eq completed _ = false
phase_eq failed failed = true
phase_eq failed _ = false
phase_eq _ completed = false
phase_eq _ failed = false
phase_eq p q = eqb (index_of p) (index_of q)

pub phase_eq_sound : (p q : Phase) → phase_eq p q ≡ true → p ≡ q
unfolding phase_eq
phase_eq_sound p q h = ground (arith, h)

pub index-le : (p : Phase) → index_of p ≤ 12
index-le preparing = omega arith
index-le p = omega arith

pub terminal_index : (p : Phase) → is_terminal_phase p ≡ true → index_of p ≡ 12
terminal_index completed h = refl
terminal_index failed h = refl
terminal_index p h = absurd (cc)

pub data ValidationState : Type 0 where
  not_started validation_running passed validation_failed : ValidationState

pub data RunnerHealth : Type 0 where
  active quiet possibly_stalled stalled : RunnerHealth
  runner_completed runner_failed : RunnerHealth

pub record ActivityThresholds : Type 0 where
  pub quiet_seconds : ℕ
  pub possibly_stalled_seconds : ℕ
  pub stalled_seconds : ℕ

abbrev pub second : ℕ
second = 1000000

unfoldable pub classify : ActivityThresholds → ℕ → RunnerHealth
classify t age =
    if leb (t.stalled_seconds * second) age
    then stalled
    else if leb (t.possibly_stalled_seconds * second) age
    then possibly_stalled
    else if leb (t.quiet_seconds * second) age
    then quiet
    else active
