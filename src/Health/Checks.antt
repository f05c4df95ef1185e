-- ===== src/Health/Checks.antt =====
-- manager/health.py: checks, and the answers of the probe.
use fortifylab_archive.Health.States.{HealthState, Layer, probe_state}
use fortifylab_archive.Prelude.{Bool, List, Option, String, if◌then◌else◌, none, not, some, ℕ}
use fortifylab_archive.Prelude.Exec.{Outcome, after, ok, raised}
use fortifylab_archive.Registry.Components.{RegistryError}

-- `CheckSpec`; times are in milliseconds.
pub record CheckSpec : Type 0 where
  pub id : String
  pub subject_id : String
  pub layer : Layer
  pub probe_type : String
  pub target : String
  pub timeout : ℕ
  pub required : Bool
  pub dependencies : List String

-- `ProbeResult`; a time without a timezone is refused, and negative numbers are.
pub data Integer : Type 0 where
  natural : ℕ → Integer
  negative : ℕ → Integer

pub data Instant : Type 0 where
  with_timezone : ℕ → Instant
  without_timezone : Instant

pub record ProbeResult : Type 0 where
  pub state : HealthState
  pub summary : String
  pub observed_at : ℕ
  pub latency_ms : Option ℕ
  pub workload_present : Option Bool
  pub desired_replicas : Option ℕ
  pub ready_replicas : Option ℕ

pub data HealthError : Type 0 where
  unsupported_state no_timezone negative_latency negative_replicas : HealthError
  key_error : String → HealthError
  type_error : HealthError
  registry_failed : RegistryError → HealthError

abbrev pub non_negative : Option Integer → HealthError → Outcome HealthError (Option ℕ)
non_negative none e = ok none
non_negative (some (natural n)) e = ok (some n)
non_negative (some (negative n)) e = raised e

abbrev pub aware : Instant → Outcome HealthError ℕ
aware (with_timezone t) = ok t
aware without_timezone = raised no_timezone

-- `ProbeResult.__post_init__`
unfoldable pub probe_result :
    HealthState
    → String
    → Instant
    → Option Integer
    → Option Bool
    → Option Integer
    → Option Integer
    → Outcome HealthError ProbeResult
probe_result state summary observed latency present desired ready =
    if not (probe_state state)
    then raised unsupported_state
    else after (aware observed) λ observed_at.
      after (non_negative latency negative_latency) λ latency_ms.
        after (non_negative desired negative_replicas) λ desired_replicas.
          after (non_negative ready negative_replicas) λ ready_replicas. ok (record {
            state = state;
            summary = summary;
            observed_at = observed_at;
            latency_ms = latency_ms;
            workload_present = present;
            desired_replicas = desired_replicas;
            ready_replicas = ready_replicas;
          })

-- What the future of a check holds when the wait for all of them is over, and how long the
-- check took: the probe is outside the code.
pub data Answer : Type 0 where
  answered : ProbeResult → Answer
  timed_out failed pending : Answer

pub record Reply : Type 0 where
  pub answer : Answer
  pub elapsed : ℕ
