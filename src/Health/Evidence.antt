-- ===== src/Health/Evidence.antt =====
-- manager/health.py: the evidence that is made of the answers of the probe.
use Prim.Native.String.{count}
use fortifylab_archive.Health.Checks.{
  Answer, CheckSpec, ProbeResult, Reply, answered, failed, pending, timed_out,
}
use fortifylab_archive.Health.States.{HealthState, Layer, is_state, is_workload, stale, unknown}
use fortifylab_archive.Prelude.{
  Bool, List, Option, String, [], false, if◌then◌else◌, ltb, none, some, true, ℕ, ◌+◌, ◌==◌, ◌||◌,
}

pub record Workload : Type 0 where
  pub present : Option Bool
  pub desired_replicas : Option ℕ
  pub ready_replicas : Option ℕ

pub record Evidence : Type 0 where
  pub id : String
  pub layer : Layer
  pub state : HealthState
  pub required : Bool
  pub summary : String
  pub observed_at : String
  pub latency_ms : ℕ
  pub derived : Bool
  pub blocked_by : List String
  pub workload : Option Workload

-- What the code takes from Python: " ".join(str(x).split()), the search for `_SENSITIVE`, and times
-- as texts.
pub record Texts : Type 0 where
  pub single_spaced : String → String
  pub sensitive : String → Bool
  pub render : ℕ → String
  pub parse : String → Option ℕ

abbrev pub or_else {ℓ} : {A : Type ℓ} → Option A → A → A
or_else none d = d
or_else (some a) d = a

module _ (texts : Texts) where
  unfoldable pub safe_summary : String → String
  safe_summary value =
      let text = texts.single_spaced value in
      if text == "" || ltb 256 (count text) || texts.sensitive text
      then "Probe returned evidence that could not be safely displayed"
      else text

  -- Evidence of a check whose probe answered within the freshness threshold, or too late.
  unfoldable pub answered_evidence : ℕ → ℕ → CheckSpec → ℕ → ProbeResult → Evidence
  answered_evidence now stale_after check elapsed result =
      let old = ltb (result.observed_at + stale_after) now in
      record {
        id = check.id;
        layer = check.layer;
        state = if old then stale else result.state;
        required = check.required;
        summary =
            if is_state stale (if old then stale else result.state)
            then "Evidence is older than the freshness threshold"
            else safe_summary result.summary;
        observed_at = texts.render result.observed_at;
        latency_ms = or_else result.latency_ms elapsed;
        derived = false;
        blocked_by = [];
        workload =
            if is_workload check.layer
            then some (record {
              present = result.workload_present;
              desired_replicas = result.desired_replicas;
              ready_replicas = result.ready_replicas;
            })
            else none;
      }

  unfoldable pub missing_evidence : ℕ → CheckSpec → ℕ → String → Evidence
  missing_evidence now check elapsed summary = record {
    id = check.id;
    layer = check.layer;
    state = unknown;
    required = check.required;
    summary = summary;
    observed_at = texts.render now;
    latency_ms = elapsed;
    derived = false;
    blocked_by = [];
    workload = none;
  }

  -- `_result`
  abbrev pub evidence_of : ℕ → ℕ → CheckSpec → ℕ → Answer → Evidence
  evidence_of now stale_after check elapsed (answered result) =
      answered_evidence now stale_after check elapsed result
  evidence_of now stale_after check elapsed timed_out =
      missing_evidence now check elapsed "Check exceeded the aggregate bounded deadline"
  evidence_of now stale_after check elapsed pending =
      missing_evidence now check elapsed "Check exceeded the aggregate bounded deadline"
  evidence_of now stale_after check elapsed failed =
      missing_evidence now check elapsed "Check could not obtain safe evidence"

  unfoldable pub result : ℕ → ℕ → CheckSpec → Reply → Evidence
  unfolding answered_evidence missing_evidence safe_summary
  result now stale_after check reply = evidence_of now stale_after check reply.elapsed reply.answer

  -- `_unavailable_evidence`
  unfoldable pub unavailable_evidence : ℕ → CheckSpec → List String → Evidence
  unavailable_evidence now check dependencies = record {
    id = check.id;
    layer = check.layer;
    state = unknown;
    required = check.required;
    summary = "Probe unavailable while a relevant dependency is unhealthy";
    observed_at = texts.render now;
    latency_ms = 0;
    derived = true;
    blocked_by = dependencies;
    workload = none;
  }
