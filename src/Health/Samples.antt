-- ===== src/Health/Samples.antt =====
-- manager/health.py: a lab of two components, one with its database down.
use fortifylab_archive.Health.Blocking.{IsBlockedExactly, blocking}
use fortifylab_archive.Health.Checks.{
  Answer, CheckSpec, HealthError, ProbeResult, Reply, answered, failed, pending, timed_out,
}
use fortifylab_archive.Health.Completeness.{subject_ids}
use fortifylab_archive.Health.Dimensions.{
  application_unknown, rank_state, states_of, workload_unknown,
}
use fortifylab_archive.Health.Document.{
  Engine, EnvironmentHealth, aggregate, document, environment, evaluate_all, evaluate_subject,
  evidence_for, ids_of, item_states, probed, summary_of, unavailable, with_impact,
}
use fortifylab_archive.Health.Environment.{IsClear, document-healthy}
use fortifylab_archive.Health.Evaluation.{Item, Subject, evaluate, evaluated_item}
use fortifylab_archive.Health.Evidence.{Texts, result}
use fortifylab_archive.Health.Impact.{IsBlockedBy, document-inverse}
use fortifylab_archive.Health.Ordering.{document-total}
use fortifylab_archive.Health.Ranking.{ranking_refines, seen, worst_gravity, worst_severity}
use fortifylab_archive.Health.Roots.{IsCounted}
use fortifylab_archive.Health.States.{
  HealthState, application, blocked, first_of, healthy, unhealthy, workload,
}
use fortifylab_archive.Health.Subjects.{component_subject, subjects}
use fortifylab_archive.Health.Suppression.{IsTold, check_ids, evaluate_subject_suppresses}
use fortifylab_archive.Prelude.{
  All, Any, IsDistinct, List, Option, String, [], any, ap, contains, contains-distinct, distinct,
  false, if◌then◌else◌, keep, none, refl, some, sym, true, ℕ, ◌==◌, ◌↔◌, ◌∙◌, ◌∷◌, ◌≡◌,
}
use fortifylab_archive.Prelude.Exec.{Outcome, ok, raised}
use fortifylab_archive.Prelude.Table.{Table, put, select}
use fortifylab_archive.Registry.Closure.{closure_of}
use fortifylab_archive.Registry.Components.{Check, Component, Registry, component, component_ids}
use fortifylab_archive.Registry.DependencyOrder.{IsWalk}
use fortifylab_archive.Registry.Order.{
  dependency_order, drain, edges, edges_from, link, link_all, release, release_all, sort_closure,
  zeroed,
}

abbrev check_of : String → String → Check
check_of id type = record {
  id = id;
  check_type = type;
  target = id;
  timeout_seconds = 5000;
  required = true;
}

abbrev mysql : Component
mysql = record {
  id = "mysql";
  display_name = "MySQL";
  host_label = none;
  dependencies = [];
  operations = [];
  checks = check_of "mysql-pod" "workload-ready" ∷ [];
}

abbrev ssc : Component
ssc = record {
  id = "ssc";
  display_name = "SSC";
  host_label = some "ssc";
  dependencies = "mysql" ∷ [];
  operations = [];
  checks = check_of "ssc-pod" "workload-ready" ∷ check_of "ssc-api" "native-readiness" ∷ [];
}

abbrev lab : Registry
lab = record { components = ("ssc", ssc) ∷ ("mysql", mysql) ∷ []; walk = distinct }

abbrev answer_of : HealthState → Reply
answer_of state = record {
  answer = answered (record {
    state = state;
    summary = "seen";
    observed_at = 90;
    latency_ms = some 3;
    workload_present = some true;
    desired_replicas = some 1;
    ready_replicas = some 1;
  });
  elapsed = 4;
}

abbrev probe_all : (String → HealthState) → CheckSpec → Reply
probe_all state check = answer_of (state check.subject_id)

abbrev texts : Texts
texts = record {
  single_spaced = λ t. t;
  sensitive = λ t. false;
  render = λ n. "now";
  parse = λ t. some 95;
}

abbrev engine : Engine
engine = record {
  registry = lab;
  texts = texts;
  live = true;
  stale_after = 50;
  availability = [];
  probe = probe_all (λ id. if id == "mysql" then unhealthy else healthy);
}

program : Unit {0}
unfolding document with_impact evaluate_all subjects dependency_order aggregate summary_of first_of
    any keep contains distinct component closure_of sort_closure edges drain link_all edges_from
    link zeroed release_all release evidence_for probed result unavailable evaluate select put
program = tt

abbrev states : Outcome HealthError EnvironmentHealth → List HealthState
states (ok d) = item_states d.items
states (raised e) = []

runs :
    states (document engine 100)
    ≡ healthy ∷ healthy ∷ healthy ∷ healthy ∷ healthy ∷ unhealthy ∷ blocked ∷ []
unfolding program
runs = refl

abbrev report_of : Outcome HealthError EnvironmentHealth → EnvironmentHealth
report_of (ok d) = d
report_of (raised e) = environment engine 0 []

abbrev report : EnvironmentHealth
report = report_of (document engine 100)

produced : document engine 100 ≡ ok report
unfolding program
produced = refl

ranking_refines_example :
    (rank_state [] ≡ worst_severity (seen (states_of [])))
    × (aggregate report.items ≡ worst_gravity (seen (item_states report.items)))
ranking_refines_example = ranking_refines [] report.items

document-healthy_example : (report.state ≡ healthy) ↔ All IsClear report.items
document-healthy_example = document-healthy engine 100 report produced

document-inverse_example :
    All
      (λ i.
        (contains i.downstream_impact "ssc" ≡ true)
        ↔ Any (λ j. (j.id ≡ "ssc") × IsBlockedBy i.id j) report.items)
      report.items
document-inverse_example = document-inverse engine 100 report "ssc" produced

lab_walks : IsWalk lab
lab_walks = record {
  onto = λ xs x p. contains-distinct xs x ∙ p;
  into = λ xs x p. sym (contains-distinct xs x) ∙ p;
}

abbrev subjects_in : Outcome HealthError (List Subject) → List Subject
subjects_in (ok ss) = ss
subjects_in (raised e) = []

abbrev lab_subjects : List Subject
lab_subjects = subjects_in (subjects lab)

lists : subjects lab ≡ ok lab_subjects
unfolding program
lists = refl

lab_unique : IsDistinct (component_ids lab)
unfolding contains
lab_unique = (refl, (refl, tt))

abbrev ready_of : Answer → Option ℕ
ready_of (answered r) = r.ready_replicas
ready_of timed_out = none
ready_of failed = none
ready_of pending = none

lab-IsCounted :
    (c : CheckSpec) (r : ProbeResult) → (engine.probe c).answer ≡ answered r → IsCounted r
lab-IsCounted c r h present desired no_ready =
    let e : some 1 ≡ r.ready_replicas = ap ready_of h in cc

document-total_example :
    (d : EnvironmentHealth) × (document engine 100 ≡ ok d)
    × (ids_of d.items ≡ subject_ids lab_subjects)
document-total_example =
    document-total engine 100 lab_subjects lab_unique lab_walks lab-IsCounted lists

abbrev results_of : List Item → Table Item
results_of [] = []
results_of (i ∷ is) = (i.id, i) ∷ results_of is

abbrev known : Table Item
known = results_of report.items

abbrev ssc_subject : Subject
ssc_subject = component_subject ssc (
    record {
      id = "ssc-pod";
      subject_id = "ssc";
      layer = workload;
      probe_type = "workload-ready";
      target = "ssc-pod";
      timeout = 5000;
      required = true;
      dependencies = "microk8s-node" ∷ [];
    }
    ∷ record {
      id = "ssc-api";
      subject_id = "ssc";
      layer = application;
      probe_type = "native-readiness";
      target = "ssc-api";
      timeout = 5000;
      required = true;
      dependencies = "microk8s-node" ∷ "dns" ∷ "mysql" ∷ [];
    }
    ∷ [])

abbrev api_down : CheckSpec → Reply
api_down check = if check.id == "ssc-api" then answer_of unhealthy else engine.probe check

abbrev item_in : Outcome HealthError Item → Item
item_in (ok item) = item
item_in (raised e) =
    evaluated_item "" ssc_subject [] [] []
      (record { blocked_by = none; workload = workload_unknown; application = application_unknown })

abbrev ssc_item : Item
ssc_item = item_in (evaluate_subject engine 100 ssc_subject known)

evaluates : evaluate_subject engine 100 ssc_subject known ≡ ok ssc_item
unfolding program
evaluates = refl

ssc_distinct : IsDistinct (check_ids ssc_subject.checks)
unfolding contains
ssc_distinct = (refl, (refl, tt))

pods_agree : All (λ c. blocking known c ≡ [] → engine.probe c ≡ api_down c) ssc_subject.checks
unfolding program
pods_agree = ((λ h. refl), ((λ h. absurd (cc)), tt))

evaluate_subject_suppresses_example :
    (evaluate_subject (record engine { probe = api_down }) 100 ssc_subject known ≡ ok ssc_item)
    × All (IsTold known ssc_item.evidence) ssc_subject.checks
    × All (IsBlockedExactly known) ssc_subject.checks
evaluate_subject_suppresses_example =
    evaluate_subject_suppresses engine 100 api_down ssc_subject known ssc_distinct ssc_item
      pods_agree evaluates
