-- ===== src/Health/Document.antt =====
-- manager/health.py: the evaluation of all subjects in turn, and the document of the environment.
use fortifylab_archive.Health.Checks.{CheckSpec, HealthError, Reply}
use fortifylab_archive.Health.Dimensions.{
  ApplicationState, WorkloadState, application_unknown, workload_absent, workload_not_ready,
}
use fortifylab_archive.Health.Evaluation.{Item, Subject, dependency_blocks, evaluate, is_platform}
use fortifylab_archive.Health.Evidence.{Evidence, Texts, result, unavailable_evidence}
use fortifylab_archive.Health.External.{ExternalItem, external_evidence}
use fortifylab_archive.Health.States.{HealthState, aggregate_precedence, first_of}
use fortifylab_archive.Health.Subjects.{subjects}
use fortifylab_archive.Prelude.{
  Bool, List, Option, String, [], any, contains, distinct, false, keep, length, none, nonempty, not,
  some, true, ℕ, ◌++◌, ◌==◌, ◌∷◌,
}
use fortifylab_archive.Prelude.Exec.{Outcome, after, ok}
use fortifylab_archive.Prelude.Table.{Table, put, select}
use fortifylab_archive.Prelude.Texts.{sorted_texts}
use fortifylab_archive.Registry.Components.{Registry}

-- `blocked_checks`, a dictionary: of two checks with one identifier the later one counts.
unfoldable pub blocked_checks :
    Table Item → List CheckSpec → Table (List String) → Table (List String)
unfolding dependency_blocks keep put
blocked_checks results [] table = table
blocked_checks results (c ∷ cs) table =
    blocked_checks results cs (put c.id (keep (dependency_blocks results) c.dependencies) table)

-- `blocked_checks[check.id]`; every check has its key.
abbrev pub blockers : Table (List String) → CheckSpec → List String
blockers table check = elim (select check.id table) [ none ↦ [] | some ds ↦ ds ]

abbrev pub is_runnable : Table (List String) → CheckSpec → Bool
is_runnable table check = not (nonempty (blockers table check))

unfoldable pub all_blockers : Table (List String) → List CheckSpec → List String
unfolding select
all_blockers table [] = []
all_blockers table (c ∷ cs) = blockers table c ++ all_blockers table cs

-- What the engine was made with, and what is outside of it.
pub record Engine : Type 0 where
  pub registry : Registry
  pub texts : Texts
  pub live : Bool
  pub stale_after : ℕ
  pub availability : List ExternalItem
  pub probe : CheckSpec → Reply

module _ (engine : Engine) (now : ℕ) where
  open engine use {texts, stale_after, availability, probe}

  unfoldable pub probed : List CheckSpec → List Evidence
  unfolding result
  probed [] = []
  probed (c ∷ cs) = result texts now stale_after c (probe c) ∷ probed cs

  unfoldable pub unavailable : Table (List String) → List CheckSpec → List Evidence
  unfolding unavailable_evidence
  unavailable table [] = []
  unavailable table (c ∷ cs) =
      unavailable_evidence texts now c (blockers table c) ∷ unavailable table cs

  -- The evidence of a subject: its runnable checks, the blocked ones, and the external route.
  unfoldable pub evidence_for : Table (List String) → Subject → List Evidence
  unfolding probed unavailable external_evidence keep select
  evidence_for table subject =
      probed (keep (is_runnable table) subject.checks)
      ++ (unavailable table (keep (λ c. nonempty (blockers table c)) subject.checks)
          ++ external_evidence texts now stale_after availability subject.id)

  -- The body of the loop over the subjects.
  unfoldable pub evaluate_subject : Subject → Table Item → Outcome HealthError Item
  unfolding blocked_checks evidence_for all_blockers evaluate distinct
  evaluate_subject subject results =
      let table = blocked_checks results subject.checks [] in
      evaluate (texts.render now) subject (evidence_for table subject) results
        (distinct (all_blockers table subject.checks))

  unfoldable pub evaluate_all : List Subject → Table Item → Outcome HealthError (List Item)
  unfolding evaluate_subject put
  evaluate_all [] results = ok []
  evaluate_all (s ∷ ss) results =
      after (evaluate_subject s results)
        (λ item. after (evaluate_all ss (put s.id item results)) (λ items. ok (item ∷ items)))

abbrev pub blames : String → Item → Bool
blames id consumer = any (λ e. contains e.blocked_by id) consumer.evidence

unfoldable pub ids_of : List Item → List String
ids_of [] = []
ids_of (i ∷ is) = i.id ∷ ids_of is

abbrev pub consumers_of : List Item → String → List String
consumers_of items id = sorted_texts (ids_of (keep (blames id) items))

-- The second loop, which fills `downstreamImpact`.
unfoldable pub with_impact : List Item → List Item → List Item
unfolding sorted_texts ids_of keep any contains
with_impact all_items [] = []
with_impact all_items (i ∷ is) =
    record i { downstream_impact = consumers_of all_items i.id } ∷ with_impact all_items is

abbrev pub item_states : List Item → List HealthState
item_states [] = []
item_states (i ∷ is) = i.state ∷ item_states is

-- `_aggregate`
unfoldable pub aggregate : List Item → HealthState
unfolding first_of
aggregate items = first_of aggregate_precedence (item_states items)

pub record Summary : Type 0 where
  pub components : ℕ
  pub blocked : ℕ
  pub workload_absent : ℕ
  pub workload_not_ready : ℕ
  pub application_unknown : ℕ

-- The state of the dependency dimension is "blocked" if `blocked_by` is a text that is not empty.
abbrev pub is_named : Option String → Bool
is_named none = false
is_named (some t) = not (t == "")

abbrev pub workload_is_absent : WorkloadState → Bool
workload_is_absent workload_absent = true
workload_is_absent _ = false

abbrev pub workload_is_not_ready : WorkloadState → Bool
workload_is_not_ready workload_not_ready = true
workload_is_not_ready _ = false

abbrev pub application_is_unknown : ApplicationState → Bool
application_is_unknown application_unknown = true
application_is_unknown _ = false

-- `_summary`, over the components without the platform.
unfoldable pub summary_of : List Item → Summary
unfolding keep contains
summary_of items =
    let components = keep (λ i. not (is_platform i.id)) items in
    record {
      components = length components;
      blocked = length (keep (λ i. is_named i.dimensions.blocked_by) components);
      workload_absent = length (keep (λ i. workload_is_absent i.dimensions.workload) components);
      workload_not_ready =
          length (keep (λ i. workload_is_not_ready i.dimensions.workload) components);
      application_unknown =
          length (keep (λ i. application_is_unknown i.dimensions.application) components);
    }

pub record EnvironmentHealth : Type 0 where
  pub generated_at : String
  pub live : Bool
  pub state : HealthState
  pub summary : Summary
  pub items : List Item

abbrev pub environment : Engine → ℕ → List Item → EnvironmentHealth
environment engine now items = record {
  generated_at = engine.texts.render now;
  live = engine.live;
  state = aggregate (with_impact items items);
  summary = summary_of (with_impact items items);
  items = with_impact items items;
}

-- `document`
unfoldable pub document : Engine → ℕ → Outcome HealthError EnvironmentHealth
unfolding subjects evaluate_all with_impact aggregate summary_of
document engine now = after (subjects engine.registry) (λ all_subjects.
    after (evaluate_all engine now all_subjects []) (λ items. ok (environment engine now items)))
