-- ===== src/Health/Evaluation.antt =====
-- manager/health.py: the state, the domains and the dimensions of a subject, from its evidence.
use fortifylab_archive.Health.Dimensions.{
  Dimensions, DomainReport, DomainState, dimensions, domains, is_unhealthy, not_applicable,
  rank_state, ranked,
}
use fortifylab_archive.Health.Checks.{CheckSpec, HealthError, key_error}
use fortifylab_archive.Health.Evidence.{Evidence}
use fortifylab_archive.Health.States.{
  Domain, HealthState, application_domain, blocked, degraded, external_reachability_domain, healthy,
  infrastructure_domain, ingress_routing_domain, internal_service_domain, is_access, is_blocking,
  is_healthy, persistence_domain, tls_domain, workload_domain,
}
use fortifylab_archive.Prelude.{
  Bool, List, Option, String, [], any, contains, distinct, false, if◌then◌else◌, keep, none,
  nonempty, not, some, true, ◌&&◌, ◌++◌, ◌||◌, ◌∷◌,
}
use fortifylab_archive.Prelude.Exec.{Outcome, after, ok, or_error}
use fortifylab_archive.Prelude.Table.{Table, select}
use fortifylab_archive.Prelude.Texts.{joined}

-- A subject of the evaluation.
pub record Subject : Type 0 where
  pub id : String
  pub display_name : String
  pub dependencies : List String
  pub checks : List CheckSpec
  pub remediation : String

-- A document of a subject; `root_causes` is empty where the code leaves the key out.
pub record Item : Type 0 where
  pub id : String
  pub display_name : String
  pub state : HealthState
  pub dependencies : List String
  pub checked_at : String
  pub evidence : List Evidence
  pub remediation : String
  pub root_causes : List String
  pub blocked_by : Option String
  pub direct_state : HealthState
  pub affected_domains : List Domain
  pub domains : Domain → DomainReport
  pub downstream_impact : List String
  pub dimensions : Dimensions

abbrev pub first_text : List String → Option String
first_text [] = none
first_text (x ∷ _) = some x

abbrev pub required_of : List Evidence → List Evidence
required_of evidence = keep (λ e. e.required) evidence

abbrev pub direct_of : List Evidence → List Evidence
direct_of evidence = keep (λ e. not e.derived) (required_of evidence)

abbrev pub access_of : List Evidence → List Evidence
access_of evidence = keep (λ e. is_access e.layer) (required_of evidence)

-- The tests of `_evaluate`, on the direct state, the blocking, the access state and the rest.
abbrev pub chosen_state : HealthState → Bool → HealthState → Bool → HealthState
chosen_state direct_state is_blocked access_state any_unhealthy =
    if not (is_healthy direct_state)
    then direct_state
    else if is_blocked
    then blocked
    else if not (is_healthy access_state)
    then degraded
    else if any_unhealthy
    then degraded
    else healthy

-- The state of a subject.
unfoldable pub subject_state : List Evidence → List String → HealthState
unfolding rank_state keep any
subject_state evidence blocked_dependencies =
    chosen_state (rank_state (direct_of evidence)) (nonempty blocked_dependencies)
      (rank_state (access_of evidence)) (any is_unhealthy evidence)

-- `results[dependency].get("rootCause", dependency)`
abbrev pub root_of : String → Item → String
root_of needed item = elim item.root_causes [ [] ↦ needed | root ∷ _ ↦ root ]

unfoldable pub dependency_roots : Table Item → List String → Outcome HealthError (List String)
dependency_roots results [] = ok []
dependency_roots results (d ∷ ds) =
    after (or_error (select d results) (key_error d))
      (λ item. after (dependency_roots results ds) (λ rest. ok (root_of d item ∷ rest)))

unfoldable pub local_roots : String → List Evidence → List String
local_roots subject_id [] = []
local_roots subject_id (e ∷ es) =
    let rest = local_roots subject_id es in
    if is_unhealthy e && not e.derived then joined subject_id (joined "/" e.id) ∷ rest else rest

abbrev pub affects : DomainState → Bool
affects not_applicable = false
affects (ranked s) = not (is_healthy s)

-- The domains in the order of `_DOMAIN_LAYERS`, without "ingressTls".
abbrev pub domain_names : List Domain
domain_names =
    infrastructure_domain ∷ workload_domain ∷ persistence_domain ∷ internal_service_domain
    ∷ application_domain ∷ ingress_routing_domain ∷ tls_domain ∷ external_reachability_domain ∷ []

-- The document that is made of the evidence, the roots upstream and the dimensions.
abbrev pub evaluated_item :
    String → Subject → List Evidence → List String → List String → Dimensions → Item
evaluated_item checked_at subject evidence blocked_dependencies upstream dims = record {
  id = subject.id;
  display_name = subject.display_name;
  state = subject_state evidence blocked_dependencies;
  dependencies = subject.dependencies;
  checked_at = checked_at;
  evidence = evidence;
  remediation = subject.remediation;
  root_causes = distinct (upstream ++ local_roots subject.id (required_of evidence));
  blocked_by = first_text blocked_dependencies;
  direct_state = rank_state (direct_of evidence);
  affected_domains = keep (λ d. affects (domains evidence d).state) domain_names;
  domains = domains evidence;
  downstream_impact = [];
  dimensions = dims;
}

-- `_evaluate`
unfoldable pub evaluate :
    String → Subject → List Evidence → Table Item → List String → Outcome HealthError Item
unfolding subject_state dependency_roots local_roots domains dimensions distinct
evaluate checked_at subject evidence results blocked_dependencies =
    after (dependency_roots results blocked_dependencies) (λ upstream.
      after (dimensions evidence (first_text blocked_dependencies)) (λ dims.
        ok (evaluated_item checked_at subject evidence blocked_dependencies upstream dims)))

-- Subjects of the platform itself.
abbrev pub is_platform : String → Bool
is_platform id = contains ("microk8s-node" ∷ "storage" ∷ "dns" ∷ "ingress" ∷ "tls" ∷ []) id

abbrev pub blocks_domain : DomainState → Bool
blocks_domain not_applicable = false
blocks_domain (ranked s) = is_blocking s

-- `_dependency_blocks`
unfoldable pub item_blocks : String → Item → Bool
unfolding contains
item_blocks needed item =
    if is_platform needed
    then is_blocking item.state
    else blocks_domain (item.domains workload_domain).state
      || blocks_domain (item.domains persistence_domain).state
      || blocks_domain (item.domains internal_service_domain).state
      || blocks_domain (item.domains application_domain).state

unfoldable pub dependency_blocks : Table Item → String → Bool
unfolding select item_blocks
dependency_blocks results needed = elim (select needed results) [
  | none ↦ true
  | some item ↦ item_blocks needed item
]
