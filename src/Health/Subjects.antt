-- ===== src/Health/Subjects.antt =====
-- manager/health.py: the subjects that are evaluated, the platform before the components.
use fortifylab_archive.Health.Evaluation.{Subject}
use fortifylab_archive.Health.Checks.{CheckSpec, HealthError, key_error, registry_failed}
use fortifylab_archive.Health.States.{
  Layer, application, functional, infrastructure, ingress_routing, internal_service, is_storage,
  is_workload, storage, tls, workload,
}
use fortifylab_archive.Prelude.{
  List, String, [], any, distinct, if◌then◌else◌, ltb, true, ℕ, ◌++◌, ◌∷◌,
}
use fortifylab_archive.Prelude.Exec.{Outcome, after, ok, or_error, raised}
use fortifylab_archive.Prelude.Table.{Table, select}
use fortifylab_archive.Prelude.Texts.{joined}
use fortifylab_archive.Registry.Components.{Check, Component, Registry, RegistryError, component}
use fortifylab_archive.Registry.Order.{dependency_order}

abbrev pub href : String → String
href id = joined "/docs/health-checks.md#" id

-- One row of `definitions`, with its check; 10 seconds are 10000 milliseconds.
abbrev pub platform_subject : String → String → List String → Layer → String → String → Subject
platform_subject id name needs layer check_id target = record {
  id = id;
  display_name = name;
  dependencies = needs;
  checks =
      record {
        id = check_id;
        subject_id = id;
        layer = layer;
        probe_type = check_id;
        target = target;
        timeout = 10000;
        required = true;
        dependencies = needs;
      }
      ∷ [];
  remediation = href id;
}

-- `_infrastructure_subjects`
abbrev pub infrastructure_subjects : List Subject
infrastructure_subjects =
    platform_subject "microk8s-node" "MicroK8s node" [] infrastructure "node-ready" "node"
    ∷ platform_subject "storage" "Storage" ("microk8s-node" ∷ []) storage "storage-ready" "default"
    ∷ platform_subject "dns" "In-cluster DNS" ("microk8s-node" ∷ []) internal_service "dns-lookup"
        "kubernetes.default"
    ∷ platform_subject "ingress" "Ingress routing" ("microk8s-node" ∷ []) ingress_routing
        "ingress-ready" "ingress"
    ∷ platform_subject "tls" "TLS" ("ingress" ∷ []) tls "tls-valid" "managed-hosts"
    ∷ []

abbrev pub component_layers : Table Layer
component_layers =
    ("workload-ready", workload)
    ∷ ("persistent-volume", storage)
    ∷ ("native-readiness", application)
    ∷ ("database-query", application)
    ∷ ("https", internal_service)
    ∷ ("tcp", functional)
    ∷ ("application-ready", application)
    ∷ ("dependency-connectivity", internal_service)
    ∷ ("configuration", functional)
    ∷ ("registration", functional)
    ∷ []

-- `_component_layer`
unfoldable pub component_layer : String → Outcome HealthError Layer
unfolding select
component_layer probe_type = or_error (select probe_type component_layers) (key_error probe_type)

-- `_component_check_dependencies`
abbrev pub check_dependencies : Layer → List String → List String
check_dependencies layer needs =
    if is_workload layer
    then "microk8s-node" ∷ []
    else if is_storage layer
    then "microk8s-node" ∷ "storage" ∷ []
    else distinct ("microk8s-node" ∷ "dns" ∷ needs)

-- `min(float(check["timeoutSeconds"]), 30.0)`
abbrev pub bounded : ℕ → ℕ
bounded seconds = if ltb 30000 seconds then 30000 else seconds

unfoldable pub check_spec : String → List String → Check → Outcome HealthError CheckSpec
unfolding component_layer
check_spec component_id needs check = after (component_layer check.check_type) (λ layer.
    ok (record {
      id = check.id;
      subject_id = component_id;
      layer = layer;
      probe_type = check.check_type;
      target = check.target;
      timeout = bounded check.timeout_seconds;
      required = check.required;
      dependencies = check_dependencies layer needs;
    }))

-- The checks of a component that are required.
unfoldable pub check_specs :
    String → List String → List Check → Outcome HealthError (List CheckSpec)
unfolding check_spec
check_specs component_id needs [] = ok []
check_specs component_id needs (c ∷ cs) =
    let rest = check_specs component_id needs cs in
    let both =
      after (check_spec component_id needs c) (λ spec. after rest (λ specs. ok (spec ∷ specs))) in
    if c.required then both else rest

abbrev pub component_subject : Component → List CheckSpec → Subject
component_subject c checks = record {
  id = c.id;
  display_name = c.display_name;
  dependencies = distinct (
      "microk8s-node" ∷ "dns" ∷ c.dependencies
      ++ (if any (λ check. is_storage check.layer) checks then "storage" ∷ [] else []));
  checks = checks;
  remediation = href c.id;
}

-- An error of the registry passes through the engine.
abbrev pub from_registry : {A : Type 0} → Outcome RegistryError A → Outcome HealthError A
from_registry (ok a) = ok a
from_registry (raised e) = raised (registry_failed e)

module _ (registry : Registry) where
  unfoldable pub component_subjects : List String → Outcome HealthError (List Subject)
  unfolding check_specs distinct any
  component_subjects [] = ok []
  component_subjects (id ∷ ids) = after (from_registry (component registry id)) (λ c.
      after (check_specs id c.dependencies c.checks) (λ checks.
        after (component_subjects ids) (λ rest.
          ok (record (component_subject c checks) { id = id; remediation = href id } ∷ rest))))

  -- `_subjects`
  unfoldable pub subjects : Outcome HealthError (List Subject)
  unfolding component_subjects
  subjects =
      after (from_registry (dependency_order registry []))
        (λ order. after (component_subjects order) (λ rest. ok (infrastructure_subjects ++ rest)))
