-- ===== src/Health/States.antt =====
-- manager/health.py: health states and layers, and the precedence of states.
use fortifylab_archive.Prelude.{Bool, List, [], any, eqb, false, if◌then◌else◌, true, ℕ, ◌∷◌}

pub data HealthState : Type 0 where
  healthy starting degraded blocked misconfigured : HealthState
  stopped unreachable unhealthy unknown stale : HealthState

pub data Layer : Type 0 where
  infrastructure workload storage internal_service dependency : Layer
  application functional ingress_routing tls external_reachability : Layer

-- The keys of `_DOMAIN_LAYERS`.
pub data Domain : Type 0 where
  infrastructure_domain workload_domain persistence_domain : Domain
  internal_service_domain application_domain ingress_routing_domain : Domain
  tls_domain ingress_tls_domain external_reachability_domain : Domain

abbrev number : HealthState → ℕ
number healthy = 0
number starting = 1
number degraded = 2
number blocked = 3
number misconfigured = 4
number stopped = 5
number unreachable = 6
number unhealthy = 7
number unknown = 8
number stale = 9

-- Equality of states.
abbrev pub is_state : HealthState → HealthState → Bool
is_state a b = eqb (number a) (number b)

abbrev pub is_healthy : HealthState → Bool
is_healthy state = is_state healthy state

-- `_PROBE_STATES`
abbrev pub probe_state : HealthState → Bool
probe_state blocked = false
probe_state stale = false
probe_state _ = true

-- `_BLOCKING_STATES`
abbrev pub is_blocking : HealthState → Bool
is_blocking healthy = false
is_blocking degraded = false
is_blocking _ = true

-- `_DIRECT_PRECEDENCE`
abbrev pub direct_precedence : List HealthState
direct_precedence =
    unhealthy ∷ misconfigured ∷ stopped ∷ unreachable ∷ unknown ∷ stale ∷ starting ∷ degraded ∷ []

-- The precedence that `_aggregate` has.
abbrev pub aggregate_precedence : List HealthState
aggregate_precedence =
    unhealthy ∷ misconfigured ∷ unreachable ∷ unknown ∷ stale ∷ stopped ∷ starting ∷ degraded
    ∷ blocked ∷ []

-- The first candidate that occurs, or healthy.
unfoldable pub first_of : List HealthState → List HealthState → HealthState
unfolding any
first_of [] states = healthy
first_of (candidate ∷ candidates) states =
    let rest = first_of candidates states in
    if any (is_state candidate) states then candidate else rest

-- `_DOMAIN_LAYERS`
abbrev pub layers_of : Domain → Layer → Bool
layers_of infrastructure_domain infrastructure = true
layers_of workload_domain workload = true
layers_of persistence_domain storage = true
layers_of internal_service_domain internal_service = true
layers_of internal_service_domain dependency = true
layers_of application_domain application = true
layers_of application_domain functional = true
layers_of ingress_routing_domain ingress_routing = true
layers_of tls_domain tls = true
layers_of ingress_tls_domain ingress_routing = true
layers_of ingress_tls_domain tls = true
layers_of external_reachability_domain external_reachability = true
layers_of _ _ = false

-- The layers by which a service is reached.
abbrev pub is_access : Layer → Bool
is_access ingress_routing = true
is_access tls = true
is_access external_reachability = true
is_access _ = false

abbrev pub is_workload : Layer → Bool
is_workload workload = true
is_workload _ = false

abbrev pub is_storage : Layer → Bool
is_storage storage = true
is_storage _ = false

-- The layers of the application dimension.
abbrev pub is_application : Layer → Bool
is_application internal_service = true
is_application application = true
is_application functional = true
is_application _ = false
