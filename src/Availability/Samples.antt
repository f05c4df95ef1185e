-- ===== src/Availability/Samples.antt =====
-- manager/availability.py: a monitor of two services.
use fortifylab_archive.Availability.Answering.{Answers, probe-reachable}
use fortifylab_archive.Availability.Approval.{Fits, approved_routes-Fits}
use fortifylab_archive.Availability.Backoff.{Paced, configure_ordered, record_result-Paced}
use fortifylab_archive.Availability.Claims.{begins, claim-exclusive, claims, holders, releases}
use fortifylab_archive.Availability.Hosts.{IsHost}
use fortifylab_archive.Availability.Monitor.{
  Config, Monitor, claim, configure, delay, due_routes, first_endpoint, jitter, record_result,
  release_ids, sum_codes,
}
use fortifylab_archive.Availability.Probe.{
  Network, ObservedRoute, ProbeEvidence, degraded, probe, reachable, status, within_set,
}
use fortifylab_archive.Availability.Routes.{
  Endpoint, Names, acceptable, approve_routes, approved_routes, codes_eq, domain_of, endpoints,
  find_endpoint, manager_route, split_dots, starts_with, valid_host, web_endpoints,
}
use fortifylab_archive.Prelude.{
  Any, List, String, [], all, contains, distinct, if◌then◌else◌, leb, refl, some, true, ℕ, ◌&&◌,
  ◌*◌, ◌+◌, ◌↔◌, ◌∷◌, ◌≡◌,
}
use fortifylab_archive.Prelude.Exec.{ok}
use fortifylab_archive.Prelude.Table.{Table, put, select}
use fortifylab_archive.Registry.Components.{Component, Registry}

abbrev web : String → String → Component
web id label = record {
  id = id;
  display_name = id;
  host_label = some label;
  dependencies = [];
  operations = [];
  checks = [];
}

abbrev registry : Registry
registry = record {
  components = ("ssc", web "ssc" "ssc") ∷ ("lim", web "lim" "lim") ∷ [];
  walk = distinct;
}

abbrev route : String → String → ObservedRoute
route id host = record {
  endpoint_id = id;
  host = host;
  tls = true;
  addresses = "10.0.0.1" ∷ [];
  ingress_addresses = [];
}

abbrev observed : List ObservedRoute
observed = route "manager" "lab.x.org" ∷ route "ssc" "ssc.x.org" ∷ route "lim" "lim.evil.org" ∷ []

abbrev names : Names
names = record {
  is_hostname = λ host. true;
  is_lower = λ host. true;
  is_alnum = λ c. leb b'a' c && leb c b'z';
}

abbrev approved : Table ObservedRoute
approved = ("manager", route "manager" "lab.x.org") ∷ ("ssc", route "ssc" "ssc.x.org") ∷ []

program : Unit {0}
unfolding first_endpoint approved_routes valid_host starts_with split_dots all codes_eq domain_of
    find_endpoint endpoints web_endpoints manager_route acceptable approve_routes select contains
    configure delay jitter sum_codes record_result put probe within_set due_routes claim
program = tt

approves : approved_routes names registry (some observed) ≡ some approved
unfolding program
approves = refl

found_ssc : select "ssc" approved ≡ some (route "ssc" "ssc.x.org")
unfolding select
found_ssc = refl

approved_routes-Fits_example :
    (manager : ObservedRoute) × (domain : List ℕ) × Any (λ q. q ≡ manager) observed
    × (manager.endpoint_id ≡ "manager")
    × IsHost names manager.host "lab" domain
    × Any (λ q. q ≡ route "ssc" "ssc.x.org") observed
    × Fits names (endpoints registry) domain "ssc" (route "ssc" "ssc.x.org")
approved_routes-Fits_example =
    approved_routes-Fits names registry observed approved approves "ssc" (route "ssc" "ssc.x.org")
      found_ssc

abbrev config : Config
config = configure 30000 300000 4 12

abbrev idle : Monitor
idle = record { results = []; history = []; failures = []; next_due = []; polling = [] }

abbrev down : Network
down = record { resolved = some ("10.0.0.1" ∷ []); reply = status 503; latency_ms = 7 }

abbrev evidence : ProbeEvidence
evidence = probe (route "ssc" "ssc.x.org") down

probe-reachable_example :
    ((probe (route "ssc" "ssc.x.org") down).state ≡ reachable)
    ↔ Answers (route "ssc" "ssc.x.org") down
probe-reachable_example = probe-reachable (route "ssc" "ssc.x.org") down

-- One caller is probing, a second finds nothing to probe, and the first gives its claim back.
abbrev first_claim : List ObservedRoute
first_claim = (claim config 5 approved idle).0

abbrev second_claim : List ObservedRoute
second_claim = (claim config 9 approved (claim config 5 approved idle).1).0

abbrev afterwards : Monitor
afterwards =
    release_ids config first_claim (claim config 9 approved (claim config 5 approved idle).1).1

claim-exclusive_example :
    holders config "ssc" (second_claim ∷ []) ≡ (if contains afterwards.polling "ssc" then 1 else 0)
claim-exclusive_example =
    claim-exclusive config
      (releases (second_claim ∷ []) first_claim []
        (claims (claims (begins refl) 5 approved) 9 approved))
      "ssc"

abbrev endpoint : Endpoint
endpoint = record { id = "ssc"; display_name = "ssc"; host_label = "ssc" }

abbrev after_failure : Monitor
after_failure = record {
  results =
      (
        "ssc",
        record {
          id = "ssc";
          display_name = "ssc";
          host = some "ssc.x.org";
          evidence = evidence;
          latency_known = true;
          checked_at = some 77;
        },
      )
      ∷ [];
  history = ("ssc", record { state = degraded; checked_at = 77; latency_ms = 7 } ∷ []) ∷ [];
  failures = ("ssc", 1) ∷ [];
  next_due = ("ssc", 500 + 60000 * jitter "ssc") ∷ [];
  polling = [];
}

records :
    record_result config registry (route "ssc" "ssc.x.org") evidence 5 77 idle ≡ ok after_failure
unfolding program
records = refl

record_result-Paced_example : Paced config "ssc" evidence.state 5 idle after_failure
record_result-Paced_example =
    record_result-Paced config (configure_ordered 30000 300000 4 12) registry
      (route "ssc" "ssc.x.org") evidence 5 77 idle after_failure records
