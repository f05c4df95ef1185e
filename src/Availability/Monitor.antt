-- ===== src/Availability/Monitor.antt =====
-- manager/availability.py: `AvailabilityMonitor`. Durations are in milliseconds, and due times in
-- hundredths of them, so that the jitter is exact. A call of `document` is two steps under the
-- lock, `claim` and `settle`, with the probes between them, and `report`.
use fortifylab_archive.Availability.Probe.{
  ObservedRoute, ProbeEvidence, ServiceState, not_attempted, not_configured, reachable,
  undetermined, unknown,
}
use fortifylab_archive.Availability.Routes.{Endpoint, codes, endpoints}
use fortifylab_archive.Prelude.{
  Bool, List, Option, String, [], contains, false, if◌then◌else◌, keep, leb, max, min, none, not,
  some, take, true, ℕ, ◌%◌, ◌&&◌, ◌*◌, ◌++◌, ◌+◌, ◌==◌, ◌^◌, ◌∷◌,
}
use fortifylab_archive.Prelude.Exec.{Outcome, after, ok, raised}
use fortifylab_archive.Prelude.Table.{Table, put, select}
use fortifylab_archive.Registry.Components.{Registry}

pub record Config : Type 0 where
  pub interval : ℕ
  pub max_backoff : ℕ
  pub concurrency : ℕ
  pub history_limit : ℕ

abbrev pub clamp : ℕ → ℕ → ℕ → ℕ
clamp least most x = min (max x least) most

-- The bounds of the constructor.
unfoldable pub configure : ℕ → ℕ → ℕ → ℕ → Config
configure interval_seconds max_backoff_seconds max_concurrency history_limit =
    let interval = clamp 5000 300000 interval_seconds in
    record {
      interval = interval;
      max_backoff = min (max max_backoff_seconds interval) 900000;
      concurrency = clamp 1 8 max_concurrency;
      history_limit = clamp 1 48 history_limit;
    }

pub record Seen : Type 0 where
  pub state : ServiceState
  pub checked_at : ℕ
  pub latency_ms : ℕ

pub record Item : Type 0 where
  pub id : String
  pub display_name : String
  pub host : Option String
  pub evidence : ProbeEvidence
  pub latency_known : Bool
  pub checked_at : Option ℕ

-- The dictionaries of the monitor; a missing key counts as no history, no failure, due since ever.
pub record Monitor : Type 0 where
  pub results : Table Item
  pub history : Table (List Seen)
  pub failures : Table ℕ
  pub next_due : Table ℕ
  pub polling : List String

abbrev pub or_default {ℓ} : {A : Type ℓ} → A → Option A → A
or_default a none = a
or_default a (some b) = b

unfoldable pub sum_codes : List ℕ → ℕ
sum_codes [] = 0
sum_codes (c ∷ cs) = c + sum_codes cs

-- The jitter in hundredths. Identifiers are ASCII, so their bytes are their code points.
unfoldable pub jitter : String → ℕ
unfolding sum_codes
jitter id = 90 + sum_codes (codes id) % 21

abbrev pub is_reachable : ServiceState → Bool
is_reachable reachable = true
is_reachable _ = false

-- `next(…)` on an empty sequence.
pub data StopIteration : Type 0 where
  no_endpoint : StopIteration

-- The first of the endpoints with the identifier.
unfoldable pub first_endpoint : String → List Endpoint → Option Endpoint
first_endpoint id [] = none
first_endpoint id (e ∷ es) = let rest = first_endpoint id es in if e.id == id then some e else rest

module _ (config : Config) where
  unfoldable pub delay : ServiceState → ℕ → ℕ
  delay state failures =
      min config.max_backoff
        (if is_reachable state then config.interval else config.interval * 2 ^ min failures 4)

  abbrev pub recorded :
      Option Endpoint
      → ObservedRoute
      → ProbeEvidence
      → ℕ
      → ℕ
      → Monitor
      → Outcome StopIteration Monitor
  recorded none route result now checked m = raised no_endpoint
  recorded (some endpoint) route result now checked m =
      let id = route.endpoint_id in
      let failures : ℕ =
        if is_reachable result.state then 0 else or_default 0 (select id m.failures) + 1 in
      ok (record m {
        failures = put id failures m.failures;
        next_due = put id (now * 100 + delay result.state failures * jitter id) m.next_due;
        results =
            put id
              (record {
                id = id;
                display_name = endpoint.display_name;
                host = some route.host;
                evidence = result;
                latency_known = true;
                checked_at = some checked;
              })
              m.results;
        history =
            put id
              (take config.history_limit (
                record {
                  state = result.state;
                  checked_at = checked;
                  latency_ms = result.latency_ms;
                }
                ∷ or_default [] (select id m.history)))
              m.history;
      })

  unfoldable pub record_result :
      Registry → ObservedRoute → ProbeEvidence → ℕ → ℕ → Monitor → Outcome StopIteration Monitor
  unfolding delay jitter first_endpoint
  record_result registry route result now checked m =
      recorded (first_endpoint route.endpoint_id (endpoints registry)) route result now checked m

  abbrev pub is_due : ℕ → Monitor → String → Bool
  is_due now m id =
      leb (or_default 0 (select id m.next_due)) (now * 100) && not (contains m.polling id)

  unfoldable pub due_routes : ℕ → Monitor → Table ObservedRoute → List ObservedRoute
  unfolding contains select
  due_routes now m [] = []
  due_routes now m ((_, route) ∷ routes) =
      let rest = due_routes now m routes in
      if is_due now m route.endpoint_id then route ∷ rest else rest

  abbrev pub ids_of : List ObservedRoute → List String
  ids_of [] = []
  ids_of (r ∷ rs) = r.endpoint_id ∷ ids_of rs

  -- The first step under the lock: the due routes, marked as being polled.
  unfoldable pub claim : ℕ → Table ObservedRoute → Monitor → List ObservedRoute × Monitor
  unfolding due_routes
  claim now routes m =
      let due = due_routes now m routes in (due, record m { polling = ids_of due ++ m.polling })

  -- A probe that raises gives unknown evidence.
  abbrev pub safe_probe : Option ProbeEvidence → ProbeEvidence
  safe_probe (some evidence) = evidence
  safe_probe none = record {
    state = unknown;
    dns = "unknown";
    tls = "unknown";
    http = undetermined;
    latency_ms = 0;
    summary = "Availability evidence could not be collected";
  }

  unfoldable pub record_all :
      Registry
      → List (ObservedRoute × Option ProbeEvidence)
      → ℕ
      → ℕ
      → Monitor
      → Outcome StopIteration Monitor
  unfolding record_result
  record_all registry [] now checked m = ok m
  record_all registry ((route, evidence) ∷ rest) now checked m =
      after (record_result registry route (safe_probe evidence) now checked m)
        (record_all registry rest now checked)

  abbrev pub release_ids : List ObservedRoute → Monitor → Monitor
  release_ids due m = record m { polling = keep (λ id. not (contains (ids_of due) id)) m.polling }

  -- The unknown and the missing evidence of the report.
  abbrev pub not_configured_item : Endpoint → Item
  not_configured_item endpoint = record {
    id = endpoint.id;
    display_name = endpoint.display_name;
    host = none;
    evidence = record {
      state = not_configured;
      dns = "not-attempted";
      tls = "not-attempted";
      http = not_attempted;
      latency_ms = 0;
      summary = "No approved observed ingress route is configured";
    };
    latency_known = false;
    checked_at = none;
  }

  abbrev pub unknown_item : Endpoint → Option ObservedRoute → Item
  unknown_item endpoint route =
      let blank : Item = not_configured_item endpoint in
      record blank {
        host = elim route [ none ↦ none | some r ↦ some r.host ];
        evidence = record {
          state = unknown;
          dns = "not-attempted";
          tls = "not-attempted";
          http = not_attempted;
          latency_ms = 0;
          summary = elim route [
            | none ↦ "Ingress route evidence could not be collected"
            | some _ ↦ "The approved route has not been checked"
          ];
        };
      }

  abbrev pub item_of :
      Endpoint → Option (Table ObservedRoute) → Option ObservedRoute → Option Item → Item
  item_of endpoint none route result = unknown_item endpoint none
  item_of endpoint (some _) none result = not_configured_item endpoint
  item_of endpoint (some _) (some route) none = unknown_item endpoint (some route)
  item_of endpoint (some _) (some route) (some result) = result

  unfoldable pub report :
      List Endpoint → Option (Table ObservedRoute) → Monitor → List (Item × List Seen)
  unfolding select
  report [] approved m = []
  report (e ∷ es) approved m =
      (
        item_of e approved (select e.id (or_default [] approved)) (select e.id m.results),
        or_default [] (select e.id m.history),
      )
      ∷ report es approved m
