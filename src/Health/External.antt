-- ===== src/Health/External.antt =====
-- manager/health.py: the evidence of the routes to the components.
use fortifylab_archive.Health.Evidence.{Evidence, Texts, or_else, safe_summary}
use fortifylab_archive.Health.States.{
  HealthState, degraded, external_reachability, healthy, stale, tls, unknown, unreachable,
}
use fortifylab_archive.Prelude.{
  Bool, List, Option, String, [], false, if◌then◌else◌, ltb, none, some, true, ℕ, ◌+◌, ◌==◌, ◌||◌,
  ◌∷◌,
}
use fortifylab_archive.Prelude.Table.{Table, select}

-- An entry of the availability document; a field that is not there is `none`.
pub record ExternalItem : Type 0 where
  pub id : String
  pub state : Option String
  pub tls : Option String
  pub checked_at : Option String
  pub summary : Option String
  pub latency_ms : Option ℕ

abbrev pub external_states : Table HealthState
external_states =
    ("reachable", healthy)
    ∷ ("degraded", degraded)
    ∷ ("tls-warning", degraded)
    ∷ ("dns-mismatch", unreachable)
    ∷ ("unreachable", unreachable)
    ∷ ("not-configured", unknown)
    ∷ ("unknown", unknown)
    ∷ []

abbrev pub tls_states : Table HealthState
tls_states =
    ("valid", healthy)
    ∷ ("warning", degraded)
    ∷ ("failed", unreachable)
    ∷ ("not-configured", unknown)
    ∷ ("not-attempted", unknown)
    ∷ []

-- `table.get(key, "unknown")`
abbrev pub state_in : Table HealthState → Option String → HealthState
state_in table none = unknown
state_in table (some key) = elim (select key table) [ none ↦ unknown | some s ↦ s ]

-- The three states of TLS for which there is evidence.
abbrev pub has_tls : Option String → Bool
has_tls none = false
has_tls (some t) = t == "valid" || t == "warning" || t == "failed"

-- `value or default`, for a text: an empty one counts as missing.
abbrev pub or_text : Option String → String → String
or_text none d = d
or_text (some t) d = if t == "" then d else t

unfoldable pub find_external : String → List ExternalItem → Option ExternalItem
find_external subject_id [] = none
find_external subject_id (i ∷ is) =
    let rest = find_external subject_id is in if i.id == subject_id then some i else rest

-- When the route was checked, and what became of the two states: kept, stale or unknown.
pub data Freshness : Type 0 where
  fresh outdated unreadable : String → Freshness

abbrev pub external_pair :
    Freshness → HealthState → HealthState → String × HealthState × HealthState
external_pair (fresh observed) external_state tls_state = (observed, external_state, tls_state)
external_pair (outdated observed) external_state tls_state = (observed, stale, stale)
external_pair (unreadable observed) external_state tls_state = (observed, unknown, unknown)

module _ (texts : Texts) where
  abbrev pub aged : ℕ → ℕ → String → Option ℕ → Freshness
  aged now stale_after observed none = unreadable (texts.render now)
  aged now stale_after observed (some t) =
      if ltb (t + stale_after) now then outdated observed else fresh observed

  abbrev pub freshness : ℕ → ℕ → ExternalItem → Freshness
  freshness now stale_after item =
      let observed = or_text item.checked_at (texts.render now) in
      aged now stale_after observed (texts.parse observed)

  abbrev pub route_evidence : ExternalItem → String → HealthState → Evidence
  route_evidence item observed state = record {
    id = "external-route";
    layer = external_reachability;
    state = state;
    required = true;
    summary = safe_summary texts (or_else item.summary "External route evidence unavailable");
    observed_at = observed;
    latency_ms = or_else item.latency_ms 0;
    derived = true;
    blocked_by = [];
    workload = none;
  }

  abbrev pub tls_evidence : String → HealthState → Evidence
  tls_evidence observed state = record {
    id = "tls";
    layer = tls;
    state = state;
    required = true;
    summary = "TLS evidence is reported independently from application health";
    observed_at = observed;
    latency_ms = 0;
    derived = true;
    blocked_by = [];
    workload = none;
  }

  abbrev pub external_item_evidence : ℕ → ℕ → Option ExternalItem → List Evidence
  external_item_evidence now stale_after none = []
  external_item_evidence now stale_after (some item) =
      let (observed, external_state, tls_state) =
        external_pair (freshness now stale_after item) (state_in external_states item.state)
          (state_in tls_states item.tls) in
      route_evidence item observed external_state
      ∷ (if has_tls item.tls then tls_evidence observed tls_state ∷ [] else [])

  -- `_external_evidence`
  unfoldable pub external_evidence : ℕ → ℕ → List ExternalItem → String → List Evidence
  unfolding find_external safe_summary
  external_evidence now stale_after items subject_id =
      external_item_evidence now stale_after (find_external subject_id items)
