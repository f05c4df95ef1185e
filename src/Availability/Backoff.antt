-- ===== src/Availability/Backoff.antt =====
-- manager/availability.py: the pace of the probes, and the length of their history.
use fortifylab_archive.Availability.Monitor.{
  Config, Item, Monitor, Seen, configure, delay, first_endpoint, is_reachable, jitter, or_default,
  record_result, recorded,
}
use fortifylab_archive.Availability.Probe.{
  ObservedRoute, ProbeEvidence, ServiceState, degraded, dns_mismatch, not_configured, reachable,
  tls_warning, unknown, unreachable,
}
use fortifylab_archive.Availability.Routes.{Endpoint, endpoints}
use fortifylab_archive.Prelude.{
  Bool-cases, List, Option, String, [], arith, eq_iff, false, if◌then◌else◌, inl, inr, length,
  length-take-le, min, none, refl, some, subst, suc, sym, take, true, zero, ℕ, ◌*◌, ◌+◌, ◌==◌, ◌∙◌,
  ◌∷◌, ◌≡◌, ◌≢◌, ◌≤◌,
}
use fortifylab_archive.Prelude.Exec.{ok}
use fortifylab_archive.Prelude.Table.{Table, put, select, select-put}
use fortifylab_archive.Registry.Components.{Registry}

-- The constructor keeps the interval within the maximal backoff.
pub configure_ordered :
    (interval backoff concurrency limit : ℕ)
    → (configure interval backoff concurrency limit).interval
      ≤ (configure interval backoff concurrency limit).max_backoff
unfolding configure
configure_ordered interval backoff concurrency limit = ground arith

jitter_bounds : (id : String) → (90 ≤ jitter id) × (jitter id ≤ 110)
unfolding jitter
jitter_bounds id = omega arith

-- The time to the next probe before the jitter, after so many failures in a row.
abbrev pub wait_after : Config → ℕ → ℕ
wait_after config zero = config.interval
wait_after config (suc zero) = min config.max_backoff (2 * config.interval)
wait_after config (suc (suc zero)) = min config.max_backoff (4 * config.interval)
wait_after config (suc (suc (suc zero))) = min config.max_backoff (8 * config.interval)
wait_after config (suc (suc (suc (suc f)))) = min config.max_backoff (16 * config.interval)

abbrev pub failures_of : String → Monitor → ℕ
failures_of id m = or_default 0 (select id m.failures)

-- What the monitor keeps of one result, for its endpoint and for all others.
pub record Paced (config : Config) (id : String) (state : ServiceState) (now : ℕ) (m m' : Monitor)
    : Type 0 where
  pub succeeded : state ≡ reachable → failures_of id m' ≡ 0
  pub failed : state ≢ reachable → failures_of id m' ≡ failures_of id m + 1
  pub earliest :
      now * 100 + wait_after config (failures_of id m') * 90 ≤ or_default 0 (select id m'.next_due)
  pub latest :
      or_default 0 (select id m'.next_due) ≤ now * 100 + wait_after config (failures_of id m') * 110
  pub bounded : length (or_default [] (select id m'.history)) ≤ config.history_limit
  pub others :
      (j : String)
      → (id == j) ≡ false
      → (select j m'.failures ≡ select j m.failures)
        × (select j m'.next_due ≡ select j m.next_due)
        × (select j m'.history ≡ select j m.history)
        × (select j m'.results ≡ select j m.results)
  pub claims : m'.polling ≡ m.polling

put_self :
    {A : Type 0} (id : String) (a d : A) (t : Table A) → or_default d (select id (put id a t)) ≡ a
put_self id a d t = ground (arith, select-put id id a t, eq_iff id id)

put_other :
    {A : Type 0} (id j : String) (a : A) (t : Table A)
    → (id == j) ≡ false
    → select j (put id a t) ≡ select j t
put_other id j a t h = ground (arith, select-put id j a t, h)

module _ (config : Config) (ordered : config.interval ≤ config.max_backoff) where
  delay-failed :
      (state : ServiceState) (n : ℕ)
      → is_reachable state ≡ false
      → delay config state (n + 1) ≡ wait_after config (n + 1)
  unfolding delay
  delay-failed state zero h = ground (arith, h)
  delay-failed state (suc zero) h = ground (arith, h)
  delay-failed state (suc (suc zero)) h = ground (arith, h)
  delay-failed state (suc (suc (suc n))) h =
      let e : suc (suc (suc n)) + 1 ≡ suc (suc (suc (suc n))) = omega arith in
      let four : min (suc (suc (suc (suc n)))) 4 ≡ 4 = omega arith in rw (h, e, four) (omega arith)

  delay-wait_after :
      (state : ServiceState) (n : ℕ)
      → delay config state (if is_reachable state then 0 else n + 1)
        ≡ wait_after config (if is_reachable state then 0 else n + 1)
  delay-wait_after state n = elim (Bool-cases (is_reachable state)) [
    | inl up ↦ rw up (unfold delay in ground (arith, up, ordered))
    | inr down ↦ rw down (delay-failed state n down)
  ]

  counted :
      (state : ServiceState) (n : ℕ)
      → (state ≡ reachable → (if is_reachable state then 0 else n + 1) ≡ 0)
        × (state ≢ reachable → (if is_reachable state then 0 else n + 1) ≡ n + 1)
  counted reachable n = ((λ h. refl), (λ h. absurd (h refl)))
  counted degraded n = ((λ h. absurd (cc)), (λ h. refl))
  counted tls_warning n = ((λ h. absurd (cc)), (λ h. refl))
  counted dns_mismatch n = ((λ h. absurd (cc)), (λ h. refl))
  counted unreachable n = ((λ h. absurd (cc)), (λ h. refl))
  counted not_configured n = ((λ h. absurd (cc)), (λ h. refl))
  counted unknown n = ((λ h. absurd (cc)), (λ h. refl))

  recorded-Paced :
      (found : Option Endpoint) (route : ObservedRoute) (result : ProbeEvidence) (now checked : ℕ)
      (m m' : Monitor)
      → recorded config found route result now checked m ≡ ok m'
      → Paced config route.endpoint_id result.state now m m'
  recorded-Paced none route result now checked m m' h = absurd (cc)
  recorded-Paced (some endpoint) route result now checked m m' h =
      let id : String = route.endpoint_id in
      let failures : ℕ =
        if is_reachable result.state then 0 else or_default 0 (select id m.failures) + 1 in
      let wait : ℕ = delay config result.state failures in
      let seen : Seen = record {
        state = result.state;
        checked_at = checked;
        latency_ms = result.latency_ms;
      } in
      let item : Item = record {
        id = id;
        display_name = endpoint.display_name;
        host = some route.host;
        evidence = result;
        latency_known = true;
        checked_at = some checked;
      } in
      let past : List Seen =
        take config.history_limit (seen ∷ or_default [] (select id m.history)) in
      let same : (record m {
        failures = put id failures m.failures;
        next_due = put id (now * 100 + wait * jitter id) m.next_due;
        results = put id item m.results;
        history = put id past m.history;
      })
          ≡ m' =
        ground (arith, h) in
      let (low, high) = jitter_bounds id in
      let kept : or_default 0 (select id (put id failures m.failures)) ≡ failures =
        put_self id failures 0 m.failures in
      let paced : wait ≡ wait_after config failures =
        delay-wait_after result.state (failures_of id m) in
      let due : or_default 0 (select id (put id (now * 100 + wait * jitter id) m.next_due))
          ≡ now * 100 + wait * jitter id =
        put_self id (now * 100 + wait * jitter id) 0 m.next_due in
      let (none_failed, one_more) = counted result.state (failures_of id m) in
      subst (Paced config id result.state now m) same (record {
        succeeded = λ up. kept ∙ none_failed up;
        failed = λ down. kept ∙ one_more down;
        earliest = rw kept (rw due (rw (sym paced) (grind (arith, low))));
        latest = rw kept (rw due (rw (sym paced) (grind (arith, high))));
        bounded =
            subst (λ l. length l ≤ config.history_limit) (sym (put_self id past [] m.history))
              (length-take-le config.history_limit (seen ∷ or_default [] (select id m.history)));
        others = λ j other. (
          put_other id j failures m.failures other,
          put_other id j (now * 100 + wait * jitter id) m.next_due other,
          put_other id j past m.history other,
          put_other id j item m.results other,
        );
        claims = refl;
      })

  -- With an interval within the maximal backoff, a recorded result counts the failures of its
  -- endpoint since the last success. Its next probe is due after a wait that is within a tenth of
  -- one interval after a success, and of 2, 4, 8 and from then on 16 intervals after 1, 2, 3 and
  -- more failures in a row, capped at the maximal backoff. Its history stays within the limit;
  -- nothing changes for any other endpoint, and no claim changes.
  pub record_result-Paced :
      (registry : Registry) (route : ObservedRoute) (result : ProbeEvidence) (now checked : ℕ)
      (m m' : Monitor)
      → record_result config registry route result now checked m ≡ ok m'
      → Paced config route.endpoint_id result.state now m m'
  unfolding record_result
  record_result-Paced registry route result now checked m m' h =
      recorded-Paced (first_endpoint route.endpoint_id (endpoints registry)) route result now
        checked m m' h
