-- ===== src/Availability/Approval.antt =====
-- manager/availability.py: what is known of an approved route.
use fortifylab_archive.Availability.Hosts.{IsHost, codes_eq_sound, valid_host-IsHost}
use fortifylab_archive.Availability.Listed.{
  approve_routes-observed, find_endpoint-listed, manager_route-named,
}
use fortifylab_archive.Availability.Probe.{ObservedRoute}
use fortifylab_archive.Availability.Routes.{
  Endpoint, Names, acceptable, admits, approve_routes, approved_routes, codes, domain_of, endpoints,
  find_endpoint, manager_route,
}
use fortifylab_archive.Prelude.{
  Any, Bool-cases, List, Option, Option-cases, String, [], arith, eq_iff, if◌then◌else◌, inl, inr,
  none, refl, some, subst, sym, true, ℕ, ◌++◌, ◌==◌, ◌∷◌, ◌≡◌,
}
use fortifylab_archive.Prelude.Table.{Table, select, select-append}
use fortifylab_archive.Registry.Components.{Registry}
use fortifylab_archive.Registry.Counting.{missing}
use fortifylab_archive.Registry.Order.{listed}

module _ (names : Names) where
  -- A route that is approved under an identifier: that of an endpoint, whose label the host has.
  pub record Fits (es : List Endpoint) (domain : List ℕ) (id : String) (r : ObservedRoute)
      : Type 0 where
    pub endpoint : Endpoint
    pub listed : Any (λ e. e ≡ endpoint) es
    pub called : endpoint.id ≡ id
    pub named : r.endpoint_id ≡ id
    pub encrypted : r.tls ≡ true
    pub hosted : IsHost names r.host endpoint.host_label domain

  abbrev AllFit : List Endpoint → List ℕ → Table ObservedRoute → Type 0
  AllFit es domain t =
      (id : String) (r : ObservedRoute) → select id t ≡ some r → Fits es domain id r

  admitted :
      (es : List Endpoint) (domain : List ℕ) (r : ObservedRoute) (found : Option Endpoint)
      (old : Option ObservedRoute)
      → find_endpoint r.endpoint_id es ≡ found
      → admits names domain r found old ≡ true
      → (old ≡ none) × Fits es domain r.endpoint_id r
  unfolding acceptable
  admitted es domain r none old f h = absurd (cc)
  admitted es domain r (some e) (some x) f h = absurd (cc)
  admitted es domain r (some e) none f h =
      let (listed, called) = find_endpoint-listed r.endpoint_id es e f in
      (
        refl,
        record {
          endpoint = e;
          listed = listed;
          called = called;
          named = refl;
          encrypted = ground (arith, h);
          hosted =
              subst (IsHost names r.host e.host_label)
                (codes_eq_sound (domain_of (codes r.host)) domain (ground (arith, h)))
                (valid_host-IsHost names r.host e.host_label (ground (arith, h)));
        },
      )

  approve_routes-AllFit :
      (es : List Endpoint) (domain : List ℕ) (approved : Table ObservedRoute)
      (observed : List ObservedRoute)
      → AllFit es domain approved
      → AllFit es domain (approve_routes names es domain approved observed)
  unfolding approve_routes
  approve_routes-AllFit es domain approved [] x = x
  approve_routes-AllFit es domain approved (r ∷ rs) x =
      approve_routes-AllFit es domain
        (if admits names domain r (find_endpoint r.endpoint_id es) (select r.endpoint_id approved)
          then approved ++ (r.endpoint_id, r) ∷ []
          else approved)
        rs
        (elim (Bool-cases (
          admits names domain r (find_endpoint r.endpoint_id es) (select r.endpoint_id approved))) [
            | inr skipped ↦ rw skipped x
            | inl taken ↦ rw taken (
                extended r x (
                  admitted es domain r (find_endpoint r.endpoint_id es)
                    (select r.endpoint_id approved) refl taken))
          ])
    where
      extended :
          (r : ObservedRoute)
          → AllFit es domain approved
          → (select r.endpoint_id approved ≡ none) × Fits es domain r.endpoint_id r
          → AllFit es domain (approved ++ (r.endpoint_id, r) ∷ [])
      extended r x (fresh, fits) id q h = elim (Bool-cases (r.endpoint_id == id)) [
        | inl same ↦
            subst (λ k. Fits es domain k q) ((eq_iff r.endpoint_id id).0 same)
              (subst (Fits es domain r.endpoint_id)
                (let e : r ≡ q =
                    ground (arith, h, select-append r.endpoint_id id r approved fresh, same) in
                  e)
                fits)
        | inr other ↦
            x id q (ground (arith, h, select-append r.endpoint_id id r approved fresh, other))
      ]

  -- An approved route is one of those observed. It is approved under its own identifier, that of an
  -- endpoint, with TLS, and its host is a well-formed lower-case name that begins with the label of
  -- the endpoint and has, behind its first dot, the domain of a route that is observed as that of
  -- the Manager, with a well-formed name that begins with `lab`. What makes a text the host of a URL
  -- and a character alphanumeric is a parameter.
  pub approved_routes-Fits :
      (registry : Registry) (observed : List ObservedRoute) (approved : Table ObservedRoute)
      → approved_routes names registry (some observed) ≡ some approved
      → (id : String) (r : ObservedRoute) → select id approved ≡ some r
      → (manager : ObservedRoute) × (domain : List ℕ) × Any (λ q. q ≡ manager) observed
        × (manager.endpoint_id ≡ "manager")
        × IsHost names manager.host "lab" domain
        × Any (λ q. q ≡ r) observed
        × Fits (endpoints registry) domain id r
  unfolding approved_routes
  approved_routes-Fits registry observed approved h id r found =
      elim (Option-cases (manager_route names observed)) [
        | inl missing ↦ absurd (
            let e : [] ≡ approved = ground (arith, h, missing) in
            let k : select id [] ≡ some r = subst (λ t. select id t ≡ some r) (sym e) found in
            unfold select in cc)
        | inr (manager, is) ↦
            let e : approve_routes names (endpoints registry) (domain_of (codes manager.host)) []
                  observed
                ≡ approved =
              ground (arith, h, is) in
            let found' : select id (
                  approve_routes names (endpoints registry) (domain_of (codes manager.host)) []
                    observed)
                ≡ some r =
              subst (λ t. select id t ≡ some r) (sym e) found in
            let (listed, called, hosted) = manager_route-named names observed manager is in
            (
              manager,
              domain_of (codes manager.host),
              listed,
              called,
              hosted,
              elim (approve_routes-observed names (endpoints registry)
                  (domain_of (codes manager.host)) [] observed id r found') [
                    | inl old ↦ absurd (unfold select in cc)
                    | inr inside ↦ inside
                  ],
              approve_routes-AllFit (endpoints registry) (domain_of (codes manager.host)) []
                  observed (λ i q bad. absurd (unfold select in cc)) id r found',
            )
      ]
