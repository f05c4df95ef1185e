-- ===== src/Availability/Listed.antt =====
-- manager/availability.py: that an approved route, its endpoint and the route of the Manager are among
-- those that the loops go through.
use fortifylab_archive.Availability.Hosts.{IsHost, valid_host-IsHost}
use fortifylab_archive.Availability.Probe.{ObservedRoute}
use fortifylab_archive.Availability.Routes.{
  Endpoint, Names, admits, approve_routes, codes, domain_of, find_endpoint, manager_route,
  valid_host,
}
use fortifylab_archive.Prelude.{
  Any, Bool-cases, List, Option-cases, String, [], ap, arith, eq_iff, inl, inr, some, subst, sym, ℕ,
  ◌&&◌, ◌++◌, ◌==◌, ◌∙◌, ◌∷◌, ◌≡◌, ◌⊎◌,
}
use fortifylab_archive.Prelude.Table.{Table, select}

select-last :
    (j id : String) (q : ObservedRoute) (t : Table ObservedRoute) (r : ObservedRoute)
    → select id (t ++ (j, q) ∷ []) ≡ some r
    → (select id t ≡ some r) ⊎ (q ≡ r)
unfolding select
select-last j id q [] r h = elim (Bool-cases (j == id)) [
  | inl same ↦ inr (ground (arith, h, same))
  | inr other ↦ absurd (ground (arith, h, other))
]
select-last j id q ((i, p) ∷ t) r h = elim (Bool-cases (i == id)) [
  | inl same ↦ inl (ground (arith, h, same))
  | inr other ↦
      let k : select id (t ++ (j, q) ∷ []) ≡ some r = ground (arith, h, other) in
      elim (select-last j id q t r k) [
        | inl old ↦ inl (ground (arith, old, other))
        | inr new ↦ inr new
      ]
]

pub find_endpoint-listed :
    (id : String) (es : List Endpoint) (e : Endpoint)
    → find_endpoint id es ≡ some e
    → Any (λ f. f ≡ e) es × (e.id ≡ id)
unfolding find_endpoint
find_endpoint-listed id [] e h = absurd (cc)
find_endpoint-listed id (f ∷ es) e h = elim (Option-cases (find_endpoint id es)) [
  | inr (later, found) ↦
      let (inside, called) =
        find_endpoint-listed id es e
          (let k : find_endpoint id es ≡ some e = ground (arith, h, found) in k) in
      (inr inside, called)
  | inl none_later ↦ elim (Bool-cases (f.id == id)) [
    | inr other ↦ absurd (ground (arith, h, none_later, other))
    | inl same ↦
        let e' : f ≡ e = ground (arith, h, none_later, same) in
        (inl e', ap (λ x. x.id) (sym e') ∙ (eq_iff f.id id).0 same)
  ]
]

module _ (names : Names) where
  pub manager_route-named :
      (observed : List ObservedRoute) (manager : ObservedRoute)
      → manager_route names observed ≡ some manager
      → Any (λ q. q ≡ manager) observed
        × (manager.endpoint_id ≡ "manager")
        × IsHost names manager.host "lab" (domain_of (codes manager.host))
  unfolding manager_route
  manager_route-named [] manager h = absurd (cc)
  manager_route-named (r ∷ rs) manager h =
      elim (Bool-cases (r.endpoint_id == "manager" && valid_host names r.host "lab")) [
        | inl taken ↦
            let e : r ≡ manager = ground (arith, h, taken) in
            (
              inl e,
              ap (λ q. q.endpoint_id) (sym e)
                  ∙ (eq_iff r.endpoint_id "manager").0 (ground (arith, taken)),
              subst (λ q. IsHost names q.host "lab" (domain_of (codes q.host))) e
                  (valid_host-IsHost names r.host "lab" (ground (arith, taken))),
            )
        | inr other ↦
            let k : manager_route names rs ≡ some manager = ground (arith, h, other) in
            let (inside, called, hosted) = manager_route-named rs manager k in
            (inr inside, called, hosted)
      ]

  pub approve_routes-observed :
      (es : List Endpoint) (domain : List ℕ) (approved : Table ObservedRoute)
      (observed : List ObservedRoute) (id : String) (r : ObservedRoute)
      → select id (approve_routes names es domain approved observed) ≡ some r
      → (select id approved ≡ some r) ⊎ Any (λ q. q ≡ r) observed
  unfolding approve_routes
  approve_routes-observed es domain approved [] id r h = inl h
  approve_routes-observed es domain approved (q ∷ observed) id r h =
      elim (Bool-cases
        (admits names domain q (find_endpoint q.endpoint_id es) (select q.endpoint_id approved))) [
          | inr skipped ↦
              later (approve_routes-observed es domain approved observed id r (rw skipped at h))
          | inl taken ↦
              elim (approve_routes-observed es domain (approved ++ (q.endpoint_id, q) ∷ []) observed
                id r (rw taken at h)) [
                  | inr inside ↦ inr (inr inside)
                  | inl here ↦ fresh_or (select-last q.endpoint_id id q approved r here)
                ]
        ]
    where
      later :
          (select id approved ≡ some r) ⊎ Any (λ p. p ≡ r) observed
          → (select id approved ≡ some r) ⊎ Any (λ p. p ≡ r) (q ∷ observed)
      later (inl old) = inl old
      later (inr inside) = inr (inr inside)

      fresh_or :
          (select id approved ≡ some r) ⊎ (q ≡ r)
          → (select id approved ≡ some r) ⊎ Any (λ p. p ≡ r) (q ∷ observed)
      fresh_or (inl old) = inl old
      fresh_or (inr same) = inr (inl same)
