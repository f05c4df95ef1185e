-- ===== src/Availability/Claims.antt =====
-- manager/availability.py: no endpoint is probed by two callers at once. The callers of `document`
-- interleave: each takes its claim under the lock, and later records results and gives it back.
use fortifylab_archive.Availability.Monitor.{
  Config, Monitor, claim, due_routes, first_endpoint, ids_of, is_due, record_result, recorded,
  release_ids,
}
use fortifylab_archive.Availability.Probe.{ObservedRoute, ProbeEvidence}
use fortifylab_archive.Availability.Routes.{Endpoint, endpoints}
use fortifylab_archive.Prelude.{
  Bool, Bool-cases, List, Option, String, [], ap, arith, contains, contains-append, eq_iff, false,
  if◌then◌else◌, inl, inr, keep, none, not, refl, some, subst, true, ℕ, ◌&&◌, ◌++◌, ◌+◌, ◌==◌, ◌∷◌,
  ◌≡◌,
}
use fortifylab_archive.Prelude.Exec.{ok}
use fortifylab_archive.Prelude.Table.{Table}
use fortifylab_archive.Registry.Components.{Registry}

abbrev one_if : Bool → ℕ
one_if b = if b then 1 else 0

module _ (config : Config) where
  -- How many of the callers that are probing hold a claim of the endpoint.
  abbrev pub holders : String → List (List ObservedRoute) → ℕ
  holders id [] = 0
  holders id (held ∷ claims) =
      (if contains (ids_of config held) id then 1 else 0) + holders id claims

  -- What a monitor can come to, with the claims of the callers that are probing.
  pub data Reached : Monitor → List (List ObservedRoute) → Type 0 where
    begins : {m : Monitor} → m.polling ≡ [] → Reached m []
    claims :
        {m : Monitor} {held : List (List ObservedRoute)}
        → Reached m held
        → (now : ℕ) (routes : Table ObservedRoute)
        → Reached (claim config now routes m).1 ((claim config now routes m).0 ∷ held)
    records :
        {m m' : Monitor} {held : List (List ObservedRoute)}
        → Reached m held
        → (registry : Registry) (route : ObservedRoute) (result : ProbeEvidence) (now checked : ℕ)
        → record_result config registry route result now checked m ≡ ok m'
        → Reached m' held
    releases :
        {m : Monitor} (before : List (List ObservedRoute)) (due : List ObservedRoute)
        (rest : List (List ObservedRoute))
        → Reached m (before ++ due ∷ rest)
        → Reached (release_ids config due m) (before ++ rest)

  due_routes-unclaimed :
      (now : ℕ) (m : Monitor) (routes : Table ObservedRoute) (id : String)
      → contains m.polling id ≡ true
      → contains (ids_of config (due_routes config now m routes)) id ≡ false
  unfolding due_routes contains
  due_routes-unclaimed now m [] id h = refl
  due_routes-unclaimed now m ((_, r) ∷ routes) id h =
      elim (Bool-cases (is_due config now m r.endpoint_id)) [
        | inl due ↦ rw due (elim (Bool-cases (r.endpoint_id == id)) [
          | inl same ↦
              let e : r.endpoint_id ≡ id = (eq_iff r.endpoint_id id).0 same in
              let free : contains m.polling id ≡ false =
                subst (λ z. contains m.polling z ≡ false) e (ground (arith, due)) in
              absurd (ground (arith, free, h))
          | inr other ↦ rw other (due_routes-unclaimed now m routes id h)
        ])
        | inr waits ↦ rw waits (due_routes-unclaimed now m routes id h)
      ]

  polling-recorded :
      (registry : Registry) (route : ObservedRoute) (result : ProbeEvidence) (now checked : ℕ)
      (m m' : Monitor)
      → record_result config registry route result now checked m ≡ ok m'
      → m'.polling ≡ m.polling
  unfolding record_result
  polling-recorded registry route result now checked m m' h =
      of_found (first_endpoint route.endpoint_id (endpoints registry)) h
    where
      of_found :
          (found : Option Endpoint)
          → recorded config found route result now checked m ≡ ok m'
          → m'.polling ≡ m.polling
      of_found none h = absurd (cc)
      of_found (some e) h = ground (arith, h)

  holders-append :
      (id : String) (before : List (List ObservedRoute)) (due : List ObservedRoute)
      (rest : List (List ObservedRoute))
      → holders id (before ++ due ∷ rest)
        ≡ (if contains (ids_of config due) id then 1 else 0) + holders id (before ++ rest)
  holders-append id [] due rest = refl
  holders-append id (b ∷ before) due rest =
      let ih = holders-append id before due rest in omega (arith, ih)

  contains-keep :
      (ids xs : List String) (id : String)
      → contains (keep (λ x. not (contains ids x)) xs) id
        ≡ (contains xs id && not (contains ids id))
  unfolding keep contains
  contains-keep ids [] id = refl
  contains-keep ids (x ∷ xs) id =
      let ih = contains-keep ids xs id in
      elim (Bool-cases (x == id)) [
        | inl same ↦
            let e : contains ids x ≡ contains ids id = ap (contains ids) ((eq_iff x id).0 same) in
            ground (arith, ih, same, e)
        | inr other ↦ ground (arith, ih, other)
      ]

  -- Whatever the callers of a monitor that began without claims do, in whatever order and at
  -- whatever times, every endpoint is held by at most one of the callers that are probing, and it
  -- is marked as being polled exactly while one holds it: no claim contains an endpoint until the
  -- caller that holds it has given it back.
  pub claim-exclusive :
      {m : Monitor} {held : List (List ObservedRoute)}
      → Reached m held
      → (id : String) → holders id held ≡ (if contains m.polling id then 1 else 0)
  unfolding claim
  claim-exclusive (begins h) id = rw h (unfold contains in refl)
  claim-exclusive (claims {m} {held} r now routes) id =
      let ih = claim-exclusive r id in
      let app = contains-append (ids_of config (due_routes config now m routes)) m.polling id in
      elim (Bool-cases (contains m.polling id)) [
        | inl polled ↦ ground (arith, ih, app, polled, due_routes-unclaimed now m routes id polled)
        | inr free ↦ ground (arith, ih, app, free)
      ]
  claim-exclusive (records {m} {m'} r registry route result now checked h) id =
      rw (polling-recorded registry route result now checked m m' h) (claim-exclusive r id)
  claim-exclusive (releases {m} before due rest r) id =
      let ih = claim-exclusive r id in
      let split = holders-append id before due rest in
      let left = contains-keep (ids_of config due) m.polling id in ground (arith, ih, split, left)
