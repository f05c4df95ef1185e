-- ===== src/Availability/Answering.antt =====
-- manager/availability.py: what a probe has seen when it calls a service reachable.
use Prim.Native.Char.{code}
use fortifylab_archive.Availability.Probe.{
  Network, ObservedRoute, Reply, is_expected, of_addresses, of_reply, probe, reachable, refused,
  status, untrusted, within_set,
}
use fortifylab_archive.Prelude.{
  Bool, Bool-cases, List, Option-cases, String, [], ap, arith, contains, eq_iff, false, false≢true,
  inl, inr, ltb, refl, some, subst, sym, true, ℕ, ◌<◌, ◌==◌, ◌↔◌, ◌∙◌, ◌∷◌, ◌≡◌, ◌≤◌, ◌⊎◌,
}

-- No address is configured, or the resolved addresses are the configured ones, in whatever order
-- and however often each is listed.
abbrev pub Matches : List String → List String → Type 0
Matches resolved addresses =
    (addresses ≡ []) ⊎ ((a : String) → contains resolved a ≡ contains addresses a)

within_set-contains :
    (xs ys : List String)
    → (within_set xs ys ≡ true) ↔ ((a : String) → contains xs a ≡ true → contains ys a ≡ true)
unfolding within_set contains
within_set-contains [] ys = ((λ h a k. absurd (false≢true k)), (λ h. refl))
within_set-contains (x ∷ xs) ys =
    let ih = within_set-contains xs ys in
    (
      (λ h a k. elim (Bool-cases (x == a)) [
        | inl same ↦
            let e : x ≡ a = (eq_iff x a).0 same in
            subst (λ z. contains ys z ≡ true) e (ground (arith, h))
        | inr other ↦ ih.0 (ground (arith, h)) a (ground (arith, k, other))
      ]),
      (λ h.
          let here : contains ys x ≡ true = h x (ground (arith, (eq_iff x x).1 refl)) in
          let there : within_set xs ys ≡ true = ih.1 (λ a k. h a (ground (arith, k))) in
          ground (arith, here, there)),
    )

same_truth : (p q : Bool) → (p ≡ true → q ≡ true) → (q ≡ true → p ≡ true) → p ≡ q
same_truth true q h k = sym (h refl)
same_truth false true h k = k refl
same_truth false false h k = refl

is_expected-Matches :
    (resolved addresses : List String)
    → (is_expected resolved addresses ≡ true) ↔ Matches resolved addresses
is_expected-Matches resolved [] = ((λ h. inl refl), (λ h. refl))
is_expected-Matches resolved (b ∷ bs) =
    let there = within_set-contains resolved (b ∷ bs) in
    let back = within_set-contains (b ∷ bs) resolved in
    (
      (λ h. inr (λ a.
          same_truth (contains resolved a) (contains (b ∷ bs) a) (there.0 (ground (arith, h)) a)
            (back.0 (ground (arith, h)) a))),
      (λ h. elim h [
        | inl empty ↦ absurd (cc)
        | inr same ↦
            let l : within_set resolved (b ∷ bs) ≡ true = there.1 (λ a k. sym (same a) ∙ k) in
            let r : within_set (b ∷ bs) resolved ≡ true = back.1 (λ a k. same a ∙ k) in
            ground (arith, l, r)
      ]),
    )

-- What a probe has to have seen to call a service reachable.
abbrev pub Answers : ObservedRoute → Network → Type 0
Answers route network =
    (resolved : List String) × (code : ℕ) × (network.resolved ≡ some resolved)
    × Matches resolved route.addresses
    × (network.reply ≡ status code)
    × (code < 300 ⊎ ((400 ≤ code) × (code < 500)))

reply-reachable :
    (route : ObservedRoute) (latency : ℕ) (reply : Reply)
    → (of_reply route latency reply).state ≡ reachable
    → (code : ℕ) × (reply ≡ status code) × (code < 300 ⊎ ((400 ≤ code) × (code < 500)))
reply-reachable route latency untrusted h = absurd (cc)
reply-reachable route latency refused h = absurd (cc)
reply-reachable route latency (status code) h = elim (Bool-cases (ltb code 300)) [
  | inl low ↦ (code, refl, inl (ground (arith, low)))
  | inr high ↦ (code, refl, inr (ground (arith, h, high), ground (arith, h, high)))
]

reachable-reply :
    (route : ObservedRoute) (latency code : ℕ)
    → code < 300 ⊎ ((400 ≤ code) × (code < 500))
    → (of_reply route latency (status code)).state ≡ reachable
reachable-reply route latency code (inl low) = ground (arith, low)
reachable-reply route latency code (inr (least, most)) = ground (arith, least, most)

-- A service is called reachable exactly if its name resolved, to the same set of addresses as the
-- configured ones where some are configured, and it answered with a status that is neither a
-- redirect nor a server error, that is below 300 or from 400 to 499.
pub probe-reachable :
    (route : ObservedRoute) (network : Network)
    → ((probe route network).state ≡ reachable) ↔ Answers route network
unfolding probe
probe-reachable route network = (
  (λ h. elim (Option-cases network.resolved) [
    | inl failed ↦ absurd (ground (arith, h, failed))
    | inr (resolved, e) ↦ elim (Bool-cases (is_expected resolved route.addresses)) [
      | inr other ↦ absurd (ground (arith, h, e, other))
      | inl expected ↦
          let (code, replied, range) = reply-reachable route network.latency_ms network.reply (
            let k : (of_reply route network.latency_ms network.reply).state ≡ reachable =
              ground (arith, h, e, expected) in
            k) in
          (
            resolved,
            code,
            e,
            (is_expected-Matches resolved route.addresses).0 expected,
            replied,
            range,
          )
    ]
  ]),
  (λ (resolved, code, e, matching, replied, range).
      let expected = (is_expected-Matches resolved route.addresses).1 matching in
      ap (λ r. (of_addresses route network.latency_ms network.reply r).state) e
      ∙ rw expected (
          ap (λ r. (of_reply route network.latency_ms r).state) replied
          ∙ reachable-reply route network.latency_ms code range)),
)
