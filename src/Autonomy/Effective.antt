-- ===== src/Autonomy/Effective.antt =====
-- supervisor/autonomy_policy.py: what a policy that `_effective` returns was made of.
use fortifylab_archive.Authorization.Policy.{Moment, aware, naive}
use fortifylab_archive.Autonomy.Policy.{
  Clockwork, Decision, EffectivePolicy, Error, Scalar, Wish, decided, effective, given_expiry,
  known_generation, known_profile, natural, no_expiry, normalized_expiry, null, parsed_expiry,
  policy_of, profile_defaults, text,
}
use fortifylab_archive.Prelude.{
  Bool, Bool-cases, Option, Option-cases, String, arith, false, inl, inr, none, refl, some, subst,
  ℕ, ◌<◌, ◌==◌, ◌≡◌, ◌≢◌, ◌⊎◌,
}
use fortifylab_archive.Prelude.Exec.{Outcome, after, after-eq-ok, ok}
use fortifylab_archive.Prelude.Table.{Table, select}

-- The expiry of a policy, as the wish gives it.
abbrev pub ExpiresAs : Clockwork → Wish → EffectivePolicy → Type 0
ExpiresAs clockwork wish policy =
    ((policy.profile ≢ "autonomous") × (wish.expires_at ≡ null) × (policy.expires_at ≡ none))
    ⊎ ((stamp : String) × (t : ℕ) × (policy.profile ≡ "autonomous")
        × (wish.expires_at ≡ text stamp)
        × (clockwork.parse stamp ≡ some (aware t))
        × (policy.expires_at ≡ some (clockwork.render t))
        × (wish.allow_expired ≡ false → wish.current_time < t))

parsed_expiry-ok :
    (clockwork : Clockwork) (found : Option Moment) (at : ℕ) (allow : Bool) (e : Option String)
    → parsed_expiry clockwork found at allow ≡ ok e
    → (t : ℕ) × (found ≡ some (aware t))
      × (e ≡ some (clockwork.render t))
      × (allow ≡ false → at < t)
parsed_expiry-ok clockwork none at allow e h = absurd (cc)
parsed_expiry-ok clockwork (some (naive t)) at allow e h = absurd (cc)
parsed_expiry-ok clockwork (some (aware t)) at allow e h =
    (t, refl, ground (arith, h), λ strict. ground (arith, h, strict))

pub given_expiry-ok :
    (clockwork : Clockwork) (value : Scalar) (at : ℕ) (allow : Bool) (e : Option String)
    → given_expiry clockwork value at allow ≡ ok e
    → (stamp : String) × (t : ℕ) × (value ≡ text stamp)
      × (clockwork.parse stamp ≡ some (aware t))
      × (e ≡ some (clockwork.render t))
      × (allow ≡ false → at < t)
given_expiry-ok clockwork (text stamp) at allow e h = elim (Bool-cases (stamp == "")) [
  | inl empty ↦ absurd (ground (arith, h, empty))
  | inr given ↦
      let (t, parses, renders, later) =
        parsed_expiry-ok clockwork (clockwork.parse stamp) at allow e (
          let k : parsed_expiry clockwork (clockwork.parse stamp) at allow ≡ ok e =
            ground (arith, h, given) in
          k) in
      (stamp, t, refl, parses, renders, later)
]
given_expiry-ok clockwork v at allow e h = absurd (cc)

pub no_expiry-ok :
    (clockwork : Clockwork) (value : Scalar) (e : Option String)
    → no_expiry clockwork value ≡ ok e
    → (value ≡ null) × (e ≡ none)
no_expiry-ok clockwork null e h = (refl, ground (arith, h))
no_expiry-ok clockwork v e h = absurd (cc)

known_profile-ok :
    (value : Scalar) (known : String × Table Decision)
    → known_profile value ≡ ok known
    → (value ≡ text known.0) × (select known.0 profile_defaults ≡ some known.1)
known_profile-ok (text profile) known h = elim (Option-cases (select profile profile_defaults)) [
  | inl missing ↦ absurd (ground (arith, h, missing))
  | inr (d, found) ↦
      let same : (profile, d) ≡ known = ground (arith, h, found) in
      subst (λ k. (text profile ≡ text k.0) × (select k.0 profile_defaults ≡ some k.1)) same
        (refl, found)
]
known_profile-ok v known h = absurd (cc)

-- The parts of an effective policy, and where they come from.
pub record Made (clockwork : Clockwork) (wish : Wish) (policy : EffectivePolicy) : Type 0 where
  pub before : Table Decision
  pub named : wish.profile ≡ text policy.profile
  pub profiled : select policy.profile profile_defaults ≡ some before
  pub numbered : wish.generation ≡ natural policy.generation
  pub decides : decided clockwork wish.overrides before ≡ ok policy.decisions
  pub expires :
      normalized_expiry clockwork policy.profile wish.expires_at wish.current_time
        wish.allow_expired
      ≡ ok policy.expires_at
  pub whole :
      policy
      ≡ policy_of clockwork policy.profile policy.generation policy.decisions policy.expires_at
          wish.configured

known_generation-ok : (value : Scalar) (n : ℕ) → known_generation value ≡ ok n → value ≡ natural n
known_generation-ok (natural m) n h = ground (arith, h)
known_generation-ok v n h = absurd (cc)

pub effective-Made :
    (clockwork : Clockwork) (wish : Wish) (policy : EffectivePolicy)
    → effective clockwork wish ≡ ok policy
    → Made clockwork wish policy
unfolding effective
effective-Made clockwork wish policy h =
    let expiring : String × Table Decision
        → ℕ
        → Table Decision
        → Option String
        → Outcome Error EffectivePolicy =
      λ known generation decisions expiry.
        ok (policy_of clockwork known.0 generation decisions expiry wish.configured) in
    let deciding : String × Table Decision → ℕ → Table Decision → Outcome Error EffectivePolicy =
      λ known generation decisions.
        after
          (normalized_expiry clockwork known.0 wish.expires_at wish.current_time wish.allow_expired)
          (expiring known generation decisions) in
    let counting : String × Table Decision → ℕ → Outcome Error EffectivePolicy = λ known generation.
      after (decided clockwork wish.overrides known.1) (deciding known generation) in
    let (known, a, h1) =
      after-eq-ok (known_profile wish.profile)
        (λ known. after (known_generation wish.generation) (counting known)) h in
    let (generation, b, h2) = after-eq-ok (known_generation wish.generation) (counting known) h1 in
    let (decisions, c, h3) =
      after-eq-ok (decided clockwork wish.overrides known.1) (deciding known generation) h2 in
    let (expiry, d, h4) =
      after-eq-ok
        (normalized_expiry clockwork known.0 wish.expires_at wish.current_time wish.allow_expired)
        (expiring known generation decisions) h3 in
    let same : policy_of clockwork known.0 generation decisions expiry wish.configured ≡ policy =
      ground (arith, h4) in
    let (e, f) = known_profile-ok wish.profile known a in
    subst (Made clockwork wish) same (record {
      before = known.1;
      named = e;
      profiled = f;
      numbered = known_generation-ok wish.generation generation b;
      decides = c;
      expires = d;
      whole = refl;
    })
