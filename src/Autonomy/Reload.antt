-- ===== src/Autonomy/Reload.antt =====
-- supervisor/autonomy_policy.py: a policy file that `replace_policy` writes is read back.
use fortifylab_archive.Authorization.Policy.{aware}
use fortifylab_archive.Autonomy.Effective.{ExpiresAs, Made, effective-Made}
use fortifylab_archive.Autonomy.Files.{
  PolicyFile, checked_document, installed, known_fields, load_policy, replace_policy, stamp_of,
  wish_of,
}
use fortifylab_archive.Autonomy.Guarantees.{expires-ExpiresAs}
use fortifylab_archive.Autonomy.Policy.{
  Clockwork, EffectivePolicy, Error, Scalar, Wish, decided, effective, expired, natural,
  normalized_expiry, null, policy_of, text,
}
use fortifylab_archive.Prelude.{
  Bool-cases, Option, String, [], ap, arith, contains, eq_iff, false, if◌then◌else◌, inl, inr, leb,
  none, refl, some, subst, sym, true, ℕ, ◌<◌, ◌==◌, ◌∙◌, ◌≡◌, ◌≢◌, ◌⊎◌,
}
use fortifylab_archive.Prelude.Exec.{Outcome, after, after-eq-ok, ok, raised}
use fortifylab_archive.Prelude.Table.{select}

module _ (clockwork : Clockwork)
    (inverse : (t : ℕ) → clockwork.parse (clockwork.render t) ≡ some (aware t))
    (nonempty : (t : ℕ) → (clockwork.render t == "") ≡ false) where
  reloaded :
      (wish : Wish) (policy : EffectivePolicy) (stamp : Scalar) (at : ℕ)
      (expiry : Outcome Error (Option String))
      → Made clockwork wish policy
      → wish.overrides ≡ some []
      → normalized_expiry clockwork policy.profile stamp at false ≡ expiry
      → effective clockwork (record {
        profile = text policy.profile;
        generation = natural policy.generation;
        overrides = some [];
        expires_at = stamp;
        configured = true;
        current_time = at;
        allow_expired = false;
      })
        ≡ after expiry
            (λ e. ok (policy_of clockwork policy.profile policy.generation policy.decisions e true))
  unfolding effective
  reloaded wish policy stamp at expiry m plain h =
      let decides : decided clockwork (some []) m.before ≡ ok policy.decisions =
        subst (λ o. decided clockwork o m.before ≡ ok policy.decisions) plain m.decides in
      rw m.profiled (rw decides (rw h refl))

  abbrev written_wish : EffectivePolicy → Scalar → ℕ → Wish
  written_wish policy stamp at = record {
    profile = text policy.profile;
    generation = natural policy.generation;
    overrides = some [];
    expires_at = stamp;
    configured = true;
    current_time = at;
    allow_expired = false;
  }

  load-installed :
      (policy : EffectivePolicy) (expiry : Option String) (at : ℕ)
      → load_policy clockwork
          (some (installed clockwork policy.profile policy.generation expiry))
          at
          false
        ≡ effective clockwork (written_wish policy (stamp_of clockwork expiry) at)
  unfolding load_policy checked_document known_fields contains wish_of select
  load-installed policy none at = refl
  load-installed policy (some stamp) at = refl

  abbrev Reloads : EffectivePolicy → PolicyFile → ℕ → Type 0
  Reloads policy file at =
      ((policy.expires_at ≡ none)
        × ((later : ℕ) → load_policy clockwork (some file) later false ≡ ok policy))
      ⊎ ((t : ℕ) × (policy.expires_at ≡ some (clockwork.render t))
          × (at < t)
          × ((later : ℕ)
              → load_policy clockwork (some file) later false
                ≡ (if leb t later then raised expired else ok policy)))

  written_expiry :
      (t later : ℕ)
      → normalized_expiry clockwork "autonomous" (text (clockwork.render t)) later false
        ≡ (if leb t later then raised expired else ok (some (clockwork.render t)))
  unfolding normalized_expiry
  written_expiry t later = rw (nonempty t) (rw (inverse t) (ground arith))

  unused_expiry :
      (profile : String) (later : ℕ)
      → profile ≢ "autonomous"
      → normalized_expiry clockwork profile null later false ≡ ok none
  unfolding normalized_expiry
  unused_expiry profile later other = elim (Bool-cases (profile == "autonomous")) [
    | inl same ↦ absurd (other ((eq_iff profile "autonomous").0 same))
    | inr differs ↦ rw differs refl
  ]

  rebuild :
      (wish : Wish) (policy : EffectivePolicy) (expiry : Option String)
      → Made clockwork wish policy
      → wish.configured ≡ true
      → policy.expires_at ≡ expiry
      → ◌≡◌ {A = Outcome Error EffectivePolicy}
          (ok (policy_of clockwork policy.profile policy.generation policy.decisions expiry true))
          (ok policy)
  rebuild wish policy expiry m set same =
      ap (λ e. ok (policy_of clockwork policy.profile policy.generation policy.decisions e true))
        (sym same)
      ∙ ap
          (λ c. ok (
            policy_of clockwork policy.profile policy.generation policy.decisions policy.expires_at
              c))
          (sym set)
      ∙ ap ok (sym m.whole)

  by_time :
      (t later : ℕ) (policy : EffectivePolicy)
      → ◌≡◌ {A = Outcome Error EffectivePolicy}
          (ok (
            policy_of clockwork policy.profile policy.generation policy.decisions
              (some (clockwork.render t))
              true))
          (ok policy)
      → after {A = Option String}
          (if leb t later then raised expired else ok (some (clockwork.render t)))
          (λ e. ok (policy_of clockwork policy.profile policy.generation policy.decisions e true))
        ≡ (if leb t later then raised expired else ok policy)
  by_time t later policy same = elim (Bool-cases (leb t later)) [
    | inl over ↦ rw over refl
    | inr live ↦ rw live same
  ]

  by_expiry :
      (wish : Wish) (policy : EffectivePolicy) (file : PolicyFile) (at : ℕ)
      → Made clockwork wish policy
      → file ≡ installed clockwork policy.profile policy.generation policy.expires_at
      → wish.overrides ≡ some []
      → wish.configured ≡ true
      → wish.allow_expired ≡ false
      → wish.current_time ≡ at
      → ExpiresAs clockwork wish policy
      → Reloads policy file at
  by_expiry wish policy file at m wrote plain set strict time (inl (other, _, missing)) = inl (
    missing,
    λ later.
        ap (λ f. load_policy clockwork (some f) later false) wrote
        ∙ load-installed policy policy.expires_at later
        ∙ ap (λ e. effective clockwork (written_wish policy (stamp_of clockwork e) later)) missing
        ∙ reloaded wish policy null later (ok none) m plain
            (unused_expiry policy.profile later other)
        ∙ rebuild wish policy none m set missing,
  )
  by_expiry wish policy file at m wrote plain set strict time
        (inr (stamp, t, autonomous, given, parses, renders, future)) =
      inr (
        t,
        renders,
        subst (λ n. n < t) time (future strict),
        λ later.
            ap (λ f. load_policy clockwork (some f) later false) wrote
            ∙ load-installed policy policy.expires_at later
            ∙ ap (λ e. effective clockwork (written_wish policy (stamp_of clockwork e) later))
                renders
            ∙ reloaded wish policy (text (clockwork.render t)) later
                (if leb t later then raised expired else ok (some (clockwork.render t))) m plain
                (subst
                  (λ k.
                    normalized_expiry clockwork k (text (clockwork.render t)) later false
                    ≡ (if leb t later then raised expired else ok (some (clockwork.render t))))
                  (sym autonomous) (written_expiry t later))
            ∙ by_time t later policy
                (rebuild wish policy (some (clockwork.render t)) m set renders),
      )

  -- The file that a replacement writes gives back the policy that was returned: at every time, if
  -- the policy has no expiry; and up to its expiry, if it has one, from which on it is refused.
  pub load-replace :
      (profile : String) (generation : ℕ) (expires_at : Option String) (at : ℕ)
      (policy : EffectivePolicy) (file : PolicyFile)
      → replace_policy clockwork profile generation expires_at at ≡ ok (policy, file)
      → ((policy.expires_at ≡ none)
          × ((later : ℕ) → load_policy clockwork (some file) later false ≡ ok policy))
        ⊎ ((t : ℕ) × (policy.expires_at ≡ some (clockwork.render t))
            × (at < t)
            × ((later : ℕ)
                → load_policy clockwork (some file) later false
                  ≡ (if leb t later then raised expired else ok policy)))
  unfolding replace_policy
  load-replace profile generation expires_at at policy file h =
      let wish : Wish = record {
        profile = text profile;
        generation = natural generation;
        overrides = some [];
        expires_at = stamp_of clockwork expires_at;
        configured = true;
        current_time = at;
        allow_expired = false;
      } in
      let (p, made, h') =
        after-eq-ok (effective clockwork wish)
          (λ p. ok (p, installed clockwork profile generation p.expires_at)) h in
      let same : p ≡ policy = ground (arith, h') in
      let m : Made clockwork wish policy =
        effective-Made clockwork wish policy (made ∙ ap ok same) in
      let name : profile ≡ policy.profile = ground (arith, m.named) in
      let number : generation ≡ policy.generation = ground (arith, m.numbered) in
      let wrote : installed clockwork profile generation p.expires_at ≡ file = ground (arith, h') in
      let rebuilt : file ≡ installed clockwork policy.profile policy.generation policy.expires_at =
        sym wrote ∙ (λ i. installed clockwork (name i) (number i) (same i).expires_at) in
      by_expiry wish policy file at m rebuilt refl refl refl refl
        (expires-ExpiresAs clockwork wish policy m)
