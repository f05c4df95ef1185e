-- ===== src/Autonomy/Guarantees.antt =====
-- supervisor/autonomy_policy.py: the guarantees of effective policies.
use fortifylab_archive.Autonomy.Effective.{
  ExpiresAs, Made, effective-Made, given_expiry-ok, no_expiry-ok,
}
use fortifylab_archive.Autonomy.Policy.{
  Clockwork, EffectivePolicy, Wish, approval, effective, given_expiry, no_expiry, normalized_expiry,
  protected_actions,
}
use fortifylab_archive.Autonomy.Safety.{HasAll, decided-guarantees, profile_defaults-HasAll}
use fortifylab_archive.Prelude.{
  All, Bool-cases, arith, eq_iff, false≢true, inl, inr, some, sym, ◌==◌, ◌∙◌, ◌≡◌,
}
use fortifylab_archive.Prelude.Exec.{ok}
use fortifylab_archive.Prelude.Table.{select}

pub expires-ExpiresAs :
    (clockwork : Clockwork) (wish : Wish) (policy : EffectivePolicy)
    → Made clockwork wish policy
    → ExpiresAs clockwork wish policy
unfolding normalized_expiry
expires-ExpiresAs clockwork wish policy m = elim (Bool-cases (policy.profile == "autonomous")) [
  | inl autonomous ↦
      let (stamp, t, given, parses, renders, later) =
        given_expiry-ok clockwork wish.expires_at wish.current_time wish.allow_expired
          policy.expires_at
          (let k : given_expiry clockwork wish.expires_at wish.current_time wish.allow_expired
                ≡ ok policy.expires_at =
              ground (arith, m.expires, autonomous) in
            k) in
      inr
        (stamp, t, (eq_iff policy.profile "autonomous").0 autonomous, given, parses, renders, later)
  | inr other ↦
      let (given, missing) = no_expiry-ok clockwork wish.expires_at policy.expires_at (
        let k : no_expiry clockwork wish.expires_at ≡ ok policy.expires_at =
          ground (arith, m.expires, other) in
        k) in
      inl (
        (λ e. absurd (false≢true (sym other ∙ (eq_iff policy.profile "autonomous").1 e))),
        given,
        missing,
      )
]

-- A policy that takes effect requires approval for every protected action and decides every
-- action. It has no expiry unless its profile is the autonomous one; that one has a time of expiry
-- with a time zone, which lies in the future unless expired policies are allowed.
pub effective_guards :
    (clockwork : Clockwork) (wish : Wish) (policy : EffectivePolicy)
    → effective clockwork wish ≡ ok policy
    → All (λ a. select a policy.decisions ≡ some approval) protected_actions
      × HasAll policy.decisions
      × ExpiresAs clockwork wish policy
effective_guards clockwork wish policy h =
    let m : Made clockwork wish policy = effective-Made clockwork wish policy h in
    let (protected, still) =
      decided-guarantees clockwork wish.overrides m.before policy.decisions m.decides in
    let (a, (b, (c, (d, (e, (f, (g, (i, _)))))))) =
      profile_defaults-HasAll policy.profile m.before m.profiled in
    (
      protected,
      (
        still "start_next_issue" a,
        (
          still "close_completed_issue" b,
          (
            still "advance_milestone" c,
            (
              still "retry_idempotent_failure" d,
              (
                still "merge_pull_request" e,
                (
                  still "destructive_operations" f,
                  (still "secret_operations" g, (still "scope_changes" i, tt)),
                ),
              ),
            ),
          ),
        ),
      ),
      expires-ExpiresAs clockwork wish policy m,
    )
