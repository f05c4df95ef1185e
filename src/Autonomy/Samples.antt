-- ===== src/Autonomy/Samples.antt =====
-- supervisor/autonomy_policy.py: policies, and files that hold them.
use fortifylab_archive.Authorization.Policy.{Moment, aware}
use fortifylab_archive.Autonomy.Effective.{ExpiresAs}
use fortifylab_archive.Autonomy.Files.{
  PolicyFile, checked_document, installed, known_fields, load_policy, replace_policy, wish_of,
}
use fortifylab_archive.Autonomy.Guarantees.{effective_guards}
use fortifylab_archive.Autonomy.Policy.{
  Clockwork, EffectivePolicy, Wish, all_known, all_protected, approval, automatic, decided,
  default_decisions, disabled, effective, expired, natural, normalized_expiry, override, policy_of,
  protected_actions, sequence, text, type_error, unsafe_combination,
}
use fortifylab_archive.Autonomy.Reload.{load-replace}
use fortifylab_archive.Autonomy.Safety.{HasAll}
use fortifylab_archive.Prelude.{
  All, Bool-cases, Option, String, [], ap, arith, contains, eq_iff, false, if◌then◌else◌, inl, inr,
  leb, none, refl, some, suc, true, zero, ℕ, ◌<◌, ◌==◌, ◌∷◌, ◌≡◌, ◌⊎◌,
}
use fortifylab_archive.Prelude.Exec.{ok, raised}
use fortifylab_archive.Prelude.Table.{put, select}

-- Times in unary notation, after a mark.
tally : ℕ → String
tally zero = String.[]
tally (suc n) = String.◌∷◌ "|" (tally n)

tallied : String → ℕ
tallied String.[] = 0
tallied (String.◌∷◌ c s) = suc (tallied s)

abbrev parse_tally : String → Option Moment
parse_tally String.[] = none
parse_tally (String.◌∷◌ c s) = some (aware (tallied s))

tallied-tally : (n : ℕ) → tallied (tally n) ≡ n
unfolding tally tallied
tallied-tally zero = refl
tallied-tally (suc n) = ap suc (tallied-tally n)

abbrev clockwork : Clockwork
clockwork = record {
  parse = parse_tally;
  render = λ t. tally (suc t);
  digest = λ canonical. canonical.profile;
}

inverse : (t : ℕ) → clockwork.parse (clockwork.render t) ≡ some (aware t)
unfolding tally
inverse t = ap (λ n. some (aware n)) (tallied-tally t)

nonempty : (t : ℕ) → (clockwork.render t == "") ≡ false
unfolding tally tallied
nonempty t = elim (Bool-cases (clockwork.render t == "")) [
  | inr differs ↦ differs
  | inl same ↦ absurd (
      let bad : suc (tallied (tally t)) ≡ 0 =
        ap tallied ((eq_iff (clockwork.render t) "").0 same) in
      omega (arith, bad))
]

-- A bold wish: the autonomous profile until the time 9, wished for at the time 5.
abbrev bold : Wish
bold = record {
  profile = text "autonomous";
  generation = natural 4;
  overrides = some (("close_completed_issue", text "disabled") ∷ []);
  expires_at = text (tally 10);
  configured = true;
  current_time = 5;
  allow_expired = false;
}

abbrev bold_policy : EffectivePolicy
bold_policy =
    policy_of clockwork "autonomous" 4
      (put "close_completed_issue" disabled (default_decisions automatic automatic))
      (some (tally 10)) true

program : Unit {0}
unfolding effective load_policy replace_policy checked_document known_fields wish_of select put
    contains tally tallied override all_known all_protected decided normalized_expiry
program = tt

bold_takes_effect : effective clockwork bold ≡ ok bold_policy
unfolding program
bold_takes_effect = refl

refusals :
    (effective clockwork (record bold { current_time = 9 }) ≡ raised expired)
    × (effective clockwork (record bold { overrides = some (("scope_changes", text "auto") ∷ []) })
        ≡ raised unsafe_combination)
    × (effective clockwork (record bold { profile = sequence }) ≡ raised type_error)
unfolding program
refusals = (refl, refl, refl)

effective_guards_example :
    All (λ a. select a bold_policy.decisions ≡ some approval) protected_actions
    × HasAll bold_policy.decisions
    × ExpiresAs clockwork bold bold_policy
effective_guards_example = effective_guards clockwork bold bold_policy bold_takes_effect

abbrev plain_policy : EffectivePolicy
plain_policy =
    policy_of clockwork "autonomous" 4 (default_decisions automatic automatic) (some (tally 10))
      true

abbrev plain_file : PolicyFile
plain_file = installed clockwork "autonomous" 4 (some (tally 10))

replaced :
    replace_policy clockwork "autonomous" 4 (some (tally 10)) 5 ≡ ok (plain_policy, plain_file)
unfolding program
replaced = refl

load-replace_example :
    ((plain_policy.expires_at ≡ none)
      × ((later : ℕ) → load_policy clockwork (some plain_file) later false ≡ ok plain_policy))
    ⊎ ((t : ℕ) × (plain_policy.expires_at ≡ some (clockwork.render t))
        × (5 < t)
        × ((later : ℕ)
            → load_policy clockwork (some plain_file) later false
              ≡ (if leb t later then raised expired else ok plain_policy)))
load-replace_example =
    load-replace clockwork inverse nonempty "autonomous" 4 (some (tally 10)) 5 plain_policy
      plain_file replaced
