-- ===== src/Autonomy/Policy.antt =====
-- supervisor/autonomy_policy.py: the profiles, and `_effective`. Reading and writing a time, and
-- SHA-256 over canonical JSON, belong to Python's library, and are parameters.
use fortifylab_archive.Authorization.Policy.{Moment, aware, naive}
use fortifylab_archive.Prelude.{
  Bool, List, Option, String, [], contains, false, if◌then◌else◌, leb, none, not, some, true, ℕ,
  ◌&&◌, ◌==◌, ◌∷◌,
}
use fortifylab_archive.Prelude.Exec.{Outcome, after, ok, or_error, raised}
use fortifylab_archive.Prelude.Table.{Table, put, select}

pub data Decision : Type 0 where
  automatic approval disabled : Decision

-- The values of a JSON document, as far as the checks tell them apart.
pub data Scalar : Type 0 where
  null : Scalar
  text : String → Scalar
  natural : ℕ → Scalar
  negative fraction sequence mapping : Scalar
  flag : Bool → Scalar

pub data Error : Type 0 where
  unknown_profile bad_generation bad_actions unknown_action unknown_decision : Error
  unsafe_combination expiry_required expiry_malformed expiry_naive expired : Error
  expiry_not_allowed type_error : Error
  not_regular not_owned too_open malformed unreadable not_object unknown_field : Error
  unsupported_schema : Error

abbrev pub schema_version : String
schema_version = "fortify.autonomy/v1alpha1"

abbrev pub actions : List String
actions =
    "start_next_issue" ∷ "close_completed_issue" ∷ "advance_milestone" ∷ "retry_idempotent_failure"
    ∷ "merge_pull_request" ∷ "destructive_operations" ∷ "secret_operations" ∷ "scope_changes" ∷ []

abbrev pub decision_names : Table Decision
decision_names = ("auto", automatic) ∷ ("approval", approval) ∷ ("disabled", disabled) ∷ []

abbrev pub protected_actions : List String
protected_actions = "destructive_operations" ∷ "secret_operations" ∷ "scope_changes" ∷ []

abbrev pub default_decisions : Decision → Decision → Table Decision
default_decisions usual merge =
    ("start_next_issue", usual)
    ∷ ("close_completed_issue", usual)
    ∷ ("advance_milestone", usual)
    ∷ ("retry_idempotent_failure", usual)
    ∷ ("merge_pull_request", merge)
    ∷ ("destructive_operations", approval)
    ∷ ("secret_operations", approval)
    ∷ ("scope_changes", approval)
    ∷ []

abbrev pub profile_defaults : Table (Table Decision)
profile_defaults =
    ("manual", default_decisions approval approval)
    ∷ ("assisted", default_decisions automatic approval)
    ∷ ("autonomous", default_decisions automatic automatic)
    ∷ []

-- `json.dumps` of this record, sorted, is what the digest is taken of.
pub record Canonical : Type 0 where
  pub profile : String
  pub generation : ℕ
  pub expires_at : Option String
  pub decisions : Table Decision

pub record EffectivePolicy : Type 0 where
  pub profile : String
  pub generation : ℕ
  pub decisions : Table Decision
  pub digest : String
  pub expires_at : Option String
  pub configured : Bool

-- `datetime.fromisoformat` after the replacement of `Z`, its inverse in UTC, and the digest.
pub record Clockwork : Type 0 where
  pub parse : String → Option Moment
  pub render : ℕ → String
  pub digest : Canonical → String

-- The arguments of `_effective`.
pub record Wish : Type 0 where
  pub profile : Scalar
  pub generation : Scalar
  pub overrides : Option (Table Scalar)
  pub expires_at : Scalar
  pub configured : Bool
  pub current_time : ℕ
  pub allow_expired : Bool

unfoldable pub decision : EffectivePolicy → String → Outcome Error (Option Decision)
unfolding contains select
decision policy action =
    if not (contains actions action)
    then raised unknown_action
    else ok (select action policy.decisions)

-- A key that Python cannot hash raises `TypeError`.
abbrev pub known_profile : Scalar → Outcome Error (String × Table Decision)
known_profile (text profile) =
    after (or_error (select profile profile_defaults) unknown_profile) (λ d. ok (profile, d))
known_profile sequence = raised type_error
known_profile mapping = raised type_error
known_profile _ = raised unknown_profile

abbrev pub known_generation : Scalar → Outcome Error ℕ
known_generation (natural n) = ok n
known_generation _ = raised bad_generation

unfoldable pub all_known : Table Scalar → Bool
unfolding contains
all_known [] = true
all_known ((action, _) ∷ rest) = contains actions action && all_known rest

abbrev pub decision_of : Scalar → Outcome Error Decision
decision_of (text name) = or_error (select name decision_names) unknown_decision
decision_of _ = raised unknown_decision

-- The loop over the overrides.
unfoldable pub override : Table Scalar → Table Decision → Outcome Error (Table Decision)
override [] decisions = ok decisions
override ((action, value) ∷ rest) decisions =
    after (decision_of value) (λ d. override rest (put action d decisions))

abbrev pub is_approval : Option Decision → Bool
is_approval (some approval) = true
is_approval _ = false

unfoldable pub all_protected : List String → Table Decision → Bool
unfolding select
all_protected [] decisions = true
all_protected (action ∷ rest) decisions =
    is_approval (select action decisions) && all_protected rest decisions

module _ (clockwork : Clockwork) where
  abbrev pub parsed_expiry : Option Moment → ℕ → Bool → Outcome Error (Option String)
  parsed_expiry none current_time allow_expired = raised expiry_malformed
  parsed_expiry (some (naive t)) current_time allow_expired = raised expiry_naive
  parsed_expiry (some (aware t)) current_time allow_expired =
      if leb t current_time && not allow_expired
      then raised expired
      else ok (some (clockwork.render t))

  abbrev pub given_expiry : Scalar → ℕ → Bool → Outcome Error (Option String)
  given_expiry (text stamp) current_time allow_expired =
      if stamp == ""
      then raised expiry_required
      else parsed_expiry (clockwork.parse stamp) current_time allow_expired
  given_expiry _ current_time allow_expired = raised expiry_required

  abbrev pub no_expiry : Scalar → Outcome Error (Option String)
  no_expiry null = ok none
  no_expiry _ = raised expiry_not_allowed

  unfoldable pub normalized_expiry : String → Scalar → ℕ → Bool → Outcome Error (Option String)
  normalized_expiry profile expires_at current_time allow_expired =
      if profile == "autonomous"
      then given_expiry expires_at current_time allow_expired
      else no_expiry expires_at

  abbrev pub policy_of : String → ℕ → Table Decision → Option String → Bool → EffectivePolicy
  policy_of profile generation decisions expiry configured = record {
    profile = profile;
    generation = generation;
    decisions = decisions;
    digest = clockwork.digest (record {
      profile = profile;
      generation = generation;
      expires_at = expiry;
      decisions = decisions;
    });
    expires_at = expiry;
    configured = configured;
  }

  -- The checks on the overrides, from the defaults of the profile on.
  unfoldable pub decided : Option (Table Scalar) → Table Decision → Outcome Error (Table Decision)
  unfolding override all_known all_protected put
  decided none defaults = raised bad_actions
  decided (some overrides) defaults =
      if not (all_known overrides)
      then raised unknown_action
      else after (override overrides defaults) (λ decisions.
        if all_protected protected_actions decisions
        then ok decisions
        else raised unsafe_combination)

  unfoldable pub effective : Wish → Outcome Error EffectivePolicy
  unfolding decided normalized_expiry
  effective wish = after (known_profile wish.profile) (λ known.
      after (known_generation wish.generation) (λ generation.
        after (decided wish.overrides known.1) (λ decisions.
          after (normalized_expiry known.0 wish.expires_at wish.current_time wish.allow_expired)
            (λ expiry. ok (policy_of known.0 generation decisions expiry wish.configured)))))

  unfoldable pub migration_policy : ℕ → Outcome Error EffectivePolicy
  unfolding effective
  migration_policy current_time = effective (record {
    profile = text "assisted";
    generation = natural 0;
    overrides = some [];
    expires_at = null;
    configured = false;
    current_time = current_time;
    allow_expired = false;
  })
