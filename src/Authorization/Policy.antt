-- ===== src/Authorization/Policy.antt =====
-- manager/authorization.py: the risk policy, `ActorIdentity` and `OperationPlan`.
use Prim.Native.String.{count}
use fortifylab_archive.Prelude.{
  Bool, List, Option, String, [], contains, false, if◌then◌else◌, ltb, not, true, ℕ, ◌==◌, ◌||◌,
  ◌∷◌,
}
use fortifylab_archive.Prelude.Exec.{Outcome, ok, raised}
use fortifylab_archive.Prelude.Table.{Table, select}

pub data Risk : Type 0 where
  routine disruptive high : Risk

abbrev pub risk_by_operation : Table Risk
risk_by_operation =
    ("install", routine)
    ∷ ("configure", routine)
    ∷ ("start", routine)
    ∷ ("stop", disruptive)
    ∷ ("restart", disruptive)
    ∷ ("upgrade", high)
    ∷ ("uninstall", high)
    ∷ ("delete-data", high)
    ∷ ("replace-secret", high)
    ∷ []

-- `risk in APPROVAL_REQUIRED`
abbrev pub approval_required : Risk → Bool
approval_required routine = false
approval_required disruptive = true
approval_required high = true

abbrev pub risk_name : Risk → String
risk_name routine = "routine"
risk_name disruptive = "disruptive"
risk_name high = "high"

abbrev pub high_risk_sources : List String
high_risk_sources = "local-cli" ∷ "web" ∷ []

abbrev pub high_risk_confirmation : String
high_risk_confirmation = "AUTHORIZE HIGH-RISK OPERATION"

-- `AuthorizationError` with its message, `ApprovalUnavailable`, `ValueError`, and SQLite's
-- error on a second row with one primary key.
pub data Error : Type 0 where
  authorization_error : String → Error
  approval_unavailable value_error integrity_error : Error

-- A `datetime`, in microseconds since the epoch, with or without a time zone.
pub data Moment : Type 0 where
  aware naive : ℕ → Moment

abbrev pub is_naive : Moment → Bool
is_naive (aware _) = false
is_naive (naive _) = true

abbrev pub instant : Moment → ℕ
instant (aware t) = t
instant (naive t) = t

pub record ActorIdentity : Type 0 where
  pub actor : String
  pub source : String
  pub session_id : String
  pub authenticated_at : ℕ

-- The constructor with `__post_init__`.
unfoldable pub identify : String → String → String → Moment → Outcome Error ActorIdentity
unfolding contains
identify actor source session_id authenticated_at =
    if actor == ""
      || ltb 128 (count actor)
      || not (contains ("local-cli" ∷ "web" ∷ "telegram" ∷ []) source)
      || session_id == ""
      || ltb 128 (count session_id)
      || is_naive authenticated_at
    then raised value_error
    else ok (record {
      actor = actor;
      source = source;
      session_id = session_id;
      authenticated_at = instant authenticated_at;
    })

-- `current_state` is the mapping's items in key order, as `digest` sorts them.
pub record OperationPlan : Type 0 where
  pub operation : String
  pub targets : List String
  pub current_state : List (String × String)

-- `none` stands for the `AuthorizationError` that an operation with no policy raises.
unfoldable pub risk : OperationPlan → Option Risk
unfolding select
risk plan = select plan.operation risk_by_operation

abbrev pub no_policy : Error
no_policy = authorization_error "operation has no authorization policy"
