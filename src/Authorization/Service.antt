-- ===== src/Authorization/Service.antt =====
-- manager/authorization.py: `AuthorizationService`. A method that loads a document and then
-- decides is written as the two parts, since other threads may change the ledger in between.
use fortifylab_archive.Authorization.Ledger.{
  Action, ApprovalState, Document, append_audit, approval, approved, consumed, insert, pending,
  revoked, state_eq, transition,
}
use fortifylab_archive.Authorization.Policy.{
  ActorIdentity, Moment, OperationPlan, Risk, approval_required, approval_unavailable,
  authorization_error, aware, high, high_risk_confirmation, high_risk_sources, naive, no_policy,
  risk, risk_name, value_error,
}
use fortifylab_archive.Prelude.{
  Bool, List, Option, String, contains, false, if◌then◌else◌, leb, ltb, none, not, some, suc, true,
  ℕ, ◌+◌, ◌==◌, ◌||◌,
}
use fortifylab_archive.Prelude.Exec.{expect, ok, pure, raise, raised, ◌>>=◌, ◌>>◌}

-- The constructor's arguments. `clock n` is what the n-th call of the clock returns; `digest` is
-- SHA-256 over the canonical JSON of a plan's operation, targets and sorted state.
pub record Service : Type 0 where
  pub clock : ℕ → Moment
  pub ttl : ℕ
  pub reauthentication_age : ℕ
  pub digest : OperationPlan → String

-- What the state provider does when it is called; `absent` if there is none.
pub data Provider : Type 0 where
  absent fails : Provider
  answers : List (String × String) → Provider

abbrev read_clock : Moment → Action ℕ
read_clock (naive _) l = (raised value_error, record l { reads = suc l.reads })
read_clock (aware t) l = (ok t, record l { reads = suc l.reads })

unfoldable pub confirmed : Option String → Bool
confirmed none = false
confirmed (some text) = text == high_risk_confirmation

module _ (service : Service) where
  unfoldable pub now : Action ℕ
  now l = read_clock (service.clock l.reads) l

  unfoldable pub audit : Option String → String → String → String → String → Action Unit
  unfolding now append_audit
  audit approval_id action actor outcome reason = do
    at ← now
    append_audit (record {
      at = at;
      approval_id = approval_id;
      action = action;
      actor = actor;
      outcome = outcome;
      reason = reason;
    })

  -- The document that `request` builds; `fresh` is the identifier that `uuid.uuid4` returns.
  abbrev pub drafted : OperationPlan → ActorIdentity → String → ℕ → Risk → Document
  drafted plan identity fresh at level = record {
    id = fresh;
    state = pending;
    actor = identity.actor;
    source = identity.source;
    session_id = identity.session_id;
    risk = level;
    operation = plan.operation;
    targets = plan.targets;
    plan_digest = service.digest plan;
    created_at = at;
    expires_at = at + service.ttl;
    decided_at = none;
    consumed_at = none;
    revoked_at = none;
  }

  unfoldable pub request : OperationPlan → ActorIdentity → String → Action Document
  unfolding now audit
  request plan identity fresh = do
    at ← now
    level ← expect (risk plan) no_policy
    insert (drafted plan identity fresh at level)
    audit (some fresh) "request" identity.actor "accepted" (risk_name level)
    pure (drafted plan identity fresh at level)

  unfoldable pub high_risk_reason : Risk → ActorIdentity → ℕ → Option String → Option String
  unfolding contains
  high_risk_reason high identity at confirmation =
      if not (contains high_risk_sources identity.source)
      then some "high-risk approval requires local CLI or Web UI"
      else if ltb (identity.authenticated_at + service.reauthentication_age) at
      then some "high-risk approval requires fresh authentication"
      else if not (confirmed confirmation)
      then some "high-risk confirmation did not match"
      else none
  high_risk_reason _ identity at confirmation = none

  -- `none` is the code's `None`: nothing speaks against the decision.
  unfoldable pub decision_reason : Document → ActorIdentity → ℕ → Option String → Option String
  unfolding state_eq
  decision_reason document identity at confirmation =
      if not (state_eq document.state pending)
      then some "approval is no longer pending"
      else if leb document.expires_at at
      then some "approval has expired"
      else if not (document.actor == identity.actor)
          || not (document.session_id == identity.session_id)
      then some "approval actor or session does not match"
      else high_risk_reason document.risk identity at confirmation

  unfoldable pub consumption_reason : Document → OperationPlan → ActorIdentity → ℕ → Option String
  unfolding state_eq
  consumption_reason document plan identity at =
      if not (state_eq document.state approved)
      then some "approval is not approved"
      else if leb document.expires_at at
      then some "approval has expired"
      else if not (document.actor == identity.actor)
          || not (document.session_id == identity.session_id)
      then some "approval actor or session does not match"
      else if not (document.source == identity.source)
      then some "approval source does not match"
      else if not (document.plan_digest == service.digest plan)
      then some "operation plan or current state changed"
      else none

  -- The audit entry of a refusal, and the `AuthorizationError`.
  unfoldable pub deny : Option String → String → ActorIdentity → String → String → Action Unit
  unfolding audit
  deny approval_id action identity reason message = do
    audit approval_id action identity.actor "denied" reason
    raise (authorization_error message)

  -- `if reason: audit; raise`.
  refuse_on : Option String → String → String → ActorIdentity → Action Unit
  unfolding deny
  refuse_on none approval_id action identity = pure tt
  refuse_on (some reason) approval_id action identity =
      deny (some approval_id) action identity reason reason

  -- `approve` from the point where it has loaded the document.
  unfoldable pub approve_loaded :
      String → ActorIdentity → Option String → Document → Action Document
  unfolding now refuse_on transition deny audit
  approve_loaded approval_id identity confirmation document = do
    at ← now
    refuse_on (decision_reason document identity at confirmation) approval_id "approve" identity
    let decided : Document = record document { state = approved; decided_at = some at }
    done ← transition approval_id pending approved decided
    if done
        then pure tt
        else deny (some approval_id) "approve" identity "not pending"
            "approval is no longer pending"
    audit (some approval_id) "approve" identity.actor "accepted" (risk_name decided.risk)
    pure decided

  unfoldable pub approve : String → ActorIdentity → Option String → Action Document
  approve approval_id identity confirmation = do
    document ← approval approval_id
    approve_loaded approval_id identity confirmation document

  abbrev revocable : ApprovalState → Bool
  revocable pending = true
  revocable approved = true
  revocable _ = false

  unfoldable pub revoke_loaded : String → ActorIdentity → Document → Action Document
  unfolding now transition deny audit
  revoke_loaded approval_id identity document = do
    if document.actor == identity.actor
        then pure tt
        else deny (some approval_id) "revoke" identity "actor mismatch"
            "approval actor does not match"
    if revocable document.state
        then pure tt
        else raise (authorization_error "approval can no longer be revoked")
    at ← now
    let ended : Document = record document { state = revoked; revoked_at = some at }
    done ← transition approval_id document.state revoked ended
    if done then pure tt else raise (authorization_error "approval state changed concurrently")
    audit (some approval_id) "revoke" identity.actor "accepted" "revoked"
    pure ended

  unfoldable pub revoke : String → ActorIdentity → Action Document
  revoke approval_id identity = do
    document ← approval approval_id
    revoke_loaded approval_id identity document

  provided : Provider → OperationPlan → String → ActorIdentity → Action (List (String × String))
  unfolding audit
  provided absent plan approval_id identity = pure plan.current_state
  provided (answers state) plan approval_id identity = pure state
  provided fails plan approval_id identity = do
    audit (some approval_id) "authorize" identity.actor "denied" "state unavailable"
    raise approval_unavailable

  -- `authorize` from the point where it has the approval and the current state of the targets.
  unfoldable pub consume : OperationPlan → ActorIdentity → String → Risk → Document → Action Unit
  unfolding now audit refuse_on transition deny
  consume current identity approval_id level document = do
    at ← now
    refuse_on (consumption_reason document current identity at) approval_id "authorize" identity
    consumed_at ← now
    done ←
        transition approval_id approved consumed
          (record document { state = consumed; consumed_at = some consumed_at })
    if done
        then pure tt
        else deny (some approval_id) "authorize" identity "replay"
            "approval was already consumed or changed"
    audit (some approval_id) "authorize" identity.actor "accepted" (risk_name level)

  -- `authorize` from the point where it has loaded the approval.
  unfoldable pub authorize_loaded :
      OperationPlan → ActorIdentity → String → Provider → Risk → Document → Action Unit
  unfolding provided
  authorize_loaded plan identity approval_id provider level document = do
    state ← provided provider plan approval_id identity
    consume (record plan { current_state = state }) identity approval_id level document

  authorize_required : OperationPlan → ActorIdentity → Option String → Provider → Risk → Action Unit
  authorize_required plan identity none provider level =
      deny none "authorize" identity "approval required" "operation requires approval"
  authorize_required plan identity (some approval_id) provider level = do
    document ← approval approval_id
    authorize_loaded plan identity approval_id provider level document

  unfoldable pub authorize : OperationPlan → ActorIdentity → Option String → Provider → Action Unit
  unfolding authorize_required
  authorize plan identity approval_id provider = do
    level ← expect (risk plan) no_policy
    if approval_required level
        then authorize_required plan identity approval_id provider level
        else audit none "authorize" identity.actor "accepted" (risk_name level)
