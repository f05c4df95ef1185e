-- ===== src/Authorization/Consumption.antt =====
-- manager/authorization.py: what a successful `authorize` needs and what it leaves in the ledger.
use fortifylab_archive.Authorization.Ledger.{Document, Ledger, Row, approved, consumed, state_eq}
use fortifylab_archive.Authorization.Policy.{ActorIdentity, OperationPlan, Risk, instant}
use fortifylab_archive.Authorization.Service.{
  Provider, Service, answers, consume, consumption_reason,
}
use fortifylab_archive.Prelude.{
  Option-cases, String, arith, eq_iff, inl, inr, none, some, suc, ℕ, ◌<◌, ◌≡◌, ◌≢◌,
}
use fortifylab_archive.Prelude.Exec.{ok}
use fortifylab_archive.Prelude.Table.{select, update}

-- The state that a plan is checked against.
abbrev pub observed : Provider → OperationPlan → OperationPlan
observed (answers state) plan = record plan { current_state = state }
observed _ plan = plan

-- What the loaded approval says of the caller and the plan at the time of the check.
pub record Permits (service : Service) (plan : OperationPlan) (identity : ActorIdentity) (at : ℕ)
    (document : Document) : Type 0 where
  pub granted : document.state ≡ approved
  pub in_time : at < document.expires_at
  pub same_actor : document.actor ≡ identity.actor
  pub same_session : document.session_id ≡ identity.session_id
  pub same_source : document.source ≡ identity.source
  pub same_plan : document.plan_digest ≡ service.digest plan

module _ (service : Service) where
  consumption_reason-Permits :
      (document : Document) (plan : OperationPlan) (identity : ActorIdentity) (at : ℕ)
      → consumption_reason service document plan identity at ≡ none
      → Permits service plan identity at document
  unfolding consumption_reason state_eq
  consumption_reason-Permits document plan identity at h = ground (
    arith,
    eq_iff document.actor identity.actor,
    eq_iff document.session_id identity.session_id,
    eq_iff document.source identity.source,
    eq_iff document.plan_digest (service.digest plan),
  )

  -- What a successful `consume` did.
  pub record Consumes (plan : OperationPlan) (identity : ActorIdentity) (id : String)
      (document : Document) (l l' : Ledger) : Type 0 where
    pub at : ℕ
    pub permitted : Permits service plan identity at document
    pub consumed_at : ℕ
    pub row : Row
    pub stored : select id l.approvals ≡ some row
    pub was_approved : row.column ≡ approved
    pub written :
        l'.approvals
        ≡ update id
            (record {
              column = consumed;
              payload = record document { state = consumed; consumed_at = some consumed_at };
            })
            l.approvals

  abbrev pub at_first : Ledger → ℕ
  at_first l = instant (service.clock l.reads)

  abbrev pub at_second : Ledger → ℕ
  at_second l = instant (service.clock (suc l.reads))

  consume_facts :
      (plan : OperationPlan) (identity : ActorIdentity) (id : String) (level : Risk)
      (document : Document) (l l' : Ledger) (row : Row)
      → select id l.approvals ≡ some row
      → consume service plan identity id level document l ≡ (ok tt, l')
      → (consumption_reason service document plan identity (at_first l) ≡ none)
        × (row.column ≡ approved)
        × (l'.approvals
            ≡ update id
                (record {
                  column = consumed;
                  payload = record document { state = consumed; consumed_at = some (at_second l) };
                })
                l.approvals)
  unfolding consume
  consume_facts plan identity id level document l l' row stored h = ground arith

  consume_missing :
      (plan : OperationPlan) (identity : ActorIdentity) (id : String) (level : Risk)
      (document : Document) (l l' : Ledger)
      → select id l.approvals ≡ none
      → consume service plan identity id level document l ≢ (ok tt, l')
  unfolding consume
  consume_missing plan identity id level document l l' missing h = ground arith

  pub consume-ok :
      (plan : OperationPlan) (identity : ActorIdentity) (id : String) (level : Risk)
      (document : Document) (l l' : Ledger)
      → consume service plan identity id level document l ≡ (ok tt, l')
      → Consumes plan identity id document l l'
  consume-ok plan identity id level document l l' h = elim (Option-cases (select id l.approvals)) [
    | inl missing ↦ absurd (consume_missing plan identity id level document l l' missing h)
    | inr (row, stored) ↦
        let (reason, column, written) =
          consume_facts plan identity id level document l l' row stored h in
        record {
          at = at_first l;
          permitted = consumption_reason-Permits document plan identity (at_first l) reason;
          consumed_at = at_second l;
          row = row;
          stored = stored;
          was_approved = column;
          written = written;
        }
  ]
