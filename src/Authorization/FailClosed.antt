-- ===== src/Authorization/FailClosed.antt =====
-- manager/authorization.py: a refused authorisation leaves every approval as it was.
use fortifylab_archive.Authorization.Ledger.{Document, Ledger, approval}
use fortifylab_archive.Authorization.Policy.{
  ActorIdentity, Error, OperationPlan, Risk, is_naive, risk,
}
use fortifylab_archive.Authorization.Service.{
  Provider, Service, absent, answers, audit, authorize, authorize_loaded, consume, deny, fails,
}
use fortifylab_archive.Prelude.{
  Option, Option-cases, String, arith, false, inl, inr, none, some, suc, ℕ, ◌≡◌,
}
use fortifylab_archive.Prelude.Exec.{raised}
use fortifylab_archive.Prelude.Table.{select}

module _ (service : Service) (timed : (n : ℕ) → is_naive (service.clock n) ≡ false) where
  consume_refused :
      (plan : OperationPlan) (identity : ActorIdentity) (id : String) (level : Risk)
      (document : Document) (l l' : Ledger) (e : Error)
      → consume service plan identity id level document l ≡ (raised e, l')
      → l'.approvals ≡ l.approvals
  unfolding consume
  consume_refused plan identity id level document l l' e h = ground (
    arith,
    timed l.reads,
    timed (suc l.reads),
    timed (suc (suc l.reads)),
    timed (suc (suc (suc l.reads))),
  )

  authorize_loaded_refused :
      (plan : OperationPlan) (identity : ActorIdentity) (id : String) (provider : Provider)
      (level : Risk) (document : Document) (l l' : Ledger) (e : Error)
      → authorize_loaded service plan identity id provider level document l ≡ (raised e, l')
      → l'.approvals ≡ l.approvals
  unfolding authorize_loaded
  authorize_loaded_refused plan identity id absent level document l l' e h =
      consume_refused plan identity id level document l l' e h
  authorize_loaded_refused plan identity id (answers state) level document l l' e h =
      consume_refused (record plan { current_state = state }) identity id level document l l' e h
  authorize_loaded_refused plan identity id fails level document l l' e h =
      ground (arith, timed l.reads)

  -- With a clock that gives time zones, an `authorize` that raises, for whatever reason, leaves
  -- the approvals table as it was: a refusal never uses up an approval.
  pub authorize_fails_closed :
      (plan : OperationPlan) (identity : ActorIdentity) (approval_id : Option String)
      (provider : Provider) (l l' : Ledger) (e : Error)
      → authorize service plan identity approval_id provider l ≡ (raised e, l')
      → l'.approvals ≡ l.approvals
  unfolding authorize audit deny approval
  authorize_fails_closed plan identity none provider l l' e h = ground (arith, timed l.reads)
  authorize_fails_closed plan identity (some id) provider l l' e h =
      elim (Option-cases (select id l.approvals)) [
        | inl missing ↦ ground (arith, timed l.reads)
        | inr (row, stored) ↦ elim (Option-cases (risk plan)) [
          | inl no_risk ↦ ground arith
          | inr (level, known) ↦ ground (
            arith,
            timed l.reads,
            authorize_loaded_refused plan identity id provider level row.payload l l' e,
          )
        ]
      ]
