-- ===== src/Authorization/Approval.antt =====
-- manager/authorization.py: what a returning `approve` checked, and its effect on the row.
use fortifylab_archive.Authorization.Consumption.{at_first}
use fortifylab_archive.Authorization.Ledger.{Document, Ledger, Row, approval, approved, pending}
use fortifylab_archive.Authorization.Policy.{
  ActorIdentity, high, high_risk_confirmation, high_risk_sources,
}
use fortifylab_archive.Authorization.Service.{
  Service, approve, approve_loaded, confirmed, decision_reason, high_risk_reason,
}
use fortifylab_archive.Prelude.{
  Option, Option-cases, String, arith, contains, eq_iff, if◌then◌else◌, inl, inr, none, refl, some,
  sym, true, ℕ, ◌+◌, ◌<◌, ◌==◌, ◌∙◌, ◌≡◌, ◌≢◌, ◌≤◌,
}
use fortifylab_archive.Prelude.Exec.{ok}
use fortifylab_archive.Prelude.Table.{select, select-update, update}

module _ (service : Service) where
  -- A high-risk approval was decided from the CLI or the Web UI, with fresh authentication and
  -- the exact confirmation text.
  pub record IsHighRiskDecision (identity : ActorIdentity) (at : ℕ) (confirmation : Option String)
      : Type 0 where
    pub channel : contains high_risk_sources identity.source ≡ true
    pub fresh : at ≤ identity.authenticated_at + service.reauthentication_age
    pub confirmed_text : confirmation ≡ some high_risk_confirmation

  pub record Grants (identity : ActorIdentity) (confirmation : Option String) (at : ℕ)
      (document : Document) : Type 0 where
    pub was_pending : document.state ≡ pending
    pub in_time : at < document.expires_at
    pub same_actor : document.actor ≡ identity.actor
    pub same_session : document.session_id ≡ identity.session_id
    pub high_risk : document.risk ≡ high → IsHighRiskDecision identity at confirmation

  confirmed_text :
      (confirmation : Option String)
      → confirmed confirmation ≡ true
      → confirmation ≡ some high_risk_confirmation
  unfolding confirmed
  confirmed_text none h = absurd (cc)
  confirmed_text (some text) h = ground (arith, eq_iff text high_risk_confirmation)

  high_risk_reason-IsHighRiskDecision :
      (identity : ActorIdentity) (at : ℕ) (confirmation : Option String)
      → high_risk_reason service high identity at confirmation ≡ none
      → IsHighRiskDecision identity at confirmation
  unfolding high_risk_reason
  high_risk_reason-IsHighRiskDecision identity at confirmation h =
      ground (arith, confirmed_text confirmation)

  decision_reason-Grants :
      (document : Document) (identity : ActorIdentity) (at : ℕ) (confirmation : Option String)
      → decision_reason service document identity at confirmation ≡ none
      → Grants identity confirmation at document
  unfolding decision_reason
  decision_reason-Grants document identity at confirmation h = record {
    was_pending = ground arith;
    in_time = ground arith;
    same_actor = ground (arith, eq_iff document.actor identity.actor);
    same_session = ground (arith, eq_iff document.session_id identity.session_id);
    high_risk = λ e. high_risk_reason-IsHighRiskDecision identity at confirmation (ground arith);
  }

  pub record Approved (identity : ActorIdentity) (confirmation : Option String) (id : String)
      (decided : Document) (l l' : Ledger) : Type 0 where
    pub row : Row
    pub stored : select id l.approvals ≡ some row
    pub was_pending : row.column ≡ pending
    pub at : ℕ
    pub granted : Grants identity confirmation at row.payload
    pub result : decided ≡ record row.payload { state = approved; decided_at = some at }
    pub others :
        (j : String)
        → select j l'.approvals ≡ (
            if id == j
            then some (record { column = approved; payload = decided })
            else select j l.approvals)

  approve_facts :
      (id : String) (identity : ActorIdentity) (confirmation : Option String) (row : Row)
      (decided : Document) (l l' : Ledger)
      → select id l.approvals ≡ some row
      → approve_loaded service id identity confirmation row.payload l ≡ (ok decided, l')
      → (decision_reason service row.payload identity (at_first service l) confirmation ≡ none)
        × (row.column ≡ pending)
        × (decided
            ≡ record row.payload { state = approved; decided_at = some (at_first service l) })
        × (l'.approvals ≡ update id (record { column = approved; payload = decided }) l.approvals)
  unfolding approve_loaded
  approve_facts id identity confirmation row decided l l' stored h = ground arith

  approve_stored :
      (id : String) (identity : ActorIdentity) (confirmation : Option String) (row : Row)
      (l : Ledger)
      → select id l.approvals ≡ some row
      → approve service id identity confirmation l
        ≡ approve_loaded service id identity confirmation row.payload l
  unfolding approve approval
  approve_stored id identity confirmation row l stored = ground arith

  approve_unknown :
      (id : String) (identity : ActorIdentity) (confirmation : Option String) (decided : Document)
      (l l' : Ledger)
      → select id l.approvals ≡ none
      → approve service id identity confirmation l ≢ (ok decided, l')
  unfolding approve approval
  approve_unknown id identity confirmation decided l l' missing h = ground arith

  -- An `approve` that returns found the approval pending and unexpired, for the same actor and
  -- session, and, at high risk, from an allowed channel with fresh authentication and the exact
  -- confirmation; it stores the returned document as approved and changes no other row.
  pub approve-Approved :
      (id : String) (identity : ActorIdentity) (confirmation : Option String) (decided : Document)
      (l l' : Ledger)
      → approve service id identity confirmation l ≡ (ok decided, l')
      → Approved identity confirmation id decided l l'
  approve-Approved id identity confirmation decided l l' h =
      elim (Option-cases (select id l.approvals)) [
        | inl missing ↦ absurd (approve_unknown id identity confirmation decided l l' missing h)
        | inr (row, stored) ↦
            let (reason, column, result, written) =
              approve_facts id identity confirmation row decided l l' stored
                (sym (approve_stored id identity confirmation row l stored) ∙ h) in
            record {
              row = row;
              stored = stored;
              was_pending = column;
              at = at_first service l;
              granted =
                  decision_reason-Grants row.payload identity (at_first service l) confirmation
                    reason;
              result = result;
              others = λ j. rw written (rw select-update (rw stored refl));
            }
      ]
