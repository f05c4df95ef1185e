-- ===== src/Authorization/Authorised.antt =====
-- manager/authorization.py: what a returning `authorize` checked and what it wrote.
use fortifylab_archive.Authorization.Consumption.{Consumes, Permits, consume-ok, observed}
use fortifylab_archive.Authorization.Ledger.{Ledger, Row, approval, approved, consumed}
use fortifylab_archive.Authorization.Policy.{
  ActorIdentity, OperationPlan, Risk, approval_required, risk,
}
use fortifylab_archive.Authorization.Service.{
  Provider, Service, absent, answers, authorize, authorize_loaded, deny, fails,
}
use fortifylab_archive.Prelude.{
  Option, Option-cases, String, arith, if◌then◌else◌, inl, inr, none, refl, some, subst, sym, true,
  ℕ, ◌==◌, ◌∙◌, ◌≡◌, ◌≢◌,
}
use fortifylab_archive.Prelude.Exec.{ok}
use fortifylab_archive.Prelude.Table.{select, select-update}

module _ (service : Service) where
  -- What a caller of `authorize` may rely on when it returns: the approval that was named was
  -- approved, the loaded document permits the plan at the current state, and the row is consumed.
  pub record Authorised (plan : OperationPlan) (identity : ActorIdentity) (provider : Provider)
      (id : String) (l l' : Ledger) : Type 0 where
    pub row : Row
    pub stored : select id l.approvals ≡ some row
    pub was_approved : row.column ≡ approved
    pub at : ℕ
    pub permitted : Permits service (observed provider plan) identity at row.payload
    pub consumed_at : ℕ
    pub others :
        (j : String)
        → select j l'.approvals ≡ (
            if id == j
            then some (record {
              column = consumed;
              payload = record row.payload { state = consumed; consumed_at = some consumed_at };
            })
            else select j l.approvals)

  Consumes-Authorised :
      (plan current : OperationPlan) (identity : ActorIdentity) (provider : Provider) (id : String)
      (row : Row) (l l' : Ledger)
      → current ≡ observed provider plan
      → select id l.approvals ≡ some row
      → Consumes service current identity id row.payload l l'
      → Authorised plan identity provider id l l'
  Consumes-Authorised plan current identity provider id row l l' same stored c = record {
    row = row;
    stored = stored;
    was_approved = ground (arith, c.stored, c.was_approved);
    at = c.at;
    permitted = subst (λ p. Permits service p identity c.at row.payload) same c.permitted;
    consumed_at = c.consumed_at;
    others = λ j. rw c.written (rw select-update (rw stored refl));
  }

  authorize_loaded-ok :
      (plan : OperationPlan) (identity : ActorIdentity) (id : String) (provider : Provider)
      (level : Risk) (row : Row) (l l' : Ledger)
      → select id l.approvals ≡ some row
      → authorize_loaded service plan identity id provider level row.payload l ≡ (ok tt, l')
      → Authorised plan identity provider id l l'
  unfolding authorize_loaded
  authorize_loaded-ok plan identity id absent level row l l' stored h =
      Consumes-Authorised plan plan identity absent id row l l' refl stored
        (consume-ok service plan identity id level row.payload l l' h)
  authorize_loaded-ok plan identity id (answers state) level row l l' stored h =
      let current : OperationPlan = record plan { current_state = state } in
      Consumes-Authorised plan current identity (answers state) id row l l' refl stored
        (consume-ok service current identity id level row.payload l l' h)
  authorize_loaded-ok plan identity id fails level row l l' stored h = absurd (ground arith)

  authorize_stored :
      (plan : OperationPlan) (identity : ActorIdentity) (id : String) (provider : Provider)
      (level : Risk) (row : Row) (l : Ledger)
      → risk plan ≡ some level
      → approval_required level ≡ true
      → select id l.approvals ≡ some row
      → authorize service plan identity (some id) provider l
        ≡ authorize_loaded service plan identity id provider level row.payload l
  unfolding authorize approval
  authorize_stored plan identity id provider level row l e r stored = ground arith

  authorize_unknown :
      (plan : OperationPlan) (identity : ActorIdentity) (id : String) (provider : Provider)
      (level : Risk) (l l' : Ledger)
      → risk plan ≡ some level
      → approval_required level ≡ true
      → select id l.approvals ≡ none
      → authorize service plan identity (some id) provider l ≢ (ok tt, l')
  unfolding authorize approval
  authorize_unknown plan identity id provider level l l' e r missing h = ground arith

  authorize_denied :
      (plan : OperationPlan) (identity : ActorIdentity) (provider : Provider) (level : Risk)
      (l l' : Ledger)
      → risk plan ≡ some level
      → approval_required level ≡ true
      → authorize service plan identity none provider l ≢ (ok tt, l')
  unfolding authorize deny
  authorize_denied plan identity provider level l l' e r h = ground arith

  pub authorize-Authorised :
      (plan : OperationPlan) (identity : ActorIdentity) (approval_id : Option String)
      (provider : Provider) (level : Risk) (l l' : Ledger)
      → risk plan ≡ some level
      → approval_required level ≡ true
      → authorize service plan identity approval_id provider l ≡ (ok tt, l')
      → (id : String) × (approval_id ≡ some id) × Authorised plan identity provider id l l'
  authorize-Authorised plan identity none provider level l l' e r h =
      absurd (authorize_denied plan identity provider level l l' e r h)
  authorize-Authorised plan identity (some id) provider level l l' e r h =
      elim (Option-cases (select id l.approvals)) [
        | inl missing ↦
            absurd (authorize_unknown plan identity id provider level l l' e r missing h)
        | inr (row, stored) ↦ (
          id,
          refl,
          authorize_loaded-ok plan identity id provider level row l l' stored
              (sym (authorize_stored plan identity id provider level row l e r stored) ∙ h),
        )
      ]
