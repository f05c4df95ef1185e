-- ===== src/Authorization/Ledger.antt =====
-- manager/authorization.py: `ApprovalStore`, its two tables and its operations. Each operation
-- holds the store's lock, so it is one atomic change of the ledger.
use fortifylab_archive.Prelude.{
  ℕ, String, Bool, true, false, List, [], ◌∷◌, ◌++◌, Option, none, some, if◌then◌else◌,
}
use fortifylab_archive.Prelude.Table.{Table, select, update}
use fortifylab_archive.Prelude.Exec.{Exec, ok, raised}
use fortifylab_archive.Authorization.Policy.{Risk, Error, authorization_error, integrity_error}

pub data ApprovalState : Type 0 where
  pending approved revoked consumed : ApprovalState

unfoldable pub state_eq : ApprovalState → ApprovalState → Bool
state_eq pending pending = true
state_eq approved approved = true
state_eq revoked revoked = true
state_eq consumed consumed = true
state_eq _ _ = false

pub record Document : Type 0 where
  pub id : String
  pub state : ApprovalState
  pub actor : String
  pub source : String
  pub session_id : String
  pub risk : Risk
  pub operation : String
  pub targets : List String
  pub plan_digest : String
  pub created_at : ℕ
  pub expires_at : ℕ
  pub decided_at : Option ℕ
  pub consumed_at : Option ℕ
  pub revoked_at : Option ℕ

-- A row of `operation_approvals`: the state column and the payload.
pub record Row : Type 0 where
  pub column : ApprovalState
  pub payload : Document

pub record AuditRow : Type 0 where
  pub at : ℕ
  pub approval_id : Option String
  pub action : String
  pub actor : String
  pub outcome : String
  pub reason : String

-- The two tables, and the number of times that the service has read its clock.
pub record Ledger : Type 0 where
  pub approvals : Table Row
  pub audit : List AuditRow
  pub reads : ℕ

abbrev pub Action : Type 0 → Type 0
Action A = Exec Ledger Error A

abbrev found : Option Row → Action Document
found none l = (raised (authorization_error "approval was not found"), l)
found (some row) l = (ok row.payload, l)

unfoldable pub approval : String → Action Document
unfolding select
approval approval_id l = found (select approval_id l.approvals) l

abbrev inserted : Option Row → Document → Action Unit
inserted (some _) document l = (raised integrity_error, l)
inserted none document l = (
  ok tt,
  record l {
    approvals =
        l.approvals ++ (document.id, record { column = document.state; payload = document }) ∷ [];
  },
)

unfoldable pub insert : Document → Action Unit
insert document l = inserted (select document.id l.approvals) document l

abbrev moved : Option Row → String → ApprovalState → ApprovalState → Document → Action Bool
moved none approval_id expected state document l = (ok false, l)
moved (some row) approval_id expected state document l =
    if state_eq row.column expected
    then (
      ok true,
      record l {
        approvals = update approval_id (record { column = state; payload = document }) l.approvals;
      },
    )
    else (ok false, l)

-- UPDATE … WHERE id = ? AND state = ?; the result says whether a row was changed.
unfoldable pub transition : String → ApprovalState → ApprovalState → Document → Action Bool
unfolding state_eq
transition approval_id expected state document l =
    moved (select approval_id l.approvals) approval_id expected state document l

unfoldable pub append_audit : AuditRow → Action Unit
append_audit row l = (ok tt, record l { audit = l.audit ++ row ∷ [] })
