-- ===== src/Authorization/SingleUse.antt =====
-- manager/authorization.py: approvals are used once, also when calls of several threads interleave.
-- A thread loads a document and acts on it later; every store operation in between is a step.
use fortifylab_archive.Authorization.Authorised.{authorize-Authorised}
use fortifylab_archive.Authorization.Consumption.{Consumes, at_first, at_second, consume-ok}
use fortifylab_archive.Authorization.Ledger.{
  ApprovalState, Document, Ledger, Row, approved, consumed, insert, revoked, state_eq, transition,
}
use fortifylab_archive.Authorization.Policy.{
  ActorIdentity, OperationPlan, Risk, approval_required, risk,
}
use fortifylab_archive.Authorization.Service.{
  Provider, Service, absent, answers, approve_loaded, authorize, authorize_loaded, consume, fails,
  request, revoke_loaded,
}
use fortifylab_archive.Prelude.{
  Option, Option-cases, String, arith, eq_iff, false, inl, inr, refl, some, true, ◌≡◌, ◌≢◌,
}
use fortifylab_archive.Prelude.Exec.{ok}
use fortifylab_archive.Prelude.Table.{select, select-append, select-update}

module _ (service : Service) where
  -- One atomic change of the ledger: a new request, or the end of an approval, a revocation or an
  -- authorisation, each with a document that its thread may have loaded at any earlier time.
  pub data Step (l : Ledger) : Ledger → Type 0 where
    requested :
        (plan : OperationPlan) (identity : ActorIdentity) (fresh : String)
        → Step l (request service plan identity fresh l).1
    decided :
        (id : String) (identity : ActorIdentity) (confirmation : Option String)
        (document : Document)
        → Step l (approve_loaded service id identity confirmation document l).1
    withdrawn :
        (id : String) (identity : ActorIdentity) (document : Document)
        → Step l (revoke_loaded service id identity document l).1
    redeemed :
        (plan : OperationPlan) (identity : ActorIdentity) (id : String) (provider : Provider)
        (level : Risk) (document : Document)
        → Step l (authorize_loaded service plan identity id provider level document l).1

  pub data Steps (l : Ledger) : Ledger → Type 0 where
    here : Steps l l
    next : {m n : Ledger} → Steps l m → Step m n → Steps l n

  transition-consumed :
      (a id : String) (expected state : ApprovalState) (document : Document) (row : Row)
      (l : Ledger)
      → state_eq consumed expected ≡ false
      → select id l.approvals ≡ some row
      → row.column ≡ consumed
      → select id (transition a expected state document l).1.approvals ≡ some row
  unfolding transition
  transition-consumed a id expected state document row l e stored gone = ground (
    arith,
    eq_iff a id,
    select-update a id (record { column = state; payload = document }) l.approvals,
  )

  consume-consumed :
      (plan : OperationPlan) (identity : ActorIdentity) (a id : String) (level : Risk)
      (document : Document) (row : Row) (l : Ledger)
      → select id l.approvals ≡ some row
      → row.column ≡ consumed
      → select id (consume service plan identity a level document l).1.approvals ≡ some row
  unfolding consume
  consume-consumed plan identity a id level document row l stored gone = ground (
    arith,
    eq_iff a id,
    select-update a id
        (record {
          column = consumed;
          payload = record document { state = consumed; consumed_at = some (at_second service l) };
        })
        l.approvals,
  )

  insert-stored :
      (id : String) (row : Row) (document : Document) (l : Ledger)
      → select id l.approvals ≡ some row
      → select id (insert document l).1.approvals ≡ some row
  unfolding insert
  insert-stored id row document l stored = elim (Option-cases (select document.id l.approvals)) [
    | inl free ↦ ground (
      arith,
      eq_iff document.id id,
      select-append document.id id (record { column = document.state; payload = document })
          l.approvals,
    )
    | inr (old, taken) ↦ ground arith
  ]

  module _ (id : String) (row : Row) (l : Ledger) (stored : select id l.approvals ≡ some row)
      (gone : row.column ≡ consumed) where
    request-consumed :
        (plan : OperationPlan) (identity : ActorIdentity) (fresh : String)
        → select id (request service plan identity fresh l).1.approvals ≡ some row
    unfolding request
    request-consumed plan identity fresh = grind (arith, insert-stored id row)

    approve-consumed :
        (a : String) (identity : ActorIdentity) (confirmation : Option String) (document : Document)
        → select id (approve_loaded service a identity confirmation document l).1.approvals
          ≡ some row
    unfolding approve_loaded
    approve-consumed a identity confirmation document = ground (
      arith,
      eq_iff a id,
      select-update a id
          (record {
            column = approved;
            payload = record document { state = approved; decided_at = some (at_first service l) };
          })
          l.approvals,
    )

    revoke-consumed :
        (a : String) (identity : ActorIdentity) (document : Document)
        → select id (revoke_loaded service a identity document l).1.approvals ≡ some row
    unfolding revoke_loaded
    revoke-consumed a identity document = ground (
      arith,
      eq_iff a id,
      select-update a id
          (record {
            column = revoked;
            payload = record document { state = revoked; revoked_at = some (at_first service l) };
          })
          l.approvals,
    )

    authorize-consumed :
        (plan : OperationPlan) (identity : ActorIdentity) (a : String) (provider : Provider)
        (level : Risk) (document : Document)
        → select id (authorize_loaded service plan identity a provider level document l).1.approvals
          ≡ some row
    unfolding authorize_loaded
    authorize-consumed plan identity a absent level document =
        consume-consumed plan identity a id level document row l stored gone
    authorize-consumed plan identity a (answers state) level document =
        consume-consumed (record plan { current_state = state }) identity a id level document row l
          stored gone
    authorize-consumed plan identity a fails level document = ground arith

  -- A consumed approval stays consumed, with the same payload, under every step of every thread.
  Step-consumed :
      (id : String) (row : Row) {l m : Ledger}
      → Step l m
      → select id l.approvals ≡ some row
      → row.column ≡ consumed
      → select id m.approvals ≡ some row
  Step-consumed id row {l} (requested plan identity fresh) s g =
      request-consumed id row l s g plan identity fresh
  Step-consumed id row {l} (decided a identity confirmation document) s g =
      approve-consumed id row l s g a identity confirmation document
  Step-consumed id row {l} (withdrawn a identity document) s g =
      revoke-consumed id row l s g a identity document
  Step-consumed id row {l} (redeemed plan identity a provider level document) s g =
      authorize-consumed id row l s g plan identity a provider level document

  Steps-consumed :
      (id : String) (row : Row) {l m : Ledger}
      → Steps l m
      → select id l.approvals ≡ some row
      → row.column ≡ consumed
      → select id m.approvals ≡ some row
  Steps-consumed id row here s g = s
  Steps-consumed id row (next r st) s g = Step-consumed id row st (Steps-consumed id row r s g) g

  module _ (id : String) (row : Row) (n o : Ledger) (stored : select id n.approvals ≡ some row)
      (gone : row.column ≡ consumed) where
    not-Consumes :
        (plan : OperationPlan) (identity : ActorIdentity) (document : Document)
        → ¬ Consumes service plan identity id document n o
    not-Consumes plan identity document c = ground (arith, c.stored, c.was_approved)

    authorize_loaded_spent :
        (plan : OperationPlan) (identity : ActorIdentity) (provider : Provider) (level : Risk)
        (document : Document)
        → authorize_loaded service plan identity id provider level document n ≢ (ok tt, o)
    unfolding authorize_loaded
    authorize_loaded_spent plan identity absent level document h =
        not-Consumes plan identity document
          (consume-ok service plan identity id level document n o h)
    authorize_loaded_spent plan identity (answers state) level document h =
        let current : OperationPlan = record plan { current_state = state } in
        not-Consumes current identity document
          (consume-ok service current identity id level document n o h)
    authorize_loaded_spent plan identity fails level document h = ground arith

  -- Once an approval has authorised an operation, no later authorisation on it returns, whatever
  -- plan, identity and provider it has, whatever document its thread had loaded, and whatever
  -- other threads did to the ledger in between.
  pub authorize_once :
      (plan plan' : OperationPlan) (identity identity' : ActorIdentity)
      (provider provider' : Provider) (id : String) (level level' : Risk) (document : Document)
      (l m n o : Ledger)
      → risk plan ≡ some level
      → approval_required level ≡ true
      → authorize service plan identity (some id) provider l ≡ (ok tt, m)
      → Steps m n
      → authorize_loaded service plan' identity' id provider' level' document n ≢ (ok tt, o)
  authorize_once plan plan' identity identity' provider provider' id level level' document l m n o e
        r first between second =
      let (id', same, done) =
        authorize-Authorised service plan identity (some id) provider level l m e r first in
      let kept : select id m.approvals
          ≡ some (record {
            column = consumed;
            payload = record done.row.payload {
              state = consumed;
              consumed_at = some done.consumed_at;
            };
          }) =
        ground (arith, done.others id, eq_iff id' id) in
      authorize_loaded_spent id _ n o (Steps-consumed id _ between kept refl) refl plan' identity'
        provider' level' document second
