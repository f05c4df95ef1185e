-- ===== src/Operation/Entry.antt =====
-- manager/operation_engine.py: what `_prepare_steps` answers, and the rows that it leaves.
use fortifylab_archive.Authorization.Policy as Authorization
use fortifylab_archive.Authorization.Ledger.{Ledger}
use fortifylab_archive.Authorization.Policy.{ActorIdentity}
use fortifylab_archive.Authorization.Service.{Service, authorize}
use fortifylab_archive.Operation.Exclusive.{Disjoint, intersects-Disjoint}
use fortifylab_archive.Operation.Occupancy.{IsSound, entered-IsSound}
use fortifylab_archive.Operation.Plan.{intersects, plan_recovery_boundary}
use fortifylab_archive.Operation.Store.{Row, active_components, create, create_new, row_of}
use fortifylab_archive.Operation.Submission.{
  Desk, Office, Snapshot, Submission, advance, affected_of, asked, authorize_submission,
  authorize_with, authorized, enqueue, enter, identified, inserted, prepare_steps, provider_of,
  queued_document,
}
use fortifylab_archive.Operation.Types.{Boundary, Document, Error, Step, queued}
use fortifylab_archive.Prelude.{
  Bool-cases, List, Option, String, [], arith, eq_iff, inl, inr, none, refl, some, subst, suc, sym,
  ℕ, ◌++◌, ◌==◌, ◌∙◌, ◌∷◌, ◌≡◌,
}
use fortifylab_archive.Prelude.Exec.{Outcome, ok, raised, resume}
use fortifylab_archive.Prelude.Table.{select, select-append}

authorized_store :
    (r : Outcome Authorization.Error Unit × Ledger) (o : Office)
    → (authorized r o).1.engine.store ≡ o.engine.store
authorized_store (ok _, l) o = refl
authorized_store (raised e, l) o = refl

module _ (desk : Desk) where
  asked_store :
      (service : Service) (identity : ActorIdentity) (submission : Submission)
      (affected : List String) (state later : Option Snapshot) (o : Office)
      → (asked desk service identity submission affected state later o).1.engine.store
        ≡ o.engine.store
  asked_store service identity submission affected none later o = refl
  asked_store service identity submission affected (some state) later o =
      authorized_store
        (authorize service
          (record { operation = submission.operation; targets = affected; current_state = state })
          identity submission.approval_id (provider_of later) o.ledger)
        o

  identified_store :
      (service : Service) (identity : Option ActorIdentity)
      (provider : Option (ℕ → List String → Option Snapshot)) (submission : Submission)
      (affected : List String) (o : Office)
      → (identified desk service identity provider submission affected o).1.engine.store
        ≡ o.engine.store
  identified_store service none provider submission affected o = refl
  identified_store service (some identity) none submission affected o = refl
  identified_store service (some identity) (some provider) submission affected o =
      elim (Bool-cases (identity.actor == submission.actor)) [
        | inl same ↦ rw same (
            asked_store service identity submission affected (provider o.engine.reads affected)
              (provider (suc o.engine.reads) affected) (advance desk o))
        | inr other ↦ rw other refl
      ]

  authorize_with_store :
      (service : Option Service) (submission : Submission) (affected : List String) (o : Office)
      → (authorize_with desk service submission affected o).1.engine.store ≡ o.engine.store
  authorize_with_store none submission affected o = refl
  authorize_with_store (some service) submission affected o =
      identified_store service submission.identity desk.state_provider submission affected o

  -- What an insertion answers and leaves, for a document whose components are free.
  pub record Entered (submission : Submission) (steps : List Step) (fresh : String)
      (result : Outcome Error Document) (o o' : Office) : Type 0 where
    pub sound : IsSound o.engine.store.rows → IsSound o'.engine.store.rows
    pub unchanged : (e : Error) → result ≡ raised e → o'.engine.store ≡ o.engine.store
    pub present :
        (document : Document)
        → result ≡ ok document
        → (select fresh o'.engine.store.rows ≡ some (row_of desk.world.redact document))
          × (document.id ≡ fresh)
          × (document.state ≡ queued)
          × (document.components ≡ affected_of steps)

  create-Entered :
      (found : Option Row) (submission : Submission) (fresh : String) (steps : List Step)
      (boundary : Boundary) (o : Office)
      → select fresh o.engine.store.rows ≡ found
      → Disjoint (active_components o.engine.store.rows) (affected_of steps)
      → let document : Document =
          queued_document desk submission fresh (desk.world.clock o.engine.reads) steps boundary in
        Entered submission steps fresh
          (inserted desk document (create_new desk.world.redact found document o.engine.store) o).0
          o
          (inserted desk document (create_new desk.world.redact found document o.engine.store) o).1
  create-Entered none submission fresh steps boundary o h apart =
      let document : Document =
        queued_document desk submission fresh (desk.world.clock o.engine.reads) steps boundary in
      record {
        sound =
            entered-IsSound fresh (row_of desk.world.redact document) o.engine.store.rows h apart
              (refl, refl);
        unchanged = λ e wrong. absurd (cc);
        present = λ d same.
            let e : document ≡ d = ground (arith, same) in
            subst
              (λ k.
                (select fresh
                    (o.engine.store.rows ++ (fresh, row_of desk.world.redact document) ∷ [])
                  ≡ some (row_of desk.world.redact k))
                × (k.id ≡ fresh)
                × (k.state ≡ queued)
                × (k.components ≡ affected_of steps))
              e
              (
                ground (
                  arith,
                  select-append fresh fresh (row_of desk.world.redact document) o.engine.store.rows
                      h,
                  eq_iff fresh fresh,
                ),
                refl,
                refl,
                refl,
              );
      }
  create-Entered (some row) submission fresh steps boundary o h apart = record {
    sound = λ x. x;
    unchanged = λ e same. refl;
    present = λ d wrong. absurd (cc);
  }

  enqueue-Entered :
      (boundary : Outcome Error Boundary) (submission : Submission) (fresh : String)
      (steps : List Step) (o : Office)
      → Disjoint (active_components o.engine.store.rows) (affected_of steps)
      → Entered submission steps fresh
          (enter desk submission fresh steps boundary o).0
          o
          (enter desk submission fresh steps boundary o).1
  unfolding create
  enqueue-Entered (raised e) submission fresh steps o apart = record {
    sound = λ x. x;
    unchanged = λ e' same. refl;
    present = λ d wrong. absurd (cc);
  }
  enqueue-Entered (ok boundary) submission fresh steps o apart =
      create-Entered (select fresh o.engine.store.rows) submission fresh steps boundary o refl apart

  Entered-after :
      (submission : Submission) (fresh : String) (steps : List Step) (r : Outcome Error Unit)
      (o t : Office)
      → t.engine.store ≡ o.engine.store
      → Disjoint (active_components o.engine.store.rows) (affected_of steps)
      → Entered submission steps fresh
          (resume r (λ _. enqueue desk submission fresh steps) t).0
          o
          (resume r (λ _. enqueue desk submission fresh steps) t).1
  unfolding enqueue
  Entered-after submission fresh steps (raised e) o t same apart = record {
    sound = λ x. subst (λ s. IsSound s.rows) (sym same) x;
    unchanged = λ e' _. same;
    present = λ d wrong. absurd (cc);
  }
  Entered-after submission fresh steps (ok _) o t same apart =
      let w : Entered submission steps fresh (enqueue desk submission fresh steps t).0 t
          (enqueue desk submission fresh steps t).1 =
        enqueue-Entered (plan_recovery_boundary steps) submission fresh steps t
          (subst (λ s. Disjoint (active_components s.rows) (affected_of steps)) (sym same) apart) in
      record {
        sound = λ x. w.sound (subst (λ s. IsSound s.rows) (sym same) x);
        unchanged = λ e h. w.unchanged e h ∙ same;
        present = w.present;
      }

  pub prepare_steps-Entered :
      (submission : Submission) (fresh : String) (steps : List Step) (o : Office)
      → Entered submission steps fresh
          (prepare_steps desk submission fresh steps o).0
          o
          (prepare_steps desk submission fresh steps o).1
  unfolding prepare_steps
  prepare_steps-Entered submission fresh steps o =
      elim (Bool-cases (intersects (active_components o.engine.store.rows) (affected_of steps))) [
        | inl conflict ↦ rw conflict (record {
          sound = λ x. x;
          unchanged = λ e same. refl;
          present = λ d wrong. absurd (cc);
        })
        | inr free ↦ rw free (
            Entered-after submission fresh steps
              (authorize_submission desk submission (affected_of steps) o).0 o
              (authorize_submission desk submission (affected_of steps) o).1
              (authorize_with_store desk.service submission (affected_of steps) o)
              (intersects-Disjoint (active_components o.engine.store.rows) (affected_of steps)
                free))
      ]
