-- ===== src/Operation/Submission.antt =====
-- manager/operation_engine.py: `_prepare`, `_prepare_steps`, `submit` and `retry`. The lock of the
-- engine makes the body of `_prepare_steps` one step; `fresh` is what `uuid.uuid4` returns.
use fortifylab_archive.Authorization.Policy as Authorization
use Prim.Native.String.{count}
use fortifylab_archive.Authorization.Ledger.{Ledger}
use fortifylab_archive.Authorization.Policy.{ActorIdentity}
use fortifylab_archive.Authorization.Service.{Provider, Service, answers, authorize, now}
use fortifylab_archive.Operation.Bounds.{components_of}
use fortifylab_archive.Operation.Identifier.{is_identifier}
use fortifylab_archive.Operation.Plan.{Planner, intersects, plan_recovery_boundary, plan_steps}
use fortifylab_archive.Operation.Run.{run}
use fortifylab_archive.Operation.Store.{Store, active_components, create, get}
use fortifylab_archive.Operation.Types.{
  Boundary, Document, Error, State, Step, authorization_error, failed, interrupted,
  invalid_operation, operation_conflict, operation_failed, queued, request_operations, timed_out,
}
use fortifylab_archive.Operation.World.{Engine, World}
use fortifylab_archive.Prelude.{
  Bool, List, Option, String, any, contains, distinct, eqb, false, if◌then◌else◌, length, ltb, none,
  not, some, suc, true, ℕ, ◌==◌, ◌||◌,
}
use fortifylab_archive.Prelude.Exec.{Exec, Outcome, ok, pure, raised, ◌>>=◌, ◌>>◌}

abbrev pub Snapshot : Type 0
Snapshot = List (String × String)

-- What the engine was built with. A provider that raises answers `none`.
pub record Desk : Type 0 where
  pub planner : Planner
  pub world : World
  pub service : Option Service
  pub state_provider : Option (ℕ → List String → Option Snapshot)

-- The engine, and the ledger of the authorization service.
pub record Office : Type 0 where
  pub engine : Engine
  pub ledger : Ledger

pub record Submission : Type 0 where
  pub operation : String
  pub components : List String
  pub actor : String
  pub retry_of : Option String
  pub identity : Option ActorIdentity
  pub approval_id : Option String
  pub workflow : Option String

abbrev pub Deed : Type 0 → Type 0
Deed A = Exec Office Error A

abbrev pub affected_of : List Step → List String
affected_of steps = distinct (components_of steps)

abbrev pub planned : {A : Type 0} → Outcome Error A → Deed A
planned r o = (r, o)

abbrev pub provider_of : Option Snapshot → Provider
provider_of none = Provider.fails
provider_of (some state) = answers state

-- An error of the service passes through the engine unchanged.
abbrev pub authorized :
    Outcome Authorization.Error Unit × Ledger → Office → Outcome Error Unit × Office
authorized (ok _, l) o = (ok tt, record o { ledger = l })
authorized (raised e, l) o = (raised (authorization_error e), record o { ledger = l })

-- The states from which an operation may be tried again.
abbrev pub may_retry : State → Bool
may_retry failed = true
may_retry timed_out = true
may_retry interrupted = true
may_retry _ = false

module _ (desk : Desk) where
  abbrev pub advance : Office → Office
  advance o = record o { engine = record o.engine { reads = suc (suc o.engine.reads) } }

  abbrev pub asked :
      Service
      → ActorIdentity
      → Submission
      → List String
      → Option Snapshot
      → Option Snapshot
      → Deed Unit
  asked service identity submission affected none later o = (raised operation_failed, o)
  asked service identity submission affected (some state) later o =
      authorized
        (authorize service
          (record { operation = submission.operation; targets = affected; current_state = state })
          identity submission.approval_id (provider_of later) o.ledger)
        o

  abbrev pub identified :
      Service
      → Option ActorIdentity
      → Option (ℕ → List String → Option Snapshot)
      → Submission
      → List String
      → Deed Unit
  identified service (some identity) (some provider) submission affected o =
      if identity.actor == submission.actor
      then asked service identity submission affected (provider o.engine.reads affected)
          (provider (suc o.engine.reads) affected) (advance o)
      else (raised invalid_operation, o)
  identified service _ _ submission affected o = (raised invalid_operation, o)

  -- The authorization within `_prepare_steps`.
  abbrev pub authorize_with : Option Service → Submission → List String → Deed Unit
  authorize_with none submission affected o = (ok tt, o)
  authorize_with (some service) submission affected o =
      identified service submission.identity desk.state_provider submission affected o

  unfoldable pub authorize_submission : Submission → List String → Deed Unit
  authorize_submission = authorize_with desk.service

  -- The document of a new operation.
  abbrev pub queued_document : Submission → String → ℕ → List Step → Boundary → Document
  queued_document submission fresh now steps boundary = record {
    id = fresh;
    operation = submission.operation;
    components = affected_of steps;
    requested_targets = submission.components;
    actor = submission.actor;
    state = queued;
    created_at = now;
    updated_at = now;
    current_step = none;
    completed_steps = 0;
    total_steps = length steps;
    retry_of = submission.retry_of;
    error = none;
    recovery = record { required = false; boundary = boundary; next_action = none };
    workflow = submission.workflow;
    lab_action = none;
    selected_component = none;
  }

  abbrev pub inserted :
      Document → Outcome Error Unit × Store → Office → Outcome Error Document × Office
  inserted document (ok _, s) o =
      (ok document, record o { engine = record o.engine { store = s; reads = suc o.engine.reads } })
  inserted document (raised e, s) o =
      (raised e, record o { engine = record o.engine { store = s; reads = suc o.engine.reads } })

  abbrev pub enter : Submission → String → List Step → Outcome Error Boundary → Deed Document
  enter submission fresh steps (raised e) o = (raised e, o)
  enter submission fresh steps (ok boundary) o =
      let document : Document =
        queued_document submission fresh (desk.world.clock o.engine.reads) steps boundary in
      inserted document (create desk.world.redact document o.engine.store) o

  -- `now`, the document, and its insertion.
  unfoldable pub enqueue : Submission → String → List Step → Deed Document
  unfolding create plan_recovery_boundary
  enqueue submission fresh steps = enter submission fresh steps (plan_recovery_boundary steps)

  unfoldable pub prepare_steps : Submission → String → List Step → Deed Document
  unfolding intersects active_components authorize_submission enqueue
  prepare_steps submission fresh steps o =
      if intersects (active_components o.engine.store.rows) (affected_of steps)
      then (raised operation_conflict, o)
      else (authorize_submission submission (affected_of steps) >> enqueue submission fresh steps) o

  unfoldable pub prepare : Submission → String → Deed (Document × List Step)
  unfolding prepare_steps contains any distinct
  prepare submission fresh o =
      if not (contains request_operations submission.operation)
      then (raised invalid_operation, o)
      else if eqb (length (distinct submission.components)) 0
          || any (λ c. not (is_identifier c)) (distinct submission.components)
          || submission.actor == ""
          || ltb 128 (count submission.actor)
      then (raised invalid_operation, o)
      else (do
        steps ←
            planned (plan_steps desk.planner submission.operation (distinct submission.components))
        document ←
            prepare_steps (record submission { components = distinct submission.components }) fresh
              steps
        pure (document, steps))
          o

  abbrev pub worked : Document → List Step → Office → Office
  worked document steps o = record o {
    engine = (run desk.world steps (record { engine = o.engine; document = document })).engine;
  }

  unfoldable pub submit : Submission → String → Deed Document
  submit submission fresh = do
    (document, steps) ← prepare submission fresh
    (λ o. let o' = worked document steps o in (get document.id o'.engine.store, o'))

  abbrev pub resubmit : String → Submission → Outcome Error Document → String → Deed Document
  resubmit operation_id submission (raised e) fresh o = (raised e, o)
  resubmit operation_id submission (ok previous) fresh o =
      if may_retry previous.state
      then submit
          (record submission {
            operation = previous.operation;
            components = previous.requested_targets;
            retry_of = some operation_id;
            workflow = none;
          })
          fresh o
      else (raised invalid_operation, o)

  unfoldable pub retry : String → Submission → String → Deed Document
  retry operation_id submission fresh o =
      resubmit operation_id submission (get operation_id o.engine.store) fresh o
