-- ===== src/Recovery/Service.antt =====
-- manager/backup_restore.py: RecoveryService, what a client can ask of it.
use fortifylab_archive.Prelude.{
  Bool, List, Option, String, [], false, if◌then◌else◌, none, not, some, true, ℕ, ◌==◌, ◌∷◌,
}
use fortifylab_archive.Prelude.Exec.{Exec, Outcome, after, ok, raised, resume}
use fortifylab_archive.Prelude.Texts.{text_take}
use fortifylab_archive.Recovery.Store.{Store, artifact, operation, put_operation}
use fortifylab_archive.Recovery.Types.{
  Destination, Operation, RecoveryAction, RecoveryError, Scope, backup_action, incompatible_backup,
  is_terminal, queued, recovery_failed, restore_action, restore_confirmation,
}

pub record Service : Type 0 where
  pub store : Store
  pub profile_id : String
  pub destination : Destination
  pub cancelled : List String

pub record RestorePlan : Type 0 where
  pub backup_id : String
  pub artifact_profile_id : String
  pub current_profile_id : String
  pub compatible : Bool
  pub blocked_reason : Option String
  pub scope : List Scope

-- `restore_plan`
unfoldable pub restore_plan : String → Service → Outcome RecoveryError RestorePlan
unfolding artifact
restore_plan backup_id service = after (artifact backup_id true service.store) (λ found.
    let compatible = found.profile_id == service.profile_id in
    ok (record {
      backup_id = backup_id;
      artifact_profile_id = found.profile_id;
      current_profile_id = service.profile_id;
      compatible = compatible;
      blocked_reason = if compatible then none else some "platform profile does not match";
      scope = found.scope;
    }))

-- `_new_operation`; the identifier and the clock are arguments.
unfoldable pub new_operation : RecoveryAction → String → String → String → String → ℕ → Operation
unfolding text_take
new_operation action id backup_id profile_id actor now = record {
  id = id;
  action = action;
  backup_id = backup_id;
  profile_id = profile_id;
  actor = text_take 128 actor;
  state = queued;
  current_scope = none;
  completed_scopes = [];
  cancellation_requested = false;
  created_at = now;
  updated_at = now;
  evidence = [];
  error = none;
}

-- `submit_backup`, up to the start of its worker.
unfoldable pub submit_backup : String → String → String → ℕ → Exec Service RecoveryError Operation
unfolding new_operation put_operation
submit_backup id backup_id actor now service =
    let document = new_operation backup_action id backup_id service.profile_id actor now in
    (ok document, record service { store = put_operation document service.store })

abbrev pub is_exact : Option String → Bool
is_exact none = false
is_exact (some t) = t == restore_confirmation

abbrev pub begin_restore :
    String → String → String → ℕ → RestorePlan → Exec Service RecoveryError Operation
begin_restore id backup_id actor now plan service =
    if not plan.compatible
    then (raised (incompatible_backup "backup platform profile is incompatible"), service)
    else let document = new_operation restore_action id backup_id service.profile_id actor now in
      (ok document, record service { store = put_operation document service.store })

-- What `submit_restore` does when the confirmation is exact.
unfoldable pub submit_confirmed :
    String → String → String → ℕ → Exec Service RecoveryError Operation
unfolding restore_plan new_operation put_operation
submit_confirmed id backup_id actor now service =
    resume (restore_plan backup_id service) (begin_restore id backup_id actor now) service

-- `submit_restore`, up to the start of its worker.
unfoldable pub submit_restore :
    String → String → String → Option String → ℕ → Exec Service RecoveryError Operation
unfolding submit_confirmed
submit_restore id backup_id actor confirmation now service =
    if not (is_exact confirmation)
    then (raised (recovery_failed "restore requires the exact typed confirmation"), service)
    else submit_confirmed id backup_id actor now service

-- The second part of `cancel`, on the document that was loaded.
unfoldable pub cancel_loaded : Operation → ℕ → Exec Service RecoveryError Operation
unfolding put_operation
cancel_loaded document now service =
    if is_terminal document.state
    then (ok document, service)
    else let requested = record document { cancellation_requested = true; updated_at = now } in
      (
        ok requested,
        record service {
          store = put_operation requested service.store;
          cancelled = document.id ∷ service.cancelled;
        },
      )

-- `cancel`; other threads may act between its two parts.
unfoldable pub cancel : String → ℕ → Exec Service RecoveryError Operation
unfolding operation cancel_loaded
cancel operation_id now service =
    resume (operation operation_id service.store) (λ document. cancel_loaded document now) service
