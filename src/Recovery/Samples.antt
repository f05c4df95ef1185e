-- ===== src/Recovery/Samples.antt =====
-- manager/backup_restore.py: a backup that succeeds, one that is cancelled, and a restore.
use fortifylab_archive.Prelude.{
  Bool-cases, List, Option, String, [], all, any, ap, contains, false, inl, inr, leb, none, refl,
  some, subst, sym, true, ℕ, ◌&&◌, ◌↔◌, ◌∷◌, ◌≡◌, ◌⊎◌,
}
use fortifylab_archive.Prelude.Exec.{Outcome, Outcome-cases, ok, raised}
use fortifylab_archive.Prelude.Table.{put, select}
use fortifylab_archive.Prelude.Texts.{text_starts}
use fortifylab_archive.Recovery.Backup.{IsPartial, IsSettled, IsWhole, run_backup-Ended}
use fortifylab_archive.Recovery.Histories.{
  History, Spares, accepted_restore-Proper, ask_backup, ask_cancel, backed_up, here,
}
use fortifylab_archive.Recovery.Progress.{AllProper, ArePrefixed, Respects, covered}
use fortifylab_archive.Recovery.Requests.{IsRecorded, submit_restore-guarded}
use fortifylab_archive.Recovery.Restore.{IsStopped, run_restore-Ended}
use fortifylab_archive.Recovery.Restoring.{IsUsable}
use fortifylab_archive.Recovery.Return.{IsRestored}
use fortifylab_archive.Recovery.Service.{
  Service, cancel, cancel_loaded, new_operation, submit_backup, submit_restore,
}
use fortifylab_archive.Recovery.Store.{artifact, operation, put_operation, reopen}
use fortifylab_archive.Recovery.Types.{
  Artifact, Destination, Operation, RecoveryError, Scope, Status, backup_action, backup_scopes,
  cancelled, configuration_metadata, destination, is_terminal, manager_state, mysql_ssc,
  postgresql_dast, restore_action, restore_confirmation, ssc_secret_key, succeeded,
}
use fortifylab_archive.Recovery.Worker.{
  back_up, bring_back, complete_artifact, run_backup, run_restore,
}
use fortifylab_archive.Recovery.World.{Worker, World}

cancel_keeps :
    (id : String) (now : ℕ) (s : Service)
    → ((cancel id now s).1.store.artifacts ≡ s.store.artifacts)
      × ((cancel id now s).1.profile_id ≡ s.profile_id)
unfolding cancel cancel_loaded put_operation
cancel_keeps id now s = elim (Outcome-cases (operation id s.store)) [
  | inr (e, missing) ↦ rw missing (refl, refl)
  | inl (document, found) ↦ elim (Bool-cases (is_terminal document.state)) [
    | inl over ↦ rw (found, over) (refl, refl)
    | inr open_still ↦ rw (found, open_still) (refl, refl)
  ]
]

-- Other threads ask for the cancellation of one operation all the time.
abbrev cancelling : String → ℕ → Service → Service
cancelling id n s = (cancel id n s).1

cancelling-Respects : (id backup_id : String) → Respects backup_id (cancelling id)
cancelling-Respects id backup_id = record {
  artifact_kept = λ n s. ap (select backup_id) (cancel_keeps id n s).0;
  profile_kept = λ n s. (cancel_keeps id n s).1;
  proper_kept = λ n s p. subst AllProper (sym (cancel_keeps id n s).0) p;
}

abbrev world_with : (ℕ → Service → Service) → World
world_with others = record {
  others = others;
  backup = λ n scope. ok (some "sha256:ab");
  restore = λ n scope. ok tt;
  verify = λ n. ok (record { check = some "mysql-query"; state = some "passed"; code = none } ∷ []);
  clock = λ n. n;
  digest = λ a. "cd";
}

abbrev shelf : Destination
shelf = record { id = "usb"; storage_class = "removable"; retention_days = 30 }

abbrev empty : Service
empty = record {
  store = record { operations = []; artifacts = [] };
  profile_id = "lab";
  destination = shelf;
  cancelled = [];
}

abbrev asked_backup : Outcome RecoveryError Operation × Service
asked_backup = submit_backup "r1" "b1" "ann" 5 empty

program : Unit {0}
unfolding submit_backup submit_restore run_backup run_restore cancel back_up bring_back
    complete_artifact destination put select contains all any text_starts reopen
program = tt

abbrev queued_backup : Operation
queued_backup = new_operation backup_action "r1" "b1" "lab" "ann" 5

destination_fits : destination (λ c. leb b'a' c && leb c b'z') "usb" "removable" 30 ≡ ok shelf
unfolding program
destination_fits = refl

submitted : select "r1" asked_backup.1.store.operations ≡ some queued_backup
unfolding program
submitted = refl

fresh : queued_backup.completed_scopes ≡ []
unfolding new_operation
fresh = refl

none_yet : AllProper asked_backup.1.store.artifacts
unfolding program
none_yet id row found complete = absurd (cc)

run_backup-Ended_example :
    (w : Worker) × (run_backup (world_with (cancelling "r9")) "r1" "b1" 0 asked_backup.1 ≡ ok w)
    × IsSettled w
    × (IsWhole "b1" w ⊎ IsPartial "b1" w)
run_backup-Ended_example =
    run_backup-Ended (world_with (cancelling "r9")) "b1" (cancelling-Respects "r9" "b1") "r1" 0
      asked_backup.1 queued_backup submitted fresh none_yet

abbrev outcome_of : Outcome RecoveryError Worker → Option (Status × List Scope)
outcome_of (ok w) = some (w.document.state, w.document.completed_scopes)
outcome_of (raised e) = none

backup_succeeds :
    outcome_of (run_backup (world_with (cancelling "r9")) "r1" "b1" 0 asked_backup.1)
    ≡ some (succeeded, backup_scopes)
unfolding program
backup_succeeds = refl

backup_cancelled :
    outcome_of (run_backup (world_with (cancelling "r1")) "r1" "b1" 0 asked_backup.1)
    ≡ some (cancelled, [])
unfolding program
backup_cancelled = refl

abbrev world : World
world = world_with (cancelling "r9")

abbrev saved_document : Operation
saved_document = record {
  id = "r1";
  action = backup_action;
  backup_id = "b1";
  profile_id = "lab";
  actor = "ann";
  state = succeeded;
  current_scope = none;
  completed_scopes = backup_scopes;
  cancellation_requested = false;
  created_at = 5;
  updated_at = 23;
  evidence = [];
  error = none;
}

abbrev saved_archive : Artifact
saved_archive = record {
  id = "b1";
  profile_id = "lab";
  scope = backup_scopes;
  destination = shelf;
  created_at = 5;
  checksums =
      (manager_state, "sha256:ab")
      ∷ (configuration_metadata, "sha256:ab")
      ∷ (mysql_ssc, "sha256:ab")
      ∷ (ssc_secret_key, "sha256:ab")
      ∷ (postgresql_dast, "sha256:ab")
      ∷ [];
  manifest_digest = some "sha256:cd";
}

abbrev saved : Worker
saved = record {
  service = record {
    store = record {
      operations = ("r1", saved_document) ∷ [];
      artifacts = ("b1", record { complete = true; payload = saved_archive }) ∷ [];
    };
    profile_id = "lab";
    destination = shelf;
    cancelled = [];
  };
  document = saved_document;
  archive = saved_archive;
  moment = 23;
}

ran : run_backup world "r1" "b1" 0 asked_backup.1 ≡ ok saved
unfolding program
ran = refl

cancelling-Spares : (id backup_id : String) → Spares backup_id (cancelling id)
cancelling-Spares id backup_id = record {
  artifact_kept = λ n s. ap (select backup_id) (cancel_keeps id n s).0;
  profile_kept = λ n s. (cancel_keeps id n s).1;
}

abbrev lab_history : History empty saved.service
lab_history =
    backed_up (ask_backup here "r1" "b1" "ann" 5) world "r1" "b1" 0 queued_backup saved
      (cancelling-Spares "r9" "b1") (λ n u. ask_cancel here "r9" n) submitted fresh ran

abbrev asked_restore : Outcome RecoveryError Operation × Service
asked_restore = submit_restore "r2" "b1" "ann" (some restore_confirmation) 40 saved.service

abbrev queued_restore : Operation
queued_restore = new_operation restore_action "r2" "b1" "lab" "ann" 40

accepted : asked_restore.0 ≡ ok queued_restore
unfolding program
accepted = refl

accepted_restore-Proper_example :
    (a : Artifact) × (artifact "b1" true saved.service.store ≡ ok a)
    × (a.profile_id ≡ saved.service.profile_id)
    × (covered a.checksums ≡ backup_scopes)
    × ArePrefixed a.checksums
accepted_restore-Proper_example =
    accepted_restore-Proper empty saved.service "r2" "b1" "ann" (some restore_confirmation) 40
      queued_restore refl lab_history accepted

submit_restore-guarded_example :
    IsRecorded "r2" saved.service asked_restore.0 asked_restore.1
    × (((document : Operation) × (asked_restore.0 ≡ ok document)) ↔ (
        (◌≡◌ {A = Option String} (some restore_confirmation) (some restore_confirmation))
        × IsUsable "b1" saved.service))
submit_restore-guarded_example =
    submit_restore-guarded "r2" "b1" "ann" (some restore_confirmation) 40 saved.service

stored_restore : select "r2" asked_restore.1.store.operations ≡ some queued_restore
unfolding program
stored_restore = refl

fresh_restore : queued_restore.completed_scopes ≡ []
unfolding new_operation
fresh_restore = refl

run_restore-Ended_example :
    (w : Worker) × (run_restore world "r2" "b1" 50 asked_restore.1 ≡ ok w)
    × IsSettled w
    × (IsRestored "b1" asked_restore.1 w ⊎ IsStopped "b1" asked_restore.1 w)
run_restore-Ended_example =
    run_restore-Ended world "r2" "b1" 50 asked_restore.1 queued_restore
      (cancelling-Respects "r9" "b1") stored_restore fresh_restore

restore_succeeds :
    outcome_of (run_restore world "r2" "b1" 50 asked_restore.1)
    ≡ some (
      succeeded,
      postgresql_dast ∷ ssc_secret_key ∷ mysql_ssc ∷ configuration_metadata ∷ manager_state ∷ [],
    )
unfolding program
restore_succeeds = refl
