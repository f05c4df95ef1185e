-- ===== src/Recovery/Worker.antt =====
-- manager/backup_restore.py: the workers of RecoveryService, `_run_backup` and `_run_restore`.
use fortifylab_archive.Prelude.{
  Bool, List, Option, String, [], all, false, if◌then◌else◌, none, nonempty, not, some, true, ℕ,
  ◌&&◌, ◌++◌, ◌==◌, ◌∷◌,
}
use fortifylab_archive.Prelude.Exec.{Outcome, after, ok, pure, raised, resume, ◌>>=◌, ◌>>◌}
use fortifylab_archive.Prelude.Texts.{joined, text_starts}
use fortifylab_archive.Recovery.Service.{Service}
use fortifylab_archive.Recovery.Store.{artifact, operation, put_artifact}
use fortifylab_archive.Recovery.Types.{
  Artifact, Operation, Passed, RecoveryError, Scope, backup_scopes, cancelled, failed,
  incompatible_backup, incomplete_artifact, recovery_failed, running, succeeded, verifying,
}
use fortifylab_archive.Recovery.World.{
  Work, Worker, World, call_backup, call_restore, call_verify, check_cancelled, for_each,
  has_passed, is_cancelled, let_others, modify, safe_error, sanitize_evidence, save,
}
use mathlib.Core.List.{reverse}

module _ (world : World) where
  -- The checksum of a scope, recorded if it is one.
  abbrev pub record_checksum : Scope → Option String → Work
  record_checksum scope none w =
      (raised (incomplete_artifact "backup scope did not produce a checksum"), w)
  record_checksum scope (some digest) w =
      if not (text_starts digest "sha256:")
      then (raised (incomplete_artifact "backup scope did not produce a checksum"), w)
      else (
        ok tt,
        record w {
          archive = record w.archive { checksums = w.archive.checksums ++ (scope, digest) ∷ [] };
        },
      )

  -- The body of the loop of `_run_backup`.
  unfoldable pub back_up : Scope → Work
  unfolding check_cancelled save call_backup text_starts
  back_up scope = do
    check_cancelled world
    modify (λ d. record d { current_scope = some scope })
    save world
    checksum ← call_backup world scope
    record_checksum scope checksum
    modify (λ d. record d { completed_scopes = d.completed_scopes ++ scope ∷ [] })
    save world

  -- The manifest digest, and the artifact stored as complete.
  unfoldable pub complete_artifact : Work
  unfolding put_artifact
  complete_artifact w =
      let later = let_others world w in
      let whole : Artifact = record w.archive {
        manifest_digest = some (joined "sha256:" (world.digest w.archive));
      } in
      (
        ok tt,
        record later {
          archive = whole;
          service = record later.service { store = put_artifact whole true later.service.store };
          document = record w.document { state = succeeded };
        },
      )

  unfoldable pub backup_body : Work
  unfolding save back_up for_each complete_artifact
  backup_body = do
    modify (λ d. record d { state = running })
    save world
    for_each back_up backup_scopes
    complete_artifact

  -- The body of the loop of `_run_restore`.
  unfoldable pub bring_back : Scope → Work
  unfolding check_cancelled save call_restore
  bring_back scope = do
    check_cancelled world
    modify (λ d. record d { current_scope = some scope })
    save world
    call_restore world scope
    modify (λ d. record d { completed_scopes = d.completed_scopes ++ scope ∷ [] })
    save world

  abbrev pub accept : List Passed → Work
  accept evidence w =
      if not (nonempty evidence && all has_passed evidence)
      then (raised (recovery_failed "application-level recovery verification failed"), w)
      else (
        ok tt,
        record w {
          document = record w.document { evidence = sanitize_evidence evidence; state = succeeded };
        },
      )

  abbrev pub accept_profile : Artifact → Work
  accept_profile found w =
      if not (found.profile_id == w.service.profile_id)
      then (raised (incompatible_backup "backup platform profile is incompatible"), w)
      else (ok tt, record w { archive = found })

  -- `self.store.artifact(backup_id)` and the test of its profile.
  unfoldable pub check_artifact : String → Work
  unfolding artifact
  check_artifact backup_id w =
      let later = let_others world w in
      resume (artifact backup_id true later.service.store) accept_profile later

  unfoldable pub restore_body : String → Work
  unfolding check_artifact save bring_back for_each call_verify sanitize_evidence all
  restore_body backup_id = do
    check_artifact backup_id
    modify (λ d. record d { state = running })
    save world
    for_each bring_back (reverse backup_scopes)
    modify (λ d. record d { state = verifying })
    save world
    evidence ← call_verify world
    accept evidence

  -- The document when an exception was caught.
  abbrev pub fail_document : RecoveryError → String → String → Bool → Work
  fail_document error cancelled_text failed_text true =
      modify (λ d. record d { state = cancelled; error = some cancelled_text })
  fail_document error cancelled_text failed_text false =
      modify (λ d. record d { state = failed; error = some (safe_error error failed_text) })

  abbrev pub handled : Outcome RecoveryError (Unit {0}) → String → String → Work
  handled (ok _) cancelled_text failed_text = pure tt
  handled (raised e) cancelled_text failed_text =
      is_cancelled world >>= fail_document e cancelled_text failed_text

  -- `try … except … finally`
  unfoldable pub guarded : Work → String → String → Worker → Worker
  unfolding is_cancelled save
  guarded body cancelled_text failed_text w =
      let (r, stopped) = body w in
      let (_, marked) = handled r cancelled_text failed_text stopped in
      (save world (record marked { document = record marked.document { current_scope = none } })).1

  abbrev pub fresh_artifact : Service → Operation → String → Artifact
  fresh_artifact service document backup_id = record {
    id = backup_id;
    profile_id = service.profile_id;
    scope = backup_scopes;
    destination = service.destination;
    created_at = document.created_at;
    checksums = [];
    manifest_digest = none;
  }

  -- A worker of `_run_backup` that has stored its artifact as incomplete.
  unfoldable pub started : Service → Operation → String → ℕ → Worker
  unfolding put_artifact
  started service document backup_id moment =
      let archive = fresh_artifact service document backup_id in
      record {
        service = record service { store = put_artifact archive false service.store };
        document = document;
        archive = archive;
        moment = moment;
      }

  -- `_run_backup`
  unfoldable pub run_backup : String → String → ℕ → Service → Outcome RecoveryError Worker
  unfolding guarded started backup_body operation
  run_backup operation_id backup_id moment service =
      after (operation operation_id service.store) (λ document. ok (
        guarded backup_body "backup cancelled at a safe boundary"
          "backup failed; incomplete artifact cannot be restored"
          (started service document backup_id moment)))

  -- `_run_restore`
  unfoldable pub run_restore : String → String → ℕ → Service → Outcome RecoveryError Worker
  unfolding guarded restore_body operation
  run_restore operation_id backup_id moment service =
      after (operation operation_id service.store) (λ document. ok (
        guarded (restore_body backup_id)
          "restore cancelled at a safe boundary; applications require verification"
          "restore failed; follow the recovery plan"
          (record {
            service = service;
            document = document;
            archive = fresh_artifact service document backup_id;
            moment = moment;
          })))
