-- ===== src/Recovery/Restore.antt =====
-- manager/backup_restore.py: how a restore ends, and on which artifacts it runs.
use fortifylab_archive.Prelude.{
  Bool-cases, List, String, [], ap, contains, inl, inr, is_some, refl, some, true, ℕ, ◌++◌, ◌∙◌,
  ◌≡◌, ◌⊎◌,
}
use fortifylab_archive.Prelude.Exec.{Outcome, ok, raised}
use fortifylab_archive.Prelude.Table.{select}
use fortifylab_archive.Recovery.Backup.{IsSettled, idle, settles}
use fortifylab_archive.Recovery.Progress.{AllProper, Respects}
use fortifylab_archive.Recovery.Restoring.{
  IsUsable, Restoring, let_others-Restoring, modify-Restoring,
}
use fortifylab_archive.Recovery.Return.{BodyEnds, IsRestored, restore_body-ends}
use fortifylab_archive.Recovery.Service.{Service}
use fortifylab_archive.Recovery.Store.{operation, put_operation, usable}
use fortifylab_archive.Recovery.Types.{
  Operation, RecoveryError, Scope, backup_scopes, cancelled, failed,
}
use fortifylab_archive.Recovery.Worker.{fresh_artifact, guarded, handled, restore_body, run_restore}
use fortifylab_archive.Recovery.World.{Worker, World, is_cancelled, let_others, safe_error, save}
use mathlib.Core.List.{reverse}

-- A restore that was stopped: nothing was brought back from an artifact that is not usable.
pub record IsStopped (backup_id : String) (origin : Service) (w : Worker) : Type 0 where
  pub state : (w.document.state ≡ failed) ⊎ (w.document.state ≡ cancelled)
  pub explained : is_some w.document.error ≡ true
  pub left : List Scope
  pub parted : w.document.completed_scopes ++ left ≡ reverse backup_scopes
  pub usable : IsUsable backup_id origin ⊎ (w.document.completed_scopes ≡ [])
  pub proper : AllProper origin.store.artifacts → AllProper w.service.store.artifacts

module _ (world : World) (backup_id : String) (origin : Service)
    (respects : Respects backup_id world.others) where
  abbrev HasEnded : Worker → Type 0
  HasEnded w = IsRestored backup_id origin w ⊎ IsStopped backup_id origin w

  stops :
      (more left : List Scope) (w : Worker)
      → (w.document.state ≡ failed) ⊎ (w.document.state ≡ cancelled)
      → is_some w.document.error ≡ true
      → more ++ left ≡ reverse backup_scopes
      → IsUsable backup_id origin ⊎ (more ≡ [])
      → Restoring backup_id origin more w
      → HasEnded w
  stops more left w state explained parted usable s = inr (record {
    state = state;
    explained = explained;
    left = left;
    parted = ap (λ l. l ++ left) s.completed ∙ parted;
    usable = elim usable [ inl u ↦ inl u | inr nothing ↦ inr (s.completed ∙ nothing) ];
    proper = s.proper;
  })

  handled-HasEnded :
      (r : Outcome RecoveryError (Unit {0})) (a b : String) (w : Worker)
      → BodyEnds world backup_id origin respects r w
      → HasEnded (handled world r a b w).1
  unfolding is_cancelled
  handled-HasEnded (ok _) a b w h = inl h
  handled-HasEnded (raised e) a b w (more, left, parted, s, usable) =
      let later = let_others world w in
      let t = let_others-Restoring world backup_id origin respects s in
      let cancelled_by = λ (d : Operation). record d { state = cancelled; error = some a } in
      let failed_by =
        λ (d : Operation). record d { state = failed; error = some (safe_error e b) } in
      elim (Bool-cases (contains later.service.cancelled w.document.id)) [
        | inl asked ↦ rw asked (
            stops more left _ (inr refl) refl parted usable (
              modify-Restoring world backup_id origin respects more cancelled_by (λ d. refl) later
                t))
        | inr not_asked ↦ rw not_asked (
            stops more left _ (inl refl) refl parted usable
              (modify-Restoring world backup_id origin respects more failed_by (λ d. refl) later t))
      ]

  settled-HasEnded : (w : Worker) → HasEnded w → HasEnded (save world (idle w)).1
  unfolding save put_operation
  settled-HasEnded w (inl h) = inl (record {
    state = h.state;
    completed = h.completed;
    usable = h.usable;
    evidence = h.evidence;
    some_evidence = h.some_evidence;
    all_passed = h.all_passed;
    kept = h.kept;
    proper = λ p. respects.proper_kept w.moment w.service (h.proper p);
  })
  settled-HasEnded w (inr h) = inr (record {
    state = h.state;
    explained = h.explained;
    left = h.left;
    parted = h.parted;
    usable = h.usable;
    proper = λ p. respects.proper_kept w.moment w.service (h.proper p);
  })

-- A restore always ends, whatever the helper, the clock and other threads do, as long as no other
-- thread writes the row of its artifact or changes the profile. It succeeds only from an artifact
-- that is complete and of the same profile, with all five scopes brought back in the reverse order
-- of the backup and with evidence, all of it passed; otherwise it has failed or was cancelled, with
-- an explanation, after a first part of the scopes, and after none if the artifact is not usable.
-- The final document is stored, and no scope is in progress.
pub run_restore-Ended :
    (world : World) (operation_id backup_id : String) (moment : ℕ) (service : Service)
    (document : Operation)
    → Respects backup_id world.others
    → select operation_id service.store.operations ≡ some document
    → document.completed_scopes ≡ []
    → (w : Worker) × (run_restore world operation_id backup_id moment service ≡ ok w)
      × IsSettled w
      × (IsRestored backup_id service w ⊎ IsStopped backup_id service w)
unfolding run_restore operation guarded
run_restore-Ended world operation_id backup_id moment service document respects found fresh =
    let first : Worker = record {
      service = service;
      document = document;
      archive = fresh_artifact world service document backup_id;
      moment = moment;
    } in
    let (r, stopped) = restore_body world backup_id first in
    let a : String = "restore cancelled at a safe boundary; applications require verification" in
    let b : String = "restore failed; follow the recovery plan" in
    let marked = (handled world r a b stopped).1 in
    (
      (save world (idle marked)).1,
      rw found refl,
      settles world marked,
      settled-HasEnded world backup_id service respects marked (
          handled-HasEnded world backup_id service respects r a b stopped (
            restore_body-ends world backup_id service respects first (record {
              completed = fresh;
              row_kept = refl;
              profile_kept = refl;
              proper = λ p. p;
            }))),
    )
