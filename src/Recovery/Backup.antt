-- ===== src/Recovery/Backup.antt =====
-- manager/backup_restore.py: how a backup ends.
use fortifylab_archive.Prelude.{
  Bool-cases, List, String, [], ap, arith, contains, false, inl, inr, is_some, none, refl, some,
  subst, true, ℕ, ◌++◌, ◌==◌, ◌∙◌, ◌≡◌, ◌≢◌, ◌⊎◌,
}
use fortifylab_archive.Prelude.Exec.{Outcome, ok, raised, resume, then_rule}
use fortifylab_archive.Prelude.Table.{Table, put, select, select-put, select-put_self}
use fortifylab_archive.Recovery.Loops.{LoopEnds, for_each-ends}
use fortifylab_archive.Recovery.Progress.{
  AllProper, ArePrefixed, Respects, Saved, back_up-ends, completeness, covered, let_others-Saved,
  modify-Saved, save-Saved,
}
use fortifylab_archive.Recovery.Service.{Service}
use fortifylab_archive.Recovery.Store.{ArtifactRow, operation, put_artifact, put_operation}
use fortifylab_archive.Recovery.Types.{
  Operation, RecoveryError, Scope, backup_scopes, cancelled, failed, running, succeeded,
}
use fortifylab_archive.Recovery.Worker.{
  back_up, backup_body, complete_artifact, guarded, handled, run_backup, started,
}
use fortifylab_archive.Recovery.World.{
  Worker, World, for_each, is_cancelled, let_others, modify, safe_error, save,
}

-- A backup that succeeded: every scope is done and has its checksum, and the artifact is stored as
-- complete, with a digest of its manifest.
pub record IsWhole (backup_id : String) (w : Worker) : Type 0 where
  pub state : w.document.state ≡ succeeded
  pub completed : w.document.completed_scopes ≡ backup_scopes
  pub recorded : covered w.archive.checksums ≡ backup_scopes
  pub prefixed : ArePrefixed w.archive.checksums
  pub manifest : is_some w.archive.manifest_digest ≡ true
  pub held :
      select backup_id w.service.store.artifacts
      ≡ some (record { complete = true; payload = w.archive })
  pub proper : AllProper w.service.store.artifacts

-- A backup that was stopped: a first part of the scopes is done, and the artifact is incomplete.
pub record IsPartial (backup_id : String) (w : Worker) : Type 0 where
  pub state : (w.document.state ≡ failed) ⊎ (w.document.state ≡ cancelled)
  pub explained : is_some w.document.error ≡ true
  pub left : List Scope
  pub parted : w.document.completed_scopes ++ left ≡ backup_scopes
  pub some_left : left ≢ []
  pub held : completeness (select backup_id w.service.store.artifacts) ≡ some false
  pub proper : AllProper w.service.store.artifacts

-- The last document is stored, and nothing is in progress.
pub record IsSettled (w : Worker) : Type 0 where
  pub stored : select w.document.id w.service.store.operations ≡ some w.document
  pub idle : w.document.current_scope ≡ none

-- What `finally` does before it saves.
abbrev pub idle : Worker → Worker
idle w = record w { document = record w.document { current_scope = none } }

pub settles : (world : World) (w : Worker) → IsSettled (save world (idle w)).1
unfolding save put_operation
settles world w = record {
  stored = select-put_self w.document.id w.document.id _ _ refl;
  idle = refl;
}

put-AllProper :
    (id : String) (row : ArtifactRow) (artifacts : Table ArtifactRow)
    → AllProper artifacts
    → (row.complete ≡ true
        → (covered row.payload.checksums ≡ backup_scopes) × ArePrefixed row.payload.checksums)
    → AllProper (put id row artifacts)
put-AllProper id row artifacts proper own key found at complete =
    let step = select-put id key row artifacts in
    elim (Bool-cases (id == key)) [
      | inl same ↦
          let e : row ≡ found = ground (arith, step) in
          subst
            (λ r. (covered r.payload.checksums ≡ backup_scopes) × ArePrefixed r.payload.checksums) e
            (own (ap (λ r. r.complete) e ∙ complete))
      | inr other ↦ proper key found (ground (arith, step)) complete
    ]

module _ (world : World) (backup_id : String) (respects : Respects backup_id world.others) where
  abbrev BodyEnds : Outcome RecoveryError (Unit {0}) → Worker → Type 0
  BodyEnds (ok _) w = IsWhole backup_id w
  BodyEnds (raised _) w =
      (more : List Scope) × (left : List Scope) × (more ++ left ≡ backup_scopes)
      × (left ≢ [])
      × Saved backup_id more w

  completes :
      (w : Worker)
      → Saved backup_id backup_scopes w
      → IsWhole backup_id (complete_artifact world w).1
  unfolding complete_artifact put_artifact
  completes w s = record {
    state = refl;
    completed = s.completed;
    recorded = s.recorded;
    prefixed = s.prefixed;
    manifest = refl;
    held = select-put_self w.archive.id backup_id _ _ s.named;
    proper =
        put-AllProper w.archive.id
          (record { complete = true; payload = (complete_artifact world w).1.archive })
          (world.others w.moment w.service).store.artifacts
          (respects.proper_kept w.moment w.service s.proper) (λ complete. (s.recorded, s.prefixed));
  }

  loop_ends :
      (r : Outcome RecoveryError (Unit {0})) (w : Worker)
      → LoopEnds (Saved backup_id) [] backup_scopes r w
      → BodyEnds
          (resume r (λ _. complete_artifact world) w).0
          (resume r (λ _. complete_artifact world) w).1
  unfolding complete_artifact
  loop_ends (ok _) w s = completes w s
  loop_ends (raised e) w s = s

  stopped_early : (e : RecoveryError) (t : Worker) → Saved backup_id [] t → BodyEnds (raised e) t
  stopped_early e t s = ([], backup_scopes, refl, (λ h. absurd (cc)), s)

  backup_body-ends :
      (w : Worker) → Saved backup_id [] w → BodyEnds (backup_body world w).0 (backup_body world w).1
  unfolding backup_body
  backup_body-ends =
      let P = Saved backup_id [] in
      then_rule P BodyEnds (modify (λ d. record d { state = running })) _ stopped_early
        (modify-Saved world backup_id respects [] _ (λ d. refl))
        (then_rule P BodyEnds (save world) _ stopped_early (save-Saved world backup_id respects [])
          (λ w s.
            loop_ends (for_each (back_up world) backup_scopes w).0
              (for_each (back_up world) backup_scopes w).1
              (for_each-ends (Saved backup_id) (back_up world)
                (back_up-ends world backup_id respects) [] backup_scopes w s)))

  abbrev HasEnded : Worker → Type 0
  HasEnded w = IsWhole backup_id w ⊎ IsPartial backup_id w

  partial :
      (more left : List Scope) (w : Worker)
      → (w.document.state ≡ failed) ⊎ (w.document.state ≡ cancelled)
      → is_some w.document.error ≡ true
      → more ++ left ≡ backup_scopes
      → left ≢ []
      → Saved backup_id more w
      → IsPartial backup_id w
  partial more left w state explained parted some_left s = record {
    state = state;
    explained = explained;
    left = left;
    parted = ap (λ l. l ++ left) s.completed ∙ parted;
    some_left = some_left;
    held = s.held;
    proper = s.proper;
  }

  fails-IsPartial :
      (e : RecoveryError) (a b : String) (more left : List Scope) (w : Worker)
      → more ++ left ≡ backup_scopes
      → left ≢ []
      → Saved backup_id more w
      → HasEnded (handled world (raised e) a b w).1
  unfolding is_cancelled
  fails-IsPartial e a b more left w parted some_left s =
      let kept = let_others-Saved world backup_id respects s in
      elim (Bool-cases (contains (let_others world w).service.cancelled w.document.id)) [
        | inl asked ↦ rw asked (
            inr (
              partial more left _ (inr refl) refl parted some_left (
                modify-Saved world backup_id respects more
                  (λ d. record d { state = cancelled; error = some a }) (λ d. refl)
                  (let_others world w) kept)))
        | inr not_asked ↦ rw not_asked (
            inr (
              partial more left _ (inl refl) refl parted some_left (
                modify-Saved world backup_id respects more
                  (λ d. record d { state = failed; error = some (safe_error e b) }) (λ d. refl)
                  (let_others world w) kept)))
      ]

  handled-HasEnded :
      (r : Outcome RecoveryError (Unit {0})) (a b : String) (w : Worker)
      → BodyEnds r w
      → HasEnded (handled world r a b w).1
  handled-HasEnded (ok _) a b w whole = inl whole
  handled-HasEnded (raised e) a b w (more, left, parted, some_left, s) =
      fails-IsPartial e a b more left w parted some_left s

  settled-HasEnded : (w : Worker) → HasEnded w → HasEnded (save world (idle w)).1
  unfolding save put_operation
  settled-HasEnded w (inl h) = inl (record {
    state = h.state;
    completed = h.completed;
    recorded = h.recorded;
    prefixed = h.prefixed;
    manifest = h.manifest;
    held = respects.artifact_kept w.moment w.service ∙ h.held;
    proper = respects.proper_kept w.moment w.service h.proper;
  })
  settled-HasEnded w (inr h) = inr (record {
    state = h.state;
    explained = h.explained;
    left = h.left;
    parted = h.parted;
    some_left = h.some_left;
    held = ap completeness (respects.artifact_kept w.moment w.service) ∙ h.held;
    proper = respects.proper_kept w.moment w.service h.proper;
  })

  started-Saved :
      (service : Service) (document : Operation) (moment : ℕ)
      → document.completed_scopes ≡ []
      → AllProper service.store.artifacts
      → Saved backup_id [] (started world service document backup_id moment)
  unfolding started put_artifact
  started-Saved service document moment fresh proper = record {
    completed = fresh;
    recorded = refl;
    prefixed = tt;
    named = refl;
    held = ap completeness (select-put_self backup_id backup_id _ _ refl);
    proper = put-AllProper backup_id _ service.store.artifacts proper (λ complete. absurd (cc));
  }

  -- A backup always ends, whatever the helper, the clock and other threads do, as long as these
  -- leave the row of its artifact and the profile alone and keep, as the service does in the
  -- beginning, a checksum for each scope in every artifact that is stored as complete. Either it has
  -- succeeded, with a checksum, a text that begins with `sha256:`, for each of the five scopes, in
  -- their order, and the artifact stored as complete; or it has failed or was cancelled, with an
  -- explanation, after a first part of the scopes, and the artifact is stored as incomplete. The
  -- final document is stored, and no scope is in progress.
  pub run_backup-Ended :
      (operation_id : String) (moment : ℕ) (service : Service) (document : Operation)
      → select operation_id service.store.operations ≡ some document
      → document.completed_scopes ≡ []
      → AllProper service.store.artifacts
      → (w : Worker) × (run_backup world operation_id backup_id moment service ≡ ok w)
        × IsSettled w
        × (IsWhole backup_id w ⊎ IsPartial backup_id w)
  unfolding run_backup operation guarded
  run_backup-Ended operation_id moment service document found fresh proper =
      let first = started world service document backup_id moment in
      let (r, stopped) = backup_body world first in
      let a : String = "backup cancelled at a safe boundary" in
      let b : String = "backup failed; incomplete artifact cannot be restored" in
      let marked = (handled world r a b stopped).1 in
      (
        (save world (idle marked)).1,
        rw found refl,
        settles world marked,
        settled-HasEnded marked (
            handled-HasEnded r a b stopped
              (backup_body-ends first (started-Saved service document moment fresh proper))),
      )
