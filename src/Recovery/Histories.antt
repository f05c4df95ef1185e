-- ===== src/Recovery/Histories.antt =====
-- manager/backup_restore.py: the service over time: requests, workers and restarts.
use fortifylab_archive.Prelude.{
  Bool-cases, Option, Option-cases, String, [], arith, inl, inr, some, subst, sym, true, ℕ, ◌∙◌,
  ◌≡◌,
}
use fortifylab_archive.Prelude.Exec.{Outcome, Outcome-cases, ok, ok_subst, raised}
use fortifylab_archive.Prelude.Table.{Table, select}
use fortifylab_archive.Recovery.Backup.{run_backup-Ended}
use fortifylab_archive.Recovery.Progress.{AllProper, ArePrefixed, Respects, covered}
use fortifylab_archive.Recovery.Requests.{IsRecorded, submit_restore-guarded}
use fortifylab_archive.Recovery.Restore.{run_restore-Ended}
use fortifylab_archive.Recovery.Service.{
  Service, cancel, cancel_loaded, submit_backup, submit_restore,
}
use fortifylab_archive.Recovery.Store.{
  ArtifactRow, artifact, operation, put_operation, reopen, usable,
}
use fortifylab_archive.Recovery.Types.{
  Artifact, Operation, RecoveryError, backup_scopes, is_terminal,
}
use fortifylab_archive.Recovery.Worker.{run_backup, run_restore}
use fortifylab_archive.Recovery.World.{Worker, World}

-- Other threads leave the row of one artifact and the profile of the service as they are.
pub record Spares (backup_id : String) (others : ℕ → Service → Service) : Type 0 where
  pub artifact_kept :
      (n : ℕ) (s : Service)
      → select backup_id (others n s).store.artifacts ≡ select backup_id s.store.artifacts
  pub profile_kept : (n : ℕ) (s : Service) → (others n s).profile_id ≡ s.profile_id

-- What may happen to the service. A worker runs with the other threads let in: whatever they do
-- meanwhile has a history of its own, with workers too. A restart opens the store anew.
pub data History : Service → Service → Type 0 where
  here : {s : Service} → History s s
  ask_backup :
      {s t : Service}
      → History s t
      → (id backup_id actor : String) (now : ℕ)
      → History s (submit_backup id backup_id actor now t).1
  ask_restore :
      {s t : Service}
      → History s t
      → (id backup_id actor : String) (confirmation : Option String) (now : ℕ)
      → History s (submit_restore id backup_id actor confirmation now t).1
  ask_cancel :
      {s t : Service} → History s t → (id : String) (now : ℕ) → History s (cancel id now t).1
  restart :
      {s t : Service}
      → History s t
      → (now : ℕ) → History s (record t { store = reopen now t.store; cancelled = [] })
  backed_up :
      {s t : Service}
      → History s t
      → (world : World) (operation_id backup_id : String) (moment : ℕ) (document : Operation)
        (w : Worker)
      → Spares backup_id world.others
      → ((n : ℕ) (u : Service) → History u (world.others n u))
      → select operation_id t.store.operations ≡ some document
      → document.completed_scopes ≡ []
      → run_backup world operation_id backup_id moment t ≡ ok w
      → History s w.service
  restored :
      {s t : Service}
      → History s t
      → (world : World) (operation_id backup_id : String) (moment : ℕ) (document : Operation)
        (w : Worker)
      → Spares backup_id world.others
      → ((n : ℕ) (u : Service) → History u (world.others n u))
      → select operation_id t.store.operations ≡ some document
      → document.completed_scopes ≡ []
      → run_restore world operation_id backup_id moment t ≡ ok w
      → History s w.service

abbrev pub Proper : Service → Type 0
Proper s = AllProper s.store.artifacts

cancel-Proper : (id : String) (now : ℕ) (s : Service) → Proper s → Proper (cancel id now s).1
unfolding cancel cancel_loaded put_operation
cancel-Proper id now s p = elim (Outcome-cases (operation id s.store)) [
  | inr (e, missing) ↦ rw missing p
  | inl (document, found) ↦ elim (Bool-cases (is_terminal document.state)) [
    | inl over ↦ rw (found, over) p
    | inr open_still ↦ rw (found, open_still) p
  ]
]

submit_backup-Proper :
    (id backup_id actor : String) (now : ℕ) (s : Service)
    → Proper s
    → Proper (submit_backup id backup_id actor now s).1
unfolding submit_backup put_operation
submit_backup-Proper id backup_id actor now s p = p

reopen-Proper :
    (now : ℕ) (s : Service)
    → Proper s
    → Proper (record s { store = reopen now s.store; cancelled = [] })
unfolding reopen
reopen-Proper now s p = p

submit_restore-Proper :
    (id backup_id actor : String) (confirmation : Option String) (now : ℕ) (s : Service)
    → Proper s
    → Proper (submit_restore id backup_id actor confirmation now s).1
submit_restore-Proper id backup_id actor confirmation now s p =
    recorded-Proper id s (submit_restore id backup_id actor confirmation now s).0 _
      (submit_restore-guarded id backup_id actor confirmation now s).0 p
  where
    recorded-Proper :
        (id : String) (s : Service) (r : Outcome RecoveryError Operation) (t : Service)
        → IsRecorded id s r t
        → Proper s
        → Proper t
    recorded-Proper id s (ok d) t h p = subst AllProper (sym h.3) p
    recorded-Proper id s (raised e) t h p = subst Proper (sym h) p

backed_up-Proper :
    (world : World) (operation_id backup_id : String) (moment : ℕ) (s : Service)
    (document : Operation) (w : Worker)
    → Respects backup_id world.others
    → select operation_id s.store.operations ≡ some document
    → document.completed_scopes ≡ []
    → run_backup world operation_id backup_id moment s ≡ ok w
    → Proper s
    → Proper w.service
backed_up-Proper world operation_id backup_id moment s document w respects found fresh ran p =
    let (ended, ran_too, _, outcome) =
      run_backup-Ended world backup_id respects operation_id moment s document found fresh p in
    ok_subst (λ (v : Worker). Proper v.service) (sym ran_too ∙ ran)
      (elim outcome [ inl h ↦ h.proper | inr h ↦ h.proper ])

restored-Proper :
    (world : World) (operation_id backup_id : String) (moment : ℕ) (s : Service)
    (document : Operation) (w : Worker)
    → Respects backup_id world.others
    → select operation_id s.store.operations ≡ some document
    → document.completed_scopes ≡ []
    → run_restore world operation_id backup_id moment s ≡ ok w
    → Proper s
    → Proper w.service
restored-Proper world operation_id backup_id moment s document w respects found fresh ran p =
    let (ended, ran_too, _, outcome) =
      run_restore-Ended world operation_id backup_id moment s document respects found fresh in
    ok_subst (λ (v : Worker). Proper v.service) (sym ran_too ∙ ran)
      (elim outcome [ inl h ↦ h.proper p | inr h ↦ h.proper p ])

respecting :
    (backup_id : String) (others : ℕ → Service → Service)
    → Spares backup_id others
    → ((n : ℕ) (u : Service) → Proper u → Proper (others n u))
    → Respects backup_id others
respecting backup_id others spares kept = record {
  artifact_kept = spares.artifact_kept;
  profile_kept = spares.profile_kept;
  proper_kept = kept;
}

History-Proper : {s t : Service} → History s t → Proper s → Proper t
History-Proper here p = p
History-Proper (ask_backup {t = t} h id backup_id actor now) p =
    submit_backup-Proper id backup_id actor now t (History-Proper h p)
History-Proper (ask_restore {t = t} h id backup_id actor confirmation now) p =
    submit_restore-Proper id backup_id actor confirmation now t (History-Proper h p)
History-Proper (ask_cancel {t = t} h id now) p = cancel-Proper id now t (History-Proper h p)
History-Proper (restart {t = t} h now) p = reopen-Proper now t (History-Proper h p)
History-Proper
      (backed_up {t = t} h world operation_id backup_id moment document w spares meanwhile found
        fresh ran)
      p =
    backed_up-Proper world operation_id backup_id moment t document w
      (respecting backup_id world.others spares (λ n u q. History-Proper (meanwhile n u) q)) found
      fresh ran (History-Proper h p)
History-Proper
      (restored {t = t} h world operation_id backup_id moment document w spares meanwhile found
        fresh ran)
      p =
    restored-Proper world operation_id backup_id moment t document w
      (respecting backup_id world.others spares (λ n u q. History-Proper (meanwhile n u) q)) found
      fresh ran (History-Proper h p)

empty-Proper : (s : Service) → s.store.artifacts ≡ [] → Proper s
unfolding select
empty-Proper s empty = subst AllProper (sym empty) (λ id row found complete. absurd (cc))

usable_complete :
    (artifacts : Table ArtifactRow) (backup_id : String) (a : Artifact)
    → usable true (select backup_id artifacts) ≡ ok a
    → AllProper artifacts
    → (covered a.checksums ≡ backup_scopes) × ArePrefixed a.checksums
usable_complete artifacts backup_id a h proper = elim (Option-cases (select backup_id artifacts)) [
  | inl missing ↦ absurd (ground arith)
  | inr (row, found) ↦
      let complete : row.complete ≡ true = ground arith in
      let same : row.payload ≡ a = ground arith in
      subst (λ a. (covered a.checksums ≡ backup_scopes) × ArePrefixed a.checksums) same
        (proper backup_id row found complete)
]

-- Whatever has been asked of a service that began without artifacts, whichever backups and restores
-- ran, however they ended, whatever such requests, workers and restarts the other threads let in
-- between as long as they left the artifact of the running worker and the profile alone, and however
-- often the Manager was restarted: a restore is accepted only of an artifact of the profile of the
-- service with a checksum, a text that begins with `sha256:`, for each of the five scopes in order.
pub accepted_restore-Proper :
    (s t : Service) (id backup_id actor : String) (confirmation : Option String) (now : ℕ)
    (document : Operation)
    → s.store.artifacts ≡ []
    → History s t
    → (submit_restore id backup_id actor confirmation now t).0 ≡ ok document
    → (a : Artifact) × (artifact backup_id true t.store ≡ ok a)
      × (a.profile_id ≡ t.profile_id)
      × (covered a.checksums ≡ backup_scopes)
      × ArePrefixed a.checksums
accepted_restore-Proper s t id backup_id actor confirmation now document empty history accepted =
    let proper = History-Proper history (empty-Proper s empty) in
    let (_, exact) = submit_restore-guarded id backup_id actor confirmation now t in
    let (_, (a, at, same)) = exact.0 (document, accepted) in
    let (all_scopes, prefixed) =
      usable_complete t.store.artifacts backup_id a (unfold artifact in at) proper in
    (a, at, same, all_scopes, prefixed)
