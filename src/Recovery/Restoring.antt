-- ===== src/Recovery/Restoring.antt =====
-- manager/backup_restore.py: the scopes that a restore brings back.
use fortifylab_archive.Prelude.{
  Bool, List, String, [], ap, false, refl, some, true, ◌++◌, ◌∙◌, ◌∷◌, ◌≡◌,
}
use fortifylab_archive.Prelude.Exec.{Keeps, Keeps-bind, ok, then_rule}
use fortifylab_archive.Prelude.Table.{select}
use fortifylab_archive.Recovery.Loops.{ScopeEnds}
use fortifylab_archive.Recovery.Progress.{AllProper, Respects}
use fortifylab_archive.Recovery.Service.{Service}
use fortifylab_archive.Recovery.Store.{artifact, put_operation}
use fortifylab_archive.Recovery.Types.{Artifact, Operation, Scope}
use fortifylab_archive.Recovery.Worker.{bring_back}
use fortifylab_archive.Recovery.World.{
  Worker, World, call_restore, check_cancelled, is_cancelled, let_others, modify, refuse_if, save,
}

-- The artifact is there, complete, and of the profile of the service.
abbrev pub IsUsable : String → Service → Type 0
IsUsable backup_id service =
    (a : Artifact) × (artifact backup_id true service.store ≡ ok a)
    × (a.profile_id ≡ service.profile_id)

-- A restore of a service that has brought back the given scopes.
pub record Restoring (backup_id : String) (origin : Service) (done : List Scope) (w : Worker)
    : Type 0 where
  pub completed : w.document.completed_scopes ≡ done
  pub row_kept :
      select backup_id w.service.store.artifacts ≡ select backup_id origin.store.artifacts
  pub profile_kept : w.service.profile_id ≡ origin.profile_id
  pub proper : AllProper origin.store.artifacts → AllProper w.service.store.artifacts

module _ (world : World) (backup_id : String) (origin : Service)
    (respects : Respects backup_id world.others) where
  abbrev Inv : List Scope → Worker → Type 0
  Inv = Restoring backup_id origin

  pub let_others-Restoring :
      {done : List Scope} {w : Worker} → Inv done w → Inv done (let_others world w)
  let_others-Restoring {w = w} s = record {
    completed = s.completed;
    row_kept = respects.artifact_kept w.moment w.service ∙ s.row_kept;
    profile_kept = respects.profile_kept w.moment w.service ∙ s.profile_kept;
    proper = λ p. respects.proper_kept w.moment w.service (s.proper p);
  }

  pub modify-Restoring :
      (done : List Scope) (f : Operation → Operation)
      → ((d : Operation) → (f d).completed_scopes ≡ d.completed_scopes)
      → Keeps (Inv done) (modify f)
  modify-Restoring done f same w s = record {
    completed = same w.document ∙ s.completed;
    row_kept = s.row_kept;
    profile_kept = s.profile_kept;
    proper = s.proper;
  }

  pub save-Restoring : (done : List Scope) → Keeps (Inv done) (save world)
  unfolding save put_operation let_others-Restoring
  save-Restoring done w s =
      let t = let_others-Restoring s in
      record {
        completed = s.completed;
        row_kept = t.row_kept;
        profile_kept = t.profile_kept;
        proper = t.proper;
      }

  pub check_cancelled-Restoring : (done : List Scope) → Keeps (Inv done) (check_cancelled world)
  unfolding check_cancelled is_cancelled
  check_cancelled-Restoring done =
      Keeps-bind (Inv done) (is_cancelled world) (refuse_if world) (λ w s. let_others-Restoring s)
        refuse_if-Restoring
    where
      refuse_if-Restoring : (b : Bool) → Keeps (Inv done) (refuse_if world b)
      refuse_if-Restoring true w s = s
      refuse_if-Restoring false w s = s

  counts :
      (done : List Scope) (scope : Scope) (w : Worker)
      → Inv done w
      → Inv (done ++ scope ∷ []) (record w {
        document = record w.document {
          completed_scopes = w.document.completed_scopes ++ scope ∷ [];
        };
      })
  counts done scope w s = record {
    completed = ap (λ l. l ++ scope ∷ []) s.completed;
    row_kept = s.row_kept;
    profile_kept = s.profile_kept;
    proper = s.proper;
  }

  pub bring_back-ends :
      (done : List Scope) (scope : Scope) (w : Worker)
      → Inv done w
      → ScopeEnds Inv done scope (bring_back world scope w).0 (bring_back world scope w).1
  unfolding bring_back
  bring_back-ends done scope =
      let P = Inv done in
      let Q = ScopeEnds Inv done scope in
      then_rule P Q (check_cancelled world) _ (λ e t s. s) (check_cancelled-Restoring done)
        (then_rule P Q (modify (λ d. record d { current_scope = some scope })) _ (λ e t s. s)
          (modify-Restoring done _ (λ d. refl))
          (then_rule P Q (save world) _ (λ e t s. s) (save-Restoring done)
            (then_rule P Q (call_restore world scope) _ (λ e t s. s)
              (λ w s. unfold call_restore in let_others-Restoring s)
              (λ w s. save-Restoring (done ++ scope ∷ []) _ (counts done scope w s)))))
