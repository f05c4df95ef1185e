-- ===== src/Recovery/Progress.antt =====
-- manager/backup_restore.py: how far a backup has come, whatever other threads do to the service.
use fortifylab_archive.Prelude.{
  All, All-append, Bool, Bool-cases, List, Option, String, [], ap, false, inl, inr, none, refl,
  some, true, ℕ, ◌++◌, ◌∙◌, ◌∷◌, ◌≡◌,
}
use fortifylab_archive.Prelude.Exec.{Keeps, Keeps-bind, resume_rule, then_rule, ◌>>◌}
use fortifylab_archive.Prelude.Table.{Table, select}
use fortifylab_archive.Prelude.Texts.{text_starts}
use fortifylab_archive.Recovery.Loops.{ScopeEnds}
use fortifylab_archive.Recovery.Service.{Service}
use fortifylab_archive.Recovery.Store.{ArtifactRow, put_operation}
use fortifylab_archive.Recovery.Types.{Operation, Scope, backup_scopes}
use fortifylab_archive.Recovery.Worker.{back_up, record_checksum}
use fortifylab_archive.Recovery.World.{
  Work, Worker, World, call_backup, check_cancelled, is_cancelled, let_others, modify, refuse_if,
  save,
}

abbrev pub covered : List (Scope × String) → List Scope
covered [] = []
covered ((scope, _) ∷ rest) = scope ∷ covered rest

-- Every recorded checksum begins as that of a SHA-256 hash.
abbrev pub ArePrefixed : List (Scope × String) → Type 0
ArePrefixed checksums = All (λ c. text_starts c.1 "sha256:" ≡ true) checksums

-- Every artifact that is stored as complete has such a checksum for each scope, in order.
abbrev pub AllProper : Table ArtifactRow → Type 0
AllProper artifacts =
    (id : String) (row : ArtifactRow)
    → select id artifacts ≡ some row
    → row.complete ≡ true
    → (covered row.payload.checksums ≡ backup_scopes) × ArePrefixed row.payload.checksums

-- Other threads leave the row of one artifact and the profile of the service as they are, and do
-- not store an incomplete artifact as complete.
pub record Respects (backup_id : String) (others : ℕ → Service → Service) : Type 0 where
  pub artifact_kept :
      (n : ℕ) (s : Service)
      → select backup_id (others n s).store.artifacts ≡ select backup_id s.store.artifacts
  pub profile_kept : (n : ℕ) (s : Service) → (others n s).profile_id ≡ s.profile_id
  pub proper_kept :
      (n : ℕ) (s : Service) → AllProper s.store.artifacts → AllProper (others n s).store.artifacts

-- The column `complete` of a row that is there.
abbrev pub completeness : Option ArtifactRow → Option Bool
completeness none = none
completeness (some row) = some row.complete

-- A backup that has done the given scopes, and whose artifact is not complete.
pub record Saved (backup_id : String) (done : List Scope) (w : Worker) : Type 0 where
  pub completed : w.document.completed_scopes ≡ done
  pub recorded : covered w.archive.checksums ≡ done
  pub prefixed : ArePrefixed w.archive.checksums
  pub named : w.archive.id ≡ backup_id
  pub held : completeness (select backup_id w.service.store.artifacts) ≡ some false
  pub proper : AllProper w.service.store.artifacts

covered-snoc :
    (checksums : List (Scope × String)) (scope : Scope) (digest : String)
    → covered (checksums ++ (scope, digest) ∷ []) ≡ covered checksums ++ scope ∷ []
covered-snoc [] scope digest = refl
covered-snoc ((s, d) ∷ rest) scope digest = ap (λ l. s ∷ l) (covered-snoc rest scope digest)

module _ (world : World) (backup_id : String) (respects : Respects backup_id world.others) where
  pub let_others-Saved :
      {done : List Scope} {w : Worker}
      → Saved backup_id done w
      → Saved backup_id done (let_others world w)
  let_others-Saved {w = w} s = record {
    completed = s.completed;
    recorded = s.recorded;
    prefixed = s.prefixed;
    named = s.named;
    held = ap completeness (respects.artifact_kept w.moment w.service) ∙ s.held;
    proper = respects.proper_kept w.moment w.service s.proper;
  }

  -- A change of the document that keeps what was completed.
  pub modify-Saved :
      (done : List Scope) (f : Operation → Operation)
      → ((d : Operation) → (f d).completed_scopes ≡ d.completed_scopes)
      → Keeps (Saved backup_id done) (modify f)
  modify-Saved done f same w s = record {
    completed = same w.document ∙ s.completed;
    recorded = s.recorded;
    prefixed = s.prefixed;
    named = s.named;
    held = s.held;
    proper = s.proper;
  }

  pub save-Saved : (done : List Scope) → Keeps (Saved backup_id done) (save world)
  unfolding save put_operation let_others-Saved
  save-Saved done w s =
      let t = let_others-Saved s in
      record {
        completed = s.completed;
        recorded = s.recorded;
        prefixed = s.prefixed;
        named = s.named;
        held = t.held;
        proper = t.proper;
      }

  is_cancelled-Saved : (done : List Scope) → Keeps (Saved backup_id done) (is_cancelled world)
  unfolding is_cancelled
  is_cancelled-Saved done w s = let_others-Saved s

  refuse_if-Saved :
      (done : List Scope) (b : Bool) → Keeps (Saved backup_id done) (refuse_if world b)
  refuse_if-Saved done true w s = s
  refuse_if-Saved done false w s = s

  check_cancelled-Saved : (done : List Scope) → Keeps (Saved backup_id done) (check_cancelled world)
  unfolding check_cancelled
  check_cancelled-Saved done =
      Keeps-bind (Saved backup_id done) (is_cancelled world) (refuse_if world)
        (is_cancelled-Saved done) (refuse_if-Saved done)

  call_backup-Saved :
      (done : List Scope) (scope : Scope) → Keeps (Saved backup_id done) (call_backup world scope)
  unfolding call_backup
  call_backup-Saved done scope w s = let_others-Saved s

  counted-Saved :
      (done : List Scope) (scope : Scope) (digest : String) (w : Worker)
      → text_starts digest "sha256:" ≡ true
      → Saved backup_id done w
      → Saved backup_id (done ++ scope ∷ []) (record w {
        archive = record w.archive { checksums = w.archive.checksums ++ (scope, digest) ∷ [] };
        document = record w.document {
          completed_scopes = w.document.completed_scopes ++ scope ∷ [];
        };
      })
  counted-Saved done scope digest w prefixed s = record {
    completed = ap (λ l. l ++ scope ∷ []) s.completed;
    recorded = covered-snoc w.archive.checksums scope digest ∙ ap (λ l. l ++ scope ∷ []) s.recorded;
    prefixed = All-append _ w.archive.checksums ((scope, digest) ∷ []) s.prefixed (prefixed, tt);
    named = s.named;
    held = s.held;
    proper = s.proper;
  }

  abbrev count_scope : Scope → Option String → Work
  count_scope scope checksum = do
    record_checksum world scope checksum
    modify (λ d. record d { completed_scopes = d.completed_scopes ++ scope ∷ [] })
    save world

  count_scope-ends :
      (done : List Scope) (scope : Scope) (checksum : Option String) (w : Worker)
      → Saved backup_id done w
      → ScopeEnds
          (Saved backup_id)
          done
          scope
          (count_scope scope checksum w).0
          (count_scope scope checksum w).1
  count_scope-ends done scope none w s = s
  count_scope-ends done scope (some digest) w s = elim (Bool-cases (text_starts digest "sha256:")) [
    | inr bad ↦ rw bad s
    | inl good ↦ rw good (
        unfold save in save-Saved (done ++ scope ∷ []) _ (counted-Saved done scope digest w good s))
  ]

  pub back_up-ends :
      (done : List Scope) (scope : Scope) (w : Worker)
      → Saved backup_id done w
      → ScopeEnds (Saved backup_id) done scope (back_up world scope w).0 (back_up world scope w).1
  back_up-ends done scope =
      let P = Saved backup_id done in
      let Q = ScopeEnds (Saved backup_id) done scope in
      unfold back_up in
      then_rule P Q (check_cancelled world) _ (λ e t s. s) (check_cancelled-Saved done)
        (then_rule P Q (modify (λ d. record d { current_scope = some scope })) _ (λ e t s. s)
          (modify-Saved done _ (λ d. refl))
          (then_rule P Q (save world) _ (λ e t s. s) (save-Saved done)
            (λ w s.
              resume_rule P Q (call_backup world scope w).0 (count_scope scope)
                (call_backup world scope w).1 (call_backup-Saved done scope w s)
                (count_scope-ends done scope) (λ e t s. s))))
