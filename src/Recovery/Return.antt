-- ===== src/Recovery/Return.antt =====
-- manager/backup_restore.py: the body of a restore, which brings all scopes back.
use fortifylab_archive.Prelude.{
  Bool-cases, List, String, [], all, ap, arith, eq_iff, inl, inr, nonempty, refl, sym, true, ◌&&◌,
  ◌++◌, ◌==◌, ◌∙◌, ◌≡◌, ◌⊎◌,
}
use fortifylab_archive.Prelude.Exec.{
  Outcome, Outcome-cases, ok, raised, resume, resume_rule, split_rule, then_rule, ◌>>=◌, ◌>>◌,
}
use fortifylab_archive.Recovery.Loops.{LoopEnds, for_each-ends}
use fortifylab_archive.Recovery.Progress.{AllProper, Respects}
use fortifylab_archive.Recovery.Restoring.{
  IsUsable, Restoring, bring_back-ends, let_others-Restoring, modify-Restoring, save-Restoring,
}
use fortifylab_archive.Recovery.Service.{Service}
use fortifylab_archive.Recovery.Store.{artifact, usable}
use fortifylab_archive.Recovery.Types.{
  Artifact, Passed, RecoveryError, Scope, backup_scopes, running, succeeded, verifying,
}
use fortifylab_archive.Recovery.Worker.{
  accept, accept_profile, bring_back, check_artifact, restore_body,
}
use fortifylab_archive.Recovery.World.{
  Work, Worker, World, call_verify, for_each, has_passed, let_others, modify, sanitize_evidence,
  save,
}
use mathlib.Core.List.{reverse}

-- A restore that succeeded: the scopes came back in the reverse order of the backup, and there was
-- evidence, all of it passed.
pub record IsRestored (backup_id : String) (origin : Service) (w : Worker) : Type 0 where
  pub state : w.document.state ≡ succeeded
  pub completed : w.document.completed_scopes ≡ reverse backup_scopes
  pub usable : IsUsable backup_id origin
  pub evidence : List Passed
  pub some_evidence : nonempty evidence ≡ true
  pub all_passed : all has_passed evidence ≡ true
  pub kept : w.document.evidence ≡ sanitize_evidence evidence
  pub proper : AllProper origin.store.artifacts → AllProper w.service.store.artifacts

module _ (world : World) (backup_id : String) (origin : Service)
    (respects : Respects backup_id world.others) where
  abbrev Inv : List Scope → Worker → Type 0
  Inv = Restoring backup_id origin

  abbrev pub BodyEnds : Outcome RecoveryError (Unit {0}) → Worker → Type 0
  BodyEnds (ok _) w = IsRestored backup_id origin w
  BodyEnds (raised _) w =
      (more : List Scope) × (left : List Scope) × (more ++ left ≡ reverse backup_scopes)
      × Inv more w
      × (IsUsable backup_id origin ⊎ (more ≡ []))

  module _ (usable : IsUsable backup_id origin) where
    accept-ends :
        (evidence : List Passed) (w : Worker)
        → Inv (reverse backup_scopes) w
        → BodyEnds (accept world evidence w).0 (accept world evidence w).1
    accept-ends evidence w s = elim (Bool-cases (nonempty evidence && all has_passed evidence)) [
      | inl fine ↦ rw fine (record {
        state = refl;
        completed = s.completed;
        usable = usable;
        evidence = evidence;
        some_evidence = ground (arith, fine);
        all_passed = ground (arith, fine);
        kept = refl;
        proper = s.proper;
      })
      | inr bad ↦ rw bad (reverse backup_scopes, [], refl, s, inl usable)
    ]

    halted :
        (e : RecoveryError) (t : Worker) → Inv (reverse backup_scopes) t → BodyEnds (raised e) t
    halted e t s = (reverse backup_scopes, [], refl, s, inl usable)

    abbrev verification : Work
    verification = do
      modify (λ d. record d { state = verifying })
      save world
      evidence ← call_verify world
      accept world evidence

    verification-ends :
        (w : Worker)
        → Inv (reverse backup_scopes) w
        → BodyEnds (verification w).0 (verification w).1
    verification-ends =
        let P = Inv (reverse backup_scopes) in
        then_rule P BodyEnds (modify (λ d. record d { state = verifying })) _ halted
          (modify-Restoring world backup_id origin respects (reverse backup_scopes) _ (λ d. refl))
          (then_rule P BodyEnds (save world) _ halted
            (save-Restoring world backup_id origin respects (reverse backup_scopes))
            (λ w s.
              resume_rule P BodyEnds (call_verify world w).0 (accept world) (call_verify world w).1
                (unfold call_verify in let_others-Restoring world backup_id origin respects s)
                accept-ends halted))

    loop_ends :
        (r : Outcome RecoveryError (Unit {0})) (w : Worker)
        → LoopEnds Inv [] (reverse backup_scopes) r w
        → BodyEnds (resume r (λ _. verification) w).0 (resume r (λ _. verification) w).1
    loop_ends (ok _) w s = verification-ends w s
    loop_ends (raised e) w (more, left, parted, _, s) = (more, left, parted, s, inl usable)

    early : (e : RecoveryError) (t : Worker) → Inv [] t → BodyEnds (raised e) t
    early e t s = ([], reverse backup_scopes, refl, s, inl usable)

    abbrev bringing : Work
    bringing = do
      modify (λ d. record d { state = running })
      save world
      for_each (bring_back world) (reverse backup_scopes)
      verification

    bringing-ends : (w : Worker) → Inv [] w → BodyEnds (bringing w).0 (bringing w).1
    bringing-ends =
        then_rule (Inv []) BodyEnds (modify (λ d. record d { state = running })) _ early
          (modify-Restoring world backup_id origin respects [] _ (λ d. refl))
          (then_rule (Inv []) BodyEnds (save world) _ early
            (save-Restoring world backup_id origin respects [])
            (λ w s.
              loop_ends (for_each (bring_back world) (reverse backup_scopes) w).0
                (for_each (bring_back world) (reverse backup_scopes) w).1
                (for_each-ends Inv (bring_back world)
                  (bring_back-ends world backup_id origin respects) [] (reverse backup_scopes) w
                  s)))

  abbrev Checked : Outcome RecoveryError (Unit {0}) → Worker → Type 0
  Checked (ok _) w = Inv [] w × IsUsable backup_id origin
  Checked (raised _) w = Inv [] w

  same_artifact :
      (w : Worker)
      → Inv [] w
      → artifact backup_id true w.service.store ≡ artifact backup_id true origin.store
  unfolding artifact
  same_artifact w s = ap (usable true) s.row_kept

  accept_profile-Checked :
      (found : Artifact) (w : Worker)
      → artifact backup_id true origin.store ≡ ok found
      → Inv [] w
      → Checked (accept_profile world found w).0 (accept_profile world found w).1
  accept_profile-Checked found w at s =
      elim (Bool-cases (found.profile_id == w.service.profile_id)) [
        | inr other ↦ rw other s
        | inl same ↦ rw same (
          record {
            completed = s.completed;
            row_kept = s.row_kept;
            profile_kept = s.profile_kept;
            proper = s.proper;
          },
          (found, at, (eq_iff found.profile_id w.service.profile_id).0 same ∙ s.profile_kept),
        )
      ]

  check_artifact-Checked :
      (w : Worker)
      → Inv [] w
      → Checked (check_artifact world backup_id w).0 (check_artifact world backup_id w).1
  unfolding check_artifact
  check_artifact-Checked w s =
      let later = let_others world w in
      let t = let_others-Restoring world backup_id origin respects s in
      elim (Outcome-cases (artifact backup_id true later.service.store)) [
        | inl (found, at) ↦
            rw at (accept_profile-Checked found later (sym (same_artifact later t) ∙ at) t)
        | inr (e, refused) ↦ rw refused t
      ]

  pub restore_body-ends :
      (w : Worker)
      → Inv [] w
      → BodyEnds (restore_body world backup_id w).0 (restore_body world backup_id w).1
  unfolding restore_body
  restore_body-ends w s =
      split_rule Checked BodyEnds (check_artifact world backup_id w).0 _
        (check_artifact world backup_id w).1 (check_artifact-Checked w s)
        (λ a t (s, usable). bringing-ends usable t s)
        (λ e t s. ([], reverse backup_scopes, refl, s, inr refl))
