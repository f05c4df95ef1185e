-- ===== src/Upgrade/Rollback.antt =====
-- manager/profile_upgrade.py: `_recover`.
use fortifylab_archive.Operation.Plan.{plan}
use fortifylab_archive.Operation.Types.{Boundary, irreversible}
use fortifylab_archive.Prelude.{
  Bool, List, Option, String, [], contains, false, if◌then◌else◌, keep, none, not, some, true, ℕ,
  ◌&&◌, ◌++◌, ◌∷◌,
}
use fortifylab_archive.Upgrade.Types.{
  Body, automatic_rollback_blocked, class_of, compensation_needed, is_blocking, not_required,
  recovery_not_required, restore_needed, rollback_failed, rollback_verified, rolled_back,
}
use fortifylab_archive.Upgrade.World.{Run, World, edit, note, or_false, tick}
use mathlib.Core.List.{reverse}

-- The class of a blocked component, which has one.
abbrev pub or_irreversible : Option Boundary → Boundary
or_irreversible none = irreversible
or_irreversible (some b) = b

-- An error of the adapter cannot prove that the mutation was not applied.
abbrev pub suspected : Body → Option String → List String → List String
suspected plan none mutated = mutated
suspected plan (some c) mutated =
    if contains plan.components c && not (contains mutated c) then mutated ++ c ∷ [] else mutated

module _ (world : World) where
  -- The loop of the rollback: the components restored, and whether all of them were.
  unfoldable pub roll_back :
      (ℕ → String → Bool) → List String → List String → Run → Bool × List String × Run
  roll_back rollback [] restored r = (true, restored, r)
  roll_back rollback (c ∷ cs) restored r =
      let later = tick world r in
      let verified = edit (note (rollback_verified c (world.now later.moment))) later in
      let rest = roll_back rollback cs (restored ++ c ∷ []) verified in
      if rollback later.moment c && or_false (world.verify later.moment c)
      then rest
      else (false, restored, later)

  abbrev pub rolled : Bool × List String × Run → Run
  rolled (true, restored, r) =
      edit
        (λ d. record d {
          recovery = record d.recovery {
            status = rolled_back;
            action = some "Review rollback health evidence before creating a fresh plan.";
          };
        })
        r
  rolled (false, restored, r) =
      edit
        (λ d. note (rollback_failed restored (world.now r.moment)) (record d {
          recovery = record d.recovery {
            status = compensation_needed;
            action =
                some
                  "Automatic rollback did not verify; stop automation and review retained evidence.";
          };
        }))
        r

  abbrev pub try_rollback : Option (ℕ → String → Bool) → List String → Run → Run
  try_rollback none mutated r =
      edit
        (λ d. record d {
          recovery = record d.recovery {
            status = compensation_needed;
            action = some "Review retained evidence and apply the documented compensating action.";
          };
        })
        r
  try_rollback (some rollback) mutated r = rolled (roll_back rollback (reverse mutated) [] r)

  abbrev pub block : List String → Option Boundary → Run → Run
  block blocked reason r =
      edit
        (λ d.
          note (automatic_rollback_blocked blocked (or_irreversible reason) (world.now r.moment))
            (record d {
              recovery = record d.recovery {
                required = true;
                status = restore_needed;
                action =
                    if d.recovery.backup_verified
                    then some "Restore and verify the bound backup before retrying."
                    else some "Stop: no verified bound backup is available for recovery.";
              };
            }))
        r

  -- The choice between a restore and a rollback, by the components that block it.
  abbrev pub choose_recovery : Body → List String → List String → Run → Run
  choose_recovery plan [] mutated r =
      try_rollback world.rollback mutated
        (edit (λ d. record d { recovery = record d.recovery { required = true } }) r)
  choose_recovery plan (b ∷ bs) mutated r = block (b ∷ bs) (class_of plan.steps b) r

  -- `_recover`, on the components that may have been changed.
  abbrev pub recover_from : Body → List String → Run → Run
  recover_from plan [] r =
      edit
        (λ d. note (recovery_not_required (world.now r.moment)) (record d {
          recovery = record d.recovery {
            required = false;
            status = not_required;
            action =
                some "No mutation was recorded; review authoritative health before replanning.";
          };
        }))
        r
  recover_from plan (c ∷ cs) r =
      choose_recovery plan (keep (λ m. is_blocking (class_of plan.steps m)) (c ∷ cs)) (c ∷ cs) r

  unfoldable pub recover : Body → Run → Run
  unfolding roll_back class_of contains keep
  recover plan r = recover_from plan (suspected plan r.document.current_component r.mutated) r
