-- ===== src/Upgrade/Recovery.antt =====
-- manager/profile_upgrade.py: what `_recover` does with what may have been changed.
use fortifylab_archive.Operation.Plan.{plan}
use fortifylab_archive.Operation.Types.{Boundary}
use fortifylab_archive.Prelude.{
  Bool, Bool-cases, List, List-cases, Option, String, [], ap, false, inl, inr, keep, none, refl,
  some, sym, true, ℕ, ◌&&◌, ◌++◌, ◌∙◌, ◌∷◌, ◌≡◌, ◌≢◌,
}
use fortifylab_archive.Upgrade.Progress.{
  IsQuiet, note-quiet, restored_in, restored_in-append, touched,
}
use fortifylab_archive.Upgrade.Rollback.{
  block, recover, recover_from, roll_back, rolled, try_rollback,
}
use fortifylab_archive.Upgrade.Types.{
  Body, Upgrade, class_of, is_blocking, not_required, restore_needed, rollback_verified,
  rolled_back,
}
use fortifylab_archive.Upgrade.World.{Run, World, edit, note, or_false, tick}
use mathlib.Core.List.{append-nil, append_assoc, reverse}

-- The components from which no rollback leads back.
abbrev pub blockers : Body → List String → List String
blockers plan cs = keep (λ c. is_blocking (class_of plan.steps c)) cs

-- The document after a recovery of the given components.
pub record Recovered (plan : Body) (cs : List String) (d : Upgrade) : Type 0 where
  pub nothing : cs ≡ [] → d.recovery.status ≡ not_required
  pub needed : cs ≢ [] → d.recovery.required ≡ true
  pub held :
      blockers plan cs ≢ [] → (d.recovery.status ≡ restore_needed) × (restored_in d.evidence ≡ [])
  pub left : List String
  pub backwards : restored_in d.evidence ++ left ≡ reverse cs
  pub whole :
      d.recovery.status ≡ rolled_back
      → (blockers plan cs ≡ []) × (restored_in d.evidence ≡ reverse cs)
  pub restore_only : d.recovery.status ≡ restore_needed → blockers plan cs ≢ []

-- A recovery leaves the rest of the document as it is.
pub record Kept (r r' : Run) : Type 0 where
  pub state : r'.document.state ≡ r.document.state
  pub completed : r'.document.completed_components ≡ r.document.completed_components

module _ (world : World) where
  -- A rollback restores a first part of its components, all of them if it succeeds.
  record Rolled (cs : List String) (r : Run) (out : Bool × List String × Run) : Type 0 where
    more : List String
    left : List String
    parted : more ++ left ≡ cs
    restored : restored_in out.2.document.evidence ≡ restored_in r.document.evidence ++ more
    whole : out.0 ≡ true → left ≡ []
    kept : Kept r out.2
    recovery : out.2.document.recovery ≡ r.document.recovery

  roll_back-Rolled :
      (rollback : ℕ → String → Bool) (cs restored : List String) (r : Run)
      → Rolled cs r (roll_back world rollback cs restored r)
  unfolding roll_back
  roll_back-Rolled rollback [] restored r = record {
    more = [];
    left = [];
    parted = refl;
    restored = sym (append-nil (restored_in r.document.evidence));
    whole = λ h. refl;
    kept = record { state = refl; completed = refl };
    recovery = refl;
  }
  roll_back-Rolled rollback (c ∷ cs) restored r =
      let later = tick world r in
      let event = rollback_verified c (world.now later.moment) in
      let rest = roll_back-Rolled rollback cs (restored ++ c ∷ []) (edit (note event) later) in
      elim (Bool-cases (rollback later.moment c && or_false (world.verify later.moment c))) [
        | inr ill ↦ rw ill (record {
          more = [];
          left = c ∷ cs;
          parted = refl;
          restored = sym (append-nil (restored_in r.document.evidence));
          whole = λ h. absurd (cc);
          kept = record { state = refl; completed = refl };
          recovery = refl;
        })
        | inl well ↦ rw well (record {
          more = c ∷ rest.more;
          left = rest.left;
          parted = ap (λ l. c ∷ l) rest.parted;
          restored =
              rest.restored
              ∙ ap (λ l. l ++ rest.more) (restored_in-append r.document.evidence (event ∷ []))
              ∙ append_assoc (restored_in r.document.evidence) (c ∷ []) rest.more;
          whole = rest.whole;
          kept = record { state = rest.kept.state; completed = rest.kept.completed };
          recovery = rest.recovery;
        })
      ]

  -- What a recovery establishes of a run in which no rollback has begun.
  abbrev OutcomeOf : Body → List String → Run → Run → Type 0
  OutcomeOf plan cs r r' = Kept r r' × Recovered plan cs r'.document

  rolled-Recovered :
      (plan : Body) (cs : List String) (r : Run) (out : Bool × List String × Run)
      → cs ≢ []
      → blockers plan cs ≡ []
      → r.document.recovery.required ≡ true
      → IsQuiet r
      → Rolled (reverse cs) r out
      → OutcomeOf plan cs r (rolled world out)
  rolled-Recovered plan cs r (true, names_of, t) some_cs free required quiet h =
      let e = h.restored ∙ ap (λ l. l ++ h.more) quiet in
      let all_of =
        sym (append-nil h.more) ∙ ap (λ l. h.more ++ l) (sym (h.whole refl)) ∙ h.parted in
      (
        record { state = h.kept.state; completed = h.kept.completed },
        record {
          nothing = λ g. absurd (some_cs g);
          needed = λ g. ap (λ v. v.required) h.recovery ∙ required;
          held = λ g. absurd (g free);
          left = h.left;
          backwards = ap (λ l. l ++ h.left) e ∙ h.parted;
          whole = λ g. (free, e ∙ all_of);
          restore_only = λ g. absurd (cc);
        },
      )
  rolled-Recovered plan cs r (false, names_of, t) some_cs free required quiet h =
      let e =
        restored_in-append t.document.evidence _
        ∙ append-nil (restored_in t.document.evidence)
        ∙ h.restored
        ∙ ap (λ l. l ++ h.more) quiet in
      (
        record { state = h.kept.state; completed = h.kept.completed },
        record {
          nothing = λ g. absurd (some_cs g);
          needed = λ g. ap (λ v. v.required) h.recovery ∙ required;
          held = λ g. absurd (g free);
          left = h.left;
          backwards = ap (λ l. l ++ h.left) e ∙ h.parted;
          whole = λ g. absurd (cc);
          restore_only = λ g. absurd (cc);
        },
      )

  try_rollback-Recovered :
      (plan : Body) (cs : List String) (r : Run)
      → cs ≢ []
      → blockers plan cs ≡ []
      → r.document.recovery.required ≡ true
      → IsQuiet r
      → (rollback : Option (ℕ → String → Bool))
      → OutcomeOf plan cs r (try_rollback world rollback cs r)
  try_rollback-Recovered plan cs r some_cs free required quiet none = (
    record { state = refl; completed = refl },
    record {
      nothing = λ h. absurd (some_cs h);
      needed = λ h. required;
      held = λ h. absurd (h free);
      left = reverse cs;
      backwards = ap (λ l. l ++ reverse cs) quiet;
      whole = λ h. absurd (cc);
      restore_only = λ h. absurd (cc);
    },
  )
  try_rollback-Recovered plan cs r some_cs free required quiet (some rollback) =
      rolled-Recovered plan cs r (roll_back world rollback (reverse cs) [] r) some_cs free required
        quiet (roll_back-Rolled rollback (reverse cs) [] r)

  block-Recovered :
      (plan : Body) (cs blocked : List String) (reason : Option Boundary) (r : Run)
      → cs ≢ []
      → blockers plan cs ≢ []
      → IsQuiet r
      → OutcomeOf plan cs r (block world blocked reason r)
  block-Recovered plan cs blocked reason r some_cs some_blocked quiet =
      let silent = note-quiet r.document.evidence _ quiet refl in
      (
        record { state = refl; completed = refl },
        record {
          nothing = λ h. absurd (some_cs h);
          needed = λ h. refl;
          held = λ h. (refl, silent);
          left = reverse cs;
          backwards = ap (λ l. l ++ reverse cs) silent;
          whole = λ h. absurd (cc);
          restore_only = λ h. some_blocked;
        },
      )

  recover_from-Recovered :
      (plan : Body) (cs : List String) (r : Run)
      → IsQuiet r
      → OutcomeOf plan cs r (recover_from world plan cs r)
  recover_from-Recovered plan [] r quiet =
      let silent = note-quiet r.document.evidence _ quiet refl in
      (
        record { state = refl; completed = refl },
        record {
          nothing = λ h. refl;
          needed = λ h. absurd (h refl);
          held = λ h. (absurd (h (unfold keep in refl)));
          left = [];
          backwards = append-nil _ ∙ silent;
          whole = λ h. absurd (cc);
          restore_only = λ h. absurd (cc);
        },
      )
  recover_from-Recovered plan (c ∷ cs) r quiet = elim (List-cases (blockers plan (c ∷ cs))) [
    | inl free ↦ rw free (
        let (k, recovered) =
          try_rollback-Recovered plan (c ∷ cs)
            (edit (λ d. record d { recovery = record d.recovery { required = true } }) r)
            (λ h. absurd (cc)) free refl quiet world.rollback in
        (record { state = k.state; completed = k.completed }, recovered))
    | inr (b, bs, held) ↦ rw held (
        block-Recovered plan (c ∷ cs) (b ∷ bs) (class_of plan.steps b) r (λ h. absurd (cc))
          (λ h. absurd (cc)) quiet)
  ]

  pub recover-Recovered :
      (plan : Body) (r : Run)
      → IsQuiet r
      → Kept r (recover world plan r)
        × Recovered plan (touched plan r) (recover world plan r).document
  unfolding recover
  recover-Recovered plan r quiet = recover_from-Recovered plan (touched plan r) r quiet
