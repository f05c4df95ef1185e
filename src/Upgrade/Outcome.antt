-- ===== src/Upgrade/Outcome.antt =====
-- manager/profile_upgrade.py: how the execution of an upgrade ends.
use fortifylab_archive.Prelude.{
  List, String, [], ap, contains, inl, inr, keep, none, refl, some, sym, true, ℕ, ◌++◌, ◌+◌, ◌∙◌,
  ◌∷◌, ◌≡◌, ◌≢◌, ◌⊎◌,
}
use fortifylab_archive.Prelude.Table.{Table, select, select-put_self}
use fortifylab_archive.Upgrade.Loop.{LoopEnds, run_steps-Ends}
use fortifylab_archive.Upgrade.Progress.{Going, Stopped, changing, names, restored_in, touched}
use fortifylab_archive.Upgrade.Recovery.{Recovered, recover-Recovered}
use fortifylab_archive.Upgrade.Rollback.{recover, suspected}
use fortifylab_archive.Upgrade.Run.{
  Ending, as_cancelled, as_failed, as_timed_out, concluded, excepted, finished, ran_out_of_time,
  run, run_steps, was_cancelled,
}
use fortifylab_archive.Upgrade.Types.{
  Body, Row, Upgrade, cancelled, failed, operation_row, running, succeeded, timed_out,
}
use fortifylab_archive.Upgrade.World.{Run, World, edit, save}

-- A stopped upgrade has a final state, has done a first part of the steps, and has recovered from
-- the changes of these, and of the step where it stopped unless it was cancelled before that.
pub record HasStopped (plan : Body) (d : Upgrade) : Type 0 where
  pub state : (d.state ≡ cancelled) ⊎ (d.state ≡ timed_out) ⊎ (d.state ≡ failed)
  pub component : String
  pub left : List String
  pub parted : d.completed_components ++ component ∷ left ≡ names plan.steps
  pub touched : List String
  pub suspects :
      (touched ≡ changing plan d.completed_components)
      ⊎ (touched ≡ changing plan (d.completed_components ++ component ∷ []))
  pub spared : d.state ≡ cancelled → touched ≡ changing plan d.completed_components
  pub covers :
      d.state ≢ cancelled
      → contains plan.components component ≡ true
      → contains touched component ≡ true
  pub recovered : Recovered plan touched d

-- An upgrade that succeeded has done all steps and rolled nothing back.
pub record HasSucceeded (plan : Body) (d : Upgrade) : Type 0 where
  pub state : d.state ≡ succeeded
  pub completed : d.completed_components ≡ names plan.steps
  pub quiet : restored_in d.evidence ≡ []

abbrev pub HasEnded : Body → Upgrade → Type 0
HasEnded plan d = HasSucceeded plan d ⊎ HasStopped plan d

module _ (world : World) (plan : Body) where
  stops :
      (r : Run) (f : Upgrade → Upgrade) (more : List String) (c : String) (left : List String)
      (ending : Ending)
      → more ++ c ∷ left ≡ names plan.steps
      → Stopped plan more c ending r
      → ((f r.document).completed_components ≡ r.document.completed_components)
      → ((f r.document).current_component ≡ r.document.current_component)
      → ((f r.document).evidence ≡ r.document.evidence)
      → ((f r.document).state ≡ cancelled)
        ⊎ ((f r.document).state ≡ timed_out)
        ⊎ ((f r.document).state ≡ failed)
      → ((f r.document).state ≡ cancelled → ending ≡ was_cancelled)
      → ((f r.document).state ≢ cancelled → ending ≢ was_cancelled)
      → HasStopped plan (recover world plan (edit f r)).document
  stops r f more c left ending parted s same_done same_current same_evidence state asked goes_on =
      let quiet = ap restored_in same_evidence ∙ s.quiet in
      let (kept, recovered) = recover-Recovered world plan (edit f r) quiet in
      let done = kept.completed ∙ same_done ∙ s.completed in
      let same = ap (λ v. suspected plan v r.mutated) same_current in
      record {
        state = elim state [
          | inl e ↦ inl (kept.state ∙ e)
          | inr (inl e) ↦ inr (inl (kept.state ∙ e))
          | inr (inr e) ↦ inr (inr (kept.state ∙ e))
        ];
        component = c;
        left = left;
        parted = ap (λ l. l ++ c ∷ left) done ∙ parted;
        touched = touched plan (edit f r);
        suspects = elim s.suspects [
          | inl e ↦ inl (same ∙ e ∙ ap (changing plan) (sym done))
          | inr e ↦ inr (same ∙ e ∙ ap (λ l. changing plan (l ++ c ∷ [])) (sym done))
        ];
        spared = λ h. same ∙ s.spared (asked (sym kept.state ∙ h)) ∙ ap (changing plan) (sym done);
        covers = λ h changes.
            ap (λ l. contains l c) same ∙ s.covers (goes_on (λ k. h (kept.state ∙ k))) changes;
        recovered = recovered;
      }

  concludes :
      (ending : Ending) (r : Run)
      → LoopEnds plan [] (names plan.steps) ending r
      → HasEnded plan (concluded world plan ending r).document
  concludes finished r g = inl (record { state = refl; completed = g.completed; quiet = g.quiet })
  concludes was_cancelled r (more, c, left, parted, s) = inr (
      stops r as_cancelled more c left was_cancelled parted s refl refl refl (inl refl) (λ _. refl)
        (λ h. absurd (h refl)))
  concludes ran_out_of_time r (more, c, left, parted, s) = inr (
      stops r as_timed_out more c left ran_out_of_time parted s refl refl refl (inr (inl refl))
        (λ h. absurd (cc)) (λ h k. absurd (cc)))
  concludes excepted r (more, c, left, parted, s) = inr (
      stops r as_failed more c left excepted parted s refl refl refl (inr (inr refl))
        (λ h. absurd (cc)) (λ h k. absurd (cc)))

  -- The last save changes only the time of the document, and stores it.
  saved-HasEnded : (r : Run) → HasEnded plan r.document → HasEnded plan (save world r).document
  unfolding save
  saved-HasEnded r (inl h) =
      inl (record { state = h.state; completed = h.completed; quiet = h.quiet })
  saved-HasEnded r (inr h) = inr (record {
    state = h.state;
    component = h.component;
    left = h.left;
    parted = h.parted;
    touched = h.touched;
    suspects = h.suspects;
    spared = h.spared;
    covers = h.covers;
    recovered = record {
      nothing = h.recovered.nothing;
      needed = h.recovered.needed;
      held = h.recovered.held;
      left = h.recovered.left;
      backwards = h.recovered.backwards;
      whole = h.recovered.whole;
      restore_only = h.recovered.restore_only;
    };
  })

  saved-stored :
      (r : Run)
      → select (save world r).document.id (save world r).store
        ≡ some (operation_row (save world r).document)
  unfolding save
  saved-stored r = select-put_self r.document.id r.document.id _ _ refl

  begins-Going :
      (document : Upgrade) (store : Table Row) (moment : ℕ)
      → document.completed_components ≡ []
      → document.current_component ≡ none
      → restored_in document.evidence ≡ []
      → Going plan [] (
          save world (record {
            store = store;
            document = record document { state = running };
            mutated = [];
            moment = moment;
          }))
  unfolding save keep
  begins-Going document store moment fresh idle quiet = record {
    completed = fresh;
    mutated = refl;
    settled = ap (λ v. suspected plan v []) idle;
    quiet = quiet;
  }

  -- The execution of an upgrade always ends, whatever the adapter, the verifier, the clocks and other
  -- threads do, and its final document is stored. It has succeeded with all steps done and no
  -- rollback, or it was cancelled, timed out or failed at one of them. In the latter case it recovers
  -- from the components that change in the steps before, and from that of the step itself if it
  -- changes and the upgrade was not cancelled. If there are none, no recovery is required; if one of
  -- them needs a restore or is irreversible, nothing is rolled back and a restore is required;
  -- otherwise rollbacks are verified in the reverse order of the changes, and the status is rolled
  -- back only if all of them were.
  pub run-HasEnded :
      (document : Upgrade) (moment : ℕ) (store : Table Row)
      → document.completed_components ≡ []
      → document.current_component ≡ none
      → restored_in document.evidence ≡ []
      → (select
            (run world plan document moment store).document.id
            (run world plan document moment store).store
          ≡ some (operation_row (run world plan document moment store).document))
        × HasEnded plan (run world plan document moment store).document
  unfolding run
  run-HasEnded document moment store fresh idle quiet =
      let first = save world (record {
        store = store;
        document = record document { state = running };
        mutated = [];
        moment = moment;
      }) in
      let deadline = world.monotonic first.moment + plan.timeout_seconds in
      let (ending, stopped) = run_steps world plan deadline plan.steps first in
      let ends =
        run_steps-Ends world plan deadline plan.steps [] first
          (begins-Going document store moment fresh idle quiet) in
      let last = concluded world plan ending stopped in
      (saved-stored last, saved-HasEnded last (concludes ending stopped ends))
