-- ===== src/Upgrade/Steps.antt =====
-- manager/profile_upgrade.py: what one step of an upgrade leaves behind.
use fortifylab_archive.Prelude.{
  Bool, Bool-cases, List, Option, String, [], ap, contains, false, inl, inr, leb, refl, some, sym,
  true, ℕ, ◌++◌, ◌+◌, ◌∙◌, ◌∷◌, ◌≡◌, ◌≢◌,
}
use fortifylab_archive.Upgrade.Progress.{
  Going, IsQuiet, StepEnds, Stopped, changing, changing-snoc, contains-snoc, note-quiet,
  suspected-cases, suspected-covers, suspected-settled, touched,
}
use fortifylab_archive.Upgrade.Rollback.{suspected}
use fortifylab_archive.Upgrade.Run.{
  Ending, after_change, apply_change, begun, check_health, excepted, ran_out_of_time, run_step,
  was_cancelled,
}
use fortifylab_archive.Upgrade.Types.{Body, Step}
use fortifylab_archive.Upgrade.World.{Run, World, edit, or_false, save, tick}
use mathlib.Core.Path.{ap₂}

module _ (world : World) (plan : Body) (deadline : ℕ) (done : List String) (step : Step) where
  abbrev c : String
  c = step.component

  -- The component is begun, and its change is recorded if it has one.
  record Changed (r : Run) : Type 0 where
    completed : r.document.completed_components ≡ done
    mutated : r.mutated ≡ changing plan (done ++ c ∷ [])
    settled : touched plan r ≡ r.mutated
    current : r.document.current_component ≡ some c
    quiet : IsQuiet r

  -- The component is begun, and nothing is recorded of it.
  record Begun (r : Run) : Type 0 where
    completed : r.document.completed_components ≡ done
    mutated : r.mutated ≡ changing plan done
    current : r.document.current_component ≡ some c
    quiet : IsQuiet r

  begins :
      (r : Run)
      → Going plan done r
      → Begun (save world (edit (λ d. record d { current_component = some c }) (tick world r)))
  unfolding save
  begins r g = record {
    completed = g.completed;
    mutated = g.mutated;
    current = refl;
    quiet = g.quiet;
  }

  current-covers :
      (r : Run)
      → r.document.current_component ≡ some c
      → contains plan.components c ≡ true
      → contains (touched plan r) c ≡ true
  current-covers r current changes =
      ap (λ v. contains (suspected plan v r.mutated) c) current
      ∙ suspected-covers plan c r.mutated changes

  Begun-Stopped : (r : Run) → Begun r → Stopped plan done c excepted r
  Begun-Stopped r b =
      let e = ap₂ (suspected plan) b.current b.mutated in
      record {
        completed = b.completed;
        suspects = elim (suspected-cases plan done c) [ inl h ↦ inl (e ∙ h) | inr h ↦ inr (e ∙ h) ];
        spared = λ h. absurd (cc);
        covers = λ _. current-covers r b.current;
        quiet = b.quiet;
      }

  abbrev Applied : Bool × Run → Type 0
  Applied (true, r) = Changed r
  Applied (false, r) = Stopped plan done c excepted r

  applies : (r : Run) → Begun r → Applied (apply_change world plan step r)
  unfolding save
  applies r b = elim (Bool-cases (contains plan.components c)) [
    | inr unchanged ↦ rw unchanged (record {
      completed = b.completed;
      mutated = b.mutated ∙ sym (changing-snoc plan done c ∙ rw unchanged refl);
      settled =
          ap (λ current. suspected plan current r.mutated) b.current
          ∙ suspected-settled plan c r.mutated (λ changes. absurd (cc));
      current = b.current;
      quiet = b.quiet;
    })
    | inl changes ↦ elim (Bool-cases (world.upgrade (r.moment + 1) c)) [
      | inr broken ↦
          rw (changes, broken)
            (Begun-Stopped (tick world r) (record {
              completed = b.completed;
              mutated = b.mutated;
              current = b.current;
              quiet = b.quiet;
            }))
      | inl done_so ↦
          rw (changes, done_so)
            (record {
              completed = b.completed;
              mutated =
                  ap (λ l. l ++ c ∷ []) b.mutated
                  ∙ sym (changing-snoc plan done c ∙ rw changes refl);
              settled =
                  ap (λ current. suspected plan current (r.mutated ++ c ∷ [])) b.current
                  ∙ suspected-settled plan c (r.mutated ++ c ∷ []) (λ _. contains-snoc r.mutated c);
              current = b.current;
              quiet = note-quiet r.document.evidence _ b.quiet refl;
            })
    ]
  ]

  Changed-Stopped :
      (ending : Ending) (r : Run)
      → ending ≢ was_cancelled
      → Changed r
      → Stopped plan done c ending r
  Changed-Stopped ending r goes_on h = record {
    completed = h.completed;
    suspects = inr (h.settled ∙ h.mutated);
    spared = λ asked. absurd (goes_on asked);
    covers = λ _. current-covers r h.current;
    quiet = h.quiet;
  }

  abbrev Ends : Option Ending × Run → Type 0
  Ends (stop, r) = StepEnds plan done step stop r

  checks : (r : Run) → Changed r → Ends (check_health world deadline step r)
  unfolding save
  checks r h = elim (Bool-cases (leb deadline (world.monotonic (r.moment + 1)))) [
    | inl late ↦ rw late (
        Changed-Stopped ran_out_of_time (tick world r) (λ asked. absurd (cc))
          (record {
            completed = h.completed;
            mutated = h.mutated;
            settled = h.settled;
            current = h.current;
            quiet = h.quiet;
          }))
    | inr in_time ↦ elim (Bool-cases (or_false (world.verify (r.moment + 1) c))) [
      | inl well ↦
          rw (in_time, well)
            (record {
              completed = ap (λ l. l ++ c ∷ []) h.completed;
              mutated = h.mutated;
              quiet = note-quiet r.document.evidence _ h.quiet refl;
              settled = h.settled;
            })
      | inr ill ↦
          rw (in_time, ill)
            (Changed-Stopped excepted (tick world r) (λ asked. absurd (cc))
              (record {
                completed = h.completed;
                mutated = h.mutated;
                settled = h.settled;
                current = h.current;
                quiet = h.quiet;
              }))
    ]
  ]

  after_change-Ends : (p : Bool × Run) → Applied p → Ends (after_change world deadline step p)
  after_change-Ends (true, r) h = checks r h
  after_change-Ends (false, r) h = h

  pub run_step-Ends : (r : Run) → Going plan done r → Ends (run_step world plan deadline step r)
  unfolding run_step
  run_step-Ends r g = elim (Bool-cases (world.cancelled (tick world r).moment)) [
    | inl asked ↦ rw asked (record {
      completed = g.completed;
      suspects = inl (g.settled ∙ g.mutated);
      spared = λ _. g.settled ∙ g.mutated;
      covers = λ goes_on. absurd (goes_on refl);
      quiet = g.quiet;
    })
    | inr not_asked ↦ rw not_asked (
        after_change-Ends (apply_change world plan step (begun world step r))
          (applies (begun world step r) (begins r g)))
  ]
