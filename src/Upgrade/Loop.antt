-- ===== src/Upgrade/Loop.antt =====
-- manager/profile_upgrade.py: the loop over the steps of an upgrade.
use fortifylab_archive.Prelude.{
  List, Option, String, [], ap, none, refl, some, subst, sym, ℕ, ◌++◌, ◌∷◌, ◌≡◌,
}
use fortifylab_archive.Upgrade.Progress.{Going, StepEnds, Stopped, names}
use fortifylab_archive.Upgrade.Run.{
  Ending, continue, excepted, finished, ran_out_of_time, run_step, run_steps, was_cancelled,
}
use fortifylab_archive.Upgrade.Steps.{run_step-Ends}
use fortifylab_archive.Upgrade.Types.{Body, Step}
use fortifylab_archive.Upgrade.World.{Run, World}
use mathlib.Core.List.{append-nil, append_assoc}

-- All steps are done, or the run has stopped at one of them.
abbrev pub LoopEnds : Body → List String → List String → Ending → Run → Type 0
LoopEnds plan done cs finished r = Going plan (done ++ cs) r
LoopEnds plan done cs ending r =
    (more : List String) × (c : String) × (left : List String) × (more ++ c ∷ left ≡ cs)
    × Stopped plan (done ++ more) c ending r

module _ (world : World) (plan : Body) (deadline : ℕ) where
  later_stop :
      (done : List String) (c : String) (cs : List String) (ending : Ending) (r : Run)
      → ((more : List String) × (c' : String) × (left : List String) × (more ++ c' ∷ left ≡ cs)
          × Stopped plan ((done ++ c ∷ []) ++ more) c' ending r)
      → (more : List String) × (c' : String) × (left : List String) × (more ++ c' ∷ left ≡ c ∷ cs)
        × Stopped plan (done ++ more) c' ending r
  later_stop done c cs ending r (more, c', left, whole, s) = (
    c ∷ more,
    c',
    left,
    ap (λ l. c ∷ l) whole,
    subst (λ l. Stopped plan l c' ending r) (append_assoc done (c ∷ []) more) s,
  )

  LoopEnds-cons :
      (done : List String) (c : String) (cs : List String) (ending : Ending) (r : Run)
      → LoopEnds plan (done ++ c ∷ []) cs ending r
      → LoopEnds plan done (c ∷ cs) ending r
  LoopEnds-cons done c cs finished r h =
      subst (λ l. Going plan l r) (append_assoc done (c ∷ []) cs) h
  LoopEnds-cons done c cs was_cancelled r h = later_stop done c cs was_cancelled r h
  LoopEnds-cons done c cs ran_out_of_time r h = later_stop done c cs ran_out_of_time r h
  LoopEnds-cons done c cs excepted r h = later_stop done c cs excepted r h

  stops_here :
      (done : List String) (c : String) (cs : List String) (ending : Ending) (r : Run)
      → Stopped plan done c ending r
      → (more : List String) × (c' : String) × (left : List String) × (more ++ c' ∷ left ≡ c ∷ cs)
        × Stopped plan (done ++ more) c' ending r
  stops_here done c cs ending r h =
      ([], c, cs, refl, subst (λ l. Stopped plan l c ending r) (sym (append-nil done)) h)

  continues :
      (s : Step) (ss : List Step) (done : List String) (stop : Option Ending) (r : Run)
      (rest : Run → Ending × Run)
      → StepEnds plan done s stop r
      → ((t : Run)
          → Going plan (done ++ s.component ∷ []) t
          → LoopEnds plan (done ++ s.component ∷ []) (names ss) (rest t).0 (rest t).1)
      → LoopEnds plan done (names (s ∷ ss)) (continue stop r rest).0 (continue stop r rest).1
  continues s ss done none r rest h later =
      LoopEnds-cons done s.component (names ss) (rest r).0 (rest r).1 (later r h)
  continues s ss done (some finished) r rest h later = absurd h
  continues s ss done (some was_cancelled) r rest h later =
      stops_here done s.component (names ss) was_cancelled r h
  continues s ss done (some ran_out_of_time) r rest h later =
      stops_here done s.component (names ss) ran_out_of_time r h
  continues s ss done (some excepted) r rest h later =
      stops_here done s.component (names ss) excepted r h

  pub run_steps-Ends :
      (steps : List Step) (done : List String) (r : Run)
      → Going plan done r
      → LoopEnds plan done
          (names steps)
          (run_steps world plan deadline steps r).0
          (run_steps world plan deadline steps r).1
  unfolding run_steps
  run_steps-Ends [] done r g = subst (λ l. Going plan l r) (sym (append-nil done)) g
  run_steps-Ends (s ∷ ss) done r g =
      continues s ss done (run_step world plan deadline s r).0 (run_step world plan deadline s r).1
        (run_steps world plan deadline ss) (run_step-Ends world plan deadline done s r g)
        (run_steps-Ends ss (done ++ s.component ∷ []))
