-- ===== src/Recovery/Loops.antt =====
-- manager/backup_restore.py: a loop over the scopes does a first part of them.
use fortifylab_archive.Prelude.{List, [], ap, refl, subst, ◌++◌, ◌∷◌, ◌≡◌, ◌≢◌}
use fortifylab_archive.Prelude.Exec.{Outcome, ok, raised, split_rule}
use fortifylab_archive.Recovery.Types.{RecoveryError, Scope}
use fortifylab_archive.Recovery.World.{Work, Worker, for_each}
use mathlib.Core.List.{append-nil, append_assoc}

module _ (Inv : List Scope → Worker → Type 0) where
  -- After an exception the scope does not count as done.
  abbrev pub ScopeEnds : List Scope → Scope → Outcome RecoveryError (Unit {0}) → Worker → Type 0
  ScopeEnds done scope (ok _) w = Inv (done ++ scope ∷ []) w
  ScopeEnds done scope (raised _) w = Inv done w

  -- All scopes are done, or the loop was stopped at one of them.
  abbrev pub LoopEnds : List Scope → List Scope → Outcome RecoveryError (Unit {0}) → Worker → Type 0
  LoopEnds done scopes (ok _) w = Inv (done ++ scopes) w
  LoopEnds done scopes (raised _) w =
      (more : List Scope) × (left : List Scope) × (more ++ left ≡ scopes)
      × (left ≢ [])
      × Inv (done ++ more) w

  LoopEnds-cons :
      (done : List Scope) (scope : Scope) (scopes : List Scope)
      (r : Outcome RecoveryError (Unit {0})) (w : Worker)
      → LoopEnds (done ++ scope ∷ []) scopes r w
      → LoopEnds done (scope ∷ scopes) r w
  LoopEnds-cons done scope scopes (ok a) w h =
      subst (λ l. Inv l w) (append_assoc done (scope ∷ []) scopes) h
  LoopEnds-cons done scope scopes (raised e) w (more, left, whole, some_left, s) = (
    scope ∷ more,
    left,
    ap (λ l. scope ∷ l) whole,
    some_left,
    subst (λ l. Inv l w) (append_assoc done (scope ∷ []) more) s,
  )

  pub for_each-ends :
      (body : Scope → Work)
      → ((done : List Scope) (scope : Scope) (w : Worker)
          → Inv done w
          → ScopeEnds done scope (body scope w).0 (body scope w).1)
      → (done scopes : List Scope) (w : Worker) → Inv done w
      → LoopEnds done scopes (for_each body scopes w).0 (for_each body scopes w).1
  unfolding for_each
  for_each-ends body one done [] w s = rw append-nil s
  for_each-ends body one done (scope ∷ scopes) w s =
      split_rule (ScopeEnds done scope) (LoopEnds done (scope ∷ scopes)) (body scope w).0
        (λ _. for_each body scopes) (body scope w).1 (one done scope w s)
        (λ a t done_one.
          LoopEnds-cons done scope scopes (for_each body scopes t).0 (for_each body scopes t).1
            (for_each-ends body one (done ++ scope ∷ []) scopes t done_one))
        (λ e t stopped. ([], scope ∷ scopes, refl, (λ h. absurd (cc)), rw append-nil stopped))
