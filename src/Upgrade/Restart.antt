-- ===== src/Upgrade/Restart.antt =====
-- manager/profile_upgrade.py: what a restart of the Manager leaves of the operations.
use fortifylab_archive.Prelude.{
  Bool, Bool-cases, String, [], ap, arith, false, inl, inr, refl, some, true, ℕ, ◌++◌, ◌==◌, ◌∷◌,
  ◌≡◌, ◌⊎◌,
}
use fortifylab_archive.Prelude.Table.{Table, select}
use fortifylab_archive.Upgrade.Cancellation.{interrupt, is_interrupted, is_terminal, reopen, review}
use fortifylab_archive.Upgrade.Types.{
  Row, State, Upgrade, cancelled, cancelling, failed, interrupted, manager_restarted, operation_row,
  queued, review_needed, running, succeeded, timed_out,
}

-- Ended by its worker.
abbrev pub has_ended : State → Bool
has_ended succeeded = true
has_ended failed = true
has_ended cancelled = true
has_ended timed_out = true
has_ended _ = false

-- An operation that a restart has cut off, now or before: what it had done and recorded is kept, and
-- an operator has to look at it.
pub record IsCutOff (d d' : Upgrade) : Type 0 where
  pub state : d'.state ≡ interrupted
  pub required : d'.recovery.required ≡ true
  pub status : d'.recovery.status ≡ review_needed
  pub completed : d'.completed_components ≡ d.completed_components
  pub current : d'.current_component ≡ d.current_component
  pub at : ℕ
  pub evidence : d'.evidence ≡ d.evidence ++ manager_restarted at ∷ []
  pub same_plan : d'.plan_id ≡ d.plan_id
  pub backup : d'.recovery.backup_verified ≡ d.recovery.backup_verified

abbrev Restarted : Upgrade → Upgrade → Type 0
Restarted d d' =
    ((has_ended d.state ≡ true) × (d' ≡ d)) ⊎ ((has_ended d.state ≡ false) × IsCutOff d d')

cut_off :
    (now : ℕ) (d : Upgrade) → is_terminal d.state ≡ false → IsCutOff d (review now (interrupt d))
cut_off now d active = rw active (record {
  state = refl;
  required = refl;
  status = refl;
  completed = refl;
  current = refl;
  at = now;
  evidence = refl;
  same_plan = refl;
  backup = refl;
})

-- The cases of the state of a document.
State-cases :
    (s : State)
    → ((has_ended s ≡ true) × (is_terminal s ≡ true) × (is_interrupted s ≡ false))
      ⊎ ((has_ended s ≡ false) × (is_terminal s ≡ false))
      ⊎ (s ≡ interrupted)
State-cases succeeded = inl (refl, refl, refl)
State-cases failed = inl (refl, refl, refl)
State-cases cancelled = inl (refl, refl, refl)
State-cases timed_out = inl (refl, refl, refl)
State-cases queued = inr (inl (refl, refl))
State-cases running = inr (inl (refl, refl))
State-cases cancelling = inr (inl (refl, refl))
State-cases interrupted = inr (inr refl)

reviewed_again :
    (now : ℕ) (d : Upgrade) → d.state ≡ interrupted → Restarted d (review now (interrupt d))
reviewed_again now d cut =
    let terminal = ap is_terminal cut in
    let again = ap is_interrupted cut in
    rw (terminal, again)
      (inr (
        ap has_ended cut,
        record {
          state = cut;
          required = refl;
          status = refl;
          completed = refl;
          current = refl;
          at = now;
          evidence = refl;
          same_plan = refl;
          backup = refl;
        },
      ))

restart-Restarted : (now : ℕ) (d : Upgrade) → Restarted d (review now (interrupt d))
restart-Restarted now d = elim (State-cases d.state) [
  | inl (ended, terminal, not_cut) ↦ rw (terminal, not_cut) (inl (ended, refl))
  | inr (inl (open_still, active)) ↦ inr (open_still, cut_off now d active)
  | inr (inr cut) ↦ reviewed_again now d cut
]

-- After a restart every operation is still stored. One that its worker had ended is as it was; every
-- other, whether it was queued, running, cancelling or interrupted by an earlier restart, is
-- interrupted and requires a recovery with a review by an operator, where what it had done and its
-- evidence are kept, and the evidence names the restart.
pub reopen-Restarted :
    (now : String → ℕ) (id : String) (store : Table Row) (d : Upgrade)
    → select id store ≡ some (operation_row d)
    → (d' : Upgrade) × (select id (reopen now store) ≡ some (operation_row d'))
      × (((has_ended d.state ≡ true) × (d' ≡ d)) ⊎ ((has_ended d.state ≡ false) × IsCutOff d d'))
unfolding reopen select
reopen-Restarted now id [] d stored = absurd (cc)
reopen-Restarted now id ((key, first) ∷ rows) d stored = elim (Bool-cases (key == id)) [
  | inl same ↦
      let e : first ≡ operation_row d = ground arith in
      rw (same, e) (review (now key) (interrupt d), refl, restart-Restarted (now key) d)
  | inr other ↦ rw other (reopen-Restarted now id rows d (ground arith))
]
