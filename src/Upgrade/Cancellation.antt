-- ===== src/Upgrade/Cancellation.antt =====
-- manager/profile_upgrade.py: `cancel`, and the start of UpgradeStore on the rows that it finds.
use fortifylab_archive.Prelude.{
  Bool, List, Option, String, [], contains, false, if◌then◌else◌, none, some, true, ℕ, ◌++◌, ◌∷◌,
}
use fortifylab_archive.Prelude.Exec.{Outcome, ok, raised}
use fortifylab_archive.Prelude.Table.{Table, put, select}
use fortifylab_archive.Upgrade.Evidence.{UpgradeError, key_error, upgrade_error}
use fortifylab_archive.Upgrade.Types.{
  Plan, Row, State, Upgrade, cancelled, cancelling, failed, interrupted, manager_restarted,
  operation_row, plan_row, queued, review_needed, running, succeeded, timed_out,
}

abbrev pub is_terminal : State → Bool
is_terminal succeeded = true
is_terminal failed = true
is_terminal cancelled = true
is_terminal timed_out = true
is_terminal interrupted = true
is_terminal queued = false
is_terminal running = false
is_terminal cancelling = false

abbrev pub terminal_states : List String
terminal_states = "succeeded" ∷ "failed" ∷ "cancelled" ∷ "timed-out" ∷ "interrupted" ∷ []

-- `_cancelled` and the store.
pub record Desk : Type 0 where
  pub cancelled_ids : List String
  pub store : Table Row

abbrev pub mark : String → Row → Desk → Outcome UpgradeError Row × Desk
mark id row desk =
    (ok row, record desk { cancelled_ids = id ∷ desk.cancelled_ids; store = put id row desk.store })

-- A plan has no state until it is consumed.
abbrev pub cancel_plan : String → ℕ → Plan → Option String → Desk → Outcome UpgradeError Row × Desk
cancel_plan id now p none desk = (raised (key_error "state"), desk)
cancel_plan id now p (some state) desk =
    if contains terminal_states state
    then (ok (plan_row p), desk)
    else mark id (plan_row (record p { state = some "cancelling"; updated_at = some now })) desk

-- `cancel` after the read of the document, whose id is the one asked for.
unfoldable pub cancel_loaded : String → ℕ → Row → Desk → Outcome UpgradeError Row × Desk
unfolding put contains
cancel_loaded id now (plan_row p) desk = cancel_plan id now p p.state desk
cancel_loaded id now (operation_row d) desk =
    if is_terminal d.state
    then (ok (operation_row d), desk)
    else mark id (operation_row (record d { state = cancelling; updated_at = now })) desk

abbrev pub cancel_found : String → ℕ → Option Row → Desk → Outcome UpgradeError Row × Desk
cancel_found id now none desk =
    (raised (upgrade_error "upgrade plan or operation was not found"), desk)
cancel_found id now (some row) desk = cancel_loaded id now row desk

unfoldable pub cancel : String → ℕ → Desk → Outcome UpgradeError Row × Desk
unfolding cancel_loaded select
cancel id now desk = cancel_found id now (select id desk.store) desk

abbrev pub is_interrupted : State → Bool
is_interrupted interrupted = true
is_interrupted _ = false

-- The first UPDATE of the constructor.
abbrev pub interrupt : Upgrade → Upgrade
interrupt d = if is_terminal d.state then d else record d {
  state = interrupted;
  error = some "Manager restarted before profile upgrade completed";
}

abbrev pub reviewed : ℕ → Upgrade → Upgrade
reviewed now d = record d {
  recovery = record d.recovery {
    required = true;
    status = review_needed;
    action =
        some
          "Review retained evidence and verify authoritative health; a Manager restart does not prove rollback.";
  };
  evidence = d.evidence ++ manager_restarted now ∷ [];
}

abbrev pub interrupt_plan : Plan → Option String → Plan
interrupt_plan p none = p
interrupt_plan p (some state) =
    if contains ("queued" ∷ "running" ∷ "cancelling" ∷ []) state
    then record p {
      state = some "interrupted";
      error = some "Manager restarted before profile upgrade completed";
    }
    else p

-- The loop over the rows that are interrupted after the update.
abbrev pub review : ℕ → Upgrade → Upgrade
review now d = if is_interrupted d.state then reviewed now d else d

abbrev pub restart_row : ℕ → Row → Row
restart_row now (plan_row p) = plan_row (interrupt_plan p p.state)
restart_row now (operation_row d) = operation_row (review now (interrupt d))

-- `UpgradeStore.__init__`, where the clock is read for each row.
unfoldable pub reopen : (String → ℕ) → Table Row → Table Row
unfolding contains
reopen now [] = []
reopen now ((id, row) ∷ rows) = (id, restart_row (now id) row) ∷ reopen now rows
