-- ===== src/Upgrade/Spending.antt =====
-- manager/profile_upgrade.py: what keeps the row of a plan used up.
use fortifylab_archive.Prelude.{
  Bool-cases, Option, Option-cases, String, [], ap, arith, contains, eq_iff, false, inl, inr, none,
  refl, some, ℕ, ◌==◌, ◌∙◌, ◌∷◌, ◌≡◌,
}
use fortifylab_archive.Prelude.Table.{Table, put, select, select-put, select-update, update}
use fortifylab_archive.Upgrade.Cancellation.{
  Desk, cancel_loaded, is_terminal, reopen, restart_row, terminal_states,
}
use fortifylab_archive.Upgrade.Submission.{consume_plan, consume_row, is_unused, mark_consumed}
use fortifylab_archive.Upgrade.Types.{Row, operation_row, plan_row}

-- The row is there, and no submission can use it.
abbrev pub Spent : String → Table Row → Type 0
Spent id store = (row : Row) × (select id store ≡ some row) × (is_unused (some row) ≡ false)

pub put-Spent :
    (id key : String) (row : Row) (store : Table Row)
    → is_unused (some row) ≡ false
    → Spent id store
    → Spent id (put key row store)
put-Spent id key row store used (old, stored, spent) = elim (Bool-cases (key == id)) [
  | inl same ↦ (row, ground (arith, select-put key id row store), used)
  | inr other ↦ (old, ground (arith, select-put key id row store), spent)
]

pub put_fresh-Spent :
    (id key : String) (row : Row) (store : Table Row)
    → select key store ≡ none
    → Spent id store
    → Spent id (put key row store)
put_fresh-Spent id key row store free (old, stored, spent) =
    (old, ground (arith, eq_iff key id, select-put key id row store), spent)

mark_consumed_used : (row : Row) → is_unused (some (mark_consumed row)) ≡ false
mark_consumed_used (operation_row d) = refl
mark_consumed_used (plan_row p) = refl

update-Spent :
    (id key : String) (row : Row) (store : Table Row)
    → is_unused (some row) ≡ false
    → Spent id store
    → Spent id (update key row store)
update-Spent id key row store used (old, stored, spent) = elim (Bool-cases (key == id)) [
  | inl same ↦
      let e : key ≡ id = (eq_iff key id).0 same in
      (row, ground (arith, select-update key id row store, e), used)
  | inr other ↦ (old, ground (arith, select-update key id row store), spent)
]

pub consume_row-Spent :
    (id key : String) (found : Option Row) (store : Table Row)
    → Spent id store
    → Spent id (consume_row key found store).1
consume_row-Spent id key none store s = s
consume_row-Spent id key (some row) store s = elim (Bool-cases (is_unused (some row))) [
  | inl unused ↦
      rw unused (update-Spent id key (mark_consumed row) store (mark_consumed_used row) s)
  | inr used ↦ rw used s
]

pub consume_plan-free :
    (key fresh : String) (store : Table Row)
    → select fresh store ≡ none
    → select fresh (consume_plan key store).1 ≡ none
unfolding consume_plan
consume_plan-free key fresh store free = elim (Option-cases (select key store)) [
  | inl missing ↦ rw missing free
  | inr (row, found) ↦ elim (Bool-cases (is_unused (some row))) [
    | inr used ↦ rw (found, used) free
    | inl unused ↦
        rw (found, unused)
          (ground (arith, select-update key fresh (mark_consumed row) store, eq_iff key fresh))
  ]
]

restart_used :
    (now : ℕ) (row : Row)
    → is_unused (some row) ≡ false
    → is_unused (some (restart_row now row)) ≡ false
restart_used now (operation_row d) h = refl
restart_used now (plan_row p) h = elim (Option-cases p.state) [
  | inl unused ↦ absurd (ground arith)
  | inr (state, used) ↦ rw used (ground arith)
]

pub select-reopen :
    (now : String → ℕ) (id : String) (store : Table Row)
    → Spent id store
    → Spent id (reopen now store)
unfolding reopen select
select-reopen now id [] (row, stored, spent) = absurd (cc)
select-reopen now id ((key, first) ∷ rows) (row, stored, spent) = elim (Bool-cases (key == id)) [
  | inl same ↦
      let e : first ≡ row = ground arith in
      rw same (
        restart_row (now key) first,
        refl,
        restart_used (now key) first (ap (λ r. is_unused (some r)) e ∙ spent),
      )
  | inr other ↦ rw other (select-reopen now id rows (row, ground arith, spent))
]

pub cancel_loaded-Spent :
    (plan_id id : String) (now : ℕ) (row : Row) (desk : Desk)
    → Spent plan_id desk.store
    → Spent plan_id (cancel_loaded id now row desk).1.store
unfolding cancel_loaded
cancel_loaded-Spent plan_id id now (operation_row d) desk s =
    elim (Bool-cases (is_terminal d.state)) [
      | inl over ↦ rw over s
      | inr active ↦ rw active (put-Spent plan_id id _ desk.store refl s)
    ]
cancel_loaded-Spent plan_id id now (plan_row p) desk s = elim (Option-cases p.state) [
  | inl unused ↦ rw unused s
  | inr (state, used) ↦ elim (Bool-cases (contains terminal_states state)) [
    | inl over ↦ rw (used, over) s
    | inr active ↦ rw (used, active) (put-Spent plan_id id _ desk.store refl s)
  ]
]
