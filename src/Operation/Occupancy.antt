-- ===== src/Operation/Occupancy.antt =====
-- manager/operation_engine.py: under every interleaving of submissions, cancellations, saves of
-- running operations and restarts, no component belongs to two active operations.
use fortifylab_archive.Operation.Exclusive.{
  Change-Exclusive, Disjoint, Exclusive, entered, entered_lookup, reopened, written, written_lookup,
}
use fortifylab_archive.Operation.Restart.{restarted, select-reopen}
use fortifylab_archive.Operation.Store.{
  Row, active_components, interrupt_rows, log_event, recover_rows, row_of, set_interrupted_recovery,
  store_update,
}
use fortifylab_archive.Operation.Types.{Document, State, cancelling, is_active, is_terminal, queued}
use fortifylab_archive.Operation.World.{Engine, World, cancel, cancel_found}
use fortifylab_archive.Prelude.{
  Bool-cases, Option, Option-cases, String, [], arith, false, inl, inr, none, refl, some, subst,
  sym, true, ℕ, ◌++◌, ◌==◌, ◌∷◌, ◌≡◌,
}
use fortifylab_archive.Prelude.Table.{Table, select, update}

-- The columns of a row repeat the state and the identifier of its payload.
abbrev pub Agrees : String → Row → Type 0
Agrees i p = (p.column ≡ p.payload.state) × (p.payload.id ≡ i)

abbrev pub Consistent : Table Row → Type 0
Consistent t = (i : String) (p : Row) → select i t ≡ some p → Agrees i p

pub record IsSound (t : Table Row) : Type 0 where
  pub exclusive : Exclusive t
  pub consistent : Consistent t

pub entered-IsSound :
    (id : String) (row : Row) (t : Table Row)
    → select id t ≡ none
    → Disjoint (active_components t) row.payload.components
    → Agrees id row
    → IsSound t
    → IsSound (t ++ (id, row) ∷ [])
entered-IsSound id row t missing apart same x = record {
  exclusive = Change-Exclusive (entered id row missing apart) x.exclusive;
  consistent = λ i p found. elim (entered_lookup id i row p t missing found) [
    | inl (e, f) ↦ subst (λ r. Agrees i r) f (subst (λ k. Agrees k row) e same)
    | inr old ↦ x.consistent i p old
  ];
}

pub written-IsSound :
    (id : String) (old new : Row) (t : Table Row)
    → select id t ≡ some old
    → new.payload.components ≡ old.payload.components
    → (is_active new.column ≡ true → is_active old.column ≡ true)
    → Agrees id new
    → IsSound t
    → IsSound (update id new t)
written-IsSound id old new t found comps active same x = record {
  exclusive = Change-Exclusive (written id old new found comps active) x.exclusive;
  consistent = λ i p h. elim (written_lookup id i old new p t found h) [
    | inl (e, f) ↦ subst (λ r. Agrees i r) f (subst (λ k. Agrees k new) e same)
    | inr before ↦ x.consistent i p before
  ];
}

restarted-Agrees :
    (at : ℕ) (i : String) (column : State) (document : Document)
    → Agrees i (record { column = column; payload = document })
    → Agrees i (restarted at (record { column = column; payload = document }))
unfolding set_interrupted_recovery
restarted-Agrees at i queued d (h, k) = (ground (arith, h), ground (arith, k))
restarted-Agrees at i column d (h, k) = (ground (arith, h), ground (arith, k))

pub reopened-IsSound :
    (at : ℕ) (t : Table Row) → IsSound t → IsSound (recover_rows (interrupt_rows at t))
reopened-IsSound at t x = record {
  exclusive = Change-Exclusive (reopened at) x.exclusive;
  consistent = λ i p h. elim (Option-cases (select i t)) [
    | inl missing ↦ absurd (ground (arith, h, select-reopen at i t, missing))
    | inr (row, found) ↦
        subst (Agrees i)
          (let same : restarted at row ≡ p = ground (arith, h, select-reopen at i t, found) in same)
          (restarted-Agrees at i row.column row.payload (x.consistent i row found))
  ];
}

active_of_nonterminal : (s : State) → is_terminal s ≡ false → is_active s ≡ true
active_of_nonterminal queued h = refl
active_of_nonterminal s h = ground (arith, h)

module _ (world : World) where
  cancel_found-IsSound :
      (found : Option Row) (id actor : String) (e : Engine)
      → select id e.store.rows ≡ found
      → IsSound e.store.rows
      → IsSound (cancel_found world found id actor e).1.store.rows
  unfolding store_update log_event
  cancel_found-IsSound none id actor e found x = x
  cancel_found-IsSound (some row) id actor e found x =
      let (same, named) = x.consistent id row found in
      elim (Bool-cases (is_terminal row.payload.state)) [
        | inl over ↦ rw over x
        | inr open_still ↦ rw open_still (
            subst
              (λ k. IsSound (
                update k
                  (row_of world.redact
                    (record row.payload { state = cancelling; updated_at = world.clock e.reads }))
                  e.store.rows))
              (sym named)
              (written-IsSound id row
                (row_of world.redact
                  (record row.payload { state = cancelling; updated_at = world.clock e.reads }))
                e.store.rows found refl
                (λ _.
                  subst (λ t. is_active t ≡ true) (sym same)
                    (active_of_nonterminal row.payload.state open_still))
                (refl, named) x))
      ]

  pub cancel-IsSound :
      (id actor : String) (e : Engine)
      → IsSound e.store.rows
      → IsSound (cancel world id actor e).1.store.rows
  unfolding cancel
  cancel-IsSound id actor e x = elim (Bool-cases (actor == "")) [
    | inl nobody ↦ rw nobody x
    | inr somebody ↦ rw somebody (cancel_found-IsSound (select id e.store.rows) id actor e refl x)
  ]
