-- ===== src/Operation/Exclusive.antt =====
-- manager/operation_engine.py: two active operations never affect one component.
use fortifylab_archive.Operation.Plan.{intersects}
use fortifylab_archive.Operation.Restart.{by_state, restarted, select-reopen}
use fortifylab_archive.Operation.Store.{Row, active_components, interrupt_rows, recover_rows}
use fortifylab_archive.Operation.Types.{is_active}
use fortifylab_archive.Prelude.{
  Bool-cases, List, Option-cases, String, [], ap, arith, contains, contains-append, eq_iff, false,
  false≢true, inl, inr, none, refl, some, subst, sym, true, ℕ, ◌++◌, ◌==◌, ◌∙◌, ◌∷◌, ◌≡◌, ◌⊎◌,
}
use fortifylab_archive.Prelude.Table.{Table, select, select-append, select-update, update}
use fortifylab_archive.Registry.Counting.{missing}
use fortifylab_archive.Registry.Reach.{Included}

abbrev pub Disjoint : List String → List String → Type 0
Disjoint xs ys = (d : String) → Included xs d → contains ys d ≡ false

-- No component belongs to two active operations.
abbrev pub Exclusive : Table Row → Type 0
Exclusive t =
    (i j : String) (p q : Row)
    → select i t ≡ some p
    → select j t ≡ some q
    → is_active p.column ≡ true
    → is_active q.column ≡ true
    → (i == j) ≡ false
    → Disjoint p.payload.components q.payload.components

-- What the operations of the engine do to the rows of the store.
pub data Change (t : Table Row) : Table Row → Type 0 where
  entered :
      (id : String) (row : Row)
      → select id t ≡ none
      → Disjoint (active_components t) row.payload.components
      → Change t (t ++ (id, row) ∷ [])
  written :
      (id : String) (old new : Row)
      → select id t ≡ some old
      → new.payload.components ≡ old.payload.components
      → (is_active new.column ≡ true → is_active old.column ≡ true)
      → Change t (update id new t)
  reopened : (at : ℕ) → Change t (recover_rows (interrupt_rows at t))

Disjoint-sym : (xs ys : List String) → Disjoint xs ys → Disjoint ys xs
Disjoint-sym xs ys h d p = elim (Bool-cases (contains xs d)) [
  | inl both ↦ absurd (ground (arith, p, h d both))
  | inr apart ↦ apart
]

active-Included :
    (j : String) (row : Row) (t : Table Row) (d : String)
    → select j t ≡ some row
    → is_active row.column ≡ true
    → Included row.payload.components d
    → Included (active_components t) d
unfolding select active_components
active-Included j row [] d found act p = absurd (cc)
active-Included j row ((k, other) ∷ t) d found act p = elim (Bool-cases (k == j)) [
  | inl first ↦
      let same : other ≡ row = ground (arith, found, first) in
      let on : is_active other.column ≡ true =
        subst (λ r. is_active r.column ≡ true) (sym same) act in
      let inside : Included other.payload.components d =
        subst (λ r. Included r.payload.components d) (sym same) p in
      rw on
        (ground (arith, contains-append other.payload.components (active_components t) d, inside))
  | inr later ↦
      let rest : Included (active_components t) d =
        active-Included j row t d (ground (arith, found, later)) act p in
      elim (Bool-cases (is_active other.column)) [
        | inl on ↦
            rw on (
              ground
                (arith, contains-append other.payload.components (active_components t) d, rest))
        | inr off ↦ rw off rest
      ]
]

pub intersects-Disjoint : (xs ys : List String) → intersects xs ys ≡ false → Disjoint xs ys
unfolding intersects contains
intersects-Disjoint [] ys h d p = absurd (cc)
intersects-Disjoint (x ∷ xs) ys h d p = elim (Bool-cases (x == d)) [
  | inl same ↦
      subst (λ k. contains ys k ≡ false) ((eq_iff x d).0 same)
        (let off : contains ys x ≡ false = ground (arith, h) in off)
  | inr other ↦ intersects-Disjoint xs ys (ground (arith, h)) d (ground (arith, p, other))
]

pub entered_lookup :
    (id i : String) (row p : Row) (t : Table Row)
    → select id t ≡ none
    → select i (t ++ (id, row) ∷ []) ≡ some p
    → ((id ≡ i) × (row ≡ p)) ⊎ (select i t ≡ some p)
entered_lookup id i row p t missing h = elim (Bool-cases (id == i)) [
  | inl same ↦ inl ((eq_iff id i).0 same, ground (arith, h, select-append id i row t missing, same))
  | inr other ↦ inr (ground (arith, h, select-append id i row t missing, other))
]

pub written_lookup :
    (id i : String) (old new p : Row) (t : Table Row)
    → select id t ≡ some old
    → select i (update id new t) ≡ some p
    → ((id ≡ i) × (new ≡ p)) ⊎ (select i t ≡ some p)
written_lookup id i old new p t present h = elim (Bool-cases (id == i)) [
  | inl same ↦
      inl ((eq_iff id i).0 same, ground (arith, h, select-update id i new t, same, present))
  | inr other ↦ inr (ground (arith, h, select-update id i new t, other))
]

same_key : (id i j : String) → id ≡ i → id ≡ j → (i == j) ≡ true
same_key id i j e f = (eq_iff i j).1 (sym e ∙ f)

-- Before a write, the row that is written stood for the same operation.
was_active :
    (id i : String) (old new p : Row) (t : Table Row)
    → select id t ≡ some old
    → new.payload.components ≡ old.payload.components
    → (is_active new.column ≡ true → is_active old.column ≡ true)
    → select i (update id new t) ≡ some p
    → is_active p.column ≡ true
    → (q : Row) × (select i t ≡ some q)
      × (is_active q.column ≡ true)
      × (p.payload.components ≡ q.payload.components)
was_active id i old new p t present same active found on =
    elim (written_lookup id i old new p t present found) [
      | inl (e, f) ↦ (
        old,
        subst (λ k. select k t ≡ some old) e present,
        active (subst (λ r. is_active r.column ≡ true) (sym f) on),
        ap (λ r. r.payload.components) (sym f) ∙ same,
      )
      | inr before ↦ (p, before, on, refl)
    ]

reopened-inactive :
    (at : ℕ) (i : String) (p : Row) (t : Table Row)
    → select i (recover_rows (interrupt_rows at t)) ≡ some p
    → is_active p.column ≡ false
reopened-inactive at i p t h = elim (Option-cases (select i t)) [
  | inl missing ↦ absurd (ground (arith, h, select-reopen at i t, missing))
  | inr (row, found) ↦
      subst (λ r. is_active r.column ≡ false)
        (let same : restarted at row ≡ p = ground (arith, h, select-reopen at i t, found) in same)
        (by_state at row.column row.payload).inactive
]

pub Change-Exclusive : {t u : Table Row} → Change t u → Exclusive t → Exclusive u
Change-Exclusive {t} (entered id row missing apart) x i j p q fi fj ap' aq ne =
    elim (entered_lookup id i row p t missing fi) [
      | inl (e, f) ↦ elim (entered_lookup id j row q t missing fj) [
        | inl (e', f') ↦ absurd (false≢true (sym ne ∙ same_key id i j e e'))
        | inr old ↦
            subst (λ r. Disjoint r.payload.components q.payload.components) f
              (Disjoint-sym q.payload.components row.payload.components
                (λ d h. apart d (active-Included j q t d old aq h)))
      ]
      | inr old ↦ elim (entered_lookup id j row q t missing fj) [
        | inl (e', f') ↦
            subst (λ r. Disjoint p.payload.components r.payload.components) f'
              (λ d h. apart d (active-Included i p t d old ap' h))
        | inr old' ↦ x i j p q old old' ap' aq ne
      ]
    ]
Change-Exclusive {t} (written id old new found same active) x i j p q fi fj ap' aq ne =
    let (p', fi', ap'', sp) = was_active id i old new p t found same active fi ap' in
    let (q', fj', aq'', sq) = was_active id j old new q t found same active fj aq in
    subst (λ l. Disjoint l q.payload.components) (sym sp)
      (subst (λ l. Disjoint p'.payload.components l) (sym sq) (x i j p' q' fi' fj' ap'' aq'' ne))
Change-Exclusive {t} (reopened at) x i j p q fi fj ap' aq ne =
    absurd (false≢true (sym (reopened-inactive at i p t fi) ∙ ap'))
