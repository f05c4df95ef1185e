-- ===== src/Operation/Progress.antt =====
-- manager/operation_engine.py: the recorded successes and the count of completed steps agree,
-- whatever the adapter, the verifier, the clocks and other threads do.
use fortifylab_archive.Operation.Run.{Run}
use fortifylab_archive.Operation.Store.{
  Row, Store, events_of, log_event, redacted, row_of, store_update,
}
use fortifylab_archive.Operation.Types.{
  Document, Event, Step, attempt_failed, cancellation_requested, cancelling, manager_restarted,
  step_resumed, step_succeeded,
}
use fortifylab_archive.Operation.World.{Engine, Request, World, cancel, cancel_each}
use fortifylab_archive.Prelude.{
  Bool-cases, List, Option, Option-cases, String, [], ap, arith, eq_iff, if◌then◌else◌, inl, inr,
  is_some, none, refl, some, true, ℕ, ◌++◌, ◌==◌, ◌∙◌, ◌∷◌, ◌≡◌,
}
use fortifylab_archive.Prelude.Table.{Table, select, select-update, update}
use mathlib.Core.List.{append-nil}
use text.Mathlib.TextPositions.{eq_refl}

abbrev pub Key : Type 0
Key = String × String

abbrev pub key : Step → Key
key s = (s.component_id, s.operation)

abbrev pub key_list : List Step → List Key
key_list [] = []
key_list (s ∷ steps) = key s ∷ key_list steps

-- The steps that the events of type `step-succeeded` name.
unfoldable pub successes : List Event → List Key
successes [] = []
successes (step_succeeded component operation attempt at ∷ events) =
    (component, operation) ∷ successes events
successes (manager_restarted at ∷ events) = successes events
successes (step_resumed component operation at ∷ events) = successes events
successes (attempt_failed component operation attempt retrying at ∷ events) = successes events
successes (cancellation_requested actor at ∷ events) = successes events

unfoldable pub succeeded_keys : String → Store → List Key
succeeded_keys id s = successes (events_of id s.log)

events_of-append :
    (id j : String) (event : Event) (log : List (String × Event))
    → events_of id (log ++ (j, event) ∷ [])
      ≡ events_of id log ++ (if j == id then event ∷ [] else [])
unfolding events_of
events_of-append id j event [] = ground arith
events_of-append id j event ((k, other) ∷ log) = ground (arith, events_of-append id j event log)

successes-append : (xs ys : List Event) → successes (xs ++ ys) ≡ successes xs ++ successes ys
unfolding successes
successes-append [] ys = refl
successes-append (step_succeeded c o a t ∷ xs) ys = ap (◌∷◌ (c, o)) (successes-append xs ys)
successes-append (manager_restarted _ ∷ xs) ys = successes-append xs ys
successes-append (step_resumed _ _ _ ∷ xs) ys = successes-append xs ys
successes-append (attempt_failed _ _ _ _ _ ∷ xs) ys = successes-append xs ys
successes-append (cancellation_requested _ _ ∷ xs) ys = successes-append xs ys

-- An event that is no success leaves the successes of every operation.
pub quiet_event :
    (redact : String → String) (id j : String) (event : Event) (s : Store)
    → successes (redacted redact event ∷ []) ≡ []
    → succeeded_keys id (log_event redact j event s) ≡ succeeded_keys id s
unfolding succeeded_keys log_event
quiet_event redact id j event s quiet = rw events_of-append (
    rw successes-append (elim (Bool-cases (j == id)) [
      | inl same ↦ rw same (rw quiet (append-nil (successes (events_of id s.log))))
      | inr other ↦ rw other (unfold successes in append-nil (successes (events_of id s.log)))
    ]))

pub success_event :
    (redact : String → String) (id : String) (component operation : String) (attempt at : ℕ)
    (s : Store)
    → succeeded_keys id (log_event redact id (step_succeeded component operation attempt at) s)
      ≡ succeeded_keys id s ++ (component, operation) ∷ []
unfolding succeeded_keys log_event
success_event redact id component operation attempt at s =
    rw events_of-append (rw successes-append (rw eq_refl (unfold successes in refl)))

-- The step that a document says is being executed.
abbrev pub current_key : Document → Option Key
current_key document = elim document.current_step [
  | none ↦ none
  | some c ↦ some (c.component, c.operation)
]

-- The observable progress of the operation `id`.
pub record Progress (id : String) (done : List Key) (completed : ℕ) (current : Option Key) (r : Run)
    : Type 0 where
  pub same_id : r.document.id ≡ id
  pub stored : is_some (select id r.engine.store.rows) ≡ true
  pub recorded : succeeded_keys id r.engine.store ≡ done
  pub counted : r.document.completed_steps ≡ completed
  pub at_step : current_key r.document ≡ current

module _ (world : World) (id : String) where
  -- What other threads leave alone in the engine.
  pub record Undisturbed (e e' : Engine) : Type 0 where
    pub stored : is_some (select id e.store.rows) ≡ true → is_some (select id e'.store.rows) ≡ true
    pub recorded : succeeded_keys id e'.store ≡ succeeded_keys id e.store

  stored-update :
      (j : String) (row : Row) (t : Table Row)
      → is_some (select id t) ≡ true
      → is_some (select id (update j row t)) ≡ true
  stored-update j row t h = elim (Bool-cases (j == id)) [
    | inl same ↦
        ground (arith, select-update j id row t, ap (λ k. select k t) ((eq_iff j id).0 same))
    | inr other ↦ ground (arith, select-update j id row t)
  ]

  pub stored-store_update :
      (document : Document) (s : Store)
      → is_some (select id s.rows) ≡ true
      → is_some (select id (store_update world.redact document s).rows) ≡ true
  unfolding store_update
  stored-store_update document s h =
      stored-update document.id (row_of world.redact document) s.rows h

  pub recorded-store_update :
      (document : Document) (s : Store)
      → succeeded_keys id (store_update world.redact document s) ≡ succeeded_keys id s
  unfolding store_update succeeded_keys
  recorded-store_update document s = refl

  pub rows-log_event :
      (j : String) (event : Event) (s : Store) → (log_event world.redact j event s).rows ≡ s.rows
  unfolding log_event
  rows-log_event j event s = refl

  requested_quiet :
      (j actor : String) (at : ℕ) (s : Store)
      → succeeded_keys id (log_event world.redact j (cancellation_requested actor at) s)
        ≡ succeeded_keys id s
  requested_quiet j actor at s =
      quiet_event world.redact id j (cancellation_requested actor at) s (unfold successes in refl)

  cancel-Undisturbed : (j actor : String) (e : Engine) → Undisturbed e (cancel world j actor e).1
  unfolding cancel
  cancel-Undisturbed j actor e = elim (Option-cases (select j e.store.rows)) [
    | inl absent ↦ record { stored = λ h. ground (arith, h); recorded = ground (arith, absent) }
    | inr (row, found) ↦
        let document : Document = record row.payload {
          state = cancelling;
          updated_at = world.clock e.reads;
        } in
        let changed : Store = store_update world.redact document e.store in
        record {
          stored = λ h. ground (
            arith,
            h,
            stored-store_update document e.store h,
            ap (λ t. select id t)
                (rows-log_event j (cancellation_requested actor (world.clock e.reads)) changed),
          );
          recorded = ground (
            arith,
            requested_quiet j actor (world.clock e.reads) changed,
            recorded-store_update document e.store,
          );
        }
  ]

  pub others-Undisturbed : (rs : List Request) (e : Engine) → Undisturbed e (cancel_each world rs e)
  unfolding cancel_each
  others-Undisturbed [] e = record { stored = λ h. h; recorded = refl }
  others-Undisturbed (r ∷ rs) e =
      let first : Undisturbed e (cancel world r.operation_id r.actor e).1 =
        cancel-Undisturbed r.operation_id r.actor e in
      let rest : Undisturbed (cancel world r.operation_id r.actor e).1
          (cancel_each world rs (cancel world r.operation_id r.actor e).1) =
        others-Undisturbed rs (cancel world r.operation_id r.actor e).1 in
      record {
        stored = λ h. rest.stored (first.stored h);
        recorded = rest.recorded ∙ first.recorded;
      }
