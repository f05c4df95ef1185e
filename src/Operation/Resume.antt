-- ===== src/Operation/Resume.antt =====
-- manager/operation_engine.py: how `retry_async` resumes a clean install behind the steps that the
-- previous operation has recorded as done.
use Prim.Native.String.{count}
use fortifylab_archive.Operation.Conclusion.{Finished, run-Finished}
use fortifylab_archive.Operation.Progress.{
  Key, Progress, current_key, quiet_event, recorded-store_update, rows-log_event,
  stored-store_update, succeeded_keys, successes,
}
use fortifylab_archive.Operation.Run.{Run, run}
use fortifylab_archive.Operation.Store.{log_event, store_update}
use fortifylab_archive.Operation.Types.{
  Document, Event, Step, attempt_failed, cancellation_requested, manager_restarted, step_resumed,
  step_succeeded, succeeded,
}
use fortifylab_archive.Operation.World.{Engine, World}
use fortifylab_archive.Prelude.{
  All, Any, Bool, Bool-cases, List, Never, String, [], any, arith, eq_iff, false, false≢true,
  if◌then◌else◌, inl, inr, is_some, keep, length, length-keep-le, not, refl, subst, suc, sym, true,
  ◌&&◌, ◌-◌, ◌<◌, ◌==◌, ◌||◌, ◌↔◌, ◌∙◌, ◌∷◌, ◌≡◌, ◌≤◌, ◌⊎◌,
}
use fortifylab_archive.Prelude.Table.{select}

-- The component and operation of each `step-succeeded` and `step-resumed` event.
unfoldable pub completed_keys : List Event → List Key
completed_keys [] = []
completed_keys (step_succeeded component operation attempt at ∷ events) =
    (component, operation) ∷ completed_keys events
completed_keys (step_resumed component operation at ∷ events) =
    (component, operation) ∷ completed_keys events
completed_keys (manager_restarted at ∷ events) = completed_keys events
completed_keys (attempt_failed component operation attempt retrying at ∷ events) =
    completed_keys events
completed_keys (cancellation_requested actor at ∷ events) = completed_keys events

unfoldable pub is_completed : List Key → Step → Bool
unfolding any
is_completed keys s = any (λ k. k.0 == s.component_id && k.1 == s.operation) keys

abbrev pub remaining : List Key → List Step → List Step
remaining keys steps = keep (λ s. not (is_completed keys s)) steps

module _ (world : World) where
  abbrev pub resume_one : String → List Key → Step → Engine → Engine
  resume_one id keys s e =
      if is_completed keys s
      then record e {
        store =
            log_event world.redact id
              (step_resumed s.component_id s.operation (world.clock e.reads)) e.store;
        reads = suc e.reads;
      }
      else e

  -- The loop that logs the resumed steps.
  unfoldable pub resume_steps : String → List Key → List Step → Engine → Engine
  unfolding is_completed log_event
  resume_steps id keys [] e = e
  resume_steps id keys (s ∷ steps) e = resume_steps id keys steps (resume_one id keys s e)

  -- From the point where the new operation is prepared: what the worker starts with.
  unfoldable pub resume_install : List Event → Document → List Step → Engine → Run × List Step
  unfolding completed_keys resume_steps store_update
  resume_install events document steps e =
      let left : List Step = remaining (completed_keys events) steps in
      let resumed : Document = record document { completed_steps = length steps - length left } in
      (
        record {
          engine =
              resume_steps document.id (completed_keys events) steps
                (record e { store = store_update world.redact resumed e.store });
          document = resumed;
        },
        left,
      )

  resume_one-quiet :
      (id j : String) (keys : List Key) (s : Step) (e : Engine)
      → (succeeded_keys id (resume_one j keys s e).store ≡ succeeded_keys id e.store)
        × ((resume_one j keys s e).store.rows ≡ e.store.rows)
  resume_one-quiet id j keys s e = elim (Bool-cases (is_completed keys s)) [
    | inr open_still ↦ rw open_still (refl, refl)
    | inl done ↦ rw done (
      quiet_event world.redact id j (step_resumed s.component_id s.operation (world.clock e.reads))
          e.store (unfold successes in refl),
      rows-log_event world id j (step_resumed s.component_id s.operation (world.clock e.reads))
          e.store,
    )
  ]

  resume_steps-quiet :
      (id j : String) (keys : List Key) (steps : List Step) (e : Engine)
      → (succeeded_keys id (resume_steps j keys steps e).store ≡ succeeded_keys id e.store)
        × ((resume_steps j keys steps e).store.rows ≡ e.store.rows)
  unfolding resume_steps
  resume_steps-quiet id j keys [] e = (refl, refl)
  resume_steps-quiet id j keys (s ∷ steps) e =
      let (same, rows) = resume_steps-quiet id j keys steps (resume_one j keys s e) in
      let (same', rows') = resume_one-quiet id j keys s e in (same ∙ same', rows ∙ rows')

-- An event records that a step was done: in an operation, or by being skipped in its resumption.
abbrev pub RecordsDone : Step → Event → Type 0
RecordsDone s (step_succeeded component operation attempt at) =
    (component ≡ s.component_id) × (operation ≡ s.operation)
RecordsDone s (step_resumed component operation at) =
    (component ≡ s.component_id) × (operation ≡ s.operation)
RecordsDone s (manager_restarted at) = Never
RecordsDone s (attempt_failed component operation attempt retrying at) = Never
RecordsDone s (cancellation_requested actor at) = Never

abbrev pub WasDone : List Event → Step → Type 0
WasDone events s = Any (RecordsDone s) events

-- The steps that are left of a plan, in its order: all but those that the events record as done.
pub data Resumes (events : List Event) : List Step → List Step → Type 0 where
  nothing_to_do : Resumes events [] []
  already_done :
      {s : Step} {steps left : List Step}
      → WasDone events s
      → Resumes events steps left
      → Resumes events (s ∷ steps) left
  still_to_do :
      {s : Step} {steps left : List Step}
      → ¬ WasDone events s
      → Resumes events steps left
      → Resumes events (s ∷ steps) (s ∷ left)

key_match :
    (c o : String) (s : Step)
    → ((c == s.component_id && o == s.operation) ≡ true)
      ↔ ((c ≡ s.component_id) × (o ≡ s.operation))
key_match c o s = (
  (λ h. (
    (eq_iff c s.component_id).0 (ground (arith, h)),
    (eq_iff o s.operation).0 (ground (arith, h)),
  )),
  (λ (h, k). ground (arith, (eq_iff c s.component_id).1 h, (eq_iff o s.operation).1 k)),
)

either_way :
    {A B : Type 0} (p q : Bool) → ((p ≡ true) ↔ A) → ((q ≡ true) ↔ B) → ((p || q) ≡ true) ↔ (A ⊎ B)
either_way true q h k = (λ e. inl (h.0 refl), λ e. refl)
either_way false q h k =
    ((λ e. inr (k.0 e)), (λ e. elim e [ inl a ↦ absurd (false≢true (h.1 a)) | inr b ↦ k.1 b ]))

later_only : {A : Type 0} (q : Bool) → ((q ≡ true) ↔ A) → (q ≡ true) ↔ (Never {0} ⊎ A)
later_only q k = ((λ e. inr (k.0 e)), (λ e. elim e [ inl a ↦ elim a [ ] | inr b ↦ k.1 b ]))

is_completed-WasDone :
    (events : List Event) (s : Step)
    → (is_completed (completed_keys events) s ≡ true) ↔ WasDone events s
unfolding completed_keys is_completed any
is_completed-WasDone [] s = ((λ h. absurd (false≢true h)), (λ h. elim h [ ]))
is_completed-WasDone (step_succeeded c o attempt at ∷ events) s =
    either_way (c == s.component_id && o == s.operation) (is_completed (completed_keys events) s)
      (key_match c o s) (is_completed-WasDone events s)
is_completed-WasDone (step_resumed c o at ∷ events) s =
    either_way (c == s.component_id && o == s.operation) (is_completed (completed_keys events) s)
      (key_match c o s) (is_completed-WasDone events s)
is_completed-WasDone (manager_restarted at ∷ events) s =
    later_only (is_completed (completed_keys events) s) (is_completed-WasDone events s)
is_completed-WasDone (attempt_failed c o attempt retrying at ∷ events) s =
    later_only (is_completed (completed_keys events) s) (is_completed-WasDone events s)
is_completed-WasDone (cancellation_requested actor at ∷ events) s =
    later_only (is_completed (completed_keys events) s) (is_completed-WasDone events s)

remaining-Resumes :
    (events : List Event) (steps : List Step)
    → Resumes events steps (remaining (completed_keys events) steps)
unfolding keep
remaining-Resumes events [] = nothing_to_do
remaining-Resumes events (s ∷ steps) =
    let rest = remaining-Resumes events steps in
    elim (Bool-cases (is_completed (completed_keys events) s)) [
      | inl done ↦ rw done (already_done ((is_completed-WasDone events s).0 done) rest)
      | inr undone ↦ rw undone (
          still_to_do (λ done. false≢true (sym undone ∙ (is_completed-WasDone events s).1 done))
            rest)
    ]

remaining-All :
    (P : Step → Type 0) (keys : List Key) (steps : List Step)
    → All P steps
    → All P (remaining keys steps)
unfolding keep
remaining-All P keys [] h = tt
remaining-All P keys (s ∷ steps) h = elim (Bool-cases (is_completed keys s)) [
  | inl done ↦ rw done (remaining-All P keys steps h.1)
  | inr undone ↦ rw undone (h.0, remaining-All P keys steps h.1)
]

module _ (world : World) (id : String) where
  -- A resumed install executes, in the order of the plan, exactly the steps that no event of the
  -- previous operation records as succeeded or resumed, by component and operation; its run ends as
  -- every run does, and if it succeeds, the count is that of all steps of the plan. The document is
  -- stored with no success recorded under its identifier, and every step may be attempted.
  pub resume_install-Finished :
      (events : List Event) (document : Document) (steps : List Step) (e : Engine)
      → document.id ≡ id
      → is_some (select id e.store.rows) ≡ true
      → succeeded_keys id e.store ≡ []
      → All (λ s. 0 < s.max_attempts) steps
      → let started : Run × List Step = resume_install world events document steps e in
        Resumes events steps started.1
        × Finished world id []
            (length steps - length started.1)
            started.1
            (run world started.1 started.0)
        × ((run world started.1 started.0).document.state ≡ succeeded
            → (run world started.1 started.0).document.completed_steps ≡ length steps)
  unfolding resume_install
  resume_install-Finished events document steps e named present blank positive =
      let keys : List Key = completed_keys events in
      let left : List Step = remaining keys steps in
      let tried = remaining-All (λ s. 0 < s.max_attempts) keys steps positive in
      let counted : Document = record document { completed_steps = length steps - length left } in
      let base : Engine = record e { store = store_update world.redact counted e.store } in
      let (quiet, rows) = resume_steps-quiet world id document.id keys steps base in
      let began : Run = record {
        engine = resume_steps world document.id keys steps base;
        document = counted;
      } in
      let p : Progress id [] (length steps - length left) (current_key counted) began = record {
        same_id = named;
        stored =
            subst (λ t. is_some (select id t) ≡ true) (sym rows)
              (stored-store_update world id counted e.store present);
        recorded = quiet ∙ recorded-store_update world id counted e.store ∙ blank;
        counted = refl;
        at_step = refl;
      } in
      let ended : Finished world id [] (length steps - length left) left (run world left began) =
        (run-Finished world id left [] (length steps - length left) (current_key counted) began p
          tried).0 in
      (
        remaining-Resumes events steps,
        ended,
        λ success.
            whole steps left (run world left began) ended success
              (length-keep-le (λ s. not (is_completed keys s)) steps),
      )
    where
      whole :
          (steps left : List Step) (r : Run)
          → Finished world id [] (length steps - length left) left r
          → r.document.state ≡ succeeded
          → length left ≤ length steps
          → r.document.completed_steps ≡ length steps
      whole steps left r (inl (_, _, count, _)) success le = omega (arith, count, le)
      whole steps left r (inr (_, s, _, _, _, _, stopped)) success le = elim stopped.reason [
        | inl x ↦ absurd (ground (arith, x, success))
        | inr (inl x) ↦ absurd (ground (arith, x, success))
        | inr (inr x) ↦ absurd (ground (arith, x, success))
      ]
