-- ===== src/Heartbeat/Lease.antt =====
-- manager/runner_heartbeat.py: only the writer that holds the lease moves a heartbeat, forwards,
-- and never out of a terminal phase.
use fortifylab_archive.Heartbeat.Beats.{
  Beat, Config, Error, Report, cleanup, moved, pr_accepted, reported, revise, stamp, stored,
  update_beat,
}
use fortifylab_archive.Heartbeat.Phases.{
  Phase, index-le, index_of, is_terminal_phase, next_transitions, phase_eq, terminal_index,
}
use fortifylab_archive.Prelude.{
  Bool-cases, Option, String, ap, arith, eq_iff, eqb, false, inl, inr, ltb, none, not, refl, some,
  subst, ℕ, ◌&&◌, ◌+◌, ◌==◌, ◌||◌, ◌∙◌, ◌≡◌, ◌≤◌,
}
use fortifylab_archive.Prelude.Exec.{Outcome, Outcome-cases, after, after-eq-ok, ok, raised}
use fortifylab_archive.Prelude.Table.{Table, put, select}

-- What an update may do to a heartbeat.
pub record Advances (writer_id : String) (generation : ℕ) (current beat : Beat) : Type 0 where
  pub holder : current.writer_id ≡ writer_id
  pub lease : current.generation ≡ generation
  pub open_still : is_terminal_phase current.phase ≡ false
  pub same_writer : beat.writer_id ≡ writer_id
  pub same_generation : beat.generation ≡ generation
  pub same_issue : beat.issue ≡ current.issue
  pub same_start : beat.started_at ≡ current.started_at
  pub revised : beat.revision ≡ current.revision + 1
  pub forward : index_of current.phase ≤ index_of beat.phase
  pub transition : beat.next_expected_transition ≡ next_transitions beat.phase

-- What the move to a phase leaves of a heartbeat.
record Moves (current beat : Beat) : Type 0 where
  forward : index_of current.phase ≤ index_of beat.phase
  same_writer : beat.writer_id ≡ current.writer_id
  same_generation : beat.generation ≡ current.generation
  same_issue : beat.issue ≡ current.issue
  same_start : beat.started_at ≡ current.started_at

forward_of :
    (phase : Phase) (current : Beat)
    → (not (is_terminal_phase phase) && ltb (index_of phase) (index_of current.phase)) ≡ false
    → index_of current.phase ≤ index_of phase
forward_of phase current h = elim (Bool-cases (is_terminal_phase phase)) [
  | inl over ↦ omega (arith, terminal_index phase over, index-le current.phase)
  | inr on ↦ elim (Bool-cases (ltb (index_of phase) (index_of current.phase))) [
    | inl back ↦ absurd (ground (arith, h, on, back))
    | inr ahead ↦ ground (arith, ahead)
  ]
]

module _ (config : Config) where
  moved-Moves :
      (phase : Option Phase) (now : ℕ) (current beat : Beat)
      → moved config phase now current ≡ ok beat
      → Moves current beat
  moved-Moves none now current beat h =
      let same : current ≡ beat = ground (arith, h) in
      subst (Moves current) same (record {
        forward = omega arith;
        same_writer = refl;
        same_generation = refl;
        same_issue = refl;
        same_start = refl;
      })
  moved-Moves (some phase) now current beat h = elim (Bool-cases (phase_eq phase current.phase)) [
    | inl same_phase ↦
        let same : current ≡ beat = ground (arith, h, same_phase) in
        subst (Moves current) same (record {
          forward = omega arith;
          same_writer = refl;
          same_generation = refl;
          same_issue = refl;
          same_start = refl;
        })
    | inr other ↦
        elim (Bool-cases
          (not (is_terminal_phase phase) && ltb (index_of phase) (index_of current.phase))) [
            | inl back ↦ absurd (ground (arith, h, other, back))
            | inr ahead ↦
                let same : (record current {
                  last_completed_safe_step = some current.phase;
                  phase = phase;
                  phase_started_at = stamp now;
                })
                    ≡ beat =
                  ground (arith, h, other, ahead) in
                subst (Moves current) same (record {
                  forward = forward_of phase current ahead;
                  same_writer = refl;
                  same_generation = refl;
                  same_issue = refl;
                  same_start = refl;
                })
          ]
  ]

  revise-Advances :
      (writer_id : String) (generation : ℕ) (report : Report) (now : ℕ) (current beat : Beat)
      → revise config writer_id generation report now (some current) ≡ ok beat
      → Advances writer_id generation current beat
  unfolding revise
  revise-Advances writer_id generation report now current beat h =
      elim (Bool-cases
        (not (current.writer_id == writer_id) || not (eqb current.generation generation))) [
          | inl wrong ↦ absurd (ground (arith, h, wrong))
          | inr held ↦ elim (Bool-cases (is_terminal_phase current.phase)) [
            | inl over ↦ absurd (ground (arith, h, held, over))
            | inr open_still ↦
                let asked : after (moved config report.phase now current)
                      (λ b. ok (reported config report now current b))
                    ≡ ok beat =
                  ground (arith, h, held, open_still) in
                let (b, moves, made) =
                  after-eq-ok (moved config report.phase now current)
                    (λ b. ok (reported config report now current b)) asked in
                let m : Moves current b = moved-Moves report.phase now current b moves in
                let same : reported config report now current b ≡ beat = ground (arith, made) in
                let writer : current.writer_id ≡ writer_id =
                  (eq_iff current.writer_id writer_id).0 (ground (arith, held)) in
                let lease : current.generation ≡ generation = ground (arith, held) in
                subst (Advances writer_id generation current) same (record {
                  holder = writer;
                  lease = lease;
                  open_still = open_still;
                  same_writer = m.same_writer ∙ writer;
                  same_generation = m.same_generation ∙ lease;
                  same_issue = m.same_issue;
                  same_start = m.same_start;
                  revised = refl;
                  forward = m.forward;
                  transition = refl;
                })
          ]
        ]

  -- An update that returns found a heartbeat of the named writer and generation in a phase that is
  -- not terminal. It keeps the writer, the generation, the issue and the start, adds one to the
  -- revision, never goes back to an earlier phase, and expects the transition that follows the
  -- phase; the files are the old ones with this heartbeat, after the clean-up. An update that
  -- raises leaves the files as they were.
  pub update_beat-Advances :
      (issue : ℕ) (writer_id : String) (generation : ℕ) (report : Report) (now : ℕ)
      (files : Table Beat)
      → ((beat : Beat)
          → (update_beat config issue writer_id generation report now files).0 ≡ ok beat
          → (current : Beat) × (select (config.path issue) files ≡ some current)
            × Advances writer_id generation current beat
            × ((update_beat config issue writer_id generation report now files).1
                ≡ cleanup config now (put (config.path issue) beat files)))
        × ((e : Error)
            → (update_beat config issue writer_id generation report now files).0 ≡ raised e
            → (update_beat config issue writer_id generation report now files).1 ≡ files)
  unfolding update_beat
  update_beat-Advances issue writer_id generation report now files =
      elim (Bool-cases (pr_accepted config report.pr_reference)) [
        | inr refused ↦ rw refused ((λ beat h. absurd (cc)), (λ e h. refl))
        | inl accepted ↦ rw accepted (
          (λ beat h. by_file (select (config.path issue) files) beat refl h),
          (λ e h.
              kept
                (revise config writer_id generation report now (select (config.path issue) files)) e
                h),
        )
      ]
    where
      kept :
          (r : Outcome Error Beat) (e : Error)
          → (stored config now issue files r).0 ≡ raised e
          → (stored config now issue files r).1 ≡ files
      kept (ok beat) e h = absurd (cc)
      kept (raised x) e h = refl

      by_file :
          (found : Option Beat) (beat : Beat)
          → select (config.path issue) files ≡ found
          → (stored config now issue files (revise config writer_id generation report now found)).0
            ≡ ok beat
          → (current : Beat) × (select (config.path issue) files ≡ some current)
            × Advances writer_id generation current beat
            × ((stored config now issue files
                  (revise config writer_id generation report now found)).1
                ≡ cleanup config now (put (config.path issue) beat files))
      by_file none beat found h = absurd (unfold revise in cc)
      by_file (some current) beat found h =
          elim (Outcome-cases (revise config writer_id generation report now (some current))) [
            | inr (e, wrong) ↦ absurd (ground (arith, h, wrong))
            | inl (b, right) ↦
                let same : b ≡ beat = ground (arith, h, right) in
                (
                  current,
                  found,
                  revise-Advances writer_id generation report now current beat (right ∙ ap ok same),
                  rw right (ap (λ k. cleanup config now (put (config.path issue) k files)) same),
                )
          ]
