-- ===== src/Heartbeat/Renewal.antt =====
-- manager/runner_heartbeat.py: a new start takes the lease from every earlier writer.
use Prim.Native.String.{count}
use fortifylab_archive.Heartbeat.Beats.{
  Beat, Config, Error, Report, cleanup, fresh_beat, invalid_pr_reference, missing, moved,
  next_generation, pr_accepted, reported, revise, stale_writer, start, stored, update_beat,
}
use fortifylab_archive.Heartbeat.Phases.{Phase, is_terminal_phase, preparing}
use fortifylab_archive.Heartbeat.Retention.{cleanup-sub}
use fortifylab_archive.Prelude.{
  Bool-cases, Option, Option-cases, String, ap, arith, eq_iff, eqb, inl, inr, ltb, none, not, refl,
  some, subst, sym, ℕ, ◌<◌, ◌==◌, ◌||◌, ◌∙◌, ◌≡◌, ◌≢◌,
}
use fortifylab_archive.Prelude.Exec.{Outcome, after, ok, raised}
use fortifylab_archive.Prelude.Table.{Table, put, select, select-put}

module _ (config : Config) where
  -- What a start promises of the heartbeat that it writes over the old files.
  pub record Supersedes (issue : ℕ) (writer_id : String) (files : Table Beat) (beat : Beat)
      : Type 0 where
    pub first_phase : beat.phase ≡ preparing
    pub first_revision : beat.revision ≡ 1
    pub holder : beat.writer_id ≡ writer_id
    pub newer :
        (old : Beat)
        → select (config.path issue) files ≡ some old
        → old.generation < beat.generation

  -- What happens to the files afterwards: starts by other writers, any updates and clean-ups.
  pub data Proceeds (writer_id : String) (files : Table Beat) : Table Beat → Type 0 where
    at_once : Proceeds writer_id files files
    started :
        {now_there : Table Beat} (issue : ℕ) (milestone : String) (policy_generation : ℕ)
        (policy_digest other : String) (now : ℕ)
        → Proceeds writer_id files now_there
        → other ≢ writer_id
        → Proceeds writer_id files
            (start config issue milestone policy_generation policy_digest other now now_there).1
    updated :
        {now_there : Table Beat} (issue : ℕ) (anyone : String) (generation : ℕ) (report : Report)
        (now : ℕ)
        → Proceeds writer_id files now_there
        → Proceeds writer_id files
            (update_beat config issue anyone generation report now now_there).1
    cleaned :
        {now_there : Table Beat} (now : ℕ)
        → Proceeds writer_id files now_there
        → Proceeds writer_id files (cleanup config now now_there)

  -- The heartbeat of the issue, if there is one, is not held by the writer.
  abbrev IsForeign : ℕ → String → Table Beat → Type 0
  IsForeign issue writer_id files =
      (beat : Beat) → select (config.path issue) files ≡ some beat → beat.writer_id ≢ writer_id

  cleanup-IsForeign :
      (issue : ℕ) (w : String) (now : ℕ) (files : Table Beat)
      → IsForeign issue w files
      → IsForeign issue w (cleanup config now files)
  cleanup-IsForeign issue w now files h beat found =
      h beat (cleanup-sub config now files (config.path issue) beat found)

  put-IsForeign :
      (issue other : ℕ) (w : String) (beat : Beat) (files : Table Beat)
      → IsForeign issue w files
      → (config.path other ≡ config.path issue → beat.writer_id ≢ w)
      → IsForeign issue w (put (config.path other) beat files)
  put-IsForeign issue other w beat files h k b found =
      let here = select-put (config.path other) (config.path issue) beat files in
      elim (Bool-cases (config.path other == config.path issue)) [
        | inl same ↦
            let e : beat ≡ b = ground (arith, found, here, same) in
            subst (λ c. c.writer_id ≢ w) e
              (k ((eq_iff (config.path other) (config.path issue)).0 same))
        | inr differs ↦
            let old : select (config.path issue) files ≡ some b =
              ground (arith, found, here, differs) in
            h b old
      ]

  start-IsForeign :
      (issue : ℕ) (w : String) (at : ℕ) (milestone : String) (policy_generation : ℕ)
      (policy_digest other : String) (now : ℕ) (files : Table Beat)
      → other ≢ w
      → IsForeign issue w files
      → IsForeign issue w
          (start config at milestone policy_generation policy_digest other now files).1
  unfolding start
  start-IsForeign issue w at milestone policy_generation policy_digest other now files differs h =
      elim (Bool-cases (ltb at 1 || milestone == "" || ltb 200 (count milestone))) [
        | inl wrong ↦ rw wrong h
        | inr named ↦ rw named (elim (Bool-cases (config.texts.is_digest policy_digest)) [
          | inr wrong ↦ rw wrong h
          | inl digest ↦
              let beat : Beat =
                fresh_beat config at milestone policy_generation policy_digest
                  (next_generation config (select (config.path at) files)) other now in
              rw digest (
                cleanup-IsForeign issue w now (put (config.path at) beat files)
                  (put-IsForeign issue at w beat files h (λ same. differs)))
        ])
      ]

  moved-writer_id :
      (phase : Option Phase) (now : ℕ) (beat b : Beat)
      → moved config phase now beat ≡ ok b
      → b.writer_id ≡ beat.writer_id
  moved-writer_id none now beat b h =
      let e : beat ≡ b = ground (arith, h) in ap (λ c. c.writer_id) (sym e)
  moved-writer_id (some phase) now beat b h = ground (arith, h)

  revise-writer_id :
      (w : String) (generation : ℕ) (report : Report) (now : ℕ) (found : Option Beat) (b : Beat)
      → revise config w generation report now found ≡ ok b
      → (current : Beat) × (found ≡ some current) × (b.writer_id ≡ current.writer_id)
  unfolding revise
  revise-writer_id w generation report now none b h = absurd (cc)
  revise-writer_id w generation report now (some current) b h = (
    current,
    refl,
    elim (Bool-cases (not (current.writer_id == w) || not (eqb current.generation generation))) [
      | inl another ↦ absurd (ground (arith, h, another))
      | inr holder ↦ elim (Bool-cases (is_terminal_phase current.phase)) [
        | inl over ↦ absurd (ground (arith, h, holder, over))
        | inr going_on ↦
            let k : after (moved config report.phase now current)
                  (λ beat. ok (reported config report now current beat))
                ≡ ok b =
              ground (arith, h, holder, going_on) in
            of_moved (moved config report.phase now current) refl k
      ]
    ],
  )
    where
      of_moved :
          (out : Outcome Error Beat)
          → moved config report.phase now current ≡ out
          → after out (λ beat. ok (reported config report now current beat)) ≡ ok b
          → b.writer_id ≡ current.writer_id
      of_moved (raised e) same k = absurd (cc)
      of_moved (ok m) same k =
          let e : reported config report now current m ≡ b = ground (arith, k) in
          ap (λ c. c.writer_id) (sym e) ∙ moved-writer_id report.phase now current m same

  update-IsForeign :
      (issue : ℕ) (w : String) (at : ℕ) (anyone : String) (generation : ℕ) (report : Report)
      (now : ℕ) (files : Table Beat)
      → IsForeign issue w files
      → IsForeign issue w (update_beat config at anyone generation report now files).1
  unfolding update_beat
  update-IsForeign issue w at anyone generation report now files h =
      elim (Bool-cases (pr_accepted config report.pr_reference)) [
        | inr wrong ↦ rw wrong h
        | inl accepted ↦ rw accepted (
            of_outcome (revise config anyone generation report now (select (config.path at) files))
              refl)
      ]
    where
      of_outcome :
          (out : Outcome Error Beat)
          → revise config anyone generation report now (select (config.path at) files) ≡ out
          → IsForeign issue w (stored config now at files out).1
      of_outcome (raised e) same = h
      of_outcome (ok b) same =
          let (current, found, holder) =
            revise-writer_id anyone generation report now (select (config.path at) files) b same in
          cleanup-IsForeign issue w now (put (config.path at) b files) (
            put-IsForeign issue at w b files h (λ path holds.
              h current (subst (λ p. select p files ≡ some current) path found)
                (sym holder ∙ holds)))

  Proceeds-IsForeign :
      (issue : ℕ) (w : String) (files later : Table Beat)
      → IsForeign issue w files
      → Proceeds w files later
      → IsForeign issue w later
  Proceeds-IsForeign issue w files later h at_once = h
  Proceeds-IsForeign issue w files later h
        (started {now_there} at milestone policy_generation policy_digest other now before
          differs) =
      start-IsForeign issue w at milestone policy_generation policy_digest other now now_there
        differs (Proceeds-IsForeign issue w files now_there h before)
  Proceeds-IsForeign issue w files later h
        (updated {now_there} at anyone generation report now before) =
      update-IsForeign issue w at anyone generation report now now_there
        (Proceeds-IsForeign issue w files now_there h before)
  Proceeds-IsForeign issue w files later h (cleaned {now_there} now before) =
      cleanup-IsForeign issue w now now_there (Proceeds-IsForeign issue w files now_there h before)

  foreign-refused :
      (issue : ℕ) (w : String) (generation : ℕ) (report : Report) (now : ℕ) (files : Table Beat)
      → IsForeign issue w files
      → (e : Error) × (update_beat config issue w generation report now files ≡ (raised e, files))
  unfolding update_beat revise
  foreign-refused issue w generation report now files h =
      elim (Bool-cases (pr_accepted config report.pr_reference)) [
        | inr wrong ↦ rw wrong (invalid_pr_reference, refl)
        | inl accepted ↦ rw accepted (elim (Option-cases (select (config.path issue) files)) [
          | inl absent ↦ rw absent (missing, refl)
          | inr (b, found) ↦ elim (Bool-cases (b.writer_id == w)) [
            | inl same ↦ absurd (h b found ((eq_iff b.writer_id w).0 same))
            | inr differs ↦ rw (found, differs) (stale_writer, refl)
          ]
        ])
      ]

  fresh-Supersedes :
      (found : Option Beat) (issue : ℕ) (milestone : String) (policy_generation : ℕ)
      (policy_digest writer_id : String) (now : ℕ) (files : Table Beat)
      → select (config.path issue) files ≡ found
      → Supersedes issue writer_id files (
          fresh_beat config issue milestone policy_generation policy_digest
            (next_generation config found)
            writer_id
            now)
  fresh-Supersedes none issue milestone policy_generation policy_digest writer_id now files h =
      record {
        first_phase = refl;
        first_revision = refl;
        holder = refl;
        newer = λ old found. absurd (ground (arith, h, found));
      }
  fresh-Supersedes (some prev) issue milestone policy_generation policy_digest writer_id now files
        h =
      record {
        first_phase = refl;
        first_revision = refl;
        holder = refl;
        newer = λ old found.
            let same : prev ≡ old = ground (arith, h, found) in
            omega (arith, ap (λ b. b.generation) same);
      }

  -- A start that returns begins at revision 1 in the first phase, with a generation above that of
  -- the heartbeat it replaces. From then on, whatever starts under other writer identifiers, updates
  -- and clean-ups follow, for any issue, an update of the issue by an earlier writer, that is under
  -- an identifier other than the new one, is refused and changes nothing, whatever generation it
  -- gives. A start that raises leaves the files as they were.
  pub start-Supersedes :
      (issue : ℕ) (milestone : String) (policy_generation : ℕ) (policy_digest writer_id : String)
      (now : ℕ) (files : Table Beat)
      → ((beat : Beat)
          → (start config issue milestone policy_generation policy_digest writer_id now files).0
            ≡ ok beat
          → Supersedes issue writer_id files beat
            × ((start config issue milestone policy_generation policy_digest writer_id now files).1
                ≡ cleanup config now (put (config.path issue) beat files))
            × ((earlier : String) (later : Table Beat)
                → earlier ≢ writer_id
                → Proceeds earlier
                    (start config issue milestone policy_generation policy_digest writer_id now
                      files).1
                    later
                → (generation : ℕ) (report : Report) (moment : ℕ)
                → (e : Error) × (update_beat config issue earlier generation report moment later
                    ≡ (raised e, later))))
        × ((e : Error)
            → (start config issue milestone policy_generation policy_digest writer_id now files).0
              ≡ raised e
            → (start config issue milestone policy_generation policy_digest writer_id now files).1
              ≡ files)
  unfolding start
  start-Supersedes issue milestone policy_generation policy_digest writer_id now files =
      elim (Bool-cases (ltb issue 1 || milestone == "" || ltb 200 (count milestone))) [
        | inl wrong ↦ rw wrong ((λ beat h. absurd (cc)), (λ e h. refl))
        | inr named ↦ rw named (elim (Bool-cases (config.texts.is_digest policy_digest)) [
          | inr wrong ↦ rw wrong ((λ beat h. absurd (cc)), (λ e h. refl))
          | inl digest ↦ rw digest (
            (λ beat h.
                let same : fresh_beat config issue milestone policy_generation policy_digest
                      (next_generation config (select (config.path issue) files)) writer_id now
                    ≡ beat =
                  ground (arith, h) in
                (
                  subst (Supersedes issue writer_id files) same (
                      fresh-Supersedes (select (config.path issue) files) issue milestone
                        policy_generation policy_digest writer_id now files refl),
                  ap (λ k. cleanup config now (put (config.path issue) k files)) same,
                  (λ earlier later differs proceeds generation report moment.
                      superseded-refused earlier differs later proceeds generation report moment),
                )),
            (λ e h. absurd (cc)),
          )
        ])
      ]
    where
      superseded-refused :
          (earlier : String)
          → earlier ≢ writer_id
          → (later : Table Beat)
          → Proceeds earlier
              (cleanup config now (
                put
                  (config.path issue)
                  (fresh_beat config issue milestone policy_generation policy_digest
                    (next_generation config (select (config.path issue) files))
                    writer_id
                    now)
                  files))
              later
          → (generation : ℕ) (report : Report) (moment : ℕ)
          → (e : Error) × (update_beat config issue earlier generation report moment later
              ≡ (raised e, later))
      superseded-refused earlier differs later proceeds generation report moment =
          let beat : Beat =
            fresh_beat config issue milestone policy_generation policy_digest
              (next_generation config (select (config.path issue) files)) writer_id now in
          let written_files : Table Beat = put (config.path issue) beat files in
          foreign-refused issue earlier generation report moment later (
            Proceeds-IsForeign issue earlier (cleanup config now written_files) later
              (cleanup-IsForeign issue earlier now written_files (λ b found.
                let e : beat ≡ b = ground (
                  arith,
                  found,
                  select-put (config.path issue) (config.path issue) beat files,
                  (eq_iff (config.path issue) (config.path issue)).1 refl,
                ) in
                subst (λ c. c.writer_id ≢ earlier) e (λ same. differs (sym same))))
              proceeds)
