-- ===== src/Heartbeat/Beats.antt =====
-- manager/runner_heartbeat.py: `HeartbeatStore`. A file `issue-<n>.json` is an entry of a table
-- under its name; a clock read is an argument. The lock makes each method one step.
use Prim.Native.String.{count}
use fortifylab_archive.Heartbeat.Phases.{
  ActivityThresholds, Phase, RunnerHealth, ValidationState, active, classify, completed, failed,
  index_of, inspecting, is_terminal_phase, next_transitions, not_started, phase_eq, preparing,
  runner_completed, runner_failed, second,
}
use fortifylab_archive.Prelude.{
  Bool, List, Option, String, [], contains, eqb, if◌then◌else◌, leb, ltb, none, not, some, suc,
  true, zero, ℕ, ◌&&◌, ◌*◌, ◌+◌, ◌-◌, ◌/◌, ◌==◌, ◌||◌, ◌∷◌,
}
use fortifylab_archive.Prelude.Exec.{Outcome, after, ok, raised}
use fortifylab_archive.Prelude.Table.{Table, put, select}

pub data Error : Type 0 where
  invalid_identity invalid_policy_identity invalid_changed_count : Error
  invalid_pr_reference missing stale_writer terminal stale_phase : Error

-- The stamps are in seconds.
pub record Beat : Type 0 where
  pub issue : ℕ
  pub milestone : String
  pub writer_id : String
  pub generation : ℕ
  pub policy_generation : ℕ
  pub policy_digest : String
  pub revision : ℕ
  pub phase : Phase
  pub phase_started_at : ℕ
  pub started_at : ℕ
  pub total_elapsed_seconds : ℕ
  pub last_activity_at : ℕ
  pub runner_health : RunnerHealth
  pub changed_file_count : ℕ
  pub validation_state : ValidationState
  pub pr_reference : Option String
  pub last_completed_safe_step : Option Phase
  pub next_expected_transition : Option Phase

-- What the two regular expressions, and `len`, say of a text.
pub record Texts : Type 0 where
  pub is_digest : String → Bool
  pub is_pr_reference : String → Bool

-- The arguments of `update`. The phase and the validation state come from their enumerations.
pub record Report : Type 0 where
  pub phase : Option Phase
  pub changed_file_count : Option ℕ
  pub validation_state : Option ValidationState
  pub pr_reference : Option String

pub record Config : Type 0 where
  pub thresholds : ActivityThresholds
  pub max_terminal_records : ℕ
  pub max_records : ℕ
  pub terminal_max_age_days : ℕ
  pub path : ℕ → String
  pub path_before : String → String → Bool
  pub texts : Texts

abbrev pub stamp : ℕ → ℕ
stamp now = now / second

abbrev pub or_else : {A : Type 0} → Option A → A → A
or_else none a = a
or_else (some b) a = b

-- Whole seconds since a stamp, 0 for a stamp of the future.
abbrev pub elapsed : ℕ → ℕ → ℕ
elapsed now at = (now - at * second) / second

-- `sort(reverse=True)` on pairs of a stamp and a path.
abbrev pub Entry : Type 0
Entry = ℕ × String

module _ (config : Config) where
  abbrev pub precedes : Entry → Entry → Bool
  precedes (at, path) (at', path') =
      ltb at' at || (eqb at at' && not (config.path_before path path'))

  unfoldable pub insert_entry : Entry → List Entry → List Entry
  insert_entry e [] = e ∷ []
  insert_entry e (f ∷ rest) = if precedes e f then e ∷ f ∷ rest else f ∷ insert_entry e rest

  unfoldable pub sorted : List Entry → List Entry
  unfolding insert_entry
  sorted [] = []
  sorted (e ∷ es) = insert_entry e (sorted es)

  unfoldable pub all_records : Table Beat → List Entry
  all_records [] = []
  all_records ((path, beat) ∷ files) = (beat.last_activity_at, path) ∷ all_records files

  unfoldable pub terminal_records : Table Beat → List Entry
  terminal_records [] = []
  terminal_records ((path, beat) ∷ files) =
      let rest = terminal_records files in
      if is_terminal_phase beat.phase then (beat.last_activity_at, path) ∷ rest else rest

  -- The paths of the terminal records to unlink, from the given index on.
  unfoldable pub expired : ℕ → ℕ → List Entry → List String
  expired now index [] = []
  expired now index ((at, path) ∷ rest) =
      let later = expired now (suc index) rest in
      if leb config.max_terminal_records index
        || ltb (config.terminal_max_age_days * 86400 * second) (now - at * second)
      then path ∷ later
      else later

  abbrev pub paths : List Entry → List String
  paths [] = []
  paths ((at, path) ∷ rest) = path ∷ paths rest

  abbrev pub drop : ℕ → List String → List String
  drop zero xs = xs
  drop (suc n) [] = []
  drop (suc n) (x ∷ xs) = drop n xs

  unfoldable pub unlink : List String → Table Beat → Table Beat
  unfolding contains
  unlink gone [] = []
  unlink gone ((path, beat) ∷ files) =
      let rest = unlink gone files in if contains gone path then rest else (path, beat) ∷ rest

  -- Both lists are read before anything is unlinked.
  unfoldable pub cleanup : ℕ → Table Beat → Table Beat
  unfolding expired sorted terminal_records all_records unlink
  cleanup now files =
      unlink (drop config.max_records (paths (sorted (all_records files))))
        (unlink (expired now 0 (sorted (terminal_records files))) files)

  abbrev pub next_generation : Option Beat → ℕ
  next_generation none = 1
  next_generation (some previous) = previous.generation + 1

  abbrev pub fresh_beat : ℕ → String → ℕ → String → ℕ → String → ℕ → Beat
  fresh_beat issue milestone policy_generation policy_digest generation writer_id now = record {
    issue = issue;
    milestone = milestone;
    writer_id = writer_id;
    generation = generation;
    policy_generation = policy_generation;
    policy_digest = policy_digest;
    revision = 1;
    phase = preparing;
    phase_started_at = stamp now;
    started_at = stamp now;
    total_elapsed_seconds = 0;
    last_activity_at = stamp now;
    runner_health = active;
    changed_file_count = 0;
    validation_state = not_started;
    pr_reference = none;
    last_completed_safe_step = none;
    next_expected_transition = some inspecting;
  }

  abbrev pub Result : Type 0
  Result = Outcome Error Beat × Table Beat

  abbrev pub written : ℕ → ℕ → Beat → Table Beat → Result
  written now issue beat files = (ok beat, cleanup now (put (config.path issue) beat files))

  -- `writer_id` is what `uuid.uuid4` returns. A negative policy generation is no input here.
  unfoldable pub start : ℕ → String → ℕ → String → String → ℕ → Table Beat → Result
  start issue milestone policy_generation policy_digest writer_id now files =
      if ltb issue 1 || milestone == "" || ltb 200 (count milestone)
      then (raised invalid_identity, files)
      else if not (config.texts.is_digest policy_digest)
      then (raised invalid_policy_identity, files)
      else written now issue
          (fresh_beat issue milestone policy_generation policy_digest
            (next_generation (select (config.path issue) files)) writer_id now)
          files

  abbrev pub aged : ℕ → Beat → Beat
  aged now beat = record beat {
    total_elapsed_seconds = elapsed now beat.started_at;
    runner_health =
        if is_terminal_phase beat.phase
        then beat.runner_health
        else classify config.thresholds (now - beat.last_activity_at * second);
  }

  unfoldable pub read : ℕ → ℕ → Table Beat → Option Beat
  read issue now files = elim (select (config.path issue) files) [
    | none ↦ none
    | some beat ↦ some (aged now beat)
  ]

  abbrev pub health_after : Option Phase → RunnerHealth
  health_after (some completed) = runner_completed
  health_after (some failed) = runner_failed
  health_after _ = active

  -- The document with the phase of the report, if it names another one.
  abbrev pub moved : Option Phase → ℕ → Beat → Outcome Error Beat
  moved none now beat = ok beat
  moved (some phase) now beat =
      if phase_eq phase beat.phase
      then ok beat
      else if not (is_terminal_phase phase) && ltb (index_of phase) (index_of beat.phase)
      then raised stale_phase
      else ok (record beat {
        last_completed_safe_step = some beat.phase;
        phase = phase;
        phase_started_at = stamp now;
      })

  abbrev pub reported : Report → ℕ → Beat → Beat → Beat
  reported report now current beat = record beat {
    changed_file_count = or_else report.changed_file_count beat.changed_file_count;
    validation_state = or_else report.validation_state beat.validation_state;
    pr_reference = elim report.pr_reference [ none ↦ beat.pr_reference | some r ↦ some r ];
    revision = current.revision + 1;
    last_activity_at = stamp now;
    total_elapsed_seconds = elapsed now beat.started_at;
    runner_health = health_after report.phase;
    next_expected_transition = next_transitions beat.phase;
  }

  -- From the point where the current document is read.
  unfoldable pub revise : String → ℕ → Report → ℕ → Option Beat → Outcome Error Beat
  revise writer_id generation report now none = raised missing
  revise writer_id generation report now (some current) =
      if not (current.writer_id == writer_id) || not (eqb current.generation generation)
      then raised stale_writer
      else if is_terminal_phase current.phase
      then raised terminal
      else after (moved report.phase now current) (λ beat. ok (reported report now current beat))

  abbrev pub stored : ℕ → ℕ → Table Beat → Outcome Error Beat → Result
  stored now issue files (raised e) = (raised e, files)
  stored now issue files (ok beat) = written now issue beat files

  abbrev pub pr_accepted : Option String → Bool
  pr_accepted none = true
  pr_accepted (some reference) = config.texts.is_pr_reference reference

  unfoldable pub update_beat : ℕ → String → ℕ → Report → ℕ → Table Beat → Result
  unfolding revise
  update_beat issue writer_id generation report now files =
      if not (pr_accepted report.pr_reference)
      then (raised invalid_pr_reference, files)
      else stored now issue files
          (revise writer_id generation report now (select (config.path issue) files))
