-- ===== src/Heartbeat/Samples.antt =====
-- manager/runner_heartbeat.py: heartbeats of two issues, and their writers.
use fortifylab_archive.Heartbeat.Beats.{
  Beat, Config, Error, Report, cleanup, fresh_beat, paths, revise, stale_writer, start,
  terminal_records, update_beat,
}
use fortifylab_archive.Heartbeat.Lease.{Advances, update_beat-Advances}
use fortifylab_archive.Heartbeat.Phases.{is_terminal_phase, second, testing}
use fortifylab_archive.Heartbeat.Recency.{as_recent}
use fortifylab_archive.Heartbeat.Renewal.{Proceeds, Supersedes, start-Supersedes}
use fortifylab_archive.Heartbeat.Retention.{cleanup_retains}
use fortifylab_archive.Prelude.{
  String, [], contains, eqb, false, if◌then◌else◌, length, none, refl, some, true, ℕ, ◌&&◌, ◌*◌,
  ◌-◌, ◌<◌, ◌==◌, ◌∷◌, ◌≡◌, ◌≢◌, ◌≤◌, ◌⊎◌,
}
use fortifylab_archive.Prelude.Exec.{ok, raised}
use fortifylab_archive.Prelude.Table.{Table, put, select}
use fortifylab_archive.Registry.Components.{keys}

abbrev config : Config
config = record {
  thresholds = record {
    quiet_seconds = 120;
    possibly_stalled_seconds = 600;
    stalled_seconds = 1800;
  };
  max_terminal_records = 100;
  max_records = 200;
  terminal_max_age_days = 30;
  path = λ issue. if eqb issue 1 then "issue-1.json" else "issue-2.json";
  path_before = λ a b. a == "issue-1.json" && b == "issue-2.json";
  texts = record { is_digest = λ text. text == "abc"; is_pr_reference = λ text. text == "#7" };
}

abbrev beat : Beat
beat = fresh_beat config 1 "v0.4" 3 "abc" 1 "ada" 5000000

abbrev files : Table Beat
files = ("issue-1.json", beat) ∷ []

abbrev testing_now : Report
testing_now = record {
  phase = some testing;
  changed_file_count = some 2;
  validation_state = none;
  pr_reference = none;
}

program : Unit {0}
unfolding start update_beat revise select put contains
program = tt

runs :
    ((start config 1 "v0.4" 3 "abc" "ada" 5000000 []).0 ≡ ok beat)
    × ((update_beat config 1 "bob" 1 testing_now 9000000 files).0 ≡ raised stale_writer)
unfolding program
runs = (refl, refl)

update_beat-Advances_example :
    ((b : Beat)
      → (update_beat config 1 "ada" 1 testing_now 9000000 files).0 ≡ ok b
      → (current : Beat) × (select (config.path 1) files ≡ some current)
        × Advances "ada" 1 current b
        × ((update_beat config 1 "ada" 1 testing_now 9000000 files).1
            ≡ cleanup config 9000000 (put (config.path 1) b files)))
    × ((e : Error)
        → (update_beat config 1 "ada" 1 testing_now 9000000 files).0 ≡ raised e
        → (update_beat config 1 "ada" 1 testing_now 9000000 files).1 ≡ files)
update_beat-Advances_example = update_beat-Advances config 1 "ada" 1 testing_now 9000000 files

start-Supersedes_example :
    ((b : Beat)
      → (start config 1 "v0.4" 3 "abc" "bob" 9000000 files).0 ≡ ok b
      → Supersedes config 1 "bob" files b
        × ((start config 1 "v0.4" 3 "abc" "bob" 9000000 files).1
            ≡ cleanup config 9000000 (put (config.path 1) b files))
        × ((earlier : String) (later : Table Beat)
            → earlier ≢ "bob"
            → Proceeds config earlier (start config 1 "v0.4" 3 "abc" "bob" 9000000 files).1 later
            → (generation : ℕ) (report : Report) (moment : ℕ)
            → (e : Error) × (update_beat config 1 earlier generation report moment later
                ≡ (raised e, later))))
    × ((e : Error)
        → (start config 1 "v0.4" 3 "abc" "bob" 9000000 files).0 ≡ raised e
        → (start config 1 "v0.4" 3 "abc" "bob" 9000000 files).1 ≡ files)
start-Supersedes_example = start-Supersedes config 1 "v0.4" 3 "abc" "bob" 9000000 files

cleanup_retains_example :
    (length (keys (cleanup config 9000000 files)) ≤ 200)
    × (length (paths config (terminal_records config (cleanup config 9000000 files))) ≤ 100)
    × ((path : String) (b : Beat)
        → select path (cleanup config 9000000 files) ≡ some b
        → select path files ≡ some b)
    × ((path : String) (b : Beat)
        → select path files ≡ some b
        → is_terminal_phase b.phase ≡ true
        → 30 * 86400 * second < 9000000 - b.last_activity_at * second
        → select path (cleanup config 9000000 files) ≡ none)
    × ((path : String) (b : Beat)
        → select path files ≡ some b
        → is_terminal_phase b.phase ≡ false
        → (select path (cleanup config 9000000 files) ≡ some b)
          ⊎ (200 < as_recent b.last_activity_at files))
cleanup_retains_example = cleanup_retains config 9000000 files (unfold contains in (refl, tt))
