-- ===== src/Heartbeat/Retention.antt =====
-- manager/runner_heartbeat.py: what the clean-up keeps.
use fortifylab_archive.Heartbeat.Beats.{
  Beat, Config, all_records, cleanup, drop, expired, paths, sorted, terminal_records, unlink,
}
use fortifylab_archive.Heartbeat.Expiry.{
  IsAged, all_records-StampedAt, cleanup-terminal-le, gone-aged, gone_terminal,
}
use fortifylab_archive.Heartbeat.Listing.{
  contains-keys-unlink, contains-sorted, contains-take-drop, expired-within, open-outside,
  paths-all_records, unlink-IsDistinct, unlink-gone, unlink-kept, unlink-sub,
}
use fortifylab_archive.Heartbeat.Phases.{is_terminal_phase, second}
use fortifylab_archive.Heartbeat.Recency.{as_recent, dropped-recent}
use fortifylab_archive.Prelude.{
  Bool-cases, IsDistinct, List, Option-cases, String, ap, arith, contains, false, false≢true, inl,
  inr, length, length-take-le, none, not, some, sym, take, true, ℕ, ◌&&◌, ◌*◌, ◌-◌, ◌<◌, ◌∙◌, ◌≡◌,
  ◌≤◌, ◌⊎◌,
}
use fortifylab_archive.Prelude.Table.{Table, select}
use fortifylab_archive.Registry.Components.{keys}
use fortifylab_archive.Registry.Members.{distinct-length-le}

module _ (config : Config) where
  newest : Table Beat → List String
  newest files = paths config (sorted config (all_records config files))

  contains-newest :
      (files : Table Beat) (d : String) → contains (newest files) d ≡ contains (keys files) d
  unfolding newest
  contains-newest files d =
      contains-sorted config (all_records config files) d
      ∙ ap (λ l. contains l d) (paths-all_records config files)

  cleanup-length-le :
      (now : ℕ) (files : Table Beat)
      → IsDistinct (keys files)
      → length (keys (cleanup config now files)) ≤ config.max_records
  unfolding cleanup newest
  cleanup-length-le now files distinct_files =
      let first : Table Beat =
        unlink config (expired config now 0 (sorted config (terminal_records config files)))
          files in
      let gone : List String = drop config config.max_records (newest files) in
      omega (
        arith,
        distinct-length-le (keys (unlink config gone first))
            (take config.max_records (newest files))
            (unlink-IsDistinct config gone first (
              unlink-IsDistinct config
                (expired config now 0 (sorted config (terminal_records config files))) files
                distinct_files))
            (λ d p.
              let here : (contains (keys first) d && not (contains gone d)) ≡ true =
                sym (contains-keys-unlink config gone first d) ∙ p in
              let inside : contains (keys files) d ≡ true = ground (
                arith,
                here,
                contains-keys-unlink config
                    (expired config now 0 (sorted config (terminal_records config files))) files d,
              ) in
              ground (
                arith,
                here,
                contains-take-drop config config.max_records (newest files) d,
                contains-newest files d,
                inside,
              )),
        length-take-le config.max_records (newest files),
      )

  pub cleanup-sub :
      (now : ℕ) (files : Table Beat) (path : String) (beat : Beat)
      → select path (cleanup config now files) ≡ some beat
      → select path files ≡ some beat
  unfolding cleanup newest
  cleanup-sub now files path beat h =
      unlink-sub config (gone_terminal config now files) files path beat (
        unlink-sub config (drop config config.max_records (newest files))
          (unlink config (gone_terminal config now files) files) path beat h)

  open-kept :
      (now : ℕ) (files : Table Beat) (path : String) (beat : Beat)
      → IsDistinct (keys files)
      → select path files ≡ some beat
      → is_terminal_phase beat.phase ≡ false
      → (select path (cleanup config now files) ≡ some beat)
        ⊎ (config.max_records < as_recent beat.last_activity_at files)
  unfolding cleanup newest
  open-kept now files path beat d found on =
      let gone : List String = gone_terminal config now files in
      let outside : contains gone path ≡ false = elim (Bool-cases (contains gone path)) [
        | inr kept ↦ kept
        | inl out ↦ absurd (
            false≢true (
              sym (open-outside config files path beat d found on)
              ∙ sym (contains-sorted config (terminal_records config files) path)
              ∙ expired-within config now 0 (sorted config (terminal_records config files)) path
                  out))
      ] in
      elim (Bool-cases (contains (drop config config.max_records (newest files)) path)) [
        | inl out ↦ inr (
            dropped-recent config path beat.last_activity_at files
              (all_records-StampedAt config files path beat d found) out)
        | inr head ↦ inl (
            unlink-kept config (drop config config.max_records (newest files))
              (unlink config gone files) path beat head
            ∙ unlink-kept config gone files path beat outside
            ∙ found)
      ]

  aged-removed :
      (now : ℕ) (files : Table Beat) (path : String) (beat : Beat)
      → IsDistinct (keys files)
      → select path files ≡ some beat
      → is_terminal_phase beat.phase ≡ true
      → IsAged config now beat.last_activity_at
      → select path (cleanup config now files) ≡ none
  unfolding cleanup newest
  aged-removed now files path beat d found over old =
      let gone : List String = gone_terminal config now files in
      let rest : List String = drop config config.max_records (newest files) in
      let out : select path (unlink config gone files) ≡ none =
        unlink-gone config gone files path
          (gone-aged config now files path beat d found over old) in
      elim (Option-cases (select path (unlink config rest (unlink config gone files)))) [
        | inl absent ↦ absent
        | inr (b, still) ↦
            let k = unlink-sub config rest (unlink config gone files) path b still in
            absurd (ground (arith, k, out))
      ]

  -- In a directory with one file for each issue, the clean-up leaves at most the configured numbers
  -- of heartbeats and of terminal ones, none that was not there before, and no terminal one beyond
  -- the maximal age. A heartbeat in a phase that is not terminal goes only if more than the
  -- configured number of heartbeats, itself included, are at least as recent as it is.
  pub cleanup_retains :
      (now : ℕ) (files : Table Beat)
      → IsDistinct (keys files)
      → (length (keys (cleanup config now files)) ≤ config.max_records)
        × (length (paths config (terminal_records config (cleanup config now files)))
            ≤ config.max_terminal_records)
        × ((path : String) (beat : Beat)
            → select path (cleanup config now files) ≡ some beat
            → select path files ≡ some beat)
        × ((path : String) (beat : Beat)
            → select path files ≡ some beat
            → is_terminal_phase beat.phase ≡ true
            → config.terminal_max_age_days * 86400 * second < now - beat.last_activity_at * second
            → select path (cleanup config now files) ≡ none)
        × ((path : String) (beat : Beat)
            → select path files ≡ some beat
            → is_terminal_phase beat.phase ≡ false
            → (select path (cleanup config now files) ≡ some beat)
              ⊎ (config.max_records < as_recent beat.last_activity_at files))
  cleanup_retains now files d = (
    cleanup-length-le now files d,
    cleanup-terminal-le config now files d,
    (λ path beat h. cleanup-sub now files path beat h),
    (λ path beat found over old. aged-removed now files path beat d found over old),
    (λ path beat found on. open-kept now files path beat d found on),
  )
