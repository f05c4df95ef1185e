-- ===== src/Heartbeat/Expiry.antt =====
-- manager/runner_heartbeat.py: the terminal records that the clean-up unlinks.
use fortifylab_archive.Heartbeat.Beats.{
  Beat, Config, Entry, all_records, cleanup, drop, expired, paths, sorted, terminal_records, unlink,
}
use fortifylab_archive.Heartbeat.Listing.{
  contains-sorted, contains-take-drop, terminal-within, unlink-IsDistinct,
}
use fortifylab_archive.Heartbeat.Phases.{is_terminal_phase, second}
use fortifylab_archive.Heartbeat.Recency.{All-sorted, StampedAt}
use fortifylab_archive.Prelude.{
  All, Bool-cases, IsDistinct, List, String, [], ap, arith, contains, eq_iff, false, false≢true,
  inl, inr, length, length-take-le, not, refl, some, subst, suc, sym, take, true, zero, ℕ, ◌&&◌,
  ◌*◌, ◌+◌, ◌-◌, ◌<◌, ◌==◌, ◌∙◌, ◌∷◌, ◌≡◌, ◌≤◌,
}
use fortifylab_archive.Prelude.Table.{Table, select}
use fortifylab_archive.Registry.Components.{keys}
use fortifylab_archive.Registry.Members.{distinct-length-le}

module _ (config : Config) where
  StampedAt-absent :
      (path : String) (at : ℕ) (files : Table Beat)
      → contains (keys files) path ≡ false
      → StampedAt path at (all_records config files)
  unfolding all_records contains
  StampedAt-absent path at [] h = tt
  StampedAt-absent path at ((j, beat) ∷ files) h = (
    (λ same. absurd (ground (arith, h, (eq_iff j path).1 same))),
    StampedAt-absent path at files (ground (arith, h)),
  )

  pub all_records-StampedAt :
      (files : Table Beat) (path : String) (beat : Beat)
      → IsDistinct (keys files)
      → select path files ≡ some beat
      → StampedAt path beat.last_activity_at (all_records config files)
  unfolding all_records select
  all_records-StampedAt [] path beat d h = tt
  all_records-StampedAt ((j, other) ∷ files) path beat d h = elim (Bool-cases (j == path)) [
    | inl same ↦
        let e : other ≡ beat = ground (arith, h, same) in
        let absent : contains (keys files) path ≡ false =
          subst (λ k. contains (keys files) k ≡ false) ((eq_iff j path).0 same) d.0 in
        (
          (λ here. ap (λ b. b.last_activity_at) e),
          StampedAt-absent path beat.last_activity_at files absent,
        )
    | inr differs ↦ (
      (λ here. absurd (ground (arith, differs, (eq_iff j path).1 here))),
      all_records-StampedAt files path beat d.1 (ground (arith, h, differs)),
    )
  ]

  terminal_records-All :
      (P : Entry → Type 0) (files : Table Beat)
      → All P (all_records config files)
      → All P (terminal_records config files)
  unfolding all_records terminal_records
  terminal_records-All P [] h = tt
  terminal_records-All P ((j, beat) ∷ files) h = elim (Bool-cases (is_terminal_phase beat.phase)) [
    | inl over ↦ rw over (h.0, terminal_records-All P files h.1)
    | inr open_still ↦ rw open_still (terminal_records-All P files h.1)
  ]

  terminal-listed :
      (files : Table Beat) (path : String) (beat : Beat)
      → select path files ≡ some beat
      → is_terminal_phase beat.phase ≡ true
      → contains (paths config (terminal_records config files)) path ≡ true
  unfolding terminal_records contains select
  terminal-listed [] path beat found over = absurd (cc)
  terminal-listed ((j, other) ∷ files) path beat found over = elim (Bool-cases (j == path)) [
    | inl same ↦
        let e : other ≡ beat = ground (arith, found, same) in
        let ended : is_terminal_phase other.phase ≡ true =
          subst (λ b. is_terminal_phase b.phase ≡ true) (sym e) over in
        rw ended (ground (arith, same))
    | inr differs ↦
        let rest : contains (paths config (terminal_records config files)) path ≡ true =
          terminal-listed files path beat (ground (arith, found, differs)) over in
        elim (Bool-cases (is_terminal_phase other.phase)) [
          | inl ended ↦ rw ended (ground (arith, rest))
          | inr open_still ↦ rw open_still rest
        ]
  ]

  -- A record is too old for a terminal one.
  abbrev pub IsAged : ℕ → ℕ → Type 0
  IsAged now at = config.terminal_max_age_days * 86400 * second < now - at * second

  aged-expired :
      (now index : ℕ) (path : String) (at : ℕ) (es : List Entry)
      → IsAged now at
      → StampedAt path at es
      → contains (paths config es) path ≡ true
      → contains (expired config now index es) path ≡ true
  unfolding expired contains
  aged-expired now index path at [] old s h = absurd (cc)
  aged-expired now index path at (e ∷ es) old s h = elim (Bool-cases (e.1 == path)) [
    | inl same ↦
        let here : at ≡ e.0 = sym (s.0 ((eq_iff e.1 path).0 same)) in
        let aged : config.terminal_max_age_days * 86400 * second < now - e.0 * second =
          subst (IsAged now) here old in
        ground (arith, same, aged)
    | inr other ↦
        let rest : contains (expired config now (suc index) es) path ≡ true =
          aged-expired now (suc index) path at es old s.1 (ground (arith, h, other)) in
        ground (arith, rest)
  ]

  -- The paths of the terminal records that the clean-up unlinks.
  abbrev pub gone_terminal : ℕ → Table Beat → List String
  gone_terminal now files = expired config now 0 (sorted config (terminal_records config files))

  pub gone-aged :
      (now : ℕ) (files : Table Beat) (path : String) (beat : Beat)
      → IsDistinct (keys files)
      → select path files ≡ some beat
      → is_terminal_phase beat.phase ≡ true
      → IsAged now beat.last_activity_at
      → contains (gone_terminal now files) path ≡ true
  gone-aged now files path beat d found over old =
      let P : Entry → Type 0 = λ e. e.1 ≡ path → e.0 ≡ beat.last_activity_at in
      aged-expired now 0 path beat.last_activity_at (sorted config (terminal_records config files))
        old
        (All-sorted config P (terminal_records config files)
          (terminal_records-All P files (all_records-StampedAt files path beat d found)))
        (contains-sorted config (terminal_records config files) path
          ∙ terminal-listed files path beat found over)

  dropped-expired :
      (now index n : ℕ) (es : List Entry) (path : String)
      → config.max_terminal_records ≤ index + n
      → contains (drop config n (paths config es)) path ≡ true
      → contains (expired config now index es) path ≡ true
  unfolding expired contains
  dropped-expired now index zero [] path le h = absurd (cc)
  dropped-expired now index (suc n) [] path le h = absurd (cc)
  dropped-expired now index zero (e ∷ es) path le h = elim (Bool-cases (e.1 == path)) [
    | inl same ↦ ground (arith, same, le)
    | inr other ↦
        let rest : contains (expired config now (suc index) es) path ≡ true =
          dropped-expired now (suc index) zero es path (omega (arith, le))
            (ground (arith, h, other)) in
        ground (arith, rest)
  ]
  dropped-expired now index (suc n) (e ∷ es) path le h =
      let rest : contains (expired config now (suc index) es) path ≡ true =
        dropped-expired now (suc index) n es path (omega (arith, le)) h in
      ground (arith, rest)

  contains-terminal-unlink :
      (gone : List String) (files : Table Beat) (path : String)
      → contains (paths config (terminal_records config (unlink config gone files))) path
        ≡ (contains (paths config (terminal_records config files)) path && not (contains gone path))
  unfolding unlink terminal_records contains
  contains-terminal-unlink gone [] path = refl
  contains-terminal-unlink gone ((j, beat) ∷ files) path =
      let ih = contains-terminal-unlink gone files path in
      elim (Bool-cases (is_terminal_phase beat.phase)) [
        | inl over ↦ elim (Bool-cases (j == path)) [
          | inl same ↦ ground (arith, ih, over, same, ap (contains gone) ((eq_iff j path).0 same))
          | inr other ↦ ground (arith, ih, over, other)
        ]
        | inr open_still ↦ ground (arith, ih, open_still)
      ]

  terminal-IsDistinct :
      (files : Table Beat)
      → IsDistinct (keys files)
      → IsDistinct (paths config (terminal_records config files))
  unfolding terminal_records
  terminal-IsDistinct [] d = tt
  terminal-IsDistinct ((j, beat) ∷ files) d = elim (Bool-cases (is_terminal_phase beat.phase)) [
    | inr open_still ↦ rw open_still (terminal-IsDistinct files d.1)
    | inl over ↦ rw over (
      elim (Bool-cases (contains (paths config (terminal_records config files)) j)) [
        | inr outside ↦ outside
        | inl inside ↦ absurd (false≢true (sym d.0 ∙ terminal-within config files j inside))
      ],
      terminal-IsDistinct files d.1,
    )
  ]

  pub cleanup-terminal-le :
      (now : ℕ) (files : Table Beat)
      → IsDistinct (keys files)
      → length (paths config (terminal_records config (cleanup config now files)))
        ≤ config.max_terminal_records
  unfolding cleanup
  cleanup-terminal-le now files d =
      let es : List Entry = sorted config (terminal_records config files) in
      let first : Table Beat = unlink config (gone_terminal now files) files in
      let gone : List String =
        drop config config.max_records (paths config (sorted config (all_records config files))) in
      omega (
        arith,
        distinct-length-le (paths config (terminal_records config (unlink config gone first)))
            (take config.max_terminal_records (paths config es))
            (terminal-IsDistinct (unlink config gone first) (
              unlink-IsDistinct config gone first
                (unlink-IsDistinct config (gone_terminal now files) files d)))
            (λ path p.
              let still = sym (contains-terminal-unlink gone first path) ∙ p in
              let before = contains-terminal-unlink (gone_terminal now files) files path in
              let listed = contains-sorted config (terminal_records config files) path in
              let cut =
                contains-take-drop config config.max_terminal_records (paths config es) path in
              elim (Bool-cases
                (contains (drop config config.max_terminal_records (paths config es)) path)) [
                  | inr head ↦ ground (arith, still, before, listed, cut, head)
                  | inl out ↦
                      let dead =
                        dropped-expired now 0 config.max_terminal_records es path (omega arith)
                          out in
                      ground (arith, still, before, dead)
                ]),
        length-take-le config.max_terminal_records (paths config es),
      )
