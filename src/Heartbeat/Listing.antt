-- ===== src/Heartbeat/Listing.antt =====
-- manager/runner_heartbeat.py: the records that the clean-up lists, and those that it unlinks.
use fortifylab_archive.Heartbeat.Beats.{
  Beat, Config, Entry, all_records, drop, expired, insert_entry, paths, precedes, sorted,
  terminal_records, unlink,
}
use fortifylab_archive.Heartbeat.Phases.{is_terminal_phase}
use fortifylab_archive.Prelude.{
  Bool-cases, IsDistinct, List, String, [], ap, arith, contains, eq_iff, false, false≢true, inl,
  inr, none, not, refl, some, subst, suc, sym, take, true, zero, ℕ, ◌&&◌, ◌==◌, ◌||◌, ◌∙◌, ◌∷◌, ◌≡◌,
}
use fortifylab_archive.Prelude.Table.{Table, select}
use fortifylab_archive.Registry.Components.{keys}

module _ (config : Config) where
  pub contains-insert_entry :
      (e : Entry) (es : List Entry) (d : String)
      → contains (paths config (insert_entry config e es)) d
        ≡ (e.1 == d || contains (paths config es) d)
  unfolding insert_entry contains
  contains-insert_entry e [] d = refl
  contains-insert_entry e (f ∷ es) d = elim (Bool-cases (precedes config e f)) [
    | inl before ↦ rw before refl
    | inr behind ↦ rw behind (ground (arith, contains-insert_entry e es d))
  ]

  pub contains-sorted :
      (es : List Entry) (d : String)
      → contains (paths config (sorted config es)) d ≡ contains (paths config es) d
  unfolding sorted contains
  contains-sorted [] d = refl
  contains-sorted (e ∷ es) d =
      contains-insert_entry e (sorted config es) d ∙ ground (arith, contains-sorted es d)

  pub paths-all_records :
      (files : Table Beat) → paths config (all_records config files) ≡ keys files
  unfolding all_records
  paths-all_records [] = refl
  paths-all_records ((path, beat) ∷ files) = ap (◌∷◌ path) (paths-all_records files)

  pub contains-keys-unlink :
      (gone : List String) (files : Table Beat) (d : String)
      → contains (keys (unlink config gone files)) d
        ≡ (contains (keys files) d && not (contains gone d))
  unfolding unlink contains
  contains-keys-unlink gone [] d = refl
  contains-keys-unlink gone ((path, beat) ∷ files) d = elim (Bool-cases (path == d)) [
    | inl same ↦ ground (
      arith,
      contains-keys-unlink gone files d,
      same,
      ap (contains gone) ((eq_iff path d).0 same),
    )
    | inr other ↦ ground (arith, contains-keys-unlink gone files d, other)
  ]

  pub unlink-IsDistinct :
      (gone : List String) (files : Table Beat)
      → IsDistinct (keys files)
      → IsDistinct (keys (unlink config gone files))
  unfolding unlink
  unlink-IsDistinct gone [] h = tt
  unlink-IsDistinct gone ((path, beat) ∷ files) h = elim (Bool-cases (contains gone path)) [
    | inl out ↦ rw out (unlink-IsDistinct gone files h.1)
    | inr kept ↦ rw kept (
      ground (arith, contains-keys-unlink gone files path, h.0),
      unlink-IsDistinct gone files h.1,
    )
  ]

  pub contains-take-drop :
      (n : ℕ) (xs : List String) (d : String)
      → contains xs d ≡ (contains (take n xs) d || contains (drop config n xs) d)
  unfolding contains
  contains-take-drop zero xs d = refl
  contains-take-drop (suc n) [] d = refl
  contains-take-drop (suc n) (x ∷ xs) d = ground (arith, contains-take-drop n xs d)

  pub unlink-kept :
      (gone : List String) (files : Table Beat) (path : String) (beat : Beat)
      → contains gone path ≡ false
      → select path (unlink config gone files) ≡ select path files
  unfolding unlink select
  unlink-kept gone [] path beat h = refl
  unlink-kept gone ((j, other) ∷ files) path beat h = elim (Bool-cases (j == path)) [
    | inl same ↦ ground (
      arith,
      h,
      same,
      ap (contains gone) ((eq_iff j path).0 same),
      unlink-kept gone files path beat h,
    )
    | inr differs ↦ ground (arith, differs, unlink-kept gone files path beat h)
  ]

  pub unlink-gone :
      (gone : List String) (files : Table Beat) (path : String)
      → contains gone path ≡ true
      → select path (unlink config gone files) ≡ none
  unfolding unlink select
  unlink-gone gone [] path h = refl
  unlink-gone gone ((j, other) ∷ files) path h = elim (Bool-cases (j == path)) [
    | inl same ↦
        ground
          (arith, h, ap (contains gone) ((eq_iff j path).0 same), unlink-gone gone files path h)
    | inr differs ↦ ground (arith, differs, unlink-gone gone files path h)
  ]

  pub unlink-sub :
      (gone : List String) (files : Table Beat) (path : String) (beat : Beat)
      → select path (unlink config gone files) ≡ some beat
      → select path files ≡ some beat
  unlink-sub gone files path beat h = elim (Bool-cases (contains gone path)) [
    | inl out ↦ absurd (ground (arith, h, unlink-gone gone files path out))
    | inr kept ↦ sym (unlink-kept gone files path beat kept) ∙ h
  ]

  pub expired-within :
      (now index : ℕ) (es : List Entry) (d : String)
      → contains (expired config now index es) d ≡ true
      → contains (paths config es) d ≡ true
  unfolding expired contains
  expired-within now index [] d h = absurd (cc)
  expired-within now index (e ∷ es) d h = ground (arith, h, expired-within now (suc index) es d)

  pub terminal-within :
      (files : Table Beat) (d : String)
      → contains (paths config (terminal_records config files)) d ≡ true
      → contains (keys files) d ≡ true
  unfolding terminal_records contains
  terminal-within [] d h = absurd (cc)
  terminal-within ((path, beat) ∷ files) d h = ground (arith, h, terminal-within files d)

  -- A heartbeat that is still open is not among the terminal ones.
  pub open-outside :
      (files : Table Beat) (path : String) (beat : Beat)
      → IsDistinct (keys files)
      → select path files ≡ some beat
      → is_terminal_phase beat.phase ≡ false
      → contains (paths config (terminal_records config files)) path ≡ false
  unfolding terminal_records contains select
  open-outside [] path beat d found on = absurd (cc)
  open-outside ((j, other) ∷ files) path beat d found on = elim (Bool-cases (j == path)) [
    | inl same ↦
        let e : other ≡ beat = ground (arith, found, same) in
        let live : is_terminal_phase other.phase ≡ false =
          subst (λ b. is_terminal_phase b.phase ≡ false) (sym e) on in
        rw live (elim (Bool-cases (contains (paths config (terminal_records config files)) path)) [
          | inr outside ↦ outside
          | inl inside ↦ absurd (
              false≢true (
                sym (subst (λ k. contains (keys files) k ≡ false) ((eq_iff j path).0 same) d.0)
                ∙ terminal-within files path inside))
        ])
    | inr differs ↦
        let rest : contains (paths config (terminal_records config files)) path ≡ false =
          open-outside files path beat d.1 (ground (arith, found, differs)) on in
        elim (Bool-cases (is_terminal_phase other.phase)) [
          | inl over ↦ rw over (ground (arith, differs, rest))
          | inr live ↦ rw live rest
        ]
  ]
