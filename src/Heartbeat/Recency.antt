-- ===== src/Heartbeat/Recency.antt =====
-- manager/runner_heartbeat.py: the order in which the clean-up lists the records, newest first.
use fortifylab_archive.Heartbeat.Beats.{
  Beat, Config, Entry, all_records, drop, insert_entry, paths, precedes, sorted,
}
use fortifylab_archive.Prelude.{
  All, Bool-cases, List, String, [], ap, arith, contains, eq_iff, false, if◌then◌else◌, inl, inr,
  leb, refl, suc, true, zero, ℕ, ◌+◌, ◌<◌, ◌==◌, ◌∙◌, ◌∷◌, ◌≡◌, ◌≤◌,
}
use fortifylab_archive.Prelude.Table.{Table}

-- How many heartbeats are at least as recent as the stamp.
abbrev pub as_recent : ℕ → Table Beat → ℕ
as_recent at [] = 0
as_recent at ((_, beat) ∷ files) =
    (if leb at beat.last_activity_at then 1 else 0) + as_recent at files

abbrev entries_since : ℕ → List Entry → ℕ
entries_since at [] = 0
entries_since at (e ∷ es) = (if leb at e.0 then 1 else 0) + entries_since at es

abbrev Descending : List Entry → Type 0
Descending [] = Unit
Descending (e ∷ es) = All (λ f. f.0 ≤ e.0) es × Descending es

-- The entries of a path have the stamp.
abbrev pub StampedAt : String → ℕ → List Entry → Type 0
StampedAt path at es = All (λ e. e.1 ≡ path → e.0 ≡ at) es

module _ (config : Config) where
  precedes_order :
      (e f : Entry)
      → (precedes config e f ≡ true → f.0 ≤ e.0) × (precedes config e f ≡ false → e.0 ≤ f.0)
  precedes_order (at, path) (at', path') = ((λ h. ground (arith, h)), (λ h. ground (arith, h)))

  All-insert_entry :
      (P : Entry → Type 0) (e : Entry) (es : List Entry)
      → P e
      → All P es
      → All P (insert_entry config e es)
  unfolding insert_entry
  All-insert_entry P e [] p h = (p, tt)
  All-insert_entry P e (f ∷ es) p h = elim (Bool-cases (precedes config e f)) [
    | inl before ↦ rw before (p, h)
    | inr behind ↦ rw behind (h.0, All-insert_entry P e es p h.1)
  ]

  pub All-sorted : (P : Entry → Type 0) (es : List Entry) → All P es → All P (sorted config es)
  unfolding sorted
  All-sorted P [] h = tt
  All-sorted P (e ∷ es) h = All-insert_entry P e (sorted config es) h.0 (All-sorted P es h.1)

  lower : (n m : ℕ) (es : List Entry) → n ≤ m → All (λ f. f.0 ≤ n) es → All (λ f. f.0 ≤ m) es
  lower n m [] h k = tt
  lower n m (e ∷ es) h k = (omega (arith, h, k.0), lower n m es h k.1)

  insert_entry-Descending :
      (e : Entry) (es : List Entry) → Descending es → Descending (insert_entry config e es)
  unfolding insert_entry
  insert_entry-Descending e [] h = (tt, tt)
  insert_entry-Descending e (f ∷ es) h = elim (Bool-cases (precedes config e f)) [
    | inl before ↦
        let le : f.0 ≤ e.0 = (precedes_order e f).0 before in
        rw before ((le, lower f.0 e.0 es le h.0), h)
    | inr behind ↦ rw behind (
      All-insert_entry (λ g. g.0 ≤ f.0) e es ((precedes_order e f).1 behind) h.0,
      insert_entry-Descending e es h.1,
    )
  ]

  sorted-Descending : (es : List Entry) → Descending (sorted config es)
  unfolding sorted
  sorted-Descending [] = tt
  sorted-Descending (e ∷ es) = insert_entry-Descending e (sorted config es) (sorted-Descending es)

  entries_since-insert_entry :
      (at : ℕ) (e : Entry) (es : List Entry)
      → entries_since at (insert_entry config e es) ≡ entries_since at (e ∷ es)
  unfolding insert_entry
  entries_since-insert_entry at e [] = refl
  entries_since-insert_entry at e (f ∷ es) = elim (Bool-cases (precedes config e f)) [
    | inl before ↦ rw before refl
    | inr behind ↦ rw behind (omega (arith, entries_since-insert_entry at e es))
  ]

  entries_since-sorted :
      (at : ℕ) (es : List Entry) → entries_since at (sorted config es) ≡ entries_since at es
  unfolding sorted
  entries_since-sorted at [] = refl
  entries_since-sorted at (e ∷ es) =
      entries_since-insert_entry at e (sorted config es)
      ∙ ap (λ n. (if leb at e.0 then 1 else 0) + n) (entries_since-sorted at es)

  entries_since-all_records :
      (at : ℕ) (files : Table Beat)
      → entries_since at (all_records config files) ≡ as_recent at files
  unfolding all_records
  entries_since-all_records at [] = refl
  entries_since-all_records at ((path, beat) ∷ files) =
      ap (λ n. (if leb at beat.last_activity_at then 1 else 0) + n)
        (entries_since-all_records at files)

  stamp-le :
      (path : String) (at most : ℕ) (es : List Entry)
      → StampedAt path at es
      → All (λ f. f.0 ≤ most) es
      → contains (paths config es) path ≡ true
      → at ≤ most
  unfolding contains
  stamp-le path at most [] s h k = absurd (cc)
  stamp-le path at most (e ∷ es) s h k = elim (Bool-cases (e.1 == path)) [
    | inl same ↦ omega (arith, s.0 ((eq_iff e.1 path).0 same), h.0)
    | inr other ↦ stamp-le path at most es s.1 h.1 (ground (arith, k, other))
  ]

  contains-drop :
      (n : ℕ) (xs : List String) (path : String)
      → contains (drop config n xs) path ≡ true
      → contains xs path ≡ true
  unfolding contains
  contains-drop zero xs path h = h
  contains-drop (suc n) [] path h = h
  contains-drop (suc n) (x ∷ xs) path h = ground (arith, contains-drop n xs path h)

  -- An entry behind the first ones has all of them, and itself, at least as recent as it is.
  dropped-since :
      (n : ℕ) (path : String) (at : ℕ) (es : List Entry)
      → Descending es
      → StampedAt path at es
      → contains (drop config n (paths config es)) path ≡ true
      → n < entries_since at es
  unfolding contains
  dropped-since zero path at [] d s h = absurd (cc)
  dropped-since (suc n) path at [] d s h = absurd (cc)
  dropped-since zero path at (e ∷ es) d s h = elim (Bool-cases (e.1 == path)) [
    | inl same ↦ let here : e.0 ≡ at = s.0 ((eq_iff e.1 path).0 same) in ground (arith, here)
    | inr other ↦
        let later : 0 < entries_since at es =
          dropped-since zero path at es d.1 s.1 (ground (arith, h, other)) in
        omega (arith, later)
  ]
  dropped-since (suc n) path at (e ∷ es) d s h =
      let above : at ≤ e.0 =
        stamp-le path at e.0 es s.1 d.0 (contains-drop n (paths config es) path h) in
      let later : n < entries_since at es = dropped-since n path at es d.1 s.1 h in
      ground (arith, above, later)

  pub dropped-recent :
      (path : String) (at : ℕ) (files : Table Beat)
      → StampedAt path at (all_records config files)
      → contains
          (drop config config.max_records (paths config (sorted config (all_records config files))))
          path
        ≡ true
      → config.max_records < as_recent at files
  dropped-recent path at files s h =
      let more =
        dropped-since config.max_records path at (sorted config (all_records config files))
          (sorted-Descending (all_records config files))
          (All-sorted (λ e. e.1 ≡ path → e.0 ≡ at) (all_records config files) s) h in
      omega (
        arith,
        more,
        entries_since-sorted at (all_records config files),
        entries_since-all_records at files,
      )
