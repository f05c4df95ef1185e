-- ===== src/Health/Blocking.antt =====
-- manager/health.py: which dependencies of a check block it.
use fortifylab_archive.Health.Checks.{CheckSpec}
use fortifylab_archive.Health.Evaluation.{Item, dependency_blocks, item_blocks}
use fortifylab_archive.Prelude.{
  All, Bool-cases, List, Option-cases, String, [], ap, arith, contains, eq_iff, inl, inr, keep,
  none, refl, some, true, ◌&&◌, ◌==◌, ◌↔◌, ◌∷◌, ◌≡◌, ◌⊎◌,
}
use fortifylab_archive.Prelude.Table.{Table, select}

-- The dependencies of a check that block it.
abbrev pub blocking : Table Item → CheckSpec → List String
blocking results check = keep (dependency_blocks results) check.dependencies

-- A dependency blocks if nothing is known of it yet, or what is known of it does.
abbrev pub Blocks : Table Item → String → Type 0
Blocks results needed =
    (select needed results ≡ none)
    ⊎ ((item : Item) × (select needed results ≡ some item) × (item_blocks needed item ≡ true))

dependency_blocks-Blocks :
    (results : Table Item) (needed : String)
    → (dependency_blocks results needed ≡ true) ↔ Blocks results needed
unfolding dependency_blocks
dependency_blocks-Blocks results needed = (
  (λ h. elim (Option-cases (select needed results)) [
    | inl absent ↦ inl absent
    | inr (item, found) ↦ inr (item, found, ground (arith, h, found))
  ]),
  (λ h. elim h [
    | inl absent ↦ ground (arith, absent)
    | inr (item, found, blocks) ↦ ground (arith, found, blocks)
  ]),
)

contains-blocking :
    (results : Table Item) (ds : List String) (d : String)
    → contains (keep (dependency_blocks results) ds) d
      ≡ (contains ds d && dependency_blocks results d)
unfolding keep contains
contains-blocking results [] d = refl
contains-blocking results (x ∷ ds) d =
    let ih = contains-blocking results ds d in
    elim (Bool-cases (x == d)) [
      | inl same ↦
          let e : dependency_blocks results x ≡ dependency_blocks results d =
            ap (dependency_blocks results) ((eq_iff x d).0 same) in
          ground (arith, ih, same, e)
      | inr other ↦ ground (arith, ih, other)
    ]

-- What blocks a check is exactly what it depends on and what blocks.
abbrev pub IsBlockedExactly : Table Item → CheckSpec → Type 0
IsBlockedExactly results c =
    (d : String)
    → (contains (blocking results c) d ≡ true)
      ↔ ((contains c.dependencies d ≡ true) × Blocks results d)

pub blocking-exact :
    (results : Table Item) (cs : List CheckSpec) → All (IsBlockedExactly results) cs
blocking-exact results [] = tt
blocking-exact results (c ∷ cs) = (
  (λ d.
      let split = contains-blocking results c.dependencies d in
      let blocks = dependency_blocks-Blocks results d in
      (
        (λ h. (ground (arith, h, split), blocks.0 (ground (arith, h, split)))),
        (λ (h, k). let yes = blocks.1 k in ground (arith, split, h, yes)),
      )),
  blocking-exact results cs,
)
