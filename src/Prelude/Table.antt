-- ===== src/Prelude/Table.antt =====
-- A table with a text primary key, in insertion order: SQLite rows and dictionaries.
use Prim.Native.String.{String}
use fortifylab_archive.Prelude.Tests.{if◌then◌else◌}
use mathlib.Core.List.{List, [], ◌++◌, ◌∷◌}
use mathlib.Core.Option.{Option, none, some}
use mathlib.Core.Path.{refl, ◌≡◌}
use native.Mathlib.Omega.{arith}
use text.Mathlib.Text.{◌==◌}
use text.Mathlib.TextEquality.{eq_iff}

abbrev pub Table {ℓ} : Type ℓ → Type ℓ
Table V = List (String × V)

module _ {ℓ} {V : Type ℓ} where
  unfoldable pub select : String → Table V → Option V
  select k [] = none
  select k ((j, v) ∷ t) = if j == k then some v else select k t

  -- d[k] = v: an existing key keeps its place.
  unfoldable pub put : String → V → Table V → Table V
  put k v [] = (k, v) ∷ []
  put k v ((j, w) ∷ t) = let rest = put k v t in if j == k then (j, v) ∷ t else (j, w) ∷ rest

  -- UPDATE … WHERE id = k: no row, no change.
  unfoldable pub update : String → V → Table V → Table V
  update k v [] = []
  update k v ((j, w) ∷ t) = let rest = update k v t in if j == k then (j, v) ∷ t else (j, w) ∷ rest

  abbrev pub replaced : Option V → V → Option V
  replaced none v = none
  replaced (some _) v = some v

  pub select-put :
      (k j : String) (v : V) (t : Table V)
      → select j (put k v t) ≡ (if k == j then some v else select j t)
  unfolding select put
  select-put k j v [] = refl
  select-put k j v ((i, w) ∷ t) =
      ground (arith, eq_iff k j, eq_iff i k, eq_iff i j, select-put k j v t)

  pub select-update :
      (k j : String) (v : V) (t : Table V)
      → select j (update k v t) ≡ (if k == j then replaced (select k t) v else select j t)
  unfolding select update
  select-update k j v [] = ground arith
  select-update k j v ((i, w) ∷ t) =
      ground (arith, eq_iff k j, eq_iff i k, eq_iff i j, select-update k j v t)

  pub select-append :
      (k j : String) (v : V) (t : Table V)
      → select k t ≡ none
      → select j (t ++ (k, v) ∷ []) ≡ (if k == j then some v else select j t)
  unfolding select
  select-append k j v [] h = refl
  select-append k j v ((i, w) ∷ t) h =
      ground (arith, eq_iff k j, eq_iff i k, eq_iff i j, select-append k j v t)

  pub select-put_self : (k j : String) (v : V) (t : Table V) → k ≡ j → select j (put k v t) ≡ some v
  select-put_self k j v t same = ground (arith, select-put k j v t, eq_iff k j)
