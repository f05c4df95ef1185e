-- ===== src/Prelude/Texts.antt =====
-- Texts: concatenation, and the order and sorting of Python, which compares code points.
use Prim.Native.Char.{code}
use Prim.Native.Nat.{Ordering, suc, zero, ℕ}
use Prim.Native.String.{String, compare, ◌++◌ as text_append}
use fortifylab_archive.Prelude.Lists.{contains}
use fortifylab_archive.Prelude.Tests.{eqb, if◌then◌else◌}
use mathlib.Core.Bool.{Bool, false, true, ◌&&◌, ◌||◌}
use mathlib.Core.List.{List, [], ◌∷◌}
use mathlib.Core.Path.{refl, ◌≡◌}
use native.Mathlib.Omega.{arith}
use text.Mathlib.Text.{◌==◌}

-- An f-string of two parts.
abbrev pub joined : String → String → String
joined a b = text_append a b

abbrev pub text_leb : String → String → Bool
text_leb a b = elim (compare a b) [ Ordering.gt ↦ false | _ ↦ true ]

unfoldable pub insert_text : String → List String → List String
insert_text x [] = x ∷ []
insert_text x (y ∷ ys) =
    let rest = insert_text x ys in if text_leb x y then x ∷ y ∷ ys else y ∷ rest

-- `sorted(xs)`
unfoldable pub sorted_texts : List String → List String
unfolding insert_text
sorted_texts [] = []
sorted_texts (x ∷ xs) = insert_text x (sorted_texts xs)

contains-insert_text :
    (x : String) (ys : List String) (z : String)
    → contains (insert_text x ys) z ≡ (x == z || contains ys z)
unfolding insert_text contains
contains-insert_text x [] z = refl
contains-insert_text x (y ∷ ys) z = ground (arith, contains-insert_text x ys z)

pub contains-sorted_texts :
    (xs : List String) (z : String) → contains (sorted_texts xs) z ≡ contains xs z
unfolding sorted_texts contains
contains-sorted_texts [] z = refl
contains-sorted_texts (x ∷ xs) z =
    ground (arith, contains-insert_text x (sorted_texts xs) z, contains-sorted_texts xs z)

-- `text[:n]`
unfoldable pub text_take : ℕ → String → String
text_take zero s = String.[]
text_take (suc n) String.[] = String.[]
text_take (suc n) (String.◌∷◌ c s) = String.◌∷◌ c (text_take n s)

-- `text.startswith(prefix)`
unfoldable pub text_starts : String → String → Bool
text_starts s String.[] = true
text_starts String.[] (String.◌∷◌ d p) = false
text_starts (String.◌∷◌ c s) (String.◌∷◌ d p) =
    let rest = text_starts s p in eqb (code c) (code d) && rest
