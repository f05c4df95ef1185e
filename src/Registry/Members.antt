-- ===== src/Registry/Members.antt =====
-- manager/component_registry.py: lists of distinct components, and the pigeonhole principle.
use fortifylab_archive.Prelude.{
  Bool, Bool-cases, IsDistinct, List, String, [], ap, arith, contains, contains-append, eq_iff,
  false, if◌then◌else◌, inl, inr, keep, length, member_snoc, refl, subst, true, ◌++◌, ◌+◌, ◌==◌,
  ◌||◌, ◌∷◌, ◌≡◌, ◌≢◌, ◌≤◌,
}
use fortifylab_archive.Prelude.Table.{Table, put}
use fortifylab_archive.Registry.Components.{Component, by_id, keys}
use fortifylab_archive.Registry.Reach.{Included}
use mathlib.Core.List.{reverse, reverse-cons}

abbrev pub Within : List String → List String → Type 0
Within xs ys = (x : String) → Included xs x → Included ys x

-- The list without the first occurrence of a text.
unfoldable pub without : String → List String → List String
without x [] = []
without x (y ∷ ys) = let rest = without x ys in if y == x then ys else y ∷ rest

length-without :
    (x : String) (ys : List String) → Included ys x → length (without x ys) + 1 ≡ length ys
unfolding without contains
length-without x [] h = absurd (cc)
length-without x (y ∷ ys) h = ground (arith, length-without x ys)

contains-without :
    (x z : String) (ys : List String) → x ≢ z → Included ys z → Included (without x ys) z
unfolding without contains
contains-without x z [] ne h = absurd (cc)
contains-without x z (y ∷ ys) ne h =
    ground (arith, eq_iff y x, eq_iff y z, contains-without x z ys ne)

pub contains_ne : (xs : List String) (x y : String) → contains xs x ≡ false → Included xs y → x ≢ y
contains_ne xs x y h p e = ground (arith, ap (contains xs) e)

Within-without :
    (x : String) (xs ys : List String)
    → contains xs x ≡ false
    → Within (x ∷ xs) ys
    → Within xs (without x ys)
unfolding contains
Within-without x xs ys h w y p =
    contains-without x y ys (contains_ne xs x y h p) (w y (ground arith))

-- Distinct members of a list are at most as many as the list is long.
pub distinct-length-le :
    (xs ys : List String) → IsDistinct xs → Within xs ys → length xs ≤ length ys
unfolding contains
distinct-length-le [] ys d w = omega arith
distinct-length-le (x ∷ xs) ys d w = omega (
  arith,
  length-without x ys (w x (ground (arith, eq_iff x x))),
  distinct-length-le xs (without x ys) d.1 (Within-without x xs ys d.0 w),
)

-- If they are as many as the list is long, they are all of it.
pub distinct-covers :
    (xs ys : List String) → IsDistinct xs → Within xs ys → length xs ≡ length ys → Within ys xs
distinct-covers xs ys d w e y p = elim (Bool-cases (contains xs y)) [
  | inl inside ↦ inside
  | inr outside ↦ absurd (
      omega (
        arith,
        length-without y ys p,
        distinct-length-le xs (without y ys) d
            (λ x q. contains-without y x ys (contains_ne xs y x outside q) (w x q)),
      ))
]

pub IsDistinct-snoc :
    (xs : List String) (x : String)
    → IsDistinct xs
    → contains xs x ≡ false
    → IsDistinct (xs ++ x ∷ [])
unfolding contains
IsDistinct-snoc [] x d h = (refl, tt)
IsDistinct-snoc (y ∷ xs) x d h = (
  ground (arith, contains-append xs (x ∷ []) y, eq_iff x y, eq_iff y x),
  IsDistinct-snoc xs x d.1 (ground arith),
)

pub IsDistinct-before :
    (xs : List String) (d : String) (ys : List String)
    → IsDistinct (xs ++ d ∷ ys)
    → contains xs d ≡ false
unfolding contains
IsDistinct-before [] d ys h = refl
IsDistinct-before (x ∷ xs) d ys h =
    ground
      (arith, IsDistinct-before xs d ys h.1, contains-append xs (d ∷ ys) x, eq_iff d x, eq_iff x d)

pub IsDistinct-prefix : (xs ys : List String) → IsDistinct (xs ++ ys) → IsDistinct xs
IsDistinct-prefix [] ys h = tt
IsDistinct-prefix (x ∷ xs) ys h =
    (ground (arith, contains-append xs ys x), IsDistinct-prefix xs ys h.1)

pub Within-prefix : (xs ys zs : List String) → Within (xs ++ ys) zs → Within xs zs
Within-prefix xs ys zs h x p = h x (ground (arith, contains-append xs ys x))

-- A kept element satisfies the test and was in the list, and conversely.
pub Included-keep :
    (p : String → Bool) (xs : List String) (x : String)
    → Included (keep p xs) x
    → (p x ≡ true) × Included xs x
unfolding keep contains
Included-keep p [] x h = absurd (cc)
Included-keep p (y ∷ xs) x h = elim (Bool-cases (y == x)) [
  | inl same ↦ let e : y ≡ x = (eq_iff y x).0 same in ground (arith, Included-keep p xs x, ap p e)
  | inr other ↦ ground (arith, Included-keep p xs x)
]

pub keep-Included :
    (p : String → Bool) (xs : List String) (x : String)
    → p x ≡ true
    → Included xs x
    → Included (keep p xs) x
unfolding keep contains
keep-Included p [] x e h = h
keep-Included p (y ∷ xs) x e h = elim (Bool-cases (y == x)) [
  | inl same ↦ let s : y ≡ x = (eq_iff y x).0 same in ground (arith, keep-Included p xs x e, ap p s)
  | inr other ↦ ground (arith, keep-Included p xs x e)
]

pub IsDistinct-keep :
    (p : String → Bool) (xs : List String) → IsDistinct xs → IsDistinct (keep p xs)
unfolding keep
IsDistinct-keep p [] d = tt
IsDistinct-keep p (x ∷ xs) d = ground (arith, IsDistinct-keep p xs d.1, Included-keep p xs x)

contains-keys-put :
    {V : Type 0} (k x : String) (v : V) (t : Table V)
    → contains (keys (put k v t)) x ≡ (contains (keys t) x || k == x)
unfolding put contains
contains-keys-put k x v [] = ground arith
contains-keys-put k x v ((j, w) ∷ t) =
    ground (arith, contains-keys-put k x v t, eq_iff j k, eq_iff j x, eq_iff k x)

IsDistinct-keys-put :
    {V : Type 0} (k : String) (v : V) (t : Table V)
    → IsDistinct (keys t)
    → IsDistinct (keys (put k v t))
unfolding put contains
IsDistinct-keys-put k v [] d = (refl, tt)
IsDistinct-keys-put k v ((j, w) ∷ t) d = elim (Bool-cases (j == k)) [
  | inl same ↦ rw same d
  | inr other ↦ rw other (
    ground (arith, contains-keys-put k j v t, eq_iff k j, eq_iff j k, d.0, other),
    IsDistinct-keys-put k v t d.1,
  )
]

-- The registry's dictionary has distinct keys, whatever components it is built from.
pub IsDistinct-keys-by_id :
    (t : Table Component) (cs : List Component)
    → IsDistinct (keys t)
    → IsDistinct (keys (by_id t cs))
unfolding by_id
IsDistinct-keys-by_id t [] d = d
IsDistinct-keys-by_id t (c ∷ cs) d =
    IsDistinct-keys-by_id (put c.id c t) cs (IsDistinct-keys-put c.id c t d)

pub IsDistinct-disjoint :
    (xs ys : List String) (z : String)
    → IsDistinct (xs ++ ys)
    → Included xs z
    → contains ys z ≡ false
unfolding contains
IsDistinct-disjoint [] ys z d h = absurd (cc)
IsDistinct-disjoint (x ∷ xs) ys z d h = elim (Bool-cases (x == z)) [
  | inl same ↦
      let e : x ≡ z = (eq_iff x z).0 same in
      ground (arith, contains-append xs ys x, d.0, ap (contains ys) e)
  | inr other ↦ IsDistinct-disjoint xs ys z d.1 (ground arith)
]

pub Included-reverse : (xs : List String) (z : String) → Included (reverse xs) z → Included xs z
unfolding contains
Included-reverse [] z h = h
Included-reverse (x ∷ xs) z h =
    elim (member_snoc (reverse xs) x z (subst (λ l. Included l z) (reverse-cons x xs) h)) [
      | inl old ↦ ground (arith, Included-reverse xs z old)
      | inr new ↦ ground (arith, eq_iff x z)
    ]
