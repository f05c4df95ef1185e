-- ===== src/Prelude/Lists.antt =====
-- Lists over the native numbers, membership tests on texts, and a predicate on every element.
use Prim.Native.Nat.{suc, zero, ℕ, ◌+◌, ◌≤◌}
use Prim.Native.String.{String}
use fortifylab_archive.Prelude.Tests.{Bool-cases, if◌then◌else◌}
use mathlib.Core.Bool.{Bool, false, not, true, ◌&&◌, ◌||◌}
use mathlib.Core.List.{List, [], ◌++◌, ◌∷◌}
use mathlib.Core.Logic.{inl, inr, ◌↔◌, ◌⊎◌}
use mathlib.Core.Path.{ap, refl, ◌≡◌}
use native.Mathlib.Omega.{arith}
use text.Mathlib.Text.{◌==◌}
use text.Mathlib.TextEquality.{eq_iff}

module _ {ℓ} {A : Type ℓ} where
  abbrev pub length : List A → ℕ
  length [] = 0
  length (_ ∷ xs) = suc (length xs)

  abbrev pub take : ℕ → List A → List A
  take zero xs = []
  take (suc n) [] = []
  take (suc n) (x ∷ xs) = x ∷ take n xs

  pub length-take-le : (n : ℕ) (xs : List A) → length (take n xs) ≤ n
  length-take-le zero xs = omega arith
  length-take-le (suc n) [] = omega arith
  length-take-le (suc n) (x ∷ xs) = omega (arith, length-take-le n xs)

  pub length-append : (xs ys : List A) → length (xs ++ ys) ≡ length xs + length ys
  length-append [] ys = omega arith
  length-append (_ ∷ xs) ys = omega (arith, length-append xs ys)

  -- `bool(xs)`
  abbrev pub nonempty : List A → Bool
  nonempty [] = false
  nonempty (_ ∷ _) = true

  -- A generator expression with a condition.
  unfoldable pub keep : (A → Bool) → List A → List A
  keep p [] = []
  keep p (x ∷ xs) = let rest = keep p xs in if p x then x ∷ rest else rest

  unfoldable pub any : (A → Bool) → List A → Bool
  any p [] = false
  any p (x ∷ xs) = p x || any p xs

  unfoldable pub all : (A → Bool) → List A → Bool
  all p [] = true
  all p (x ∷ xs) = p x && all p xs

  pub length-keep-le : (p : A → Bool) (xs : List A) → length (keep p xs) ≤ length xs
  unfolding keep
  length-keep-le p [] = omega arith
  length-keep-le p (x ∷ xs) = ground (arith, length-keep-le p xs)

-- No case, at every level.
pub data Never {κ} : Type κ where

module _ {ℓ κ} {A : Type ℓ} where
  abbrev pub All : (A → Type κ) → List A → Type κ
  All P [] = Unit
  All P (x ∷ xs) = P x × All P xs

  -- At least one element; the witness is kept.
  abbrev pub Any : (A → Type κ) → List A → Type κ
  Any P [] = Never
  Any P (x ∷ xs) = P x ⊎ Any P xs

  pub All-append : (P : A → Type κ) (xs ys : List A) → All P xs → All P ys → All P (xs ++ ys)
  All-append P [] ys hx hy = hy
  All-append P (x ∷ xs) ys hx hy = (hx.0, All-append P xs ys hx.1 hy)

-- `x in xs`, for a text and a list, a set or the keys of a dictionary.
unfoldable pub contains : List String → String → Bool
contains [] x = false
contains (y ∷ ys) x = y == x || contains ys x

pub contains-append :
    (xs ys : List String) (x : String) → contains (xs ++ ys) x ≡ (contains xs x || contains ys x)
unfolding contains
contains-append [] ys x = refl
contains-append (y ∷ xs) ys x = ground (arith, contains-append xs ys x)

-- `tuple(dict.fromkeys(xs))`: the first occurrence of each text, in order.
unfoldable pub distinct_from : List String → List String → List String
distinct_from seen [] = []
distinct_from seen (x ∷ xs) =
    let old = distinct_from seen xs in
    let new = x ∷ distinct_from (x ∷ seen) xs in if contains seen x then old else new

unfoldable pub distinct : List String → List String
unfolding distinct_from contains
distinct xs = distinct_from [] xs

abbrev pub IsDistinct : List String → Type 0
IsDistinct [] = Unit
IsDistinct (x ∷ xs) = (contains xs x ≡ false) × IsDistinct xs

-- A member of a list with one more element at its end.
pub member_snoc :
    (xs : List String) (c x : String)
    → contains (xs ++ c ∷ []) x ≡ true
    → (contains xs x ≡ true) ⊎ (c ≡ x)
unfolding contains
member_snoc xs c x h = ground (arith, contains-append xs (c ∷ []) x, eq_iff c x)

pub List-cases {ℓ} : {A : Type ℓ} (l : List A) → (l ≡ []) ⊎ ((x : A) × (xs : List A) × (l ≡ x ∷ xs))
List-cases [] = inl refl
List-cases (x ∷ xs) = inr (x, xs, refl)

pub contains-distinct_from :
    (seen xs : List String) (x : String)
    → contains (distinct_from seen xs) x ≡ (contains xs x && not (contains seen x))
unfolding distinct_from contains
contains-distinct_from seen [] x = refl
contains-distinct_from seen (y ∷ xs) x = elim (Bool-cases (y == x)) [
  | inl same ↦
      let e : y ≡ x = (eq_iff y x).0 same in
      ground (
        arith,
        contains-distinct_from seen xs x,
        contains-distinct_from (y ∷ seen) xs x,
        ap (contains seen) e,
        same,
      )
  | inr other ↦
      ground
        (arith, contains-distinct_from seen xs x, contains-distinct_from (y ∷ seen) xs x, other)
]

-- `dict.fromkeys` keeps the members, and each of them once.
pub contains-distinct : (xs : List String) (x : String) → contains (distinct xs) x ≡ contains xs x
unfolding distinct
contains-distinct xs x = ground (arith, contains-distinct_from [] xs x)

distinct_from-IsDistinct : (seen xs : List String) → IsDistinct (distinct_from seen xs)
unfolding distinct_from
distinct_from-IsDistinct seen [] = tt
distinct_from-IsDistinct seen (x ∷ xs) = elim (Bool-cases (contains seen x)) [
  | inl old ↦ rw old (distinct_from-IsDistinct seen xs)
  | inr new ↦ rw new (
    unfold contains in ground (arith, contains-distinct_from (x ∷ seen) xs x, eq_iff x x),
    distinct_from-IsDistinct (x ∷ seen) xs,
  )
]

pub distinct-IsDistinct : (xs : List String) → IsDistinct (distinct xs)
unfolding distinct
distinct-IsDistinct xs = distinct_from-IsDistinct [] xs

pub member_cons :
    (y : String) (xs : List String) (x : String) → contains xs x ≡ true → contains (y ∷ xs) x ≡ true
unfolding contains
member_cons y xs x h = ground arith

pub any-Any {ℓ} :
    {A : Type ℓ} (p : A → Bool) (xs : List A) → (any p xs ≡ true) ↔ Any (λ x. p x ≡ true) xs
unfolding any
any-Any p [] = (λ h. absurd (cc), λ h. elim h [ ])
any-Any p (x ∷ xs) = (
  λ h. elim (Bool-cases (p x)) [
    | inl here ↦ inl here
    | inr there ↦ inr ((any-Any p xs).0 (ground arith))
  ],
  λ h. elim h [ inl here ↦ ground arith | inr there ↦ ground (arith, (any-Any p xs).1 there) ],
)

pub Any-mono {ℓ κ ν} :
    {A : Type ℓ} (P : A → Type κ) (Q : A → Type ν) (xs : List A)
    → ((x : A) → P x → Q x)
    → Any P xs
    → Any Q xs
Any-mono P Q [] f h = elim h [ ]
Any-mono P Q (x ∷ xs) f (inl p) = inl (f x p)
Any-mono P Q (x ∷ xs) f (inr r) = inr (Any-mono P Q xs f r)

pub Any-append_left {ℓ κ} :
    {A : Type ℓ} (P : A → Type κ) (xs ys : List A) → Any P xs → Any P (xs ++ ys)
Any-append_left P [] ys h = elim h [ ]
Any-append_left P (x ∷ xs) ys (inl p) = inl p
Any-append_left P (x ∷ xs) ys (inr r) = inr (Any-append_left P xs ys r)

pub Any-append_right {ℓ κ} :
    {A : Type ℓ} (P : A → Type κ) (xs ys : List A) → Any P ys → Any P (xs ++ ys)
Any-append_right P [] ys h = h
Any-append_right P (x ∷ xs) ys h = inr (Any-append_right P xs ys h)

pub All-mono {ℓ κ ν} :
    {A : Type ℓ} (P : A → Type κ) (Q : A → Type ν) (xs : List A)
    → ((x : A) → P x → Q x)
    → All P xs
    → All Q xs
All-mono P Q [] f h = tt
All-mono P Q (x ∷ xs) f h = (f x h.0, All-mono P Q xs f h.1)
