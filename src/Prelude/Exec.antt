-- ===== src/Prelude/Exec.antt =====
-- Methods that change an object and may raise. What was written before a raise stays written, so
-- the state comes back beside the error too.
use mathlib.Core.List.{List, [], ◌∷◌}
use mathlib.Core.Logic.{inl, inr, ◌⊎◌}
use mathlib.Core.Option.{Option, none, some}
use mathlib.Core.Path.{refl, subst, ◌≡◌}

pub data Outcome {ℓ} (E A : Type ℓ) : Type ℓ where
  ok : A → Outcome E A
  raised : E → Outcome E A

-- A pure function that may raise.
abbrev pub or_error {ℓ} : {E A : Type ℓ} → Option A → E → Outcome E A
or_error none e = raised e
or_error (some a) e = ok a

abbrev pub after {ℓ} : {E A B : Type ℓ} → Outcome E A → (A → Outcome E B) → Outcome E B
after (ok a) f = f a
after (raised e) f = raised e

-- A loop whose body may raise.
unfoldable pub each {ℓ} : {E A S : Type ℓ} → (A → S → Outcome E S) → List A → S → Outcome E S
each body [] s = ok s
each body (x ∷ xs) s = after (body x s) (each body xs)

-- What holds of the value that a run is known to return holds of the value returned.
pub ok_subst {ℓ κ} :
    {E A : Type ℓ} (P : A → Type κ) {a b : A} → ◌≡◌ {A = Outcome E A} (ok a) (ok b) → P a → P b
ok_subst P {a} {b} h p = let e : a ≡ b = cc in subst P e p

pub after-eq-ok {ℓ} :
    {E A B : Type ℓ} (r : Outcome E A) (f : A → Outcome E B) {b : B}
    → after r f ≡ ok b
    → (a : A) × (r ≡ ok a) × (f a ≡ ok b)
after-eq-ok (ok a) f h = (a, refl, h)
after-eq-ok (raised e) f h = absurd (cc)

pub Outcome-cases {ℓ} :
    {E A : Type ℓ} (r : Outcome E A) → ((a : A) × (r ≡ ok a)) ⊎ ((e : E) × (r ≡ raised e))
Outcome-cases (ok a) = inl (a, refl)
Outcome-cases (raised e) = inr (e, refl)

abbrev pub Exec {ℓ} : Type ℓ → Type ℓ → Type ℓ → Type ℓ
Exec S E A = S → Outcome E A × S

module _ {ℓ} {S E A : Type ℓ} where
  abbrev pub pure : A → Exec S E A
  pure a s = (ok a, s)

  abbrev pub raise : E → Exec S E A
  raise e s = (raised e, s)

  -- A value that a look-up may miss.
  abbrev pub expect : Option A → E → Exec S E A
  expect none e s = (raised e, s)
  expect (some a) e s = (ok a, s)

module _ {ℓ} {S E A B : Type ℓ} where
  abbrev pub resume : Outcome E A → (A → Exec S E B) → Exec S E B
  resume (ok a) f s = f a s
  resume (raised e) f s = (raised e, s)

  infixl 5 ◌>>=◌ ◌>>◌
  abbrev pub ◌>>=◌ : Exec S E A → (A → Exec S E B) → Exec S E B
  ◌>>=◌ m f s = let (r, s') = m s in resume r f s'

  abbrev pub ◌>>◌ : Exec S E A → Exec S E B → Exec S E B
  ◌>>◌ m n s = let (r, s') = m s in resume r (λ _. n) s'

  -- Inversion of a block that returned.
  pub resume-eq-ok :
      (r : Outcome E A) (f : A → Exec S E B) (s : S) {b : B} {t : S}
      → resume r f s ≡ (ok b, t)
      → (a : A) × (r ≡ ok a) × (f a s ≡ (ok b, t))
  resume-eq-ok (ok a) f s h = (a, refl, h)
  resume-eq-ok (raised e) f s h = absurd (cc)

-- A rule for a block: its first statement keeps `P`, and what follows ends in `Q`.
module _ {ℓ κ} {S E A B : Type ℓ} (P : S → Type κ) (Q : Outcome E B → S → Type κ) where
  pub resume_rule :
      (r : Outcome E A) (f : A → Exec S E B) (s : S)
      → P s
      → ((a : A) (t : S) → P t → Q (f a t).0 (f a t).1)
      → ((e : E) (t : S) → P t → Q (raised e) t)
      → Q (resume r f s).0 (resume r f s).1
  resume_rule (ok a) f s p after_ok after_raise = after_ok a s p
  resume_rule (raised e) f s p after_ok after_raise = after_raise e s p

-- `m` keeps `P`, whether it returns or raises.
abbrev pub Keeps {ℓ κ} : {S E A : Type ℓ} → (S → Type κ) → Exec S E A → Type (ℓ ⊔ κ)
Keeps {S = S} P m = (s : S) → P s → P (m s).1

pub Keeps-bind {ℓ κ} :
    {S E A B : Type ℓ} (P : S → Type κ) (m : Exec S E A) (f : A → Exec S E B)
    → Keeps P m
    → ((a : A) → Keeps P (f a))
    → Keeps P (m >>= f)
Keeps-bind P m f km kf s p =
    resume_rule P (λ _ t. P t) (m s).0 f (m s).1 (km s p) (λ a t q. kf a t q) (λ e t q. q)

pub Keeps-then {ℓ κ} :
    {S E A B : Type ℓ} (P : S → Type κ) (m : Exec S E A) (n : Exec S E B)
    → Keeps P m
    → Keeps P n
    → Keeps P (m >> n)
Keeps-then P m n km kn s p =
    resume_rule P (λ _ t. P t) (m s).0 (λ _. n) (m s).1 (km s p) (λ a t q. kn t q) (λ e t q. q)

module _ {ℓ κ} {S E B : Type ℓ} (P : S → Type κ) (Q : Outcome E B → S → Type κ) where
  -- The rule for a statement whose value is not used, as long as a raise after `P` is allowed.
  pub then_rule :
      {A : Type ℓ} (m : Exec S E A) (n : Exec S E B)
      → ((e : E) (t : S) → P t → Q (raised e) t)
      → Keeps P m
      → ((t : S) → P t → Q (n t).0 (n t).1)
      → (s : S) → P s
      → Q ((m >> n) s).0 ((m >> n) s).1
  then_rule m n stop km rest s p =
      resume_rule P Q (m s).0 (λ _. n) (m s).1 (km s p) (λ a t q. rest t q) stop

-- The rule for a block whose first statement ends in one state or another.
module _ {ℓ κ} {S E A B : Type ℓ} (R : Outcome E A → S → Type κ)
    (Q : Outcome E B → S → Type κ) where
  pub split_rule :
      (r : Outcome E A) (f : A → Exec S E B) (s : S)
      → R r s
      → ((a : A) (t : S) → R (ok a) t → Q (f a t).0 (f a t).1)
      → ((e : E) (t : S) → R (raised e) t → Q (raised e) t)
      → Q (resume r f s).0 (resume r f s).1
  split_rule (ok a) f s h after_ok after_raise = after_ok a s h
  split_rule (raised e) f s h after_ok after_raise = after_raise e s h
