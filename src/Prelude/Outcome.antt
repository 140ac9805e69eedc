-- ===== src/Prelude/Outcome.antt =====
-- How a Go call ends: with a value, with a returned error, or in a run-time panic.
use mathlib.Core.Bool.{Bool, true, false}
use mathlib.Core.Option.{Option, none, some}
use mathlib.Core.Path.{◌≡◌, refl}
use mathlib.Core.Logic.{◌⊎◌, inl, inr}

pub data Run {ℓ κ} (E : Type ℓ) (A : Type κ) : Type (ℓ ⊔ κ) where
  ok : A → Run E A
  err : E → Run E A
  panic : Run E A

infixl 5 ◌>>=◌ ◌>>◌
abbrev pub ◌>>=◌ {ℓ κ μ} :
    {E : Type ℓ} {A : Type κ} {B : Type μ} → Run E A → (A → Run E B) → Run E B
ok a >>= f = f a
err e >>= f = err e
panic >>= f = panic

abbrev pub ◌>>◌ {ℓ μ} : {E : Type ℓ} {B : Type μ} → Run E (Unit {0}) → Run E B → Run E B
m >> k = m >>= λ _. k

-- `if !b { return nil, e }`
abbrev pub guard {ℓ} : {E : Type ℓ} → Bool → E → Run E (Unit {0})
guard true e = ok tt
guard false e = err e

-- A nil pointer that is dereferenced, an index out of range.
abbrev pub deref {ℓ κ} : {E : Type ℓ} {A : Type κ} → Option A → Run E A
deref none = panic
deref (some a) = ok a

-- A nil pointer that the code checks for.
abbrev pub or_err {ℓ κ} : {E : Type ℓ} {A : Type κ} → Option A → E → Run E A
or_err none e = err e
or_err (some a) e = ok a

-- The error of a callee, wrapped by `fmt.Errorf("…: %w", err)`.
abbrev pub wrap {ℓ κ μ} : {E : Type ℓ} {F : Type κ} {A : Type μ} → (E → F) → Run E A → Run F A
wrap f (ok a) = ok a
wrap f (err e) = err (f e)
wrap f panic = panic

-- To split on a computed outcome and keep the equation.
pub Run-cases {ℓ κ} :
    {E : Type ℓ} {A : Type κ} (r : Run E A)
    → ((a : A) × (r ≡ ok a)) ⊎ (((e : E) × (r ≡ err e)) ⊎ (r ≡ panic))
Run-cases (ok a) = inl (a, refl)
Run-cases (err e) = inr (inl (e, refl))
Run-cases panic = inr (inr refl)

-- What a successful call says of its parts.
pub bind_ok {ℓ κ μ} :
    {E : Type ℓ} {A : Type κ} {B : Type μ} (r : Run E A) (f : A → Run E B) (b : B)
    → (r >>= f) ≡ ok b
    → (a : A) × (r ≡ ok a) × (f a ≡ ok b)
bind_ok (ok a) f b h = (a, refl, h)
bind_ok (err e) f b h = absurd (cc h)
bind_ok panic f b h = absurd (cc h)

pub guard_ok {ℓ} : {E : Type ℓ} (b : Bool) (e : E) (u : Unit {0}) → guard b e ≡ ok u → b ≡ true
guard_ok true e u h = refl
guard_ok false e u h = absurd (cc h)

pub deref_ok {ℓ κ} :
    {E : Type ℓ} {A : Type κ} (o : Option A) (a : A) → deref {E = E} o ≡ ok a → o ≡ some a
deref_ok none a h = absurd (cc h)
deref_ok (some b) a h = cc h

pub wrap_ok {ℓ κ μ} :
    {E : Type ℓ} {F : Type κ} {A : Type μ} (f : E → F) (r : Run E A) (a : A)
    → wrap f r ≡ ok a
    → r ≡ ok a
wrap_ok f (ok b) a h = cc h
wrap_ok f (err e) a h = absurd (cc h)
wrap_ok f panic a h = absurd (cc h)

pub or_err_ok {ℓ κ} :
    {E : Type ℓ} {A : Type κ} (o : Option A) (e : E) (a : A) → or_err o e ≡ ok a → o ≡ some a
or_err_ok none e a h = absurd (cc h)
or_err_ok (some b) e a h = cc h

pub ok_inj {ℓ κ} : {E : Type ℓ} {A : Type κ} (a b : A) → ◌≡◌ {A = Run E A} (ok a) (ok b) → a ≡ b
ok_inj a b h = cc h
