-- ===== src/Prelude/Perms.antt =====
-- Lists up to order: what two lists share when one rearranges the other.
use Prim.Native.Nat.{ℕ, suc, ◌+◌}
use native.Mathlib.Omega.{arith}
use native.Mathlib.Nat.{ℕ_set}
use mathlib.Core.Path.{◌≡◌, refl, ap}
use mathlib.Core.Logic.{∥∥₁_elim}
use mathlib.Core.List.{List, [], ◌∷◌, map, Perm, Permᴰ}
use mathlib.Core.HLevel.{×_prop}
use profit_monopoly.Prelude.Lists.{length}

module _ {ℓ} {A : Type ℓ} where
  -- The sum of a weight over a list, which no order changes.
  abbrev total : (A → ℕ) → List A → ℕ
  total w [] = 0
  total w (x ∷ l) = w x + total w l

  total-swap : (w : A → ℕ) {k l : List A} → Permᴰ k l → total w k ≡ total w l
  total-swap w (Permᴰ.trans first second) = omega (arith, total-swap w first, total-swap w second)
  total-swap w (Permᴰ.swap d e) = omega (arith, ap w d, ap w e)
  total-swap w (Permᴰ.cons e tails) = omega (arith, ap w e, total-swap w tails)
  total-swap w Permᴰ.nil = refl

  length-eq-total : (l : List A) → length l ≡ total (λ _. 1) l
  length-eq-total [] = refl
  length-eq-total (x ∷ l) = omega (arith, length-eq-total l)

  pub length-perm : {k l : List A} → Perm k l → length k ≡ length l
  length-perm {k} {l} same =
      ∥∥₁_elim same (ℕ_set (length k) (length l))
        (λ moved. omega (arith, length-eq-total k, length-eq-total l, total-swap (λ _. 1) moved))

  -- Every element of the list is as `P` says.
  abbrev pub Each {κ} : (A → Type κ) → List A → Type κ
  Each P [] = Unit
  Each P (a ∷ l) = P a × Each P l

  Permᴰ-Each {κ} : (P : A → Type κ) {a b : List A} → Permᴰ a b → Each P a → Each P b
  Permᴰ-Each P Permᴰ.nil h = h
  Permᴰ-Each P (Permᴰ.cons e p) (x, h) = (rw⁻¹ e x, Permᴰ-Each P p h)
  Permᴰ-Each P (Permᴰ.swap d e) (x, (y, h)) = (rw⁻¹ e y, (rw⁻¹ d x, h))
  Permᴰ-Each P (Permᴰ.trans p q) h = Permᴰ-Each P q (Permᴰ-Each P p h)

  Each-prop {κ} : (P : A → Type κ) → ((a : A) → IsProp (P a)) → (l : List A) → IsProp (Each P l)
  Each-prop P h [] = hlevel
  Each-prop P h (a ∷ l) = ×_prop (h a) (Each-prop P h l)

  pub Each-perm {κ} :
      (P : A → Type κ) {a b : List A} → ((x : A) → IsProp (P x)) → Perm a b → Each P a → Each P b
  Each-perm P {a} {b} h p all = ∥∥₁_elim p (Each-prop P h b) (λ d. Permᴰ-Each P d all)

module _ {ℓ κ} {A : Type ℓ} {B : Type κ} where
  pub length-map : (f : A → B) (l : List A) → length (map f l) ≡ length l
  length-map f [] = refl
  length-map f (a ∷ l) = ap suc (length-map f l)
