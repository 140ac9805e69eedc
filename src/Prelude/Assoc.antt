-- ===== src/Prelude/Assoc.antt =====
-- A Go map as a list of keys and values, in the order in which a loop over the map meets them.
use Prim.Native.Nat.{ℕ, suc}
use native.Mathlib.Decide.{ℕ_discrete}
use mathlib.Core.Bool.{true, false}
use mathlib.Core.Path.{◌≡◌, refl, ap, sym, ◌∙◌}
use mathlib.Core.Logic.{◌≢◌, inl, inr}
use mathlib.Core.List.{List, [], ◌∷◌}
use mathlib.Core.Option.{Option, none, some}
use native.Mathlib.Omega.{arith}
use profit_monopoly.Prelude.Tests.{Bool-cases, if◌then◌else◌, ◌==◌}
use profit_monopoly.Prelude.Lists.{length}

pub ==-self : (k : ℕ) → (k == k) ≡ true
==-self k = ground arith

pub ==-ne : (j k : ℕ) → j ≢ k → (j == k) ≡ false
==-ne j k h = ground arith

pub ==-eq : (j k : ℕ) → (j == k) ≡ true → j ≡ k
==-eq j k h = ground arith

module _ {ℓ} {V : Type ℓ} where
  abbrev pub lookup : ℕ → List (ℕ × V) → Option V
  lookup k [] = none
  lookup k ((j, v) ∷ m) = if k == j then some v else lookup k m

  -- `delete(m, k)`
  abbrev pub erase : ℕ → List (ℕ × V) → List (ℕ × V)
  erase k [] = []
  erase k ((j, v) ∷ m) = let rest = erase k m in if k == j then rest else (j, v) ∷ rest

  -- No key stands twice in the list.
  abbrev pub IsMap : List (ℕ × V) → Type ℓ
  IsMap [] = Unit
  IsMap ((k, v) ∷ m) = (lookup k m ≡ none) × IsMap m

  pub lookup_head : (k : ℕ) (v : V) (m : List (ℕ × V)) → lookup k ((k, v) ∷ m) ≡ some v
  lookup_head k v m = rw (==-self k) refl

  pub lookup_tail :
      (j k : ℕ) (v : V) (m : List (ℕ × V)) → j ≢ k → lookup j ((k, v) ∷ m) ≡ lookup j m
  lookup_tail j k v m h = rw (==-ne j k h) refl

  -- A key that is found is not a key that is absent.
  pub ne_of_lookup :
      (j k : ℕ) (v : V) (m : List (ℕ × V)) → lookup j m ≡ some v → lookup k m ≡ none → j ≢ k
  ne_of_lookup j k v m found absent e = cc

  pub erase_absent : (k : ℕ) (m : List (ℕ × V)) → lookup k m ≡ none → erase k m ≡ m
  erase_absent k [] h = refl
  erase_absent k ((j, v) ∷ m) h = elim (Bool-cases (k == j)) [
    | inl t ↦ absurd (taken t h)
    | inr n ↦ rw n (ap (λ r. (j, v) ∷ r) (erase_absent k m (passed n h)))
  ]
    where
      taken : (k == j) ≡ true → lookup k ((j, v) ∷ m) ≡ none → ⊥
      taken t h = let e : lookup k ((j, v) ∷ m) ≡ some v = rw t refl in cc

      passed : (k == j) ≡ false → lookup k ((j, v) ∷ m) ≡ none → lookup k m ≡ none
      passed n h = let e : lookup k ((j, v) ∷ m) ≡ lookup k m = rw n refl in cc

  pub lookup-erase_self : (k : ℕ) (m : List (ℕ × V)) → lookup k (erase k m) ≡ none
  lookup-erase_self k [] = refl
  lookup-erase_self k ((j, v) ∷ m) = elim (Bool-cases (k == j)) [
    | inl t ↦ rw t (lookup-erase_self k m)
    | inr n ↦ rw (n, n) (lookup-erase_self k m)
  ]

  pub lookup-erase_ne : (j k : ℕ) (m : List (ℕ × V)) → j ≢ k → lookup j (erase k m) ≡ lookup j m
  lookup-erase_ne j k [] h = refl
  lookup-erase_ne j k ((i, v) ∷ m) h = elim (Bool-cases (k == i)) [
    | inl t ↦ rw (t, ==-ne j i (λ e. h (e ∙ sym (==-eq k i t)))) (lookup-erase_ne j k m h)
    | inr n ↦ elim (Bool-cases (j == i)) [
      | inl t ↦ rw (n, t) refl
      | inr p ↦ rw (n, p) (lookup-erase_ne j k m h)
    ]
  ]

  pub lookup-erase-none :
      (j k : ℕ) (m : List (ℕ × V)) → lookup j m ≡ none → lookup j (erase k m) ≡ none
  lookup-erase-none j k m h = elim (ℕ_discrete j k) [
    | yes e ↦ rw e (lookup-erase_self k m)
    | no n ↦ lookup-erase_ne j k m n ∙ h
  ]

  pub erase-IsMap : (k : ℕ) (m : List (ℕ × V)) → IsMap m → IsMap (erase k m)
  erase-IsMap k [] h = tt
  erase-IsMap k ((j, v) ∷ m) (fresh, h) = elim (Bool-cases (k == j)) [
    | inl t ↦ rw t (erase-IsMap k m h)
    | inr n ↦ rw n (lookup-erase-none j k m fresh, erase-IsMap k m h)
  ]

  pub length-erase :
      (k : ℕ) (v : V) (m : List (ℕ × V))
      → IsMap m
      → lookup k m ≡ some v
      → suc (length (erase k m)) ≡ length m
  length-erase k v [] h e = absurd (cc e)
  length-erase k v ((j, w) ∷ m) (fresh, h) e = elim (Bool-cases (k == j)) [
    | inl t ↦ rw t (ap (λ r. suc (length r)) (erase_absent k m (rw (==-eq k j t) fresh)))
    | inr n ↦ rw n (ap suc (length-erase k v m h (passed n)))
  ]
    where
      passed : (k == j) ≡ false → lookup k m ≡ some v
      passed n = let skip : lookup k ((j, w) ∷ m) ≡ lookup k m = rw n refl in cc

  -- Every key and value of the list is as `P` says.
  abbrev pub All {κ} : (ℕ → V → Type κ) → List (ℕ × V) → Type κ
  All P [] = Unit
  All P ((k, v) ∷ m) = P k v × All P m

  pub All-erase {κ} : (P : ℕ → V → Type κ) (k : ℕ) (m : List (ℕ × V)) → All P m → All P (erase k m)
  All-erase P k [] h = tt
  All-erase P k ((j, v) ∷ m) (p, h) = elim (Bool-cases (k == j)) [
    | inl t ↦ rw t (All-erase P k m h)
    | inr n ↦ rw n (p, All-erase P k m h)
  ]

  pub All-weaken {κ μ} :
      (P : ℕ → V → Type κ) (Q : ℕ → V → Type μ) (m : List (ℕ × V))
      → ((k : ℕ) (v : V) → P k v → Q k v)
      → All P m
      → All Q m
  All-weaken P Q [] f h = tt
  All-weaken P Q ((k, v) ∷ m) f (p, h) = (f k v p, All-weaken P Q m f h)

  pub All-lookup {κ} :
      (P : ℕ → V → Type κ) (k : ℕ) (v : V) (m : List (ℕ × V))
      → All P m
      → lookup k m ≡ some v
      → P k v
  All-lookup P k v [] h e = absurd (cc e)
  All-lookup P k v ((j, w) ∷ m) (p, h) e = elim (Bool-cases (k == j)) [
    | inl t ↦
        let found : lookup k ((j, w) ∷ m) ≡ some w = rw t refl in
        let same : w ≡ v = cc in rw⁻¹ same (rw (==-eq k j t) p)
    | inr n ↦
        let passed : lookup k ((j, w) ∷ m) ≡ lookup k m = rw n refl in
        All-lookup P k v m h (sym passed ∙ e)
  ]
