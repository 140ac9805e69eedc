-- ===== src/Arbitrage/Elements.antt =====
-- The elements of the lists that loops over slices collect.
use profit_monopoly.Prelude.{
  Bool, List, [], arith, false, get_elem?, if◌then◌else◌, inl, inr, refl, some, suc, true, zero, ℕ,
  ◌++◌, ◌+◌, ◌==◌, ◌≡◌, ◌≢◌, ◌⊎◌, ◌∷◌,
}
use profit_monopoly.Int.{ltb_ℤ, ℤ, ◌<ℤ◌}
use profit_monopoly.Arbitrage.Routes.{collect}

-- Being an element of a list.
abbrev pub Elem : {A : Type 0} → A → List A → Type 0
Elem x [] = ⊥
Elem x (y ∷ ys) = (x ≡ y) ⊎ Elem x ys

pub Elem-left : {A : Type 0} (x : A) (xs ys : List A) → Elem x xs → Elem x (xs ++ ys)
Elem-left x [] ys h = absurd h
Elem-left x (z ∷ xs) ys (inl e) = inl e
Elem-left x (z ∷ xs) ys (inr h) = inr (Elem-left x xs ys h)

pub Elem-right : {A : Type 0} (x : A) (xs ys : List A) → Elem x ys → Elem x (xs ++ ys)
Elem-right x [] ys h = h
Elem-right x (z ∷ xs) ys h = inr (Elem-right x xs ys h)

pub Elem-append : {A : Type 0} (x : A) (xs ys : List A) → Elem x (xs ++ ys) → Elem x xs ⊎ Elem x ys
Elem-append x [] ys h = inr h
Elem-append x (z ∷ xs) ys (inl e) = inl (inl e)
Elem-append x (z ∷ xs) ys (inr h) = elim (Elem-append x xs ys h) [
  | inl l ↦ inl (inr l)
  | inr r ↦ inr r
]

pub if-Elem :
    {A : Type 0} (x : A) (b : Bool) (xs : List A)
    → Elem x (if b then xs else [])
    → (b ≡ true) × Elem x xs
if-Elem x true xs h = (refl, h)
if-Elem x false xs h = absurd h

pub unless-Elem :
    {A : Type 0} (x : A) (b : Bool) (xs : List A)
    → Elem x (if b then [] else xs)
    → (b ≡ false) × Elem x xs
unless-Elem x true xs h = absurd h
unless-Elem x false xs h = (refl, h)

pub if_false :
    {A : Type 0} (b : Bool) (xs : List A) (x : A)
    → b ≡ false
    → Elem x xs
    → Elem x (if b then [] else xs)
if_false true xs x e h = absurd (cc e)
if_false false xs x e h = h

pub ne_of_== : (j k : ℕ) → (j == k) ≡ false → j ≢ k
ne_of_== j k h e = ground arith

pub singleton-Elem : {A : Type 0} {x y : A} → Elem x (y ∷ []) → x ≡ y
singleton-Elem (inl e) = e
singleton-Elem (inr h) = absurd h

pub above : (a b : ℤ) → a <ℤ b → ltb_ℤ a b ≡ true
above a b h = ground arith

-- A round of a loop that found the element.
abbrev pub Round : {A B : Type 0} → (ℕ → A → List B) → List A → ℕ → B → Type 0
Round {A} f xs i y = (k : ℕ) × (x : A) × (get_elem? xs k ≡ some x) × Elem y (f (i + k) x)

pub zero_right : (i : ℕ) → i + 0 ≡ i
zero_right i = omega arith

pub shift : (i k : ℕ) → i + suc k ≡ i + 1 + k
shift i k = omega arith

pub collect-Round :
    {A B : Type 0} (f : ℕ → A → List B) (xs : List A) (i : ℕ) (y : B)
    → Elem y (collect f i xs)
    → Round f xs i y
unfolding collect
collect-Round f [] i y h = absurd h
collect-Round f (x ∷ xs) i y h = elim (Elem-append y (f i x) (collect f (i + 1) xs) h) [
  | inl here ↦ (0, x, refl, rw (zero_right i) here)
  | inr later ↦
      let (k, z, at, found) = collect-Round f xs (i + 1) y later in
      (suc k, z, at, rw (shift i k) found)
]

pub Round-collect :
    {A B : Type 0} (f : ℕ → A → List B) (xs : List A) (i k : ℕ) (x : A) (y : B)
    → get_elem? xs k ≡ some x
    → Elem y (f (i + k) x)
    → Elem y (collect f i xs)
unfolding collect
Round-collect f [] i k x y at h = absurd (cc at)
Round-collect f (z ∷ xs) i zero x y at h = Elem-left y (f i z) (collect f (i + 1) xs) (here (cc at))
  where
    here : z ≡ x → Elem y (f i z)
    here e = rw e (rw⁻¹ (zero_right i) h)
Round-collect f (z ∷ xs) i (suc k) x y at h =
    Elem-right y (f i z) (collect f (i + 1) xs)
      (Round-collect f xs (i + 1) k x y at (rw⁻¹ (shift i k) h))

-- The rounds of a loop from position 0.
pub zero_left : (k : ℕ) → 0 + k ≡ k
zero_left k = omega arith

pub Elem-collect :
    {A B : Type 0} (f : ℕ → A → List B) (xs : List A) (y : B)
    → Elem y (collect f 0 xs)
    → (k : ℕ) × (x : A) × (get_elem? xs k ≡ some x) × Elem y (f k x)
Elem-collect f xs y h =
    let (k, x, at, found) = collect-Round f xs 0 y h in (k, x, at, rw⁻¹ (zero_left k) found)

pub collect-Elem :
    {A B : Type 0} (f : ℕ → A → List B) (xs : List A) (k : ℕ) (x : A) (y : B)
    → get_elem? xs k ≡ some x
    → Elem y (f k x)
    → Elem y (collect f 0 xs)
collect-Elem f xs k x y at h = Round-collect f xs 0 k x y at (rw (zero_left k) h)
