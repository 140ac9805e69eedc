-- ===== src/Int.antt =====
-- The integers of math/big over the native numbers, with the operations that the program calls.
-- `x.Cmp(y) < 0` is `ltb_ℤ x y`, `x.Cmp(y) >= 0` is `leb_ℤ y x`, `x.Sign() > 0` is
-- `ltb_ℤ (pos 0) x`, and so on.
pub mod Laws
pub mod Division
use profit_monopoly.Prelude.{
  Bool, Run, if◌then◌else◌, leb, ltb, ok, panic, suc, ℕ, ◌%◌, ◌*◌, ◌+◌, ◌-◌, ◌/◌, ◌<◌, ◌==◌, ◌≤◌,
}

-- `negsuc n` is -(n + 1).
pub data ℤ : Type 0 where
  pos : ℕ → ℤ
  negsuc : ℕ → ℤ

abbrev pub pos_part : ℤ → ℕ
pos_part (pos n) = n
pos_part (negsuc _) = 0

abbrev pub neg_part : ℤ → ℕ
neg_part (pos _) = 0
neg_part (negsuc n) = suc n

-- a - b, as an integer.
abbrev pub sub_ℕ : ℕ → ℕ → ℤ
sub_ℕ a b = if leb b a then pos (a - b) else negsuc (b - a - 1)

infixl 65 ◌+ℤ◌ ◌-ℤ◌
infixl 70 ◌*ℤ◌
infix 50 ◌≤ℤ◌ ◌<ℤ◌
unfoldable pub ◌+ℤ◌ : ℤ → ℤ → ℤ
a +ℤ b = sub_ℕ (pos_part a + pos_part b) (neg_part a + neg_part b)

unfoldable pub ◌-ℤ◌ : ℤ → ℤ → ℤ
a -ℤ b = sub_ℕ (pos_part a + neg_part b) (neg_part a + pos_part b)

unfoldable pub ◌*ℤ◌ : ℤ → ℤ → ℤ
a *ℤ b =
    sub_ℕ (pos_part a * pos_part b + neg_part a * neg_part b)
      (pos_part a * neg_part b + neg_part a * pos_part b)

abbrev pub ◌≤ℤ◌ : ℤ → ℤ → Type 0
a ≤ℤ b = pos_part a + neg_part b ≤ pos_part b + neg_part a

abbrev pub ◌<ℤ◌ : ℤ → ℤ → Type 0
a <ℤ b = pos_part a + neg_part b < pos_part b + neg_part a

abbrev pub ltb_ℤ : ℤ → ℤ → Bool
ltb_ℤ a b = ltb (pos_part a + neg_part b) (pos_part b + neg_part a)

abbrev pub leb_ℤ : ℤ → ℤ → Bool
leb_ℤ a b = leb (pos_part a + neg_part b) (pos_part b + neg_part a)

-- `x.Sign() == 0`
abbrev pub is_zero : ℤ → Bool
is_zero a = pos_part a + neg_part a == 0

-- `x.Cmp(y)` as a number.
unfoldable pub cmp : ℤ → ℤ → ℤ
cmp a b = if ltb_ℤ a b then negsuc 0 else if ltb_ℤ b a then pos 1 else pos 0

-- The quotient of `Int.Div`, which rounds so that the remainder is not negative.
unfoldable pub euclid : ℤ → ℤ → ℤ
euclid (pos a) (pos b) = pos (a / b)
euclid (pos a) (negsuc b) = sub_ℕ 0 (a / suc b)
euclid (negsuc a) (pos b) = sub_ℕ 0 ((a + b) / b)
euclid (negsuc a) (negsuc b) = pos ((suc a + b) / suc b)

-- The remainder of `Int.Mod`.
unfoldable pub modulus : ℤ → ℤ → ℤ
modulus (pos a) b = pos (a % (pos_part b + neg_part b))
modulus (negsuc a) b =
    let m = pos_part b + neg_part b in let r = suc a % m in if r == 0 then pos 0 else pos (m - r)

-- `Int.Div` and `Int.Mod` panic on a zero divisor.
abbrev pub div {ℓ} : {E : Type ℓ} → ℤ → ℤ → Run E ℤ
div a b = if is_zero b then panic else ok (euclid a b)

abbrev pub mod_ℤ {ℓ} : {E : Type ℓ} → ℤ → ℤ → Run E ℤ
mod_ℤ a b = if is_zero b then panic else ok (modulus a b)
