-- ===== src/Int/Laws.antt =====
-- Sums, products and orders of integers, through their two parts, which `omega` reads.
use profit_monopoly.Prelude.{arith, refl, true, ℕ, ◌*◌, ◌+◌, ◌-◌, ◌≡◌, ◌≤◌, ◌⊎◌}
use profit_monopoly.Int.{
  leb_ℤ, ltb_ℤ, neg_part, negsuc, pos, pos_part, sub_ℕ, ℤ, ◌*ℤ◌, ◌+ℤ◌, ◌-ℤ◌, ◌<ℤ◌, ◌≤ℤ◌,
}

pub +ℤ_parts :
    (a b : ℤ)
    → pos_part (a +ℤ b) + neg_part a + neg_part b ≡ neg_part (a +ℤ b) + pos_part a + pos_part b
unfolding ◌+ℤ◌
+ℤ_parts a b = ground arith

pub -ℤ_parts :
    (a b : ℤ)
    → pos_part (a -ℤ b) + neg_part a + pos_part b ≡ neg_part (a -ℤ b) + pos_part a + neg_part b
unfolding ◌-ℤ◌
-ℤ_parts a b = ground arith

pub *ℤ_parts :
    (a b : ℤ)
    → pos_part (a *ℤ b) + (pos_part a * neg_part b + neg_part a * pos_part b)
      ≡ neg_part (a *ℤ b) + (pos_part a * pos_part b + neg_part a * neg_part b)
unfolding ◌*ℤ◌
*ℤ_parts a b = ground arith

-- An integer has one sign.
pub parts_sign : (a : ℤ) → pos_part a * neg_part a ≡ 0
parts_sign (pos n) = omega arith
parts_sign (negsuc n) = omega arith

pub eq_of_parts : (a b : ℤ) → pos_part a + neg_part b ≡ pos_part b + neg_part a → a ≡ b
eq_of_parts a b h = ground arith

pub ruleset int_laws = (arith, +ℤ_parts, -ℤ_parts, eq_of_parts)

pub +ℤ-pos : (a b : ℕ) → pos a +ℤ pos b ≡ pos (a + b)
unfolding ◌+ℤ◌
+ℤ-pos a b = ground arith

pub *ℤ-pos : (a b : ℕ) → pos a *ℤ pos b ≡ pos (a * b)
unfolding ◌*ℤ◌
*ℤ-pos a b = ground arith

pub -ℤ-pos : (a b : ℕ) → b ≤ a → pos a -ℤ pos b ≡ pos (a - b)
unfolding ◌-ℤ◌
-ℤ-pos a b h = ground arith

-- An integer that is not negative is its positive part.
pub pos_of_nonneg : (a : ℤ) → pos 0 ≤ℤ a → a ≡ pos (pos_part a)
pos_of_nonneg (pos n) h = refl
pos_of_nonneg (negsuc n) h = absurd (omega arith)

pub ltb_ℤ→<ℤ : (a b : ℤ) → ltb_ℤ a b ≡ true → a <ℤ b
ltb_ℤ→<ℤ a b h = ground arith

pub leb_ℤ→≤ℤ : (a b : ℤ) → leb_ℤ a b ≡ true → a ≤ℤ b
leb_ℤ→≤ℤ a b h = ground arith

pub sub_ℕ_parts :
    (a b : ℕ)
    → (pos_part (sub_ℕ a b) + b ≡ neg_part (sub_ℕ a b) + a)
      × ((pos_part (sub_ℕ a b) ≡ 0) ⊎ (neg_part (sub_ℕ a b) ≡ 0))
sub_ℕ_parts a b = ground arith

pub -ℤ-sub_ℕ : (a b c : ℕ) → sub_ℕ a b -ℤ pos c ≡ sub_ℕ a (b + c)
unfolding ◌-ℤ◌
-ℤ-sub_ℕ a b c = ground arith

pub pos-eq-sub_ℕ : (a : ℕ) → pos a ≡ sub_ℕ a 0
pos-eq-sub_ℕ a = ground arith

pub -ℤ-twice : (a b c : ℕ) → pos a -ℤ pos b -ℤ pos c ≡ sub_ℕ a (b + c)
unfolding ◌-ℤ◌
-ℤ-twice a b c = ground arith
