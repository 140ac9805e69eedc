-- ===== src/Mempool/Pool/Slots.antt =====
-- mempool/mmap_pool.go: the search for a free slot, and the bytes that a slot holds.
use profit_monopoly.Prelude.{
  Bool-cases, List, [], ap, arith, false, inl, inr, length, refl, replicate, suc, true, zero, ℕ,
  ◌++◌, ◌+◌, ◌-◌, ◌<◌, ◌∷◌, ◌≡◌, ◌≢◌, ◌≤◌,
}
use profit_monopoly.Mempool.Pool.{find_from, find_next_free, is_empty, max_transactions, overwrite}

pub find_from-empty :
    (left i j : ℕ) (slots : ℕ → List ℕ)
    → i ≤ j
    → j < i + left
    → is_empty (slots j) ≡ true
    → let k = find_from left i slots in (i ≤ k) × (k ≤ j) × (is_empty (slots k) ≡ true)
unfolding find_from
find_from-empty zero i j slots h k e = absurd (omega arith)
find_from-empty (suc left) i j slots h k e = elim (Bool-cases (is_empty (slots i))) [
  | inl t ↦ rw t (omega arith, h, t)
  | inr f ↦
      let apart : i ≢ j = λ s. let f' = rw s at f in cc in
      let (a, b, c) = find_from-empty left (i + 1) j slots (grind arith) (omega arith) e in
      rw f (omega arith, b, c)
]

pub find_from-full :
    (left i : ℕ) (slots : ℕ → List ℕ)
    → ((j : ℕ) → j < i + left → is_empty (slots j) ≡ false)
    → find_from left i slots ≡ 0
unfolding find_from
find_from-full zero i slots h = refl
find_from-full (suc left) i slots h =
    rw (h i (omega arith)) (find_from-full left (i + 1) slots (λ j lt. h j (omega arith)))

-- If there is an empty slot, findNextFree returns the lowest one.
pub find_next_free_lem :
    (slots : ℕ → List ℕ) (j : ℕ)
    → j < max_transactions
    → is_empty (slots j) ≡ true
    → (find_next_free slots ≤ j) × (is_empty (slots (find_next_free slots)) ≡ true)
unfolding find_next_free
find_next_free_lem slots j h e =
    let (_, below, free) =
      find_from-empty max_transactions 0 j slots (omega arith) (omega arith) e in
    (below, free)

-- If there is none, it returns 0, the first slot.
pub find_next_free_full :
    (slots : ℕ → List ℕ)
    → ((j : ℕ) → j < max_transactions → is_empty (slots j) ≡ false)
    → find_next_free slots ≡ 0
unfolding find_next_free
find_next_free_full slots h = find_from-full max_transactions 0 slots (λ j lt. h j (omega arith))

-- A serialized transaction in a slot that was zeroed is followed by zeros.
pub overwrite-zeros :
    (bytes : List ℕ) (n : ℕ)
    → length bytes ≤ n
    → overwrite bytes (replicate n 0) ≡ bytes ++ replicate (n - length bytes) 0
unfolding overwrite
overwrite-zeros [] n h = ap (λ k. replicate k 0) (omega arith)
overwrite-zeros (b ∷ bytes) zero h = absurd (omega arith)
overwrite-zeros (b ∷ bytes) (suc n) h =
    let size : suc n - suc (length bytes) ≡ n - length bytes = omega arith in
    rw size (ap (◌∷◌ b) (overwrite-zeros bytes n (omega arith)))

-- It is not empty if one of its bytes is not 0.
pub overwrite-occupied :
    (bytes old : List ℕ) → is_empty bytes ≡ false → is_empty (overwrite bytes old) ≡ false
unfolding overwrite is_empty
overwrite-occupied [] old h = cc
overwrite-occupied (b ∷ bytes) [] h = h
overwrite-occupied (b ∷ bytes) (o ∷ old) h = ground (arith, overwrite-occupied bytes old)
