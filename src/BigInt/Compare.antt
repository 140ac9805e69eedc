-- ===== src/BigInt/Compare.antt =====
-- utils/math/bigint.go, CompareArraysSIMD: the loop that takes four elements at a time and then the
-- rest, against the plain comparison of the two slices.
use profit_monopoly.Prelude.{
  Bool-cases, List, Option, Run, [], ap, arith, deref, get_elem?, get_elem?-lt, get_elem?-set_ne,
  get_elem?-set_self, if◌then◌else◌, inl, inr, leb, leb→le, length, length-replicate, length-set,
  list_ext, none, not, ok, panic, refl, replicate, set, some, suc, sym, true, zero, ℕ, ℕ_discrete,
  ◌%◌, ◌*◌, ◌+◌, ◌-◌, ◌/◌, ◌<◌, ◌==◌, ◌>>=◌, ◌∙◌, ◌∷◌, ◌≡◌, ◌≢◌, ◌≤◌,
}
use profit_monopoly.Int.{cmp, pos, ℤ}

-- The body of both inner loops; a nil element compares as 0.
unfoldable pub compare_pair : Option ℤ → Option ℤ → ℤ
unfolding cmp
compare_pair (some x) (some y) = cmp x y
compare_pair _ _ = pos 0

-- `results[i] = …` for the elements at `i`. An index out of range panics.
unfoldable pub compare_at : List (Option ℤ) → List (Option ℤ) → ℕ → List ℤ → Run ⊥ (List ℤ)
compare_at a b i results = do
  x ← deref (get_elem? a i)
  y ← deref (get_elem? b i)
  old ← deref (get_elem? results i)
  ok (set results i (compare_pair x y))

-- `count` rounds from `i`: the inner loop over the four lanes, and the loop over the rest.
unfoldable pub compare_range : ℕ → List (Option ℤ) → List (Option ℤ) → ℕ → List ℤ → Run ⊥ (List ℤ)
compare_range zero a b i results = ok results
compare_range (suc count) a b i results =
    compare_at a b i results >>= compare_range count a b (i + 1)

-- `for i := 0; i <= n-4; i += 4`, on fuel.
unfoldable pub compare_blocks :
    ℕ → ℕ → List (Option ℤ) → List (Option ℤ) → ℕ → List ℤ → Run ⊥ (List ℤ)
compare_blocks zero n a b i results = panic
compare_blocks (suc fuel) n a b i results =
    let next = compare_range 4 a b i results >>= compare_blocks fuel n a b (i + 4) in
    if leb (i + 4) n then next else ok results

-- CompareArraysSIMD; `none` is the nil slice.
unfoldable pub compare_arrays_simd : List (Option ℤ) → List (Option ℤ) → Run ⊥ (Option (List ℤ))
compare_arrays_simd a b =
    let n = length a in
    if not (n == length b) then ok none else do
      blocks ← compare_blocks (n + 1) n a b 0 (replicate n (pos 0))
      results ← compare_range (n - n / 4 * 4) a b (n / 4 * 4) blocks
      ok (some results)

-- The comparison of two slices, element by element.
unfoldable pub compare_each : List (Option ℤ) → List (Option ℤ) → List ℤ
compare_each (x ∷ a) (y ∷ b) = compare_pair x y ∷ compare_each a b
compare_each _ _ = []

compare_each-length :
    (a b : List (Option ℤ)) → length a ≡ length b → length (compare_each a b) ≡ length a
unfolding compare_each
compare_each-length [] b h = refl
compare_each-length (x ∷ a) [] h = absurd (omega arith)
compare_each-length (x ∷ a) (y ∷ b) h = ap suc (compare_each-length a b (omega arith))

-- The first `i` results are those of the plain comparison.
record Filled (a b : List (Option ℤ)) (i : ℕ) (results : List ℤ) : Type 0 where
  sized : length results ≡ length a
  done : (j : ℕ) → j < i → get_elem? results j ≡ get_elem? (compare_each a b) j

get_elem?-compare_each :
    (a b : List (Option ℤ)) (i : ℕ) (x y : Option ℤ)
    → get_elem? a i ≡ some x
    → get_elem? b i ≡ some y
    → get_elem? (compare_each a b) i ≡ some (compare_pair x y)
unfolding compare_each
get_elem?-compare_each [] b i x y p q = cc
get_elem?-compare_each (v ∷ a) [] i x y p q = cc
get_elem?-compare_each (v ∷ a) (w ∷ b) zero x y p q = cc
get_elem?-compare_each (v ∷ a) (w ∷ b) (suc i) x y p q = get_elem?-compare_each a b i x y p q

module _ (a b : List (Option ℤ)) (e : length a ≡ length b) where
  compare_at-Filled :
      (i : ℕ) (r : List ℤ)
      → i < length a
      → Filled a b i r
      → (r' : List ℤ) × (compare_at a b i r ≡ ok r') × Filled a b (i + 1) r'
  unfolding compare_at
  compare_at-Filled i r h f =
      let (x, p) = get_elem?-lt a i h in
      let (y, q) = get_elem?-lt b i (omega arith) in
      let k : i < length r = omega (arith, f.sized) in
      let (z, s) = get_elem?-lt r i k in
      let v = compare_pair x y in
      (
        set r i v,
        rw (p, q, s),
        record {
          sized = length-set r i v ∙ f.sized;
          done = λ j lt. elim (ℕ_discrete i j) [
            | yes same ↦
                rw (← same)
                  (get_elem?-set_self r i v k ∙ sym (get_elem?-compare_each a b i x y p q))
            | no other ↦ get_elem?-set_ne r i j v other ∙ f.done j (grind arith)
          ];
        },
      )

  compare_range-Filled :
      (count i j : ℕ) (r : List ℤ)
      → i + count ≡ j
      → j ≤ length a
      → Filled a b i r
      → (r' : List ℤ) × (compare_range count a b i r ≡ ok r') × Filled a b j r'
  unfolding compare_range
  compare_range-Filled zero i j r s h f = let here : i ≡ j = omega arith in (r, refl, rw (← here) f)
  compare_range-Filled (suc count) i j r s h f =
      let (r', p, f') = compare_at-Filled i r (omega arith) f in
      let (r'', q, f'') = compare_range-Filled count (i + 1) j r' (omega arith) h f' in
      (r'', rw p q, f'')

  compare_blocks-Filled :
      (fuel i : ℕ) (r : List ℤ)
      → length a < i + fuel
      → i % 4 ≡ 0
      → i ≤ length a
      → Filled a b i r
      → (r' : List ℤ) × (compare_blocks fuel (length a) a b i r ≡ ok r')
        × Filled a b (length a / 4 * 4) r'
  unfolding compare_blocks
  compare_blocks-Filled zero i r m d h f = absurd (omega arith)
  compare_blocks-Filled (suc fuel) i r m d h f = elim (Bool-cases (leb (i + 4) (length a))) [
    | inl more ↦
        let lt : i + 4 ≤ length a = leb→le _ _ more in
        let (r', p, f') = compare_range-Filled 4 i (i + 4) r refl lt f in
        let (r'', q, f'') =
          compare_blocks-Filled fuel (i + 4) r' (omega arith) (omega arith) lt f' in
        (r'', rw (more, p) q, f'')
    | inr last ↦
        let edge : length a < i + 4 = ground arith in
        let here : i ≡ length a / 4 * 4 = omega arith in (r, rw last, rw (← here) f)
  ]

  -- On slices of the same length the four-lane loop and the loop over the rest together compute
  -- the comparison of each pair of elements, and no index is out of range.
  pub compare_arrays_simd-eq-compare_each : compare_arrays_simd a b ≡ ok (some (compare_each a b))
  unfolding compare_arrays_simd
  compare_arrays_simd-eq-compare_each =
      let n = length a in
      let start : Filled a b 0 (replicate n (pos 0)) = record {
        sized = length-replicate n (pos 0);
        done = λ j lt. elim lt [ ];
      } in
      let (r, p, f) =
        compare_blocks-Filled (n + 1) 0 _ (omega arith) (omega arith) (omega arith) start in
      let (r', q, f') =
        compare_range-Filled (n - n / 4 * 4) (n / 4 * 4) n r (omega arith) (omega arith) f in
      let whole : r' ≡ compare_each a b =
        list_ext r' _ (f'.sized ∙ sym (compare_each-length a b e))
          (λ j lt. f'.done j (omega (arith, f'.sized))) in
      let same : (n == length b) ≡ true = ground arith in rw (same, p, q, whole)

-- Slices of different lengths give the nil slice, and no element is read.
pub compare_arrays_simd-lengths :
    (a b : List (Option ℤ)) → length a ≢ length b → compare_arrays_simd a b ≡ ok none
unfolding compare_arrays_simd
compare_arrays_simd-lengths a b h = ground arith
