-- ===== src/BigInt.antt =====
-- utils/math/bigint.go: the type BigInt with its methods. Its calculations are the child modules.
--
-- A method `z.Add(x, y)` writes its result into `z` and returns `z`; the calculations only call it
-- on fresh values or on `z` itself, so they are modelled on the integers inside, as expressions.
-- The big integers are those of `Int`.
pub mod Trade
pub mod Compare
pub mod Metrics
pub mod Risk
pub mod MultiHop
pub mod Markets
mod Tests
use profit_monopoly.Prelude.{Option, arith, if◌then◌else◌, none, some, ℕ, ◌≡◌}
use profit_monopoly.Int.{leb_ℤ, pos, ℤ, ◌+ℤ◌, ◌≤ℤ◌}

-- The embedded *big.Int and the cache, a uint64.
pub record BigInt : Type 0 where
  pub int : ℤ
  pub atomic_cache : ℕ

-- NewBigInt
unfoldable pub new_big_int : ℤ → BigInt
new_big_int x = record { int = x; atomic_cache = 0 }

-- NewBigIntFromInt; `none` is a nil pointer.
unfoldable pub new_big_int_from_int : Option ℤ → BigInt
unfolding new_big_int
new_big_int_from_int none = new_big_int (pos 0)
new_big_int_from_int (some x) = record { int = x; atomic_cache = 0 }

-- Clone, on a receiver that may be nil.
unfoldable pub clone : Option BigInt → BigInt
unfolding new_big_int
clone none = new_big_int (pos 0)
clone (some b) = record { int = b.int; atomic_cache = 0 }

-- BigInt.Max and BigInt.Min
unfoldable pub max : BigInt → BigInt → BigInt
unfolding clone
max x y = if leb_ℤ y.int x.int then clone (some x) else clone (some y)

unfoldable pub min : BigInt → BigInt → BigInt
unfolding clone
min x y = if leb_ℤ x.int y.int then clone (some x) else clone (some y)

-- AtomicLoad and AtomicStore
unfoldable pub atomic_load : BigInt → ℕ
atomic_load b = b.atomic_cache

unfoldable pub atomic_store : ℕ → BigInt → BigInt
atomic_store val b = record b { atomic_cache = val }

-- Max and Min return copies: together they hold the two values in order, and the caches of the
-- arguments do not reach the results.
pub max-min :
    (x y : BigInt)
    → ((min x y).int ≤ℤ (max x y).int)
      × ((min x y).int +ℤ (max x y).int ≡ x.int +ℤ y.int)
      × (x.int ≤ℤ (max x y).int)
      × (y.int ≤ℤ (max x y).int)
      × (atomic_load (max x y) ≡ 0)
      × (atomic_load (min x y) ≡ 0)
unfolding max min atomic_load ◌+ℤ◌
max-min x y = ground arith
