-- ===== src/Network/Dpdk/Count.antt =====
-- mempool/network/dpdk_network.go: how often a buffer's address stands in a list.
use profit_monopoly.Prelude.{
  Bool-cases, List, [], ◌++◌, ◌∷◌, arith, if◌then◌else◌, inl, inr, length, suc, take, zero, refl, ℕ,
  ◌+◌, ◌==◌, ◌≡◌, ◌≤◌, ap,
}
use profit_monopoly.Network.Dpdk.{Mbuf, addresses, drop_mbufs}

abbrev pub count : ℕ → List ℕ → ℕ
count a [] = 0
count a (b ∷ l) = let rest = count a l in if a == b then suc rest else rest

pub count-append : (a : ℕ) (l k : List ℕ) → count a (l ++ k) ≡ count a l + count a k
count-append a [] k = omega arith
count-append a (b ∷ l) k =
    let ih = count-append a l k in
    elim (Bool-cases (a == b)) [ inl t ↦ rw t (omega (arith, ih)) | inr n ↦ rw n ih ]

-- One more address, as a sum.
abbrev pub unit : ℕ → ℕ → ℕ
unit a b = if a == b then 1 else 0

pub count-cons : (a b : ℕ) (l : List ℕ) → count a (b ∷ l) ≡ unit a b + count a l
count-cons a b l = elim (Bool-cases (a == b)) [
  | inl t ↦ rw t (omega arith)
  | inr n ↦ rw n (omega arith)
]

pub addresses-append : (r s : List Mbuf) → addresses (r ++ s) ≡ addresses r ++ addresses s
addresses-append [] s = refl
addresses-append (p ∷ r) s = ap (λ l. p.address ∷ l) (addresses-append r s)

pub count-ring_append :
    (a : ℕ) (r s : List Mbuf)
    → count a (addresses (r ++ s)) ≡ count a (addresses r) + count a (addresses s)
count-ring_append a r s = rw (addresses-append r s) (count-append a (addresses r) (addresses s))

pub take-drop_mbufs : (n : ℕ) (r : List Mbuf) → take n r ++ drop_mbufs n r ≡ r
take-drop_mbufs zero r = refl
take-drop_mbufs (suc n) [] = refl
take-drop_mbufs (suc n) (p ∷ r) = ap (λ l. p ∷ l) (take-drop_mbufs n r)

pub length-take : (n : ℕ) (r : List Mbuf) → n ≤ length r → length (take n r) ≡ n
length-take zero r h = refl
length-take (suc n) [] h = absurd (omega arith)
length-take (suc n) (p ∷ r) h = ap suc (length-take n r (omega arith))
