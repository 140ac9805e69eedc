-- ===== src/Network/Standard/Tests.antt =====
-- mempool/network/standard.go: the theorems on a manager with a socket.
use profit_monopoly.Prelude.{
  List, Option, [], ◌∷◌, arith, length, none, panic, refl, some, true, ◌≡◌, ◌≤◌, ℕ, take, suc, zero,
}
use profit_monopoly.Network.Standard.{
  Call, Socket, StandardNetworkManager, stop, close_done, initialize, initializes, fresh_manager,
  reads, run_calls, sends, starts, writes,
}
use profit_monopoly.Network.Standard.Shutdown.{closing, end, end_twice, stopping}

length-take_le : (n : ℕ) (l : List ℕ) → length (take n l) ≤ n
length-take_le zero l = omega arith
length-take_le (suc n) [] = omega arith
length-take_le (suc n) (b ∷ l) = omega (arith, length-take_le n l)

abbrev waiting : List ℕ
waiting = 4 ∷ 5 ∷ []

abbrev answer : Option ℕ → List ℕ → Option ℕ
answer none bytes = none
answer (some _) bytes = some (length bytes)

read_from-le :
    (room : ℕ) (bytes : List ℕ)
    → ◌≡◌ {A = Option (List ℕ)} (some (take room waiting)) (some bytes)
    → length bytes ≤ room
read_from-le room bytes e =
    let same : take room waiting ≡ bytes = cc e in rw⁻¹ same (length-take_le room waiting)

abbrev socket : Socket
socket = record {
  read_from = λ room. some (take room waiting);
  write_to = answer;
  closes = true;
  read_from-le = read_from-le;
  write_to-nil = λ bytes. refl;
}

abbrev connected : StandardNetworkManager
connected = (initialize (some socket) (fresh_manager (some 30303))).1

abbrev calls : List Call
calls = starts ∷ reads 1 ∷ sends (some (some 2)) (7 ∷ 8 ∷ []) ∷ writes (9 ∷ []) ∷ []

end_twice_example :
    (end closing (run_calls (initializes (some socket) ∷ calls) (end stopping connected).1)).0
    ≡ panic
unfolding fresh_manager initialize stop close_done
end_twice_example =
    end_twice connected (initializes (some socket) ∷ calls) stopping closing (λ e. absurd (cc e))
      (λ e. absurd (cc e))
