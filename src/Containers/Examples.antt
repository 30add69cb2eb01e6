-- ===== src/Containers/Examples.antt =====
-- Examples: a producer and a consumer, and a set of numbers.
use binance_monitor.Base.{◌==◌, ==_iff, ℕ, ◌≡◌, refl, List, [], ◌∷◌, ◌++◌}
use binance_monitor.Containers.{get, append_list}
use binance_monitor.Containers.Fifo.{
  Call, appended_list, got, Runs, idle, append_list_call, get_call, put_in, taken_out, fifo,
}
use binance_monitor.Containers.LockedSet.{IsEquality}

abbrev one : List ℕ
one = 1 ∷ []

abbrev left : List ℕ
left = 2 ∷ 3 ∷ []

abbrev history : List (Call ℕ)
history = got 1 ∷ appended_list left ∷ []

calls : Runs one history left
unfolding get append_list
calls = get_call 1 (append_list_call (2 ∷ 3 ∷ []) idle) refl

fifo_example : taken_out history ++ left ≡ one ++ put_in history
fifo_example = fifo calls

equal_numbers : IsEquality ◌==◌
equal_numbers = record { reflexive = λ x. (==_iff x x).1 refl; sound = λ x y h. (==_iff x y).0 h }
