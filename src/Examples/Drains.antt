-- ===== src/Examples/Drains.antt =====
-- A future that counts its polls, and a signal that comes with the second of them.
use kaiwaehnero.Base.{ℕ, ◌+◌, ◌≡◌, true, false, Bool, List, [], ◌∷◌}
use kaiwaehnero.Poll.{Poll, pending, ready}
use kaiwaehnero.Common.Drain.{Watching, watch, polls, alone, told_once, polls-told_once}

abbrev count : ℕ → ℕ × Poll ℕ
count n = (n + 1, pending)

abbrev signal : List Bool → List Bool × Poll (Unit {0})
signal [] = ([], pending)
signal (true ∷ bs) = (bs, ready tt)
signal (false ∷ bs) = (bs, pending)

abbrev watched : Watching ℕ ℕ (List Bool)
watched = record { future = 0; state = watch 100; signal = false ∷ true ∷ [] }

polls-told_once_example : (polls count signal (λ k n. n + k) 3 watched).future ≡ 103
unfolding told_once alone
polls-told_once_example = polls-told_once count signal (λ k n. n + k) 100 3 0 (false ∷ true ∷ [])
