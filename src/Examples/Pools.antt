-- ===== src/Examples/Pools.antt =====
-- A client's pool at concrete connections: 0 is a closed one.
use kaiwaehnero.Base.{ℕ, refl, Bool, true, false, not, none, some, List, [], ◌∷◌, arith, ◌==◌}
use kaiwaehnero.Pool.{Poolable, Idle, PoolInner, unique, put, pop, checkout, clear_list}
use kaiwaehnero.Pool.Pop.{Popped, pop-Popped}
use kaiwaehnero.Pool.Bounds.{Bounded, taken, inserted, here, more, Reach-Bounded}
use kaiwaehnero.Pool.Waiters.{Placed, put-Placed}

abbrev http1 : Poolable ℕ
http1 = record { is_open = λ v. not (v == 0); reserve = unique; can_share = λ v. false }

abbrev never : ℕ → Bool
never tx = false

abbrev always : ℕ → Bool
always tx = true

-- A closed connection over one that is open.
abbrev two : List (Idle ℕ)
two = record { idle_at = 5; value = 0 } ∷ record { idle_at = 4; value = 7 } ∷ []

abbrev pool : PoolInner ℕ
pool = record {
  connecting = λ k. false;
  idle = λ k. some two;
  max_idle_per_host = 2;
  waiters = λ k. none;
  timeout = some 90;
}

abbrev waited : PoolInner ℕ
waited = record pool { idle = λ k. none; waiters = λ k. some (1 ∷ 2 ∷ []) }

pop-Popped_example :
    Popped http1 10 (some 90) two (pop http1 10 (some 90) two).0 (pop http1 10 (some 90) two).1
pop-Popped_example = pop-Popped http1 10 (some 90) two

abbrev left : PoolInner ℕ
left = record pool { idle = λ k. clear_list http1 50 (some 90) (some two) }

pool-Bounded : Bounded http1 pool
pool-Bounded = record { at_most = λ key. omega arith }

Reach-Bounded_example :
    Bounded http1 (put http1 never always 10 (checkout http1 10 pool 3 none 9).0 3 8).0
Reach-Bounded_example =
    Reach-Bounded http1 (more (more here (taken 10 3 none 9)) (inserted never always 10 3 8))
      pool-Bounded

put-Placed_example :
    Placed http1 never always 10 waited
      (put http1 never always 10 waited 3 8).0
      3
      8
      (put http1 never always 10 waited 3 8).1
put-Placed_example = put-Placed http1 never always 10 waited 3 8 refl refl
