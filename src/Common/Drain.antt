-- ===== src/Common/Drain.antt =====
-- src/common/drain.rs: a future that is told once to come to its end. The signal is a watch channel of tokio, whose future
-- is a parameter, and so are the future and what it is told.
use kaiwaehnero.Base.{ℕ, zero, suc, ◌≡◌, refl}
use kaiwaehnero.Poll.{Poll, pending, ready}

-- The enum `State`: what to do at the signal, or that it has been done.
pub data State (N : Type 0) : Type 0 where
  watch : N → State N
  draining : State N

pub record Watching (F N V : Type 0) : Type 0 where
  pub future : F
  pub state : State N
  pub signal : V

module _ {F N V A : Type 0} (poll_future : F → F × Poll A) (poll_signal : V → V × Poll (Unit {0}))
    (call : N → F → F) where
  unfoldable pub poll_inner : Watching F N V → Watching F N V × Poll A
  poll_inner w = let (f, r) = poll_future w.future in (record w { future = f }, r)

  unfoldable pub on_signal : Watching F N V → N → V × Poll (Unit {0}) → Watching F N V × Poll A
  unfolding poll_inner
  on_signal w on_drain (v, ready u) =
      poll_inner (record { future = call on_drain w.future; state = draining; signal = v })
  on_signal w on_drain (v, pending) = poll_inner (record w { state = watch on_drain; signal = v })

  unfoldable pub poll_state : Watching F N V → State N → Watching F N V × Poll A
  unfolding on_signal poll_inner
  poll_state w (watch on_drain) = on_signal w on_drain (poll_signal w.signal)
  poll_state w draining = poll_inner w

  -- `Watching::poll`, whose loop has at most two rounds.
  unfoldable pub poll : Watching F N V → Watching F N V × Poll A
  unfolding poll_state
  poll w = poll_state w w.state

  unfoldable pub polls : ℕ → Watching F N V → Watching F N V
  polls zero w = w
  polls (suc n) w = polls n (poll w).0

  -- The future polled so many times, without a signal.
  unfoldable pub alone : ℕ → F → F
  alone zero f = f
  alone (suc n) f = alone n (poll_future f).0

  abbrev first : N → ℕ → F → Poll (Unit {0}) → F → F
  first on_drain n f (ready u) later = alone (suc n) (call on_drain f)
  first on_drain n f pending later = later

  -- The future told once to come to its end, before the first of its polls at which the signal is there.
  unfoldable pub told_once : N → ℕ → F → V → F
  unfolding alone
  told_once on_drain zero f v = f
  told_once on_drain (suc n) f v =
      first on_drain n f (poll_signal v).1
        (told_once on_drain n (poll_future f).0 (poll_signal v).0)

  polls-alone :
      (n : ℕ) (f : F) (v : V)
      → (polls n (record { future = f; state = draining; signal = v })).future ≡ alone n f
  unfolding polls alone poll poll_state poll_inner
  polls-alone zero f v = refl
  polls-alone (suc n) f v = polls-alone n (poll_future f).0 v

  -- A future that is watched is told to come to its end once, before the first of its polls at which the signal is there, and
  -- is polled once each time.
  pub polls-told_once :
      (on_drain : N) (n : ℕ) (f : F) (v : V)
      → (polls n (record { future = f; state = watch on_drain; signal = v })).future
        ≡ told_once on_drain n f v
  unfolding polls told_once poll poll_state on_signal
  polls-told_once on_drain zero f v = refl
  polls-told_once on_drain (suc n) f v =
      after (poll_signal v) (polls-told_once on_drain n (poll_future f).0 (poll_signal v).0)
    where
      after :
          (x : V × Poll (Unit {0}))
          → (polls n
              (record { future = (poll_future f).0; state = watch on_drain; signal = x.0 })).future
            ≡ told_once on_drain n (poll_future f).0 x.0
          → (polls n
              (on_signal
                (record { future = f; state = watch on_drain; signal = v })
                on_drain
                x).0).future
            ≡ first on_drain n f x.1 (told_once on_drain n (poll_future f).0 x.0)
      after (u, ready t) ih = polls-alone n (poll_future (call on_drain f)).0 u
      after (u, pending) ih = ih
