-- ===== src/H1/Dispatch/PollRuns.antt =====
-- The polls of src/proto/h1/dispatch.rs, as runs of the connection's steps and of the dispatch's calls.
use kaiwaehnero.Base.{ℕ, zero, suc, Bool, none, some, Bool-cases, inl, inr}
use kaiwaehnero.Poll.{Poll, pending, ready, Result, ok, err}
use kaiwaehnero.H1.Conn.State.{is_write_closed}
use kaiwaehnero.H1.Conn.Write.{Conn}
use kaiwaehnero.H1.Conn.Read.{poll_shutdown, disable_keep_alive, wants_read_again}
use kaiwaehnero.H1.Conn.Steps.{Step, disable, report, again, shut_down}
use kaiwaehnero.H1.Dispatch.Parts.{broken, Parts, returns, panics, spent}
use kaiwaehnero.H1.Dispatch.Read.{Disp, with_conn, poll_read}
use kaiwaehnero.H1.Dispatch.Write.{poll_write, poll_flush}
use kaiwaehnero.H1.Dispatch.Poll
use kaiwaehnero.H1.Dispatch.Poll.{
  Answered, or_fail, round_end, rounds, poll_loop, is_done, after_shutdown, finish_poll, after_loop,
  poll_inner, caught, catch, poll_catch, stop_keep_alive,
}
use kaiwaehnero.H1.Dispatch.Runs.{
  fail, Moved, Moves, Moved-refl, Moved-trans, Moved-Moves, conn-Moved, dispatch-Moved, close-Moved,
}
use kaiwaehnero.H1.Dispatch.ReadRuns.{poll_read-Moves}
use kaiwaehnero.H1.Dispatch.WriteRuns.{poll_write-Moves, poll_flush-Moves}

module _ {I D Bs Tx Rx : Type 0} (p : Parts I D Bs Tx Rx) where
  or_fail-Moves :
      (d : Disp p) (r : Answered p) (f : Disp p → Answered p)
      → Moves p d r
      → ((e : Disp p) → Moves p e (f e))
      → Moves p d (or_fail p r f)
  unfolding or_fail
  or_fail-Moves d (returns e (ready (some x))) f m t = m
  or_fail-Moves d (returns e (ready none)) f m t = Moved-Moves p (f e) m (t e)
  or_fail-Moves d (returns e pending) f m t = Moved-Moves p (f e) m (t e)
  or_fail-Moves d panics f m t = tt
  or_fail-Moves d (spent e) f m t = m

  round_end-Moves :
      (f : Disp p → Answered p) (d : Disp p)
      → ((e : Disp p) → Moves p e (f e))
      → Moves p d (round_end p f d)
  unfolding round_end
  round_end-Moves f d t =
      let (c, b) = wants_read_again p.transport p.role d.conn in
      let m = conn-Moved p d (wants_read_again p.transport p.role d.conn).0 again in
      elim (Bool-cases (wants_read_again p.transport p.role d.conn).1) [
        | inl h ↦ rw (h) (
            Moved-Moves p (f (with_conn p d (wants_read_again p.transport p.role d.conn).0)) m
              (t _))
        | inr h ↦ rw (h) m
      ]

  rounds-Moves : (n fuel : ℕ) (d : Disp p) → Moves p d (rounds p n fuel d)
  unfolding rounds
  rounds-Moves zero fuel d = Moved-refl p d
  rounds-Moves (suc n) fuel d =
      or_fail-Moves d (poll_read p fuel d) _ (poll_read-Moves p fuel d) (λ d1.
        or_fail-Moves d1 (poll_write p fuel d1) _ (poll_write-Moves p fuel d1) (λ d2.
          or_fail-Moves d2 (poll_flush p d2) (round_end p (rounds p n fuel)) (poll_flush-Moves p d2)
            (λ d3. round_end-Moves (rounds p n fuel) d3 (rounds-Moves n fuel))))

  report-Moves : (d : Disp p) → Moves p d (Poll.report p d)
  unfolding Poll.report
  report-Moves d = conn-Moved p d _ report

  after_shutdown-Moves :
      (d : Disp p) (x : Conn I × Poll (Result (Unit {0})))
      → Step p.transport p.role d.conn x.0
      → Moves p d (after_shutdown p d x)
  unfolding after_shutdown
  after_shutdown-Moves d (c, pending) s = conn-Moved p d c s
  after_shutdown-Moves d (c, ready (err e)) s = conn-Moved p d c s
  after_shutdown-Moves d (c, ready (ok u)) s =
      Moved-Moves p (Poll.report p (with_conn p d c)) (conn-Moved p d c s)
        (report-Moves (with_conn p d c))

  finish_poll-Moves : (b : Bool) (d : Disp p) → Moves p d (finish_poll p b d)
  unfolding finish_poll
  finish_poll-Moves b d = elim (Bool-cases (is_done p d)) [
    | inl h ↦ elim (Bool-cases b) [
      | inl s ↦
          rw (h, s) (after_shutdown-Moves d (poll_shutdown p.transport p.role d.conn) shut_down)
      | inr s ↦ rw (h, s) (report-Moves d)
    ]
    | inr h ↦ rw (h) (Moved-refl p d)
  ]

  after_loop-Moves :
      (b : Bool) (d : Disp p) (r : Answered p) → Moves p d r → Moves p d (after_loop p b r)
  unfolding after_loop
  after_loop-Moves b d (returns e pending) m = m
  after_loop-Moves b d (returns e (ready (some x))) m = m
  after_loop-Moves b d (returns e (ready none)) m =
      Moved-Moves p (finish_poll p b e) m (finish_poll-Moves b e)
  after_loop-Moves b d panics m = tt
  after_loop-Moves b d (spent e) m = m

  poll_inner-Moves : (fuel : ℕ) (b : Bool) (d : Disp p) → Moves p d (poll_inner p fuel b d)
  unfolding poll_inner poll_loop
  poll_inner-Moves fuel b d = after_loop-Moves b d (poll_loop p fuel d) (rounds-Moves 16 fuel d)

  catch-Moves : (d : Disp p) (r : Answered p) → Moves p d r → Moves p d (catch p r)
  unfolding catch
  catch-Moves d (returns e pending) m = m
  catch-Moves d (returns e (ready none)) m = m
  catch-Moves d (returns e (ready (some x))) m =
      Moved-trans p m (dispatch-Moved p e (p.dispatch.recv_msg e.dispatch (broken x)).0 (fail x))
  catch-Moves d panics m = tt
  catch-Moves d (spent e) m = m

  -- Whatever the fuel, a poll of the dispatcher makes a run of the connection's steps, each under the test that the
  -- step asks for, and a run of the dispatch's calls, in which a message is asked for only
  -- where it should be polled, and a head given only where the dispatch is ready for one.
  pub poll_catch-Moves : (fuel : ℕ) (b : Bool) (d : Disp p) → Moves p d (poll_catch p fuel b d)
  unfolding poll_catch
  poll_catch-Moves fuel b d = catch-Moves d (poll_inner p fuel b d) (poll_inner-Moves fuel b d)

  pub stop_keep_alive-Moved : (d : Disp p) → Moved p d (stop_keep_alive p d)
  unfolding stop_keep_alive
  stop_keep_alive-Moved d =
      let c = disable_keep_alive p.transport p.role d.conn in
      let m = conn-Moved p d c disable in
      elim (Bool-cases (is_write_closed c.state)) [
        | inl h ↦ rw (h) (Moved-trans p m (close-Moved p (with_conn p d c)))
        | inr h ↦ rw (h) m
      ]
