-- ===== src/H1/Dispatch/Poll.antt =====
-- The polling of src/proto/h1/dispatch.rs. A pending upgrade is not modelled.
use kaiwaehnero.Base.{
  ℕ, zero, suc, Bool, true, not, ◌&&◌, ◌||◌, Option, none, some, is_none, if◌then◌else◌,
}
use kaiwaehnero.Poll.{Poll, pending, ready, Result, ok, err}
use kaiwaehnero.H1.Error.{Error, shutdown}
use kaiwaehnero.H1.Conn.State.{should_read_first, is_read_closed, is_write_closed}
use kaiwaehnero.H1.Conn.Write.{Conn}
use kaiwaehnero.H1.Conn.Read.{take_error, wants_read_again, poll_shutdown, disable_keep_alive}
use kaiwaehnero.H1.Dispatch.Parts.{broken, Parts, returns, panics, spent}
use kaiwaehnero.H1.Dispatch.Read.{Disp, Runs, with_conn, close, poll_read}
use kaiwaehnero.H1.Dispatch.Write.{poll_write, poll_flush}

module _ {I D Bs Tx Rx : Type 0} (p : Parts I D Bs Tx Rx) where
  abbrev pub Answered : Type 0
  Answered = Runs p (Poll (Option Error))

  -- `let _ = ..?`, and what follows.
  unfoldable pub or_fail : Answered → (Disp p → Answered) → Answered
  or_fail (returns d (ready (some e))) f = returns d (ready (some e))
  or_fail (returns d (ready none)) f = f d
  or_fail (returns d pending) f = f d
  or_fail panics f = panics
  or_fail (spent d) f = spent d

  -- The end of a round, which may want another one.
  unfoldable pub round_end : (Disp p → Answered) → Disp p → Answered
  round_end again d =
      let (c, b) = wants_read_again p.transport p.role d.conn in
      if not b then returns (with_conn p d c) (ready none) else again (with_conn p d c)

  -- `for _ in 0..16`, after which the task yields. The fuel is that of the two loops in a round.
  unfoldable pub rounds : ℕ → ℕ → Disp p → Answered
  unfolding or_fail round_end
  rounds zero fuel d = returns d pending
  rounds (suc n) fuel d = or_fail (poll_read p fuel d) (λ d1.
      or_fail (poll_write p fuel d1) (λ d2. or_fail (poll_flush p d2) (round_end (rounds n fuel))))

  unfoldable pub poll_loop : ℕ → Disp p → Answered
  unfolding rounds
  poll_loop fuel d = rounds 16 fuel d

  unfoldable pub is_done : Disp p → Bool
  is_done d =
      let read_done = is_read_closed d.conn.state in
      let write_done =
        is_write_closed d.conn.state
        || (not (p.dispatch.should_poll d.dispatch) && is_none d.body_rx) in
      if d.is_closing
      then true
      else if not (should_read_first p.role) && read_done
      then true
      else read_done && write_done

  -- `self.conn.take_error()?`.
  unfoldable pub report : Disp p → Answered
  report d =
      let (c, e) = take_error p.transport p.role d.conn in returns (with_conn p d c) (ready e)

  unfoldable pub after_shutdown : Disp p → Conn I × Poll (Result (Unit {0})) → Answered
  unfolding report
  after_shutdown d (c, pending) = returns (with_conn p d c) pending
  after_shutdown d (c, ready (err e)) = returns (with_conn p d c) (ready (some (shutdown e)))
  after_shutdown d (c, ready (ok u)) = report (with_conn p d c)

  unfoldable pub finish_poll : Bool → Disp p → Answered
  unfolding is_done after_shutdown report
  finish_poll should_shutdown d =
      if not (is_done d)
      then returns d pending
      else if should_shutdown
      then after_shutdown d (poll_shutdown p.transport p.role d.conn)
      else report d

  unfoldable pub after_loop : Bool → Answered → Answered
  unfolding finish_poll
  after_loop should_shutdown (returns d pending) = returns d pending
  after_loop should_shutdown (returns d (ready (some e))) = returns d (ready (some e))
  after_loop should_shutdown (returns d (ready none)) = finish_poll should_shutdown d
  after_loop should_shutdown panics = panics
  after_loop should_shutdown (spent d) = spent d

  unfoldable pub poll_inner : ℕ → Bool → Disp p → Answered
  unfolding after_loop poll_loop
  poll_inner fuel should_shutdown d = after_loop should_shutdown (poll_loop fuel d)

  -- An error goes to the user where the dispatch can give it to one.
  unfoldable pub caught : Disp p → D × Option Error → Answered
  caught d (k, e) = returns (record d { dispatch = k }) (ready e)

  unfoldable pub catch : Answered → Answered
  unfolding caught
  catch (returns d pending) = returns d pending
  catch (returns d (ready none)) = returns d (ready none)
  catch (returns d (ready (some e))) = caught d (p.dispatch.recv_msg d.dispatch (broken e))
  catch panics = panics
  catch (spent d) = spent d

  unfoldable pub poll_catch : ℕ → Bool → Disp p → Answered
  unfolding poll_inner catch
  poll_catch fuel should_shutdown d = catch (poll_inner fuel should_shutdown d)

  -- `Dispatcher::disable_keep_alive`.
  unfoldable pub stop_keep_alive : Disp p → Disp p
  unfolding close
  stop_keep_alive d =
      let d' = with_conn p d (disable_keep_alive p.transport p.role d.conn) in
      if is_write_closed d'.conn.state then close p d' else d'
