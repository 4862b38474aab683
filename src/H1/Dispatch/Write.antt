-- ===== src/H1/Dispatch/Write.antt =====
-- The writing half of src/proto/h1/dispatch.rs.
use kaiwaehnero.Base.{ℕ, not, ◌&&◌, Option, none, some, Bytes, is_none, is_empty, if◌then◌else◌}
use kaiwaehnero.Poll.{Poll, pending, ready, Result, ok, err}
use kaiwaehnero.Http.{MessageHead, BodyLength, known, unknown}
use kaiwaehnero.H1.Error.{Error, user_service, user_body, body_write}
use kaiwaehnero.H1.Conn.Write.{
  Conn, can_write_head, can_write_body, write_head, write_full_msg, write_body, write_body_and_end,
  end_body,
}
use kaiwaehnero.H1.Conn.Read.{can_buffer_body}
use kaiwaehnero.H1.Conn.Read
use kaiwaehnero.H1.Dispatch.Parts.{Outgoing, message, user_error, Parts, returns, panics}
use kaiwaehnero.H1.Dispatch.Read.{Disp, Runs, Ended, with_conn, close, go_on, turns}

module _ {I D Bs Tx Rx : Type 0} (p : Parts I D Bs Tx Rx) where
  abbrev pub flush_error : Poll (Result (Unit {0})) → Poll (Option Error)
  flush_error pending = pending
  flush_error (ready (ok u)) = ready none
  flush_error (ready (err e)) = ready (some (body_write e))

  unfoldable pub poll_flush : Disp p → Runs p (Poll (Option Error))
  poll_flush d =
      let (c, r) = Read.poll_flush p.transport p.role d.conn in
      returns (with_conn p d c) (flush_error r)

  abbrev pub body_type : Option ℕ → Option BodyLength
  body_type (some n) = some (known n)
  body_type none = some unknown

  -- A call on the connection that may panic, after which the loop goes on or ends.
  unfoldable pub on_conn : Disp p → Ended p → Option (Conn I) → Runs p (Ended p)
  on_conn d r none = panics
  on_conn d r (some c) = returns (with_conn p d c) r

  unfoldable pub start_msg : Disp p → MessageHead → Bs × Option Bytes → Runs p (Ended p)
  unfolding on_conn
  start_msg d h (b, some full) =
      on_conn d (some (ready none)) (write_full_msg p.transport p.role d.conn h full)
  start_msg d h (b, none) =
      if p.http_body.is_end_stream b
      then returns (record d { body_rx = none; conn = write_head p.transport p.role d.conn h none })
          none
      else returns
          (record d {
            body_rx = some b;
            conn = write_head p.transport p.role d.conn h (body_type (p.http_body.exact b));
          })
          none

  unfoldable pub msg_polled : Disp p → Option (D × Poll (Option (Outgoing Bs))) → Runs p (Ended p)
  unfolding start_msg close
  msg_polled d none = panics
  msg_polled d (some (k, pending)) = returns (record d { dispatch = k }) (some pending)
  msg_polled d (some (k, ready none)) =
      returns (close p (record d { dispatch = k })) (some (ready none))
  msg_polled d (some (k, ready (some user_error))) =
      returns (record d { dispatch = k }) (some (ready (some user_service)))
  msg_polled d (some (k, ready (some (message h b)))) =
      start_msg (record d { dispatch = k }) h (p.http_body.take_full_data b)

  unfoldable pub body_ended : Disp p → Conn I × Option Error → Runs p (Ended p)
  body_ended d (c, none) = returns (with_conn p d c) none
  body_ended d (c, some e) = returns (with_conn p d c) (some (ready (some e)))

  abbrev pub without_body : Disp p → Disp p
  without_body d = record d { body_rx = none }

  unfoldable pub write_chunk : Disp p → Bs → Bytes → Runs p (Ended p)
  unfolding body_ended on_conn
  write_chunk d b chunk =
      if p.http_body.is_end_stream b
      then (if is_empty chunk
          then body_ended (without_body d) (end_body p.transport p.role d.conn)
          else on_conn (without_body d) none (write_body_and_end p.transport p.role d.conn chunk))
      else (if is_empty chunk
          then returns (record d { body_rx = some b }) none
          else on_conn (record d { body_rx = some b }) none
              (write_body p.transport p.role d.conn chunk))

  unfoldable pub data_polled : Disp p → Bs × Poll (Option (Option Bytes)) → Runs p (Ended p)
  unfolding write_chunk body_ended
  data_polled d (b, pending) = returns (record d { body_rx = some b }) (some pending)
  data_polled d (b, ready none) = body_ended (without_body d) (end_body p.transport p.role d.conn)
  data_polled d (b, ready (some none)) = returns (without_body d) (some (ready (some user_body)))
  data_polled d (b, ready (some (some chunk))) = write_chunk d b chunk

  unfoldable pub user_body_turn : Disp p → Option Bs → Runs p (Ended p)
  unfolding data_polled
  user_body_turn d none = returns d (some pending)
  user_body_turn d (some b) =
      if not (can_write_body p.transport p.role d.conn)
      then returns (without_body d) none
      else data_polled d (p.http_body.poll_data b)

  -- The loop's body in `poll_write`.
  unfoldable pub write_turn : Disp p → Runs p (Ended p)
  unfolding go_on poll_flush msg_polled user_body_turn
  write_turn d =
      if d.is_closing
      then returns d (some (ready none))
      else if is_none d.body_rx
          && (can_write_head p.transport p.role d.conn && p.dispatch.should_poll d.dispatch)
      then msg_polled d (p.dispatch.poll_msg d.dispatch)
      else if not (can_buffer_body p.transport p.role d.conn)
      then go_on p (poll_flush d)
      else user_body_turn d d.body_rx

  unfoldable pub poll_write : ℕ → Disp p → Runs p (Poll (Option Error))
  unfolding turns write_turn
  poll_write fuel d = turns p write_turn fuel d
