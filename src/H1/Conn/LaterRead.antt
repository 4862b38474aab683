-- ===== src/H1/Conn/LaterRead.antt =====
-- What a connection never takes back, over the operations of src/proto/h1/conn.rs that read.
use kaiwaehnero.Base.{ℕ, ◌≡◌, ◌≢◌, refl, false, Option, none, some, Bytes, arith, if◌then◌else◌}
use kaiwaehnero.Poll.{Poll, pending, ready, Result, ok, err}
use kaiwaehnero.Http.{Method}
use kaiwaehnero.H1.Error.{Error}
use kaiwaehnero.H1.Decode
use kaiwaehnero.H1.Conn.State.{
  Role, State, Reading, close, close_read, close_write, is_idle, disable_ka, set_busy,
  and_keep_alive,
}
use kaiwaehnero.H1.Conn.Transport.{Transport, Parsed, message, failed, ParsedMessage}
use kaiwaehnero.H1.Conn.Write.{Conn, writing_is_init}
use kaiwaehnero.H1.Conn.Later.{
  Later, Later-refl, Later-trans, set_reading-Later, conn_keep_alive-Later, on_parse_error-Later,
}
use kaiwaehnero.H1.Conn.Read.{
  reading_is_init, read_error, got_head, parsed, read_slice, read_from, done_reading, forced,
  empty_read, eof_read, flushed, drained, close_unless_drained, on_parse_error, on_read_head_error,
  poll_read_head, poll_read_body, poll_read_keep_alive, poll_flush, poll_drain_or_close_read,
  disable_keep_alive, force_io_read, require_empty_read, mid_message_detect_eof, continue_100,
}

module _ {I : Type 0} (t : Transport I) (role : Role) where
  read_error-Later :
      (s : State) (x : Conn I × Option Error)
      → Later s x.0.state
      → Later s (read_error t role x).0.state
  unfolding read_error
  read_error-Later s (c, none) l = l
  read_error-Later s (c, some e) l = l

  pub close_read-Later : (s : State) → Later s (close_read s)
  unfolding close_read
  close_read-Later s = ground arith

  pub close_write-Later : (s : State) → Later s (close_write s)
  unfolding close_write
  close_write-Later s = ground arith

  on_read_head_error-Later :
      (c : Conn I) (e : Error) → Later c.state (on_read_head_error t role c e).0.state
  unfolding on_read_head_error
  on_read_head_error-Later c e =
      let c' : Conn I = record { io = t.consume_leading_lines c.io; state = close_read c.state } in
      ground (
        arith,
        Later-trans (close_read-Later c.state) (
            read_error-Later c'.state (on_parse_error t role c' e)
              (on_parse_error-Later t role c' e)),
        Later-trans (close_read-Later c.state) (close_write-Later c'.state),
      )

  abbrev fresh : State → ParsedMessage → Reading → State
  fresh s msg r =
      record (and_keep_alive (set_busy (record s { h09_responses = false })) msg.keep_alive) {
        version = msg.head.version;
        reading = r;
      }

  fresh_head-Later :
      (s : State) (msg : ParsedMessage)
      → s.reading ≢ Reading.closed
      → (r : Reading) → reading_is_init r ≡ false
      → Later s (fresh s msg r)
  unfolding set_busy and_keep_alive
  fresh_head-Later s msg o r n = ground arith

  -- A new message begins only from `Reading::Init`.
  got_head-Later :
      (i : I) (s : State) (msg : ParsedMessage)
      → s.reading ≢ Reading.closed
      → Later s (got_head t role i s msg).0.state
  unfolding got_head set_busy and_keep_alive
  got_head-Later i s msg o = ground (
    arith,
    fresh_head-Later s msg o Reading.keep_alive refl,
    fresh_head-Later s msg o (Reading.continue (Decode.new msg.decode)) refl,
    fresh_head-Later s msg o (Reading.body (Decode.new msg.decode)) refl,
    Later-trans (fresh_head-Later s msg o Reading.keep_alive refl)
        (conn_keep_alive-Later t role (record { io = i; state = fresh s msg Reading.keep_alive })),
  )

  set_method-Later : (s : State) (m : Option Method) → Later s (record s { method = m })
  set_method-Later s m = ground arith

  parsed-Later :
      (s : State) (x : I × Option Method × Poll Parsed)
      → s.reading ≢ Reading.closed
      → Later s (parsed t role s x).0.state
  unfolding parsed
  parsed-Later s (i, m, pending) o = ground arith
  parsed-Later s (i, m, ready (message msg)) o =
      Later-trans (set_method-Later s m) (got_head-Later i (record s { method = m }) msg o)
  parsed-Later s (i, m, ready (failed e)) o =
      Later-trans (set_method-Later s m)
        (on_read_head_error-Later (record { io = i; state = record s { method = m } }) e)

  done_reading-Later :
      (i : I) (s : State) (r : Reading)
      → s.reading ≢ Reading.closed
      → reading_is_init r ≡ false
      → Later s (done_reading t role i s r).state
  unfolding done_reading
  done_reading-Later i s r o n =
      Later-trans (set_reading-Later s r o n)
        (conn_keep_alive-Later t role (record { io = i; state = record s { reading = r } }))

  read_slice-Later :
      (s : State) (x : I × Decode.Kind × Poll (Result Bytes))
      → s.reading ≢ Reading.closed
      → Later s (read_slice t role s x).0.state
  unfolding read_slice
  read_slice-Later s (i, d, pending) o = ground arith
  read_slice-Later s (i, d, ready (err e)) o = done_reading-Later i s Reading.closed o refl
  read_slice-Later s (i, d, ready (ok b)) o = ground (
    arith,
    done_reading-Later i s Reading.keep_alive o refl,
    done_reading-Later i s Reading.closed o refl,
    set_reading-Later s (Reading.body d) o refl,
  )

  read_from-Later :
      (c : Conn I) (r : Reading) (x : Conn I × Poll (Option (Result Bytes)))
      → c.state.reading ≡ r
      → read_from t role c r ≡ some x
      → Later c.state x.0.state
  unfolding read_from
  read_from-Later c (Reading.body d) x q e =
      let l = read_slice-Later c.state (t.decode c.io d) (λ h. cc) in ground arith
  read_from-Later c (Reading.continue d) x q e =
      let l =
        read_slice-Later (record c.state { reading = Reading.body d })
          (t.decode
            (if writing_is_init c.state.writing then t.extend_headers c.io continue_100 else c.io)
            d)
          (λ h. cc) in
      let k = Later-trans (set_reading-Later c.state (Reading.body d) (λ h. cc) refl) l in
      ground arith
  read_from-Later c Reading.init x q e = cc
  read_from-Later c Reading.keep_alive x q e = cc
  read_from-Later c Reading.closed x q e = cc

  pub poll_read_head-Later :
      (c : Conn I)
      → c.state.reading ≢ Reading.closed
      → Later c.state (poll_read_head t role c).0.state
  unfolding poll_read_head
  poll_read_head-Later c o =
      parsed-Later c.state (t.parse c.io c.state.method c.state.h09_responses) o

  pub poll_read_body-Later :
      (c : Conn I) (x : Conn I × Poll (Option (Result Bytes)))
      → poll_read_body t role c ≡ some x
      → Later c.state x.0.state
  unfolding poll_read_body
  poll_read_body-Later c x e = read_from-Later c c.state.reading x refl e

  forced-Later : (s : State) (x : I × Poll (Result ℕ)) → Later s (forced t role s x).0.state
  unfolding forced close
  forced-Later s (i, pending) = ground arith
  forced-Later s (i, ready (ok n)) = ground arith
  forced-Later s (i, ready (err e)) = ground arith

  empty_read-Later :
      (c : Conn I) (x : Conn I × Poll (Result ℕ))
      → Later c.state x.0.state
      → Later c.state (empty_read t role x).0.state
  unfolding empty_read
  empty_read-Later c (d, pending) l = l
  empty_read-Later c (d, ready (err e)) l = l
  empty_read-Later c (d, ready (ok n)) l = ground (arith, Later-trans l (close_read-Later d.state))

  eof_read-Later :
      (c : Conn I) (x : Conn I × Poll (Result ℕ))
      → Later c.state x.0.state
      → Later c.state (eof_read t role x).0.state
  unfolding eof_read
  eof_read-Later c (d, pending) l = l
  eof_read-Later c (d, ready (err e)) l = l
  eof_read-Later c (d, ready (ok n)) l = ground (arith, Later-trans l (close_read-Later d.state))

  pub poll_read_keep_alive-Later :
      (c : Conn I) → Later c.state (poll_read_keep_alive t role c).0.state
  unfolding poll_read_keep_alive require_empty_read mid_message_detect_eof force_io_read
  poll_read_keep_alive-Later c =
      let x = forced t role c.state (t.poll_read_from_io c.io) in
      let l = forced-Later c.state (t.poll_read_from_io c.io) in
      ground (arith, Later-refl c.state, empty_read-Later c x l, eof_read-Later c x l)

  flushed-Later :
      (s : State) (x : I × Poll (Result (Unit {0}))) → Later s (flushed t role s x).0.state
  unfolding flushed
  flushed-Later s (i, pending) = Later-refl s
  flushed-Later s (i, ready (ok u)) = conn_keep_alive-Later t role (record { io = i; state = s })
  flushed-Later s (i, ready (err e)) = Later-refl s

  pub poll_flush-Later : (c : Conn I) → Later c.state (poll_flush t role c).0.state
  unfolding poll_flush
  poll_flush-Later c = flushed-Later c.state (t.poll_flush c.io)

  close_unless_drained-Later :
      (c : Conn I) (r : Reading) → Later c.state (close_unless_drained t role c r).state
  unfolding close_unless_drained
  close_unless_drained-Later c Reading.init = Later-refl c.state
  close_unless_drained-Later c Reading.keep_alive = Later-refl c.state
  close_unless_drained-Later c Reading.closed = close_read-Later c.state
  close_unless_drained-Later c (Reading.body d) = close_read-Later c.state
  close_unless_drained-Later c (Reading.continue d) = close_read-Later c.state

  drained-Later :
      (s : State) (o : Option (Conn I × Poll (Option (Result Bytes)))) (c' : Conn I)
      → ((x : Conn I × Poll (Option (Result Bytes))) → o ≡ some x → Later s x.0.state)
      → drained t role o ≡ some c'
      → Later s c'.state
  unfolding drained
  drained-Later s none c' l e = cc
  drained-Later s (some (c, p)) c' l e =
      let k = Later-trans (l (c, p) refl) (close_unless_drained-Later c c.state.reading) in
      ground arith

  pub poll_drain_or_close_read-Later :
      (c c' : Conn I) → poll_drain_or_close_read t role c ≡ some c' → Later c.state c'.state
  unfolding poll_drain_or_close_read
  poll_drain_or_close_read-Later c c' e =
      drained-Later c.state (poll_read_body t role c) c' (poll_read_body-Later c) e

  pub disable_keep_alive-Later : (c : Conn I) → Later c.state (disable_keep_alive t role c).state
  unfolding disable_keep_alive close is_idle disable_ka
  disable_keep_alive-Later c = ground arith
