-- ===== src/H1/Conn/Read.antt =====
-- The operations of src/proto/h1/conn.rs that read, flush and close. `none` is the panic of an
-- `unreachable!`.
use kaiwaehnero.Base.{
  ℕ, Bool, true, false, not, ◌&&◌, ◌||◌, Option, none, some, [], ◌∷◌, Bytes, length, take, is_empty,
  leb, ◌==◌, if◌then◌else◌,
}
use kaiwaehnero.Poll.{Poll, pending, ready, Result, ok, err}
use kaiwaehnero.Body.{DecodedLength}
use kaiwaehnero.Http.{Method, MessageHead}
use kaiwaehnero.Headers.{bytes_eq}
use kaiwaehnero.H1.Error.{
  Error, is_parse, parse, version_h2, io, incomplete_message, unexpected_message,
}
use kaiwaehnero.H1.Decode
use kaiwaehnero.H1.Conn.State.{
  Role, State, Reading, should_read_first, should_error_on_parse_eof, set_busy, and_keep_alive,
  is_idle, close, close_read, close_write, try_keep_alive, is_read_closed, disable_ka,
}
use kaiwaehnero.H1.Conn.Transport.{Transport, Parsed, message, failed, ParsedMessage}
use kaiwaehnero.H1.Conn.Write.{Conn, writing_is_init, writing_is_body, write_head}

abbrev pub reading_is_init : Reading → Bool
reading_is_init Reading.init = true
reading_is_init _ = false

abbrev pub reading_is_body : Reading → Bool
reading_is_body (Reading.body _) = true
reading_is_body (Reading.continue _) = true
reading_is_body _ = false

-- "PRI * HTTP/2.0\r\n\r\nSM\r\n\r\n".
abbrev pub h2_preface : Bytes
h2_preface =
    b'P' ∷ b'R' ∷ b'I' ∷ 32 ∷ b'*' ∷ 32 ∷ b'H' ∷ b'T' ∷ b'T' ∷ b'P' ∷ b'/' ∷ b'2' ∷ b'.' ∷ b'0' ∷ 13
    ∷ 10 ∷ 13 ∷ 10 ∷ b'S' ∷ b'M' ∷ 13 ∷ 10 ∷ 13 ∷ 10 ∷ []

-- "HTTP/1.1 100 Continue\r\n\r\n".
abbrev pub continue_100 : Bytes
continue_100 =
    b'H' ∷ b'T' ∷ b'T' ∷ b'P' ∷ b'/' ∷ b'1' ∷ b'.' ∷ b'1' ∷ 32 ∷ b'1' ∷ b'0' ∷ b'0' ∷ 32 ∷ b'C'
    ∷ b'o' ∷ b'n' ∷ b't' ∷ b'i' ∷ b'n' ∷ b'u' ∷ b'e' ∷ 13 ∷ 10 ∷ 13 ∷ 10 ∷ []

-- What `poll_read_head` gives: a head with its body's length and what it wants, or an error.
pub data Incoming : Type 0 where
  head : MessageHead → DecodedLength → Bool → Bool → Incoming
  error : Error → Incoming

module _ {I : Type 0} (t : Transport I) (role : Role) where
  unfoldable pub can_read_head : Conn I → Bool
  can_read_head c =
      reading_is_init c.state.reading
      && (should_read_first role || not (writing_is_init c.state.writing))

  unfoldable pub can_read_body : Conn I → Bool
  can_read_body c = reading_is_body c.state.reading

  unfoldable pub should_error_on_eof : Conn I → Bool
  should_error_on_eof c = should_error_on_parse_eof role && not (is_idle c.state)

  unfoldable pub has_h2_prefix : Conn I → Bool
  has_h2_prefix c = let b = t.read_buf c.io in leb 24 (length b) && bytes_eq (take 24 b) h2_preface

  unfoldable pub notify : Conn I → Conn I
  notify c = record c { state = record c.state { notify_read = true } }

  unfoldable pub after_notify_read : I × Poll (Result ℕ) → State → Conn I
  unfolding notify
  after_notify_read (i, pending) s = record { io = i; state = s }
  after_notify_read (i, ready (ok n)) s =
      if n == 0
      then record { io = i; state = if is_idle s then close s else close_read s }
      else notify (record { io = i; state = s })
  after_notify_read (i, ready (err e)) s =
      notify (record { io = i; state = record (close s) { error = some (io e) } })

  unfoldable pub maybe_notify : Conn I → Conn I
  unfolding notify after_notify_read
  maybe_notify c =
      if not (reading_is_init c.state.reading)
      then c
      else if writing_is_body c.state.writing
      then c
      else if t.is_read_blocked c.io
      then c
      else if is_empty (t.read_buf c.io)
      then after_notify_read (t.poll_read_from_io c.io) c.state
      else notify c

  unfoldable pub conn_keep_alive : Conn I → Conn I
  conn_keep_alive c = maybe_notify (record c { state = try_keep_alive role c.state })

  unfoldable pub answer_error : Conn I → Error → Option MessageHead → Conn I × Option Error
  answer_error c e none = (c, some e)
  answer_error c e (some msg) =
      let c' = write_head t role c msg none in
      (record c' { state = record c'.state { error = some e } }, none)

  -- `some e` is the error handed back; `none` says that a response was written in its place.
  unfoldable pub on_parse_error : Conn I → Error → Conn I × Option Error
  unfolding answer_error
  on_parse_error c e =
      if writing_is_init c.state.writing
      then (if has_h2_prefix c
          then (c, some (parse version_h2))
          else answer_error c e (t.on_error e))
      else (c, some e)

  unfoldable pub read_error : Conn I × Option Error → Conn I × Poll (Option Incoming)
  read_error (c, none) = (c, pending)
  read_error (c, some e) = (c, ready (some (error e)))

  unfoldable pub on_read_head_error : Conn I → Error → Conn I × Poll (Option Incoming)
  unfolding read_error
  on_read_head_error c e =
      let must_error = should_error_on_eof c in
      let c' : Conn I = record { io = t.consume_leading_lines c.io; state = close_read c.state } in
      let was_mid_parse = is_parse e || not (is_empty (t.read_buf c'.io)) in
      if was_mid_parse || must_error
      then read_error (on_parse_error c' e)
      else (record c' { state = close_write c'.state }, ready none)

  unfoldable pub got_head : I → State → ParsedMessage → Conn I × Poll (Option Incoming)
  got_head i s msg =
      let s' =
        record (and_keep_alive (set_busy (record s { h09_responses = false })) msg.keep_alive) {
          version = msg.head.version;
        } in
      if msg.decode.value == 0
      then (
        (if should_read_first role
            then record { io = i; state = record s' { reading = Reading.keep_alive } }
            else conn_keep_alive
                (record { io = i; state = record s' { reading = Reading.keep_alive } })),
        ready (some (head msg.head msg.decode msg.wants_upgrade false)),
      )
      else if msg.expect_continue
      then (
        record { io = i; state = record s' { reading = Reading.continue (Decode.new msg.decode) } },
        ready (some (head msg.head msg.decode msg.wants_upgrade true)),
      )
      else (
        record { io = i; state = record s' { reading = Reading.body (Decode.new msg.decode) } },
        ready (some (head msg.head msg.decode msg.wants_upgrade false)),
      )

  unfoldable pub parsed : State → I × Option Method × Poll Parsed → Conn I × Poll (Option Incoming)
  unfolding got_head
  parsed s (i, m, pending) = (record { io = i; state = record s { method = m } }, pending)
  parsed s (i, m, ready (message msg)) = got_head i (record s { method = m }) msg
  parsed s (i, m, ready (failed e)) =
      on_read_head_error (record { io = i; state = record s { method = m } }) e

  unfoldable pub poll_read_head : Conn I → Conn I × Poll (Option Incoming)
  unfolding parsed
  poll_read_head c = parsed c.state (t.parse c.io c.state.method c.state.h09_responses)

  unfoldable pub done_reading : I → State → Reading → Conn I
  done_reading i s r = conn_keep_alive (record { io = i; state = record s { reading = r } })

  unfoldable pub read_slice :
      State → I × Decode.Kind × Poll (Result Bytes) → Conn I × Poll (Option (Result Bytes))
  unfolding done_reading
  read_slice s (i, d, pending) =
      (record { io = i; state = record s { reading = Reading.body d } }, pending)
  read_slice s (i, d, ready (err e)) = (done_reading i s Reading.closed, ready (some (err e)))
  read_slice s (i, d, ready (ok slice)) =
      if Decode.is_eof d
      then (
        done_reading i s Reading.keep_alive,
        ready (if is_empty slice then none else some (ok slice)),
      )
      else if is_empty slice
      then (done_reading i s Reading.closed, ready none)
      else (
        record { io = i; state = record s { reading = Reading.body d } },
        ready (some (ok slice)),
      )

  unfoldable pub read_from : Conn I → Reading → Option (Conn I × Poll (Option (Result Bytes)))
  unfolding read_slice
  read_from c (Reading.body d) = some (read_slice c.state (t.decode c.io d))
  read_from c (Reading.continue d) =
      let i =
        if writing_is_init c.state.writing then t.extend_headers c.io continue_100 else c.io in
      some (read_slice (record c.state { reading = Reading.body d }) (t.decode i d))
  read_from c _ = none

  unfoldable pub poll_read_body : Conn I → Option (Conn I × Poll (Option (Result Bytes)))
  unfolding read_from
  poll_read_body c = read_from c c.state.reading

  unfoldable pub is_mid_message : Conn I → Bool
  is_mid_message c = not (reading_is_init c.state.reading && writing_is_init c.state.writing)

  -- `force_io_read`: an I/O error closes the connection.
  unfoldable pub forced : State → I × Poll (Result ℕ) → Conn I × Poll (Result ℕ)
  forced s (i, ready (err e)) = (record { io = i; state = close s }, ready (err e))
  forced s (i, p) = (record { io = i; state = s }, p)

  unfoldable pub force_io_read : Conn I → Conn I × Poll (Result ℕ)
  unfolding forced
  force_io_read c = forced c.state (t.poll_read_from_io c.io)

  -- `none` is `Ok(())`.
  unfoldable pub empty_read : Conn I × Poll (Result ℕ) → Conn I × Poll (Option Error)
  empty_read (c, pending) = (c, pending)
  empty_read (c, ready (err e)) = (c, ready (some (io e)))
  empty_read (c, ready (ok n)) =
      if n == 0
      then (
        record c { state = close_read c.state },
        ready (if should_error_on_eof c then some incomplete_message else none),
      )
      else (c, ready (some unexpected_message))

  unfoldable pub require_empty_read : Conn I → Conn I × Poll (Option Error)
  unfolding empty_read
  require_empty_read c =
      if not (is_empty (t.read_buf c.io))
      then (c, ready (some unexpected_message))
      else empty_read (force_io_read c)

  unfoldable pub eof_read : Conn I × Poll (Result ℕ) → Conn I × Poll (Option Error)
  eof_read (c, pending) = (c, pending)
  eof_read (c, ready (err e)) = (c, ready (some (io e)))
  eof_read (c, ready (ok n)) =
      if n == 0
      then (record c { state = close_read c.state }, ready (some incomplete_message))
      else (c, ready none)

  unfoldable pub mid_message_detect_eof : Conn I → Conn I × Poll (Option Error)
  unfolding eof_read
  mid_message_detect_eof c =
      if c.state.allow_half_close || not (is_empty (t.read_buf c.io))
      then (c, pending)
      else eof_read (force_io_read c)

  unfoldable pub poll_read_keep_alive : Conn I → Conn I × Poll (Option Error)
  poll_read_keep_alive c =
      if is_read_closed c.state
      then (c, pending)
      else if is_mid_message c
      then mid_message_detect_eof c
      else require_empty_read c

  unfoldable pub flushed : State → I × Poll (Result (Unit {0})) → Conn I × Poll (Result (Unit {0}))
  flushed s (i, ready (ok u)) = (conn_keep_alive (record { io = i; state = s }), ready (ok u))
  flushed s (i, p) = (record { io = i; state = s }, p)

  unfoldable pub poll_flush : Conn I → Conn I × Poll (Result (Unit {0}))
  unfolding flushed
  poll_flush c = flushed c.state (t.poll_flush c.io)

  unfoldable pub close_unless_drained : Conn I → Reading → Conn I
  close_unless_drained c Reading.init = c
  close_unless_drained c Reading.keep_alive = c
  close_unless_drained c _ = record c { state = close_read c.state }

  unfoldable pub drained : Option (Conn I × Poll (Option (Result Bytes))) → Option (Conn I)
  unfolding close_unless_drained
  drained none = none
  drained (some (c, _)) = some (close_unless_drained c c.state.reading)

  unfoldable pub poll_drain_or_close_read : Conn I → Option (Conn I)
  unfolding drained
  poll_drain_or_close_read c = drained (poll_read_body c)

  unfoldable pub disable_keep_alive : Conn I → Conn I
  disable_keep_alive c = record c {
    state = if is_idle c.state then close c.state else disable_ka c.state;
  }

  unfoldable pub take_error : Conn I → Conn I × Option Error
  take_error c = (record c { state = record c.state { error = none } }, c.state.error)

  unfoldable pub wants_read_again : Conn I → Conn I × Bool
  wants_read_again c =
      (record c { state = record c.state { notify_read = false } }, c.state.notify_read)

  unfoldable pub can_buffer_body : Conn I → Bool
  can_buffer_body c = t.can_buffer c.io

  unfoldable pub poll_shutdown : Conn I → Conn I × Poll (Result (Unit {0}))
  poll_shutdown c = let (i, p) = t.poll_shutdown c.io in (record c { io = i }, p)
