-- ===== src/Examples/Conns.antt =====
-- Runs of one connection, over a transport that has nothing to read and takes all it is given.
use kaiwaehnero.Base.{◌≡◌, refl, true, false, none, Bytes, [], ◌++◌}
use kaiwaehnero.Poll.{pending, ready, ok}
use kaiwaehnero.H1.Encode
use kaiwaehnero.H1.Conn.State.{
  server, KeepAlive, Reading, Writing, new, close_read, wants_keep_alive,
}
use kaiwaehnero.H1.Conn.Transport.{Transport, encoded}
use kaiwaehnero.H1.Conn.Write.{Conn, can_write_head}
use kaiwaehnero.H1.Conn.Read.{poll_flush, can_read_head, can_read_body}
use kaiwaehnero.H1.Conn.Steps.{
  here, more, flush, Reach-read_closed, Reach-last_read, Reach-last_written,
}

abbrev pub quiet : Transport Bytes
quiet = record {
  parse = λ i m h. (i, m, pending);
  decode = λ i d. (i, d, ready (ok []));
  poll_read_from_io = λ i. (i, ready (ok 0));
  read_buf = λ i. [];
  is_read_blocked = λ i. false;
  consume_leading_lines = λ i. i;
  can_headers_buf = λ i. true;
  extend_headers = λ i b. i ++ b;
  encode_headers = λ i h b k m. (i, m, encoded (Encode.new Encode.chunked));
  buffer = λ i b. i ++ Encode.contents b;
  can_buffer = λ i. true;
  poll_flush = λ i. ([], ready (ok tt));
  poll_shutdown = λ i. (i, ready (ok tt));
  on_error = λ e. none;
  connection_keep_alive = λ v. false;
}

-- The peer has closed its side.
abbrev half_closed : Conn Bytes
half_closed = record { io = []; state = close_read new }

-- The last response is written, the connection is not to be kept.
abbrev ending : Conn Bytes
ending = record {
  io = [];
  state = record new {
    ka = KeepAlive.disabled;
    reading = Reading.keep_alive;
    writing = Writing.keep_alive;
  };
}

Reach-read_closed_example :
    can_read_head quiet server (poll_flush quiet server half_closed).0 ≡ false
    × can_read_body quiet server (poll_flush quiet server half_closed).0 ≡ false
unfolding close_read
Reach-read_closed_example = Reach-read_closed quiet server (more here flush) refl

Reach-last_read_example :
    can_read_head quiet server (poll_flush quiet server ending).0 ≡ false
    × wants_keep_alive (poll_flush quiet server ending).0.state ≡ false
Reach-last_read_example = Reach-last_read quiet server (more here flush) refl refl

Reach-last_written_example : can_write_head quiet server (poll_flush quiet server ending).0 ≡ false
Reach-last_written_example = Reach-last_written quiet server (more here flush) refl refl
