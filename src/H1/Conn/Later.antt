-- ===== src/H1/Conn/Later.antt =====
-- What a connection never takes back: src/proto/h1/conn.rs, operation by operation.
use kaiwaehnero.Base.{ℕ, ◌≡◌, ◌≢◌, refl, false, Option, none, some, Bytes, arith, if◌then◌else◌}
use kaiwaehnero.Poll.{Poll, pending, ready, Result, ok, err}
use kaiwaehnero.Http.{Method, MessageHead, BodyLength}
use kaiwaehnero.H1.Error.{Error}
use kaiwaehnero.H1.Encode
use kaiwaehnero.H1.Conn.State.{
  should_read_first, Role, State, KeepAlive, Reading, Writing, try_keep_alive, close, close_read,
  set_busy, disable_ka,
}
use kaiwaehnero.H1.Conn.Transport.{Transport, Encoded, encoded, refused}
use kaiwaehnero.H1.Conn.Write.{
  Conn, writing_is_init, fix_keep_alive, enforce_version, encode_head, write_head, finish_head,
  start_body, after_head, write_full, write_chunk, write_last, end_writing,
}
use kaiwaehnero.H1.Conn.Read.{
  reading_is_init, answer_error, maybe_notify, after_notify_read, conn_keep_alive, on_parse_error,
}

-- A disabled keep-alive stays disabled, a closed half stays closed, and once keep-alive is
-- disabled a half that has left `Init` does not come back to it.
pub record Later (s s' : State) : Type 0 where
  pub ka : s.ka ≡ KeepAlive.disabled → s'.ka ≡ KeepAlive.disabled
  pub reading : s.reading ≡ Reading.closed → s'.reading ≡ Reading.closed
  pub writing : s.writing ≡ Writing.closed → s'.writing ≡ Writing.closed
  pub read_once :
      s.ka ≡ KeepAlive.disabled
      → reading_is_init s.reading ≡ false
      → reading_is_init s'.reading ≡ false
  pub write_once :
      s.ka ≡ KeepAlive.disabled
      → writing_is_init s.writing ≡ false
      → writing_is_init s'.writing ≡ false

pub Later-refl : (s : State) → Later s s
Later-refl s = record {
  ka = λ h. h;
  reading = λ h. h;
  writing = λ h. h;
  read_once = λ h k. k;
  write_once = λ h k. k;
}

pub Later-trans : {r s t : State} → Later r s → Later s t → Later r t
Later-trans a b = record {
  ka = λ h. b.ka (a.ka h);
  reading = λ h. b.reading (a.reading h);
  writing = λ h. b.writing (a.writing h);
  read_once = λ h k. b.read_once (a.ka h) (a.read_once h k);
  write_once = λ h k. b.write_once (a.ka h) (a.write_once h k);
}

-- Reading moves on from a half that is open.
pub set_reading-Later :
    (s : State) (r : Reading)
    → s.reading ≢ Reading.closed
    → reading_is_init r ≡ false
    → Later s (record s { reading = r })
set_reading-Later s r o n = record {
  ka = λ h. h;
  reading = λ h. absurd (o h);
  writing = λ h. h;
  read_once = λ h k. n;
  write_once = λ h k. k;
}

try_keep_alive-Later : (role : Role) (s : State) → Later s (try_keep_alive role s)
unfolding try_keep_alive
try_keep_alive-Later role s = ground arith

module _ {I : Type 0} (t : Transport I) (role : Role) where
  after_notify_read-Later :
      (r : I × Poll (Result ℕ)) (s : State) → Later s (after_notify_read t role r s).state
  unfolding after_notify_read close close_read
  after_notify_read-Later (i, pending) s = Later-refl s
  after_notify_read-Later (i, ready (ok n)) s = ground arith
  after_notify_read-Later (i, ready (err e)) s = ground arith

  maybe_notify-Later : (c : Conn I) → Later c.state (maybe_notify t role c).state
  unfolding maybe_notify
  maybe_notify-Later c =
      ground (arith, Later-refl c.state, after_notify_read-Later (t.poll_read_from_io c.io) c.state)

  pub conn_keep_alive-Later : (c : Conn I) → Later c.state (conn_keep_alive t role c).state
  unfolding conn_keep_alive
  conn_keep_alive-Later c =
      Later-trans (try_keep_alive-Later role c.state)
        (maybe_notify-Later (record c { state = try_keep_alive role c.state }))

  enforce_version-Later : (s : State) (h : MessageHead) → Later s (enforce_version t role s h).0
  unfolding enforce_version fix_keep_alive disable_ka
  enforce_version-Later s h = ground arith

  finish_head-Later :
      (s : State) (x : I × Option Method × Encoded) → Later s (finish_head t role s x).0.state
  unfolding finish_head
  finish_head-Later s (i, m, encoded e) = ground arith
  finish_head-Later s (i, m, refused e) = ground arith

  set_busy-Later : (s : State) → Later s (if should_read_first role then s else set_busy s)
  unfolding set_busy
  set_busy-Later s = ground arith

  pub encode_head-Later :
      (c : Conn I) (h : MessageHead) (b : Option BodyLength)
      → Later c.state (encode_head t role c h b).0.state
  unfolding encode_head
  encode_head-Later c h b =
      Later-trans (set_busy-Later c.state)
        (Later-trans (enforce_version-Later _ h) (finish_head-Later _ _))

  -- From a state whose writing half is open, to one that may have started a body.
  start_body-Later :
      (s : State) (x : Conn I × Option Encode.Encoder)
      → s.writing ≢ Writing.closed
      → Later s x.0.state
      → Later s (start_body t role x).state
  unfolding start_body after_head
  start_body-Later s (c, none) o l = l
  start_body-Later s (c, some e) o l =
      let k = l.ka in let m = l.reading in let n = l.read_once in ground arith

  pub write_head-Later :
      (c : Conn I) (h : MessageHead) (b : Option BodyLength)
      → c.state.writing ≢ Writing.closed
      → Later c.state (write_head t role c h b).state
  unfolding write_head
  write_head-Later c h b o = start_body-Later c.state _ o (encode_head-Later c h b)

  pub write_full-Later :
      (s : State) (msg : Bytes) (x : Conn I × Option Encode.Encoder) (c' : Conn I)
      → s.writing ≢ Writing.closed
      → Later s x.0.state
      → write_full t role msg x ≡ some c'
      → Later s c'.state
  unfolding write_full
  write_full-Later s msg (c, none) c' o l e = ground arith
  write_full-Later s msg (c, some enc) c' o l e = ground arith

  pub write_chunk-Later :
      (c c' : Conn I) (chunk : Bytes) (w : Writing)
      → c.state.writing ≡ w
      → write_chunk t role c chunk w ≡ some c'
      → Later c.state c'.state
  unfolding write_chunk
  write_chunk-Later c c' chunk (Writing.body e) q h = ground arith
  write_chunk-Later c c' chunk _ q h = cc

  pub write_last-Later :
      (c c' : Conn I) (chunk : Bytes) (w : Writing)
      → c.state.writing ≡ w
      → write_last t role c chunk w ≡ some c'
      → Later c.state c'.state
  unfolding write_last
  write_last-Later c c' chunk (Writing.body e) q h = ground arith
  write_last-Later c c' chunk _ q h = cc

  pub end_writing-Later :
      (c : Conn I) (w : Writing)
      → c.state.writing ≡ w
      → Later c.state (end_writing t role c w).0.state
  unfolding end_writing
  end_writing-Later c (Writing.body e) q = ground arith
  end_writing-Later c _ q = Later-refl c.state

  answer_error-Later :
      (c : Conn I) (e : Error) (m : Option MessageHead)
      → c.state.writing ≢ Writing.closed
      → Later c.state (answer_error t role c e m).0.state
  unfolding answer_error
  answer_error-Later c e none o = Later-refl c.state
  answer_error-Later c e (some m) o = ground (arith, write_head-Later c m none o)

  pub on_parse_error-Later :
      (c : Conn I) (e : Error) → Later c.state (on_parse_error t role c e).0.state
  unfolding on_parse_error
  on_parse_error-Later c e = by_writing c.state.writing refl
    where
      by_writing :
          (w : Writing) → c.state.writing ≡ w → Later c.state (on_parse_error t role c e).0.state
      by_writing Writing.init q =
          ground (arith, Later-refl c.state, answer_error-Later c e (t.on_error e) (λ h. cc))
      by_writing (Writing.body _) q = ground (arith, Later-refl c.state)
      by_writing Writing.keep_alive q = ground (arith, Later-refl c.state)
      by_writing Writing.closed q = ground (arith, Later-refl c.state)
