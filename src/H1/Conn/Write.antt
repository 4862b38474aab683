-- ===== src/H1/Conn/Write.antt =====
-- The operations of src/proto/h1/conn.rs that write. `none` is a panic: an `unreachable!`, or the
-- `expect` of a chunk's size line.
use kaiwaehnero.Base.{
  Bool, true, false, not, ◌&&◌, Option, none, some, List, [], ◌∷◌, Bytes, length, if◌then◌else◌,
}
use kaiwaehnero.Http.{
  Method, Version, http_10, http_11, Header, connection, MessageHead, BodyLength, known,
  is_connection, remove, get_all,
}
use kaiwaehnero.H1.Error.{Error, user_body_write_aborted}
use kaiwaehnero.H1.Encode.{Encoder, encode, encode_and_end, danger_full_buf, End, ended, not_eof}
use kaiwaehnero.H1.Encode
use kaiwaehnero.H1.Conn.State.{
  Role, State, Writing, should_read_first, set_busy, wants_keep_alive, disable_ka,
  reading_is_closed,
}
use kaiwaehnero.H1.Conn.Transport.{Transport, Encoded, encoded, refused}

pub record Conn (I : Type 0) : Type 0 where
  pub io : I
  pub state : State

abbrev pub writing_is_init : Writing → Bool
writing_is_init Writing.init = true
writing_is_init _ = false

abbrev pub writing_is_body : Writing → Bool
writing_is_body (Writing.body _) = true
writing_is_body _ = false

-- `HeaderMap::insert`: the lines of that name give way to one.
abbrev pub insert_keep_alive : List Header → List Header
insert_keep_alive hs =
    record {
      name = connection;
      value = b'k' ∷ b'e' ∷ b'e' ∷ b'p' ∷ b'-' ∷ b'a' ∷ b'l' ∷ b'i' ∷ b'v' ∷ b'e' ∷ [];
    }
    ∷ remove is_connection hs

module _ {I : Type 0} (t : Transport I) (role : Role) where
  unfoldable pub can_write_head : Conn I → Bool
  can_write_head c =
      not (not (should_read_first role) && reading_is_closed c.state.reading)
      && writing_is_init c.state.writing
      && t.can_headers_buf c.io

  unfoldable pub can_write_body : Conn I → Bool
  can_write_body c = writing_is_body c.state.writing

  -- The first `connection` line, if there is one, says `keep-alive`.
  unfoldable pub says_keep_alive : List Bytes → Bool
  says_keep_alive [] = false
  says_keep_alive (v ∷ _) = t.connection_keep_alive v

  unfoldable pub by_version : Version → State → MessageHead → State × MessageHead
  by_version http_10 s head = (disable_ka s, head)
  by_version http_11 s head =
      if wants_keep_alive s
      then (s, record head { headers = insert_keep_alive head.headers })
      else (s, head)
  by_version _ s head = (s, head)

  unfoldable pub fix_keep_alive : State → MessageHead → State × MessageHead
  unfolding says_keep_alive by_version
  fix_keep_alive s head =
      if says_keep_alive (get_all is_connection head.headers)
      then (s, head)
      else by_version head.version s head

  abbrev pub is_10 : Version → Bool
  is_10 http_10 = true
  is_10 _ = false

  unfoldable pub enforce_version : State → MessageHead → State × MessageHead
  enforce_version s head =
      let (s', head') = fix_keep_alive s head in
      if is_10 s.version then (s', record head' { version = http_10 }) else (s, head)

  unfoldable pub finish_head : State → I × Option Method × Encoded → Conn I × Option Encoder
  finish_head s (io, m, encoded e) = (record { io = io; state = record s { method = m } }, some e)
  finish_head s (io, m, refused e) = (
    record { io = io; state = record s { method = m; error = some e; writing = Writing.closed } },
    none,
  )

  unfoldable pub encode_head : Conn I → MessageHead → Option BodyLength → Conn I × Option Encoder
  unfolding finish_head
  encode_head c head body =
      let s = if should_read_first role then c.state else set_busy c.state in
      let (s', head') = enforce_version s head in
      finish_head s' (t.encode_headers c.io head' body (wants_keep_alive s') s'.method)

  unfoldable pub after_head : Encoder → Writing
  after_head e =
      if not (Encode.is_eof e)
      then Writing.body e
      else if e.is_last
      then Writing.closed
      else Writing.keep_alive

  unfoldable pub start_body : Conn I × Option Encoder → Conn I
  unfolding after_head
  start_body (c, none) = c
  start_body (c, some e) = record c { state = record c.state { writing = after_head e } }

  unfoldable pub write_head : Conn I → MessageHead → Option BodyLength → Conn I
  unfolding start_body
  write_head c head body = start_body (encode_head c head body)

  unfoldable pub write_full : Bytes → Conn I × Option Encoder → Option (Conn I)
  write_full msg (c, none) = some c
  write_full msg (c, some e) =
      let s = record c.state {
        writing = if e.is_last then Writing.closed else Writing.keep_alive;
      } in
      if Encode.is_eof e then some (record c { state = s }) else elim (danger_full_buf e msg) [
        | none ↦ none
        | some b ↦ some (record c { io = t.buffer c.io b; state = s })
      ]

  unfoldable pub write_full_msg : Conn I → MessageHead → Bytes → Option (Conn I)
  unfolding write_full
  write_full_msg c head msg = write_full msg (encode_head c head (some (known (length msg))))

  unfoldable pub after_chunk : Encoder → Writing
  after_chunk e =
      if Encode.is_eof e
      then (if e.is_last then Writing.closed else Writing.keep_alive)
      else Writing.body e

  unfoldable pub write_chunk : Conn I → Bytes → Writing → Option (Conn I)
  unfolding after_chunk
  write_chunk c chunk (Writing.body e) = elim (encode e chunk) [
    | none ↦ none
    | some (e', b) ↦
        some
          (record c { io = t.buffer c.io b; state = record c.state { writing = after_chunk e' } })
  ]
  write_chunk c chunk _ = none

  unfoldable pub write_body : Conn I → Bytes → Option (Conn I)
  unfolding write_chunk
  write_body c chunk = write_chunk c chunk c.state.writing

  unfoldable pub write_last : Conn I → Bytes → Writing → Option (Conn I)
  write_last c chunk (Writing.body e) = elim (encode_and_end e chunk) [
    | none ↦ none
    | some (b, can_keep_alive) ↦ some (record c {
      io = t.buffer c.io b;
      state = record c.state {
        writing = if can_keep_alive then Writing.keep_alive else Writing.closed;
      };
    })
  ]
  write_last c chunk _ = none

  unfoldable pub write_body_and_end : Conn I → Bytes → Option (Conn I)
  unfolding write_last
  write_body_and_end c chunk = write_last c chunk c.state.writing

  abbrev pub buffer_end : I → Option Encode.EncodedBuf → I
  buffer_end io none = io
  buffer_end io (some b) = t.buffer io b

  unfoldable pub end_with : Conn I → Encoder → End → Conn I × Option Error
  end_with c e (ended b) = (
    record {
      io = buffer_end c.io b;
      state = record c.state {
        writing =
            if e.is_last
            then Writing.closed
            else if Encode.is_close_delimited e
            then Writing.closed
            else Writing.keep_alive;
      };
    },
    none,
  )
  end_with c e not_eof = (
    record c { state = record c.state { writing = Writing.closed } },
    some user_body_write_aborted,
  )

  unfoldable pub end_writing : Conn I → Writing → Conn I × Option Error
  unfolding end_with
  end_writing c (Writing.body e) = end_with c e (Encode.end e)
  end_writing c _ = (c, none)

  -- `some e` is the error returned.
  unfoldable pub end_body : Conn I → Conn I × Option Error
  unfolding end_writing
  end_body c = end_writing c c.state.writing
