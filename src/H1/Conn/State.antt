-- ===== src/H1/Conn/State.antt =====
-- `State` of src/proto/h1/conn.rs and its methods. Left out of the record: the cached header map,
-- the parser's and the writer's settings, the header timeout and the pending upgrade.
use kaiwaehnero.Base.{Bool, true, false, not, Option, none, if◌then◌else◌}
use kaiwaehnero.Http.{Method, Version, http_11}
use kaiwaehnero.H1.Error.{Error}
use kaiwaehnero.H1.Decode
use kaiwaehnero.H1.Encode

-- The two implementations of `Http1Transaction`.
pub data Role : Type 0 where
  client server : Role

abbrev pub should_read_first : Role → Bool
should_read_first client = false
should_read_first server = true

abbrev pub should_error_on_parse_eof : Role → Bool
should_error_on_parse_eof client = true
should_error_on_parse_eof server = false

pub data KeepAlive : Type 0 where
  idle busy disabled : KeepAlive

pub data Reading : Type 0 where
  init : Reading
  continue : Decode.Kind → Reading
  body : Decode.Kind → Reading
  keep_alive : Reading
  closed : Reading

pub data Writing : Type 0 where
  init : Writing
  body : Encode.Encoder → Writing
  keep_alive : Writing
  closed : Writing

pub record State : Type 0 where
  pub allow_half_close : Bool
  pub error : Option Error
  pub ka : KeepAlive
  pub method : Option Method
  pub h09_responses : Bool
  pub notify_read : Bool
  pub reading : Reading
  pub writing : Writing
  pub version : Version

unfoldable pub new : State
new = record {
  allow_half_close = false;
  error = none;
  ka = KeepAlive.busy;
  method = none;
  h09_responses = false;
  notify_read = false;
  reading = Reading.init;
  writing = Writing.init;
  version = http_11;
}

unfoldable pub close : State → State
close s = record s { reading = Reading.closed; writing = Writing.closed; ka = KeepAlive.disabled }

unfoldable pub close_read : State → State
close_read s = record s { reading = Reading.closed; ka = KeepAlive.disabled }

unfoldable pub close_write : State → State
close_write s = record s { writing = Writing.closed; ka = KeepAlive.disabled }

abbrev pub is_disabled : KeepAlive → Bool
is_disabled KeepAlive.disabled = true
is_disabled _ = false

abbrev pub ka_is_idle : KeepAlive → Bool
ka_is_idle KeepAlive.idle = true
ka_is_idle _ = false

abbrev pub ka_is_busy : KeepAlive → Bool
ka_is_busy KeepAlive.busy = true
ka_is_busy _ = false

unfoldable pub wants_keep_alive : State → Bool
wants_keep_alive s = not (is_disabled s.ka)

unfoldable pub disable_ka : State → State
disable_ka s = record s { ka = KeepAlive.disabled }

-- `KA &= enabled`.
unfoldable pub and_keep_alive : State → Bool → State
and_keep_alive s enabled = if enabled then s else record s { ka = KeepAlive.disabled }

unfoldable pub set_busy : State → State
set_busy s = if is_disabled s.ka then s else record s { ka = KeepAlive.busy }

unfoldable pub is_idle : State → Bool
is_idle s = ka_is_idle s.ka

abbrev pub reading_is_closed : Reading → Bool
reading_is_closed Reading.closed = true
reading_is_closed _ = false

abbrev pub writing_is_closed : Writing → Bool
writing_is_closed Writing.closed = true
writing_is_closed _ = false

unfoldable pub is_read_closed : State → Bool
is_read_closed s = reading_is_closed s.reading

unfoldable pub is_write_closed : State → Bool
is_write_closed s = writing_is_closed s.writing

-- `State::idle`. Its test of `is_idle` right after `keep_alive.idle()` always holds; a client asks
-- the dispatcher for one more round.
unfoldable pub to_idle : Role → State → State
to_idle role s =
    let t = record s { method = none; ka = KeepAlive.idle } in
    if ka_is_idle t.ka
    then record t {
      reading = Reading.init;
      writing = Writing.init;
      notify_read = if should_read_first role then t.notify_read else true;
    }
    else close t

unfoldable pub keep_or_close : Role → State → Reading → Writing → State
unfolding to_idle close
keep_or_close role s Reading.keep_alive Writing.keep_alive =
    if ka_is_busy s.ka then to_idle role s else close s
keep_or_close role s Reading.closed Writing.keep_alive = close s
keep_or_close role s Reading.keep_alive Writing.closed = close s
keep_or_close role s _ _ = s

unfoldable pub try_keep_alive : Role → State → State
unfolding keep_or_close
try_keep_alive role s = keep_or_close role s s.reading s.writing
