-- ===== src/H1/Io/Parse.antt =====
-- `Buffered::parse` of src/proto/h1/io.rs with `parse_headers` of src/proto/h1/role.rs: a head is read until the role
-- can parse it. `head` stands for `T::parse`, which the role gives. A call reads the clock once, as `now`; a timer is
-- known by its deadline, and is ready from then on.
pub mod Turns
pub mod Answers
use kaiwaehnero.Base.{
  ℕ, ◌+◌, ◌-◌, ◌*◌, zero, suc, Bool, true, false, not, ◌&&◌, Option, none, some, Bytes, length,
  is_empty, leb, ◌==◌, if◌then◌else◌,
}
use kaiwaehnero.Poll.{Poll, pending, ready, Result, ok, err, ErrorKind}
use kaiwaehnero.H1.MemRead.{MemRead}
use kaiwaehnero.H1.Io.{ReadStrategy, adaptive, exact, Buffered, poll_read_from_io}

-- `ReadStrategy::max`.
unfoldable pub max_size : ReadStrategy → ℕ
max_size (adaptive decrease_now n m) = m
max_size (exact n) = n

-- The timeout for a head, its timer, and whether it runs.
pub record Timing : Type 0 where
  pub header_read_timeout : Option ℕ
  pub timeout_fut : Option ℕ
  pub running : Bool

-- `ParseResult`.
pub data Parsed (E M : Type 0) : Type 0 where
  refused : E → Parsed E M
  partial : Parsed E M
  complete : M → Parsed E M

pub data Answer (E M : Type 0) : Type 0 where
  waits : Answer E M
  parse_error : E → Answer E M
  too_large header_timeout incomplete : Answer E M
  io_error : ErrorKind → Answer E M
  message : M → Answer E M

abbrev thirty_days : ℕ
thirty_days = 30 * 24 * 60 * 60

unfoldable pub start_timer : ℕ → Timing → Timing
start_timer now t =
    if not t.running
    then (elim t.header_read_timeout [
      | none ↦ t
      | some d ↦ record t { timeout_fut = some (now + d) }
    ])
    else t

unfoldable pub stop_timer : ℕ → Timing → Timing
stop_timer now t = record t {
  running = false;
  timeout_fut = elim t.timeout_fut [ none ↦ none | some d ↦ some (now + thirty_days) ];
}

unfoldable pub is_late : ℕ → Timing → Bool
is_late now t = t.running && elim t.timeout_fut [ none ↦ false | some d ↦ leb d now ]

module _ {S E M : Type 0} (source : MemRead S) (room : Bytes → ℕ → ℕ)
    (head : Bytes → Bytes × Parsed E M) (now : ℕ) where
  -- What is left of the bytes and what they are.
  unfoldable pub head_of : Bytes → Bytes × Parsed E M
  head_of w = if is_empty w then (w, partial) else head w

  -- `parse_headers`.
  unfoldable pub parse_headers : Bytes → Timing → (Bytes × Parsed E M) × Timing
  unfolding head_of start_timer
  parse_headers w t = (head_of w, (if is_empty w then t else start_timer now t))

  -- One turn of the loop.
  pub data Turn : Type 0 where
    ended : Buffered S → Timing → Answer E M → Turn
    again : Buffered S → Timing → Turn

  unfoldable pub after_io : Timing → Buffered S × Poll (Result ℕ) → Turn
  after_io t (b, pending) = ended b t waits
  after_io t (b, ready (err e)) = ended b t (io_error e)
  after_io t (b, ready (ok n)) = if n == 0 then ended b t incomplete else again b t

  unfoldable pub after_parse : Buffered S → Timing → Parsed E M → Turn
  unfolding after_io max_size is_late stop_timer
  after_parse b t (refused e) = ended b t (parse_error e)
  after_parse b t (complete m) = ended b (stop_timer now t) (message m)
  after_parse b t partial =
      if leb (max_size b.read_buf_strategy) (length b.read_buf)
      then ended b t too_large
      else if is_late now t
      then ended b (record t { running = false }) header_timeout
      else after_io t (poll_read_from_io source room b)

  unfoldable pub turn : Buffered S → Timing → Turn
  unfolding parse_headers after_parse
  turn b t =
      let r = parse_headers b.read_buf t in after_parse (record b { read_buf = r.0.0 }) r.1 r.0.1

  unfoldable pub parse_loop : ℕ → Buffered S → Timing → Option ((Buffered S × Timing) × Answer E M)
  unfolding turn
  parse_loop zero b t = none
  parse_loop (suc fuel) b t = elim (turn b t) [
    | ended b' t' a ↦ some ((b', t'), a)
    | again b' t' ↦ parse_loop fuel b' t'
  ]

  -- With one turn of fuel for each byte that the buffer may still take, and one more.
  unfoldable pub parse : Buffered S → Timing → Option ((Buffered S × Timing) × Answer E M)
  unfolding parse_loop max_size
  parse b t = parse_loop (suc (max_size b.read_buf_strategy - length b.read_buf)) b t
