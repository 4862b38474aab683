-- ===== src/H1/Io.antt =====
-- The reading half of src/proto/h1/io.rs: `Buffered` as a reader of a message's body, and how much it asks for.
-- `source` is the `AsyncRead` below it; `room` is what `BytesMut` has room for once `reserve(next)` was called
-- where it had less.
pub mod Reader
pub mod Write
pub mod Flush
pub mod Parse
use kaiwaehnero.Base.{
  ℕ, ◌+◌, ◌*◌, ◌/◌, ◌-◌, ◌^◌, ◌≤◌, ◌<◌, ◌≡◌, zero, suc, Bool, true, false, Bytes, [], ◌∷◌, ◌++◌,
  length, take, drop, is_empty, ltb, leb, ◌==◌, min, max, if◌then◌else◌,
}
use kaiwaehnero.Body.{u64_max}
use kaiwaehnero.Poll.{Poll, pending, ready, Result, ok, err}
use kaiwaehnero.H1.MemRead.{MemRead}

abbrev pub init_buffer_size : ℕ
init_buffer_size = 8192

pub data ReadStrategy : Type 0 where
  adaptive : Bool → ℕ → ℕ → ReadStrategy
  exact : ℕ → ReadStrategy

unfoldable pub with_max : ℕ → ReadStrategy
with_max m = adaptive false init_buffer_size m

unfoldable pub next : ReadStrategy → ℕ
next (adaptive decrease_now n m) = n
next (exact n) = n

unfoldable pub incr_power_of_two : ℕ → ℕ
incr_power_of_two n = min (n * 2) u64_max

-- How many bits a number has; a `usize` has 64 less its leading zeros.
bits : ℕ → ℕ → ℕ
bits zero n = 0
bits (suc fuel) n = let b = bits fuel (n / 2) in if n == 0 then 0 else suc b

-- `(usize::MAX >> (n.leading_zeros() + 2)) + 1`.
unfoldable pub prev_power_of_two : ℕ → ℕ
unfolding bits
prev_power_of_two n = u64_max / 2 ^ (64 - bits 64 n + 2) + 1

unfoldable pub record_read : ReadStrategy → ℕ → ReadStrategy
record_read (adaptive decrease_now n m) bytes_read =
    let decr_to = prev_power_of_two n in
    if leb n bytes_read
    then adaptive false (min (incr_power_of_two n) m) m
    else if ltb bytes_read decr_to
    then (if decrease_now
        then adaptive false (max decr_to init_buffer_size) m
        else adaptive true n m)
    else adaptive false n m
record_read (exact n) bytes_read = exact n

pub record Buffered (S : Type 0) : Type 0 where
  pub io : S
  pub read_blocked : Bool
  pub read_buf : Bytes
  pub read_buf_strategy : ReadStrategy

module _ {S : Type 0} (source : MemRead S) (room : Bytes → ℕ → ℕ) where
  unfoldable pub received : Buffered S → S × Poll (Result Bytes) → Buffered S × Poll (Result ℕ)
  received b (s, pending) = (record b { io = s; read_blocked = true }, pending)
  received b (s, ready (err e)) = (record b { io = s; read_blocked = false }, ready (err e))
  received b (s, ready (ok bytes)) = (
    record b {
      io = s;
      read_blocked = false;
      read_buf = b.read_buf ++ bytes;
      read_buf_strategy = record_read b.read_buf_strategy (length bytes);
    },
    ready (ok (length bytes)),
  )

  unfoldable pub poll_read_from_io : Buffered S → Buffered S × Poll (Result ℕ)
  unfolding received
  poll_read_from_io b =
      received b (source.read_mem b.io (room b.read_buf (next b.read_buf_strategy)))

  -- `read_buf.split_to(n)`.
  unfoldable pub split_to : Buffered S → ℕ → Buffered S × Poll (Result Bytes)
  split_to b n = (record b { read_buf = drop n b.read_buf }, ready (ok (take n b.read_buf)))

  unfoldable pub after_read : ℕ → Buffered S × Poll (Result ℕ) → Buffered S × Poll (Result Bytes)
  unfolding split_to
  after_read len (b, pending) = (b, pending)
  after_read len (b, ready (err e)) = (b, ready (err e))
  after_read len (b, ready (ok n)) = split_to b (min len n)

  unfoldable pub read_mem : Buffered S → ℕ → Buffered S × Poll (Result Bytes)
  unfolding split_to after_read
  read_mem b len =
      if is_empty b.read_buf
      then after_read len (poll_read_from_io b)
      else split_to b (min len (length b.read_buf))
