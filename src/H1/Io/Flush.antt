-- ===== src/H1/Io/Flush.antt =====
-- `Buffered::poll_flush` of src/proto/h1/io.rs. `AsyncWrite` is the trait of tokio; `sent s` stands for the bytes
-- that the transport took.
pub mod Sent
use kaiwaehnero.Base.{
  ℕ, ◌-◌, ◌≡◌, ◌≤◌, ◌++◌, zero, suc, Bool, true, false, not, ◌&&◌, Option, none, some, List, Bytes,
  length, take, concat, is_empty, ◌==◌, if◌then◌else◌,
}
use kaiwaehnero.Poll.{Poll, pending, ready, Result, ok, err, write_zero, ErrorKind}
use kaiwaehnero.Common.Buf.{Buf}
use kaiwaehnero.H1.Io.Write.{
  Cursor, reset, cursor_remaining, cursor_chunk, cursor_advance, WriteStrategy, flatten, queued,
  WriteBuf, remaining, advance, chunks_vectored,
}

pub data Unit1 : Type 0 where
  done : Unit1

pub record AsyncWrite (S : Type 0) : Type 0 where
  pub poll_write : S → Bytes → S × Poll (Result ℕ)
  pub poll_write_vectored : S → List Bytes → S × Poll (Result ℕ)
  pub poll_flush : S → S × Poll (Result Unit1)

-- A write of `b` takes the first bytes of it, as many as it says.
abbrev pub Writes : Bytes → Bytes → Bytes → Poll (Result ℕ) → Type 0
Writes before b after (ready (ok n)) = (n ≤ length b) × (after ≡ before ++ take n b)
Writes before b after _ = after ≡ before

pub record IsAsyncWrite {S : Type 0} (io : AsyncWrite S) (sent : S → Bytes) : Type 0 where
  pub write :
      (s : S) (b : Bytes) → Writes (sent s) b (sent (io.poll_write s b).0) (io.poll_write s b).1
  pub vectored :
      (s : S) (bs : List Bytes)
      → Writes
          (sent s)
          (concat bs)
          (sent (io.poll_write_vectored s bs).0)
          (io.poll_write_vectored s bs).1
  pub flush : (s : S) → sent (io.poll_flush s).0 ≡ sent s

-- The writing half of `Buffered`, with the bytes read that `poll_flush` looks at.
pub record Writer (S B : Type 0) : Type 0 where
  pub flush_pipeline : Bool
  pub io : S
  pub read_buf : Bytes
  pub write_buf : WriteBuf B

abbrev pub max_writev_bufs : ℕ
max_writev_bufs = 64

module _ {S B : Type 0} (io : AsyncWrite S) (m : Buf B) where
  -- What an operation leaves and gives back; `none` if it panics or has no fuel left.
  abbrev pub Flushing : Type 0
  Flushing = Option ((S × WriteBuf B) × Poll (Result Unit1))

  -- One turn of a loop.
  pub data Turn : Type 0 where
    ended : S → WriteBuf B → Poll (Result Unit1) → Turn
    again : S → WriteBuf B → Turn
    panics : Turn

  unfoldable pub io_flush : WriteBuf B → S × Poll (Result Unit1) → Turn
  io_flush w (s, p) = ended s w p

  unfoldable pub after_write : WriteBuf B → S × Poll (Result ℕ) → Turn
  unfolding io_flush
  after_write w (s, pending) = ended s w pending
  after_write w (s, ready (err e)) = ended s w (ready (err e))
  after_write w (s, ready (ok n)) =
      let head = cursor_advance w.headers n in
      if cursor_remaining head == 0
      then io_flush (record w { headers = reset head }) (io.poll_flush s)
      else if n == 0
      then ended s (record w { headers = head }) (ready (err write_zero))
      else again s (record w { headers = head })

  -- The loop's body in `poll_flush_flattened`, with the flush after it.
  unfoldable pub flattened_turn : S → WriteBuf B → Turn
  unfolding after_write
  flattened_turn s w = after_write w (io.poll_write s (cursor_chunk w.headers))

  unfoldable pub advanced : S → ℕ → Option (WriteBuf B) → Turn
  unfolding io_flush
  advanced s n none = panics
  advanced s n (some w) =
      if remaining m w == 0
      then io_flush w (io.poll_flush s)
      else if n == 0
      then ended s w (ready (err write_zero))
      else again s w

  unfoldable pub after_write_vectored : WriteBuf B → S × Poll (Result ℕ) → Turn
  unfolding advanced
  after_write_vectored w (s, pending) = ended s w pending
  after_write_vectored w (s, ready (err e)) = ended s w (ready (err e))
  after_write_vectored w (s, ready (ok n)) = advanced s n (advance m w n)

  -- The loop's body in `poll_flush`, with the flush after it.
  unfoldable pub queued_turn : S → WriteBuf B → Turn
  unfolding after_write_vectored
  queued_turn s w =
      after_write_vectored w (io.poll_write_vectored s (chunks_vectored m w max_writev_bufs))

  unfoldable pub flush_loop : (S → WriteBuf B → Turn) → ℕ → S → WriteBuf B → Flushing
  flush_loop turn zero s w = none
  flush_loop turn (suc fuel) s w = elim (turn s w) [
    | ended s' w' p ↦ some ((s', w'), p)
    | again s' w' ↦ flush_loop turn fuel s' w'
    | panics ↦ none
  ]

  -- With one turn of fuel for each byte that waits, and one more.
  unfoldable pub flush_write_buf : WriteStrategy → S → WriteBuf B → Flushing
  unfolding flush_loop flattened_turn queued_turn
  flush_write_buf flatten s w = flush_loop flattened_turn (suc (remaining m w)) s w
  flush_write_buf queued s w = flush_loop queued_turn (suc (remaining m w)) s w

  unfoldable pub poll_flush : Writer S B → Flushing
  unfolding flush_write_buf
  poll_flush b =
      if b.flush_pipeline && not (is_empty b.read_buf)
      then some ((b.io, b.write_buf), ready (ok done))
      else if remaining m b.write_buf == 0
      then some (((io.poll_flush b.io).0, b.write_buf), (io.poll_flush b.io).1)
      else flush_write_buf b.write_buf.strategy b.io b.write_buf
