-- ===== src/H1/Io/Write.antt =====
-- What waits to be written: `Cursor` and `WriteBuf` of src/proto/h1/io.rs. `spare v` is the capacity that the vector
-- of the headers has left. `into` makes a buffer of the queue of the one that is given.
pub mod Held
use kaiwaehnero.Base.{
  not, ℕ, ◌+◌, ◌-◌, ◌*◌, zero, suc, Bool, true, false, ◌&&◌, Option, none, some, List, [], ◌∷◌,
  ◌++◌, Bytes, length, drop, is_empty, ltb, ◌==◌, if◌then◌else◌,
}
use kaiwaehnero.Common.Buf.{Buf}
use kaiwaehnero.Common.BufList.{BufList}
use kaiwaehnero.Common.BufList

pub record Cursor : Type 0 where
  pub bytes : Bytes
  pub pos : ℕ

abbrev pub cursor_new : Bytes → Cursor
cursor_new b = record { bytes = b; pos = 0 }

unfoldable pub maybe_unshift : (Bytes → ℕ) → Cursor → ℕ → Cursor
maybe_unshift spare c additional =
    if c.pos == 0
    then c
    else if not (ltb (spare c.bytes) additional)
    then c
    else record { bytes = drop c.pos c.bytes; pos = 0 }

abbrev pub reset : Cursor → Cursor
reset c = record { bytes = []; pos = 0 }

abbrev pub cursor_remaining : Cursor → ℕ
cursor_remaining c = length c.bytes - c.pos

abbrev pub cursor_chunk : Cursor → Bytes
cursor_chunk c = drop c.pos c.bytes

abbrev pub cursor_advance : Cursor → ℕ → Cursor
cursor_advance c cnt = record c { pos = c.pos + cnt }

-- The `chunks_vectored` that `Buf` gives: the chunk, if there is one and a place for it.
unfoldable pub cursor_slices : Cursor → ℕ → List Bytes
cursor_slices c n =
    if n == 0 then [] else if cursor_remaining c == 0 then [] else cursor_chunk c ∷ []

pub data WriteStrategy : Type 0 where
  flatten queued : WriteStrategy

abbrev pub default_max_buffer_size : ℕ
default_max_buffer_size = 8192 + 4096 * 100

abbrev pub max_buf_list_buffers : ℕ
max_buf_list_buffers = 16

pub record WriteBuf (B : Type 0) : Type 0 where
  pub headers : Cursor
  pub max_buf_size : ℕ
  pub queue : BufList B
  pub strategy : WriteStrategy

module _ {B : Type 0} (m : Buf B) where
  unfoldable pub new : WriteStrategy → WriteBuf B
  unfolding BufList.new
  new s = record {
    headers = cursor_new [];
    max_buf_size = default_max_buffer_size;
    queue = BufList.new m;
    strategy = s;
  }

  unfoldable pub remaining : WriteBuf B → ℕ
  remaining w = cursor_remaining w.headers + BufList.remaining m w.queue

  unfoldable pub with_queue : WriteBuf B → Option (BufList B) → Option (WriteBuf B)
  with_queue w none = none
  with_queue w (some q) = some (record w { queue = q })

  unfoldable pub advance : WriteBuf B → ℕ → Option (WriteBuf B)
  unfolding with_queue
  advance w cnt =
      let hrem = cursor_remaining w.headers in
      if hrem == cnt
      then some (record w { headers = reset w.headers })
      else if ltb cnt hrem
      then some (record w { headers = cursor_advance w.headers cnt })
      else with_queue (record w { headers = reset w.headers })
          (BufList.advance m w.queue (cnt - hrem))

  unfoldable pub chunks_vectored : WriteBuf B → ℕ → List Bytes
  unfolding cursor_slices
  chunks_vectored w n =
      let cs = cursor_slices w.headers n in cs ++ BufList.chunks_vectored m w.queue (n - length cs)

  unfoldable pub can_buffer : WriteBuf B → Bool
  unfolding remaining
  can_buffer w = elim w.strategy [
    | flatten ↦ ltb (remaining w) w.max_buf_size
    | queued ↦
        ltb (BufList.bufs_cnt m w.queue) max_buf_list_buffers && ltb (remaining w) w.max_buf_size
  ]

  module _ {BB : Type 0} (given : Buf BB) (into : BB → B) (spare : Bytes → ℕ) where
    -- The loop over the chunks of a buffer; `none` if one of them panics, or the fuel is spent.
    unfoldable pub copy_loop : ℕ → Bytes → BB → Option Bytes
    copy_loop zero bytes b = none
    copy_loop (suc fuel) bytes b =
        let slice = given.chunk b in
        if is_empty slice then some bytes else (elim (given.advance b (length slice)) [
          | none ↦ none
          | some b' ↦ copy_loop fuel (bytes ++ slice) b'
        ])

    unfoldable pub with_headers : WriteBuf B → Cursor → Option Bytes → Option (WriteBuf B)
    with_headers w head none = none
    with_headers w head (some bytes) = some (record w { headers = record head { bytes = bytes } })

    unfoldable pub buffer : WriteBuf B → BB → Option (WriteBuf B)
    unfolding copy_loop with_headers maybe_unshift
    buffer w b = elim w.strategy [
      | flatten ↦
          let head = maybe_unshift spare w.headers (given.remaining b) in
          with_headers w head (copy_loop (suc (given.remaining b)) head.bytes b)
      | queued ↦ some (record w { queue = BufList.push m w.queue (into b) })
    ]
