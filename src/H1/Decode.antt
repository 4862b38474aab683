-- ===== src/H1/Decode.antt =====
-- src/proto/h1/decode.rs: the decoders of a message body. A decoder is generic in the reader `R`;
-- what `decode` writes through `&mut` it returns. The `loop` of a chunked body runs on fuel and
-- `none` says that the fuel ran out; Decode/Total shows that one more than the unread bytes is enough.
pub mod Reference
pub mod Refine
pub mod Total
pub mod RoundTrip
pub mod Drains
pub mod Sized
pub mod Passes
pub mod NoSize
use kaiwaehnero.Base.{
  ℕ, zero, suc, ◌+◌, ◌-◌, ◌*◌, ◌%◌, ◌&&◌, ◌||◌, Bool, true, false, Option, none, some, List, [],
  ◌∷◌, Bytes, u64_mod, ltb, leb, ◌==◌, if◌then◌else◌, length, is_empty,
}
use kaiwaehnero.Poll.{
  Poll, pending, ready, Result, ok, err, ErrorKind, unexpected_eof, invalid_data, invalid_input,
}
use kaiwaehnero.Body.{DecodedLength, u64_max, danger_len}
use kaiwaehnero.H1.MemRead.{MemRead}

pub data ChunkedState : Type 0 where
  size size_lws extension size_lf body body_cr body_lf : ChunkedState
  trailer trailer_lf end_cr end_lf end : ChunkedState

pub data Kind : Type 0 where
  length_of : ℕ → Kind
  chunked : ChunkedState → ℕ → Kind
  eof : Bool → Kind

-- `Decoder::new`.
unfoldable pub new : DecodedLength → Kind
unfolding danger_len
new d =
    if d.value == u64_max - 1
    then chunked size 0
    else if d.value == u64_max
    then eof false
    else length_of (danger_len d)

abbrev pub is_end : ChunkedState → Bool
is_end end = true
is_end _ = false

unfoldable pub is_eof : Kind → Bool
is_eof (length_of n) = n == 0
is_eof (chunked s _) = is_end s
is_eof (eof b) = b

-- One digit of the chunk size: `checked_mul`, then `checked_add`, each stored as it is made.
push_digit : ℕ → ℕ → ℕ × Result ChunkedState
push_digit n d =
    if ltb u64_max (n * 16)
    then (n, err invalid_data)
    else if ltb u64_max (n * 16 + d)
    then (n * 16, err invalid_data)
    else (n * 16 + d, ok size)

abbrev between : ℕ → ℕ → ℕ → Bool
between lo hi b = leb lo b && leb b hi

-- The states that read one byte: what is done with it, `size` included.
read_size : ℕ → ℕ → ℕ × Result ChunkedState
unfolding push_digit
read_size n b =
    if between b'0' b'9' b
    then push_digit n (b - b'0')
    else if between b'a' b'f' b
    then push_digit n (b + 10 - b'a')
    else if between b'A' b'F' b
    then push_digit n (b + 10 - b'A')
    else if (b == 9) || (b == 32)
    then (n, ok size_lws)
    else if b == b';'
    then (n, ok extension)
    else if b == 13
    then (n, ok size_lf)
    else (n, err invalid_input)

read_size_lws : ℕ → Result ChunkedState
read_size_lws b =
    if (b == 9) || (b == 32)
    then ok size_lws
    else if b == b';'
    then ok extension
    else if b == 13
    then ok size_lf
    else err invalid_input

read_extension : ℕ → Result ChunkedState
read_extension b =
    if b == 13 then ok size_lf else if b == 10 then err invalid_data else ok extension

read_size_lf : ℕ → ℕ → Result ChunkedState
read_size_lf n b = if b == 10 then (if n == 0 then ok end_cr else ok body) else err invalid_input

read_body_cr : ℕ → Result ChunkedState
read_body_cr b = if b == 13 then ok body_lf else err invalid_input

read_body_lf : ℕ → Result ChunkedState
read_body_lf b = if b == 10 then ok size else err invalid_input

read_trailer : ℕ → Result ChunkedState
read_trailer b = if b == 13 then ok trailer_lf else ok trailer

read_trailer_lf : ℕ → Result ChunkedState
read_trailer_lf b = if b == 10 then ok end_cr else err invalid_input

read_end_cr : ℕ → Result ChunkedState
read_end_cr b = if b == 13 then ok end_lf else ok trailer

read_end_lf : ℕ → Result ChunkedState
read_end_lf b = if b == 10 then ok end else err invalid_input

-- The `match` of `step` on the states that read one byte. `body` and `end` do not come here.
unfoldable pub read_byte : ChunkedState → ℕ → ℕ → ℕ × Result ChunkedState
unfolding read_size read_size_lws read_extension read_size_lf read_body_cr read_body_lf read_trailer
    read_trailer_lf read_end_cr read_end_lf
read_byte size n b = read_size n b
read_byte size_lws n b = (n, read_size_lws b)
read_byte extension n b = (n, read_extension b)
read_byte size_lf n b = (n, read_size_lf n b)
read_byte body n b = (n, ok body)
read_byte body_cr n b = (n, read_body_cr b)
read_byte body_lf n b = (n, read_body_lf b)
read_byte trailer n b = (n, read_trailer b)
read_byte trailer_lf n b = (n, read_trailer_lf b)
read_byte end_cr n b = (n, read_end_cr b)
read_byte end_lf n b = (n, read_end_lf b)
read_byte end n b = (n, ok end)

-- The macro `byte!`: an empty read is the end of the stream.
abbrev first_byte : Poll (Result Bytes) → Poll (Result ℕ)
first_byte pending = pending
first_byte (ready (err e)) = ready (err e)
first_byte (ready (ok [])) = ready (err unexpected_eof)
first_byte (ready (ok (b ∷ _))) = ready (ok b)

-- What a step leaves: the reader, `*size`, `*buf` and the value returned.
pub record Stepped (R : Type 0) : Type 0 where
  pub rdr : R
  pub rem : ℕ
  pub buf : Option Bytes
  pub out : Poll (Result ChunkedState)

-- `word` is 2 to the number of bits of a `usize`.
abbrev min_usize : ℕ → ℕ → ℕ
min_usize word n = if ltb (word - 1) n then word - 1 else n

module _ {R : Type 0} (m : MemRead R) where
  on_byte : ChunkedState → ℕ → R × Poll (Result ℕ) → Stepped R
  on_byte s n (r, pending) = record { rdr = r; rem = n; buf = none; out = pending }
  on_byte s n (r, ready (err e)) = record { rdr = r; rem = n; buf = none; out = ready (err e) }
  on_byte s n (r, ready (ok b)) =
      let (n', next) = read_byte s n b in record { rdr = r; rem = n'; buf = none; out = ready next }

  take_body : ℕ → R × Poll (Result Bytes) → Stepped R
  take_body n (r, pending) = record { rdr = r; rem = n; buf = none; out = pending }
  take_body n (r, ready (err e)) = record { rdr = r; rem = n; buf = none; out = ready (err e) }
  take_body n (r, ready (ok [])) = record {
    rdr = r;
    rem = 0;
    buf = none;
    out = ready (err unexpected_eof);
  }
  take_body n (r, ready (ok (b ∷ bs))) =
      let left = n - length (b ∷ bs) in
      record {
        rdr = r;
        rem = left;
        buf = some (b ∷ bs);
        out = ready (ok (if ltb 0 left then body else body_cr));
      }

  read_body : ℕ → R → ℕ → Stepped R
  unfolding take_body
  read_body word r n = take_body n (m.read_mem r (min_usize word n))

  unfoldable pub step : ℕ → R → ChunkedState → ℕ → Stepped R
  unfolding read_body on_byte
  step word r body n = read_body word r n
  step word r end n = record { rdr = r; rem = n; buf = none; out = ready (ok end) }
  step word r s n = let (r', p) = m.read_mem r 1 in on_byte s n (r', first_byte p)

  -- The body of the `loop` after `step`: return, or go round again by `go`. An error or a wait
  -- leaves the state as it was, and keeps what `size` became.
  settle :
      (R → ChunkedState → ℕ → Option (R × Kind × Poll (Result Bytes)))
      → ChunkedState
      → R
      → ℕ
      → Option Bytes
      → Poll (Result ChunkedState)
      → Option (R × Kind × Poll (Result Bytes))
  settle go s r n buf pending = some (r, chunked s n, pending)
  settle go s r n buf (ready (err e)) = some (r, chunked s n, ready (err e))
  settle go s r n none (ready (ok s')) =
      if is_end s' then some (r, chunked s' n, ready (ok [])) else go r s' n
  settle go s r n (some b) (ready (ok s')) =
      some (r, chunked s' n, ready (ok (if is_end s' then [] else b)))

  -- `decode` of a chunked body.
  unfoldable pub chunk_loop : ℕ → ℕ → R → ChunkedState → ℕ → Option (R × Kind × Poll (Result Bytes))
  unfolding settle
  chunk_loop word zero r s n = none
  chunk_loop word (suc fuel) r s n =
      let t = step word r s n in
      settle (λ r' s' n'. chunk_loop word fuel r' s' n') s t.rdr t.rem t.buf t.out

  sized : ℕ → R × Poll (Result Bytes) → R × Kind × Poll (Result Bytes)
  sized n (r, pending) = (r, length_of n, pending)
  sized n (r, ready (err e)) = (r, length_of n, ready (err e))
  sized n (r, ready (ok buf)) =
      if ltb n (length buf)
      then (r, length_of 0, ready (ok buf))
      else if length buf == 0
      then (r, length_of n, ready (err unexpected_eof))
      else (r, length_of (n - length buf), ready (ok buf))

  to_end : R × Poll (Result Bytes) → R × Kind × Poll (Result Bytes)
  to_end (r, pending) = (r, eof false, pending)
  to_end (r, ready (err e)) = (r, eof false, ready (err e))
  to_end (r, ready (ok buf)) = (r, eof (is_empty buf), ready (ok buf))

  -- `Decoder::decode`. `word` is 2 to the number of bits of a `usize`: `*remaining as usize`
  -- keeps the low bits of the length.
  unfoldable pub decode : ℕ → ℕ → R → Kind → Option (R × Kind × Poll (Result Bytes))
  unfolding sized to_end
  decode word fuel r (length_of n) =
      if n == 0
      then some (r, length_of 0, ready (ok []))
      else some (sized n (m.read_mem r (n % word)))
  decode word fuel r (chunked s n) = chunk_loop word fuel r s n
  decode word fuel r (eof true) = some (r, eof true, ready (ok []))
  decode word fuel r (eof false) = some (to_end (m.read_mem r 8192))
