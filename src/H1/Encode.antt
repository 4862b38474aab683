-- ===== src/H1/Encode.antt =====
-- src/proto/h1/encode.rs: the encoders of a message body. A `Buf` stands as the bytes that it
-- still holds, so that `chain` is `++` and `take` cuts; `none` is a panic.
pub mod ChunkSize
pub mod Laws
use kaiwaehnero.Base.{
  ℕ, zero, suc, ◌+◌, ◌-◌, ◌≡◌, Bool, true, false, not, Option, none, some, List, [], ◌∷◌, ◌++◌,
  Bytes, ltb, ◌==◌, if◌then◌else◌, length, take, drop,
}

pub data Kind : Type 0 where
  chunked : Kind
  length_of : ℕ → Kind
  close_delimited : Kind

pub record Encoder : Type 0 where
  pub kind : Kind
  pub is_last : Bool

pub data EncodedBuf : Type 0 where
  exact : Bytes → EncodedBuf
  limited : Bytes → ℕ → EncodedBuf
  chunk : ChunkSize.ChunkSize → Bytes → Bytes → EncodedBuf
  chunked_end : Bytes → EncodedBuf

unfoldable pub new : Kind → Encoder
new k = record { kind = k; is_last = false }

unfoldable pub set_last : Encoder → Bool → Encoder
set_last e last = record e { is_last = last }

abbrev kind_is_eof : Kind → Bool
kind_is_eof (length_of n) = n == 0
kind_is_eof _ = false

unfoldable pub is_eof : Encoder → Bool
is_eof e = kind_is_eof e.kind

abbrev kind_is_close_delimited : Kind → Bool
kind_is_close_delimited close_delimited = true
kind_is_close_delimited _ = false

unfoldable pub is_close_delimited : Encoder → Bool
is_close_delimited e = kind_is_close_delimited e.kind

abbrev pub crlf : Bytes
crlf = 13 ∷ 10 ∷ []

abbrev pub last_chunk : Bytes
last_chunk = b'0' ∷ 13 ∷ 10 ∷ 13 ∷ 10 ∷ []

pub data End : Type 0 where
  ended : Option EncodedBuf → End
  not_eof : End

end_kind : Kind → End
end_kind chunked = ended (some (chunked_end last_chunk))
end_kind (length_of n) = if n == 0 then ended none else not_eof
end_kind close_delimited = ended none

unfoldable pub end : Encoder → End
unfolding end_kind
end e = end_kind e.kind

-- `ChunkSize::new(len).chain(msg).chain(tail)`.
chain : Bytes → Bytes → Option EncodedBuf
chain msg tail = elim (ChunkSize.new (length msg)) [
  | none ↦ none
  | some c ↦ some (chunk c msg tail)
]

encode_kind : Kind → Bytes → Option (Kind × EncodedBuf)
unfolding chain
encode_kind chunked msg = elim (chain msg crlf) [ none ↦ none | some b ↦ some (chunked, b) ]
encode_kind (length_of n) msg =
    if ltb n (length msg)
    then some (length_of 0, limited msg n)
    else some (length_of (n - length msg), exact msg)
encode_kind close_delimited msg = some (close_delimited, exact msg)

unfoldable pub encode : Encoder → Bytes → Option (Encoder × EncodedBuf)
unfolding encode_kind
encode e msg = elim (encode_kind e.kind msg) [
  | none ↦ none
  | some (k, b) ↦ some (record e { kind = k }, b)
]

-- What `encode_and_end` hands to `dst.buffer`, and whether the connection can be kept alive.
and_end_kind : Kind → Bool → Bytes → Option (EncodedBuf × Bool)
unfolding chain
and_end_kind chunked last msg = elim (chain msg (crlf ++ last_chunk)) [
  | none ↦ none
  | some b ↦ some (b, not last)
]
and_end_kind (length_of n) last msg =
    if length msg == n
    then some (exact msg, not last)
    else if ltb n (length msg)
    then some (limited msg n, not last)
    else some (exact msg, false)
and_end_kind close_delimited last msg = some (exact msg, false)

unfoldable pub encode_and_end : Encoder → Bytes → Option (EncodedBuf × Bool)
unfolding and_end_kind
encode_and_end e msg = and_end_kind e.kind e.is_last msg

full_kind : Kind → Bytes → Option EncodedBuf
unfolding chain
full_kind chunked msg = chain msg (crlf ++ last_chunk)
full_kind _ msg = some (exact msg)

unfoldable pub danger_full_buf : Encoder → Bytes → Option EncodedBuf
unfolding full_kind
danger_full_buf e msg = full_kind e.kind msg

-- The bytes that a buffer still holds.
abbrev pub contents : EncodedBuf → Bytes
contents (exact b) = b
contents (limited b n) = take n b
contents (chunk c b t) = ChunkSize.chunk c ++ b ++ t
contents (chunked_end b) = b
