-- ===== src/H1/Decode/Reference.antt =====
-- The chunked coding read at one go, from the whole list of bytes: what the reads of
-- src/proto/h1/decode.rs must amount to, however the transport cuts them.
use kaiwaehnero.Base.{ℕ, zero, suc, [], ◌∷◌, ◌++◌, Bytes}
use kaiwaehnero.Poll.{Result, ok, err, unexpected_eof}
use kaiwaehnero.H1.Decode.{ChunkedState, body, body_cr, end, read_byte}

-- The bytes of the body, and what ended it: the bytes that follow the body, or an error.
abbrev pub Decoded : Type 0
Decoded = Bytes × Result Bytes

abbrev pub prepend : Bytes → Decoded → Decoded
prepend b d = (b ++ d.0, d.1)

-- The state after data, with `left` bytes of the chunk still to come.
abbrev pub after_data : ℕ → ChunkedState
after_data zero = body_cr
after_data (suc _) = body

abbrev pub continue_with : (ChunkedState → ℕ → Decoded) → ℕ × Result ChunkedState → Decoded
continue_with go (n, ok s) = go s n
continue_with go (n, err e) = ([], err e)

unfoldable pub decode_all : ChunkedState → ℕ → Bytes → Decoded
decode_all end n w = ([], ok w)
decode_all s n [] = ([], err unexpected_eof)
decode_all body zero (b ∷ w) = ([], err unexpected_eof)
decode_all body (suc n) (b ∷ w) = prepend (b ∷ []) (decode_all (after_data n) n w)
decode_all s n (b ∷ w) = continue_with (λ s' n'. decode_all s' n' w) (read_byte s n b)
