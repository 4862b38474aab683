-- ===== src/Examples/Bodies.antt =====
-- Bodies read and written, at concrete bytes.
use kaiwaehnero.Base.{
  inl, inr, ℕ, ◌^◌, ◌<◌, ◌≡◌, ◌≢◌, ◌↔◌, refl, false, some, [], ◌∷◌, ◌++◌, Bytes, concat, length,
  arith, u64_mod,
}
use kaiwaehnero.Poll.{Result, Poll, ready, ok}
use kaiwaehnero.Body.{from_option, into_opt}
use kaiwaehnero.Body.Laws.{into_opt-from_option}
use kaiwaehnero.H1.Decode.{Kind, ChunkedState, size, length_of, decode, chunk_loop, step, read_byte}
use kaiwaehnero.H1.Decode.Reference.{decode_all}
use kaiwaehnero.H1.Decode.Total.{Returns, chunk_loop-Returns}
use kaiwaehnero.H1.Decode.RoundTrip.{encode_all}
use kaiwaehnero.H1.Decode.Drains.{Drains, Drains-encode_all}
use kaiwaehnero.H1.Decode.Sized.{SizedDrains, SizedDrains-length, decode_truncated}
use kaiwaehnero.H1.Decode.NoSize.{no_size_line, begin, NoBody, decode_no_size}
use kaiwaehnero.H1.Encode.ChunkSize.{hex_digit}
use kaiwaehnero.H1.Encode
use kaiwaehnero.H1.Encode.Laws.{encode_each, encode_each-sized, end-encode_each}
use kaiwaehnero.Examples.Readers.{slice, unread, slice-IsMemRead}

abbrev word : ℕ
word = u64_mod

-- "3\r\nfoo\r\n0\r\n\r\n" and then "GET".
abbrev foo : Bytes
foo = b'f' ∷ b'o' ∷ b'o' ∷ []

abbrev sent : Bytes
sent = b'3' ∷ 13 ∷ 10 ∷ b'f' ∷ b'o' ∷ b'o' ∷ 13 ∷ 10 ∷ b'0' ∷ 13 ∷ 10 ∷ 13 ∷ 10 ∷ []

abbrev get : Bytes
get = b'G' ∷ b'E' ∷ b'T' ∷ []

chunk_loop-Returns_example :
    Returns slice unread
      (decode_all size 0 (sent ++ get))
      (chunk_loop slice word 99 (sent ++ get) size 0)
chunk_loop-Returns_example =
    chunk_loop-Returns slice unread slice-IsMemRead word (omega arith) 99 (sent ++ get) size 0
      (omega arith) (omega arith)

foo-Drains : Drains slice unread (sent ++ get) size 0 foo get
unfolding decode chunk_loop step read_byte
foo-Drains =
    Drains.piece word 99 (omega arith) (omega arith) refl
      (Drains.finish word 99 (omega arith) (omega arith) refl) refl

Drains-encode_all_example : (foo ≡ concat (foo ∷ [])) × (get ≡ get)
unfolding encode_all Encode.encode Encode.end Encode.ChunkSize.new Encode.ChunkSize.write_str
    Encode.ChunkSize.hex_digits
Drains-encode_all_example =
    Drains-encode_all slice unread false (foo ∷ []) sent get slice-IsMemRead (omega arith) refl refl
      foo-Drains

-- An empty line in place of a size.
abbrev no_size : Bytes
no_size = 13 ∷ 10 ∷ 13 ∷ 10 ∷ get

no_size-Drains : Drains slice unread no_size size 0 [] get
unfolding decode chunk_loop step read_byte
no_size-Drains = Drains.finish word 99 (omega arith) (omega arith) refl

-- Blanks and an extension in front of the end of the line.
abbrev ext_line : Bytes
ext_line = no_size_line (32 ∷ 9 ∷ []) (some (b'a' ∷ [])) get

decode_no_size_example :
    (decode_all size 0 ext_line ≡ ([], ok get))
    × (r' : Bytes) × (s' : ChunkedState) × (n' : ℕ) × (p : Poll (Result Bytes)) × (decode slice word
          99 ext_line
          (Kind.chunked size 0)
        ≡ some (r', Kind.chunked s' n', p))
    × NoBody slice unread get r' p
decode_no_size_example =
    decode_no_size slice unread slice-IsMemRead (32 ∷ 9 ∷ []) (some (b'a' ∷ [])) get word 99
      (omega arith) (inr refl, (inl refl, tt)) (ground arith, ground arith, tt) refl begin
      (omega arith)

foo-SizedDrains : SizedDrains slice unread (foo ++ get) 3 foo get
unfolding decode
foo-SizedDrains =
    SizedDrains.piece word 0 (omega arith) refl (SizedDrains.finish word 0 (omega arith) refl) refl

SizedDrains-length_example : (length foo ≡ 3) × (foo ++ get ≡ foo ++ get)
SizedDrains-length_example = SizedDrains-length slice unread slice-IsMemRead foo-SizedDrains

-- A body of 4 GiB, where a `usize` has 32 bits.
decode_truncated_example :
    decode slice (2 ^ 32) 0 foo (length_of (2 ^ 32)) ≢ some ([], length_of 0, ready (ok foo))
decode_truncated_example =
    decode_truncated slice unread (2 ^ 32) 0 (2 ^ 32) foo [] (length_of 0) foo slice-IsMemRead
      (omega arith) (omega arith)

into_opt-from_option_example : into_opt (record { value = 5 }) ≡ some 5
unfolding from_option
into_opt-from_option_example = into_opt-from_option (some 5)

encode_each-sized_example :
    encode_each (record { kind = Encode.length_of 4; is_last = false }) (foo ∷ get ∷ [])
    ≡ some (record { kind = Encode.length_of 0; is_last = false }, b'f' ∷ b'o' ∷ b'o' ∷ b'G' ∷ [])
encode_each-sized_example = encode_each-sized 4 false (foo ∷ get ∷ [])

end-encode_each_example :
    (Encode.end (record { kind = Encode.length_of 1; is_last = false }) ≡ Encode.not_eof) ↔ (3 < 4)
unfolding encode_each Encode.encode
end-encode_each_example = end-encode_each 4 false (foo ∷ []) _ foo refl
