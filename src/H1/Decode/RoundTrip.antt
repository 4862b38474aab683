-- ===== src/H1/Decode/RoundTrip.antt =====
-- The decoder of src/proto/h1/decode.rs on what src/proto/h1/encode.rs writes for a chunked body.
use kaiwaehnero.Base.{
  ℕ, zero, suc, Bool, ◌+◌, ◌-◌, ◌*◌, ◌/◌, ◌%◌, ◌^◌, ◌<◌, ◌≡◌, refl, ap, ◌∙◌, List, [], ◌∷◌, ◌++◌,
  Bytes, Option, none, some, length, concat, arith, u64_mod, ltb, ◌==◌, false, append_assoc,
  Bool-cases, inl, inr,
}
use native.Mathlib.Nat.{pow-suc}
use mathlib.Core.Option
use kaiwaehnero.Poll.{ok}
use kaiwaehnero.H1.Decode.{size, body, read_byte}
use kaiwaehnero.H1.Decode.Reference.{prepend, decode_all}
use kaiwaehnero.H1.Decode.Refine.{decode_all-data}
use kaiwaehnero.H1.Encode.ChunkSize
use kaiwaehnero.H1.Encode.ChunkSize.{ChunkSize, hex_digit, hex_digits, new_lem}
use kaiwaehnero.H1.Encode.{
  Encoder, End, ended, not_eof, chunk, contents, encode, end as end_of, chunked, crlf, last_chunk,
}

read_byte-hex_digit :
    (n d : ℕ)
    → d < 16
    → n * 16 + d < u64_mod
    → read_byte size n (hex_digit d) ≡ (n * 16 + d, ok size)
unfolding read_byte hex_digit
read_byte-hex_digit n d h k = ground arith

decode_all-hex_digit :
    (n d : ℕ) (w : Bytes)
    → d < 16
    → n * 16 + d < u64_mod
    → decode_all size n (hex_digit d ∷ w) ≡ decode_all size (n * 16 + d) w
unfolding decode_all
decode_all-hex_digit n d w h k = rw (read_byte-hex_digit n d h k) refl

-- The size line is read back as the size.
decode_all-hex_digits :
    (fuel n : ℕ) (acc w : Bytes)
    → n < 16 ^ fuel
    → n < u64_mod
    → decode_all size 0 (hex_digits fuel n acc ++ w) ≡ decode_all size n (acc ++ w)
unfolding hex_digits
decode_all-hex_digits zero n acc w h k = let e : n ≡ 0 = omega arith in rw e refl
decode_all-hex_digits (suc fuel) n acc w h k = elim (Bool-cases (ltb n 16)) [
  | inl small ↦ rw small (
      decode_all-hex_digit 0 n (acc ++ w) (ground arith) (omega arith)
      ∙ ap (λ k. decode_all size k (acc ++ w)) (omega arith))
  | inr large ↦ rw large (
      decode_all-hex_digits fuel (n / 16) (hex_digit (n % 16) ∷ acc) w
        (omega (arith, pow-suc 16 fuel)) (omega arith)
      ∙ decode_all-hex_digit (n / 16) (n % 16) (acc ++ w) (omega arith) (omega arith)
      ∙ ap (λ k. decode_all size k (acc ++ w)) (omega arith))
]

abbrev pub AllBuffers : List Bytes → Type 0
AllBuffers [] = Unit
AllBuffers (m ∷ ms) = (0 < length m) × (length m < u64_mod) × AllBuffers ms

-- `write_body` for each buffer and then `end_body`, as bytes.
abbrev end_bytes : End → Option Bytes
end_bytes (ended none) = some []
end_bytes (ended (some b)) = some (contents b)
end_bytes not_eof = none

unfoldable pub encode_all : Encoder → List Bytes → Option Bytes
encode_all e [] = end_bytes (end_of e)
encode_all e (m ∷ ms) = elim (encode e m) [
  | none ↦ none
  | some (e', b) ↦ Option.map (λ w. contents b ++ w) (encode_all e' ms)
]

decode_all-size_end :
    (n : ℕ) (w : Bytes) → 0 < n → decode_all size n (13 ∷ 10 ∷ w) ≡ decode_all body n w
unfolding decode_all read_byte
decode_all-size_end n w h = let e : (n == 0) ≡ false = ground arith in rw e refl

-- A chunk of data after its size digits, read back.
decode_all-after_size :
    (m w : Bytes)
    → 0 < length m
    → decode_all size (length m) (13 ∷ 10 ∷ (m ++ (13 ∷ 10 ∷ w))) ≡ prepend m (decode_all size 0 w)
unfolding decode_all read_byte
decode_all-after_size [] w h = absurd (omega arith)
decode_all-after_size (b ∷ bs) w h =
    decode_all-size_end (length (b ∷ bs)) ((b ∷ bs) ++ (13 ∷ 10 ∷ w)) h
    ∙ decode_all-data (length (b ∷ bs)) b bs (13 ∷ 10 ∷ w) (omega arith)
    ∙ rw (zero_left (length (b ∷ bs))) refl
  where
    zero_left : (n : ℕ) → n - n ≡ 0
    zero_left n = omega arith

decode_all-chunk :
    (m w : Bytes)
    → 0 < length m
    → length m < u64_mod
    → decode_all size 0 (hex_digits 16 (length m) [] ++ (13 ∷ 10 ∷ (m ++ (13 ∷ 10 ∷ w))))
      ≡ prepend m (decode_all size 0 w)
decode_all-chunk m w h k =
    decode_all-hex_digits 16 (length m) [] (13 ∷ 10 ∷ (m ++ (13 ∷ 10 ∷ w))) (omega arith) k
    ∙ decode_all-after_size m w h

encode-chunked :
    (last : Bool) (m : Bytes)
    → (c : ChunkSize) × (encode (record { kind = chunked; is_last = last }) m
        ≡ some (record { kind = chunked; is_last = last }, chunk c m crlf))
      × (ChunkSize.chunk c ≡ hex_digits 16 (length m) [] ++ 13 ∷ 10 ∷ [])
unfolding encode
encode-chunked last m = (
  record {
    bytes = hex_digits 16 (length m) [] ++ 13 ∷ 10 ∷ [];
    pos = 0;
    len = length (hex_digits 16 (length m) []) + 2;
  },
  rw (new_lem (length m), encode) refl,
  refl,
)

regroup :
    (d m w rest : Bytes)
    → ((((d ++ 13 ∷ 10 ∷ []) ++ m) ++ crlf) ++ w) ++ rest
      ≡ d ++ (13 ∷ 10 ∷ (m ++ (13 ∷ 10 ∷ (w ++ rest))))
regroup d m w rest = simp append_assoc

-- A chunked body is read back as it was written: its buffers in order, and none of what follows.
pub decode_all-encode_all :
    (last : Bool) (ms : List Bytes)
    → AllBuffers ms
    → (w : Bytes) × (encode_all (record { kind = chunked; is_last = last }) ms ≡ some w)
      × ((rest : Bytes) → decode_all size 0 (w ++ rest) ≡ (concat ms, ok rest))
unfolding encode_all end_of decode_all read_byte
decode_all-encode_all last [] h = (last_chunk, refl, λ rest. refl)
decode_all-encode_all last (m ∷ ms) h =
    let (c, p, q) = encode-chunked last m in
    let (w, e, back) = decode_all-encode_all last ms h.2 in
    (
      contents (chunk c m crlf) ++ w,
      rw (p, encode_all) (rw e refl),
      λ rest. rw q (
          rw (regroup (hex_digits 16 (length m) []) m w rest)
            (decode_all-chunk m (w ++ rest) h.0 h.1 ∙ ap (prepend m) (back rest))),
    )
