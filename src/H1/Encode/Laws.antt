-- ===== src/H1/Encode/Laws.antt =====
-- What the encoders of src/proto/h1/encode.rs put on the wire for a body of known length.
use kaiwaehnero.Base.{
  ℕ, zero, suc, ◌-◌, ◌<◌, ◌≡◌, refl, ap, sym, ◌↔◌, ◌⊎◌, inl, inr, Bool, true, false, List, [], ◌∷◌,
  ◌++◌, Bytes, Option, none, some, length, length-append, arith, concat, take, take-all,
  length-take, ltb, ◌==◌, Bool-cases,
}
use kaiwaehnero.H1.Encode.{
  Encoder, Kind, EncodedBuf, exact, limited, length_of, close_delimited, chunked, not_eof, contents,
  encode, encode_and_end, end,
}

-- What `write_body` leaves of the encoder and puts on the wire, for each buffer in turn.
unfoldable pub encode_each : Encoder → List Bytes → Option (Encoder × Bytes)
encode_each e [] = some (e, [])
encode_each e (m ∷ ms) = elim (encode e m) [
  | none ↦ none
  | some (e', b) ↦ elim (encode_each e' ms) [
    | none ↦ none
    | some (e'', w) ↦ some (e'', contents b ++ w)
  ]
]

abbrev sized : ℕ → Bool → Encoder
sized n last = record { kind = length_of n; is_last = last }

encode-sized :
    (n : ℕ) (last : Bool) (m : Bytes)
    → (b : EncodedBuf) × (encode (sized n last) m ≡ some (sized (n - length m) last, b))
      × (contents b ≡ take n m)
unfolding encode
encode-sized n last m = elim (Bool-cases (ltb n (length m))) [
  | inl h ↦
      let e : n - length m ≡ 0 = ground arith in (limited m n, rw (h, encode) (rw e refl), refl)
  | inr h ↦ (exact m, rw (h, encode) refl, sym (take-all n m (ground arith)))
]

take-split : (n : ℕ) (xs ys : Bytes) → take n xs ++ take (n - length xs) ys ≡ take n (xs ++ ys)
take-split n [] ys =
    let e : n - 0 ≡ n = omega arith in
    let nothing : take {A = ℕ} n [] ≡ [] = take-all n [] (omega arith) in rw (e, nothing) refl
take-split zero (x ∷ xs) ys = let e : 0 - suc (length xs) ≡ 0 = omega arith in rw e refl
take-split (suc n) (x ∷ xs) ys =
    let e : suc n - suc (length xs) ≡ n - length xs = omega arith in
    rw e (ap (λ t. x ∷ t) (take-split n xs ys))

-- With a `content-length` of `n` the wire gets the first `n` bytes of the body and never more,
-- however the body is cut into buffers.
pub encode_each-sized :
    (n : ℕ) (last : Bool) (ms : List Bytes)
    → encode_each (sized n last) ms ≡ some (sized (n - length (concat ms)) last, take n (concat ms))
unfolding encode_each
encode_each-sized n last [] =
    let e : n - 0 ≡ n = omega arith in
    let nothing : take {A = ℕ} n [] ≡ [] = take-all n [] (omega arith) in rw (e, nothing) refl
encode_each-sized n last (m ∷ ms) =
    let (b, p, q) = encode-sized n last m in
    rw (p, encode_each)
      (rw (encode_each-sized (n - length m) last ms)
        (rw (q, take-split n m (concat ms), rest) refl))
  where
    rest : n - length m - length (concat ms) ≡ n - length (m ++ concat ms)
    rest = omega (arith, length-append m (concat ms))

end-sized : (k : ℕ) (last : Bool) → (end (sized k last) ≡ not_eof) ↔ (0 < k)
unfolding end
end-sized zero last = ((λ h. cc), (λ h. absurd (omega arith)))
end-sized (suc k) last =
    let e : (suc k == 0) ≡ false = ground arith in rw e ((λ h. omega arith), (λ h. refl))

-- The end of such a body is refused exactly when fewer than `n` bytes were written.
pub end-encode_each :
    (n : ℕ) (last : Bool) (ms : List Bytes) (e : Encoder) (w : Bytes)
    → encode_each (sized n last) ms ≡ some (e, w)
    → (end e ≡ not_eof) ↔ (length (concat ms) < n)
end-encode_each n last ms e w h =
    let left = n - length (concat ms) in
    let same : e ≡ sized left last = cc (encode_each-sized n last ms) in
    let f = end-sized left last in rw same ((λ q. omega (arith, f.0 q)), (λ q. f.1 (omega arith)))

-- Whether the connection can be kept alive after `encode_and_end`: only after a body that was
-- written whole, and never after one that the end of the stream delimits, nor on the last message.
pub encode_and_end-keeps :
    (k : Kind) (last : Bool) (m : Bytes) (b : EncodedBuf)
    → encode_and_end (record { kind = k; is_last = last }) m ≡ some (b, true)
    → (last ≡ false)
      × ((k ≡ chunked)
          ⊎ ((n : ℕ) × (k ≡ length_of n) × (contents b ≡ take n m) × (length (contents b) ≡ n)))
unfolding encode_and_end
encode_and_end-keeps chunked last m b h = (ground arith, inl refl)
encode_and_end-keeps (length_of n) last m b h =
    (ground arith, inr (n, refl, ground (arith, take-all n m), ground (arith, length-take n m)))
encode_and_end-keeps close_delimited last m b h = cc
