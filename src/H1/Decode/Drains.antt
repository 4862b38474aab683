-- ===== src/H1/Decode/Drains.antt =====
-- A reader of a chunked body polls `decode` of src/proto/h1/decode.rs until the body ends.
use kaiwaehnero.Base.{
  ℕ, ◌<◌, ◌≡◌, refl, ap, sym, ◌∙◌, subst, List, [], ◌∷◌, ◌++◌, Bytes, Option, some, length, concat,
  arith, Bool,
}
use kaiwaehnero.Poll.{Poll, pending, ready, Result, ok}
use kaiwaehnero.H1.MemRead.{MemRead, IsMemRead}
use kaiwaehnero.H1.Decode.{ChunkedState, size, Kind, chunked, decode}
use kaiwaehnero.H1.Decode.Reference.{prepend, decode_all}
use kaiwaehnero.H1.Decode.Refine.{IsOpen}
use kaiwaehnero.H1.Decode.Total.{Outcome, Returns, chunk_loop-Returns}
use kaiwaehnero.H1.Decode.RoundTrip.{AllBuffers, encode_all, decode_all-encode_all}
use kaiwaehnero.H1.Encode

module _ {R : Type 0} (m : MemRead R) (wire : R → Bytes) where
  -- The polls from a state of the decoder up to the end of the body, the bytes that they gave, and
  -- the reader that they left. A poll that would wait is made again.
  pub data Drains : R → ChunkedState → ℕ → Bytes → R → Type 0 where
    finish :
        {r r' : R} {s s' : ChunkedState} {n n' : ℕ} (word fuel : ℕ)
        → 1 < word
        → length (wire r) < fuel
        → decode m word fuel r (chunked s n) ≡ some (r', chunked s' n', ready (ok []))
        → Drains r s n [] r'
    wait :
        {r r' r'' : R} {s s' : ChunkedState} {n n' : ℕ} {out : Bytes} (word fuel : ℕ)
        → 1 < word
        → length (wire r) < fuel
        → decode m word fuel r (chunked s n) ≡ some (r', chunked s' n', pending)
        → Drains r' s' n' out r''
        → Drains r s n out r''
    piece :
        {r r' r'' : R} {s s' : ChunkedState} {n n' b : ℕ} {bs out all : Bytes} (word fuel : ℕ)
        → 1 < word
        → length (wire r) < fuel
        → decode m word fuel r (chunked s n) ≡ some (r', chunked s' n', ready (ok (b ∷ bs)))
        → Drains r' s' n' out r''
        → all ≡ (b ∷ bs) ++ out
        → Drains r s n all r''

  abbrev pub Holds : Bytes × Result Bytes → Option (R × Kind × Poll (Result Bytes)) → Type 0
  Holds d (some (r, chunked s n, p)) = Outcome d s n (wire r) p
  Holds d _ = ⊥

  -- What a poll returned is the outcome that the theorem about one poll speaks of.
  pub Returns-Holds :
      {d : Bytes × Result Bytes} {x y : Option (R × Kind × Poll (Result Bytes))}
      → Returns m wire d x
      → x ≡ y
      → Holds d y
  Returns-Holds {d} (r, s, n, p, e, o) q = subst (Holds d) (sym e ∙ q) o

  -- Every sequence of polls that reaches the end has given the body that the reference reads, and
  -- has left what follows the body.
  pub Drains-decode_all :
      {r r' : R} {s : ChunkedState} {n : ℕ} {out : Bytes}
      → IsMemRead m wire
      → IsOpen s n
      → Drains r s n out r'
      → decode_all s n (wire r) ≡ (out, ok (wire r'))
  unfolding decode decode_all
  Drains-decode_all i h (finish {r} {r'} {s} {s'} {n} {n'} word fuel v k e) =
      let o = Returns-Holds (chunk_loop-Returns m wire i word v fuel r s n h k) e in
      o.0 ∙ rw (o.2.0 refl) refl
  Drains-decode_all i h (wait {r} {r'} {r''} {s} {s'} {n} {n'} word fuel v k e d) =
      let o = Returns-Holds (chunk_loop-Returns m wire i word v fuel r s n h k) e in
      o.0 ∙ Drains-decode_all i o.1 d
  Drains-decode_all i h (piece {r} {r'} {r''} {s} {s'} {n} {n'} {b} {bs} word fuel v k e d q) =
      let o = Returns-Holds (chunk_loop-Returns m wire i word v fuel r s n h k) e in
      rw q (o.0 ∙ ap (prepend (b ∷ bs)) (Drains-decode_all i o.1 d))

  -- A peer sent a chunked body as `Encoder` writes it, then `rest`. However the transport cuts the
  -- bytes and wherever it makes the reader wait, a reader that reaches the end of the body has got
  -- the buffers of the body in order, and exactly `rest` is left to read. At each poll a usize has
  -- at least one bit.
  pub Drains-encode_all :
      {r r' : R} {out : Bytes} (last : Bool) (ms : List Bytes) (w rest : Bytes)
      → IsMemRead m wire
      → AllBuffers ms
      → encode_all (record { kind = Encode.chunked; is_last = last }) ms ≡ some w
      → wire r ≡ w ++ rest
      → Drains r size 0 out r'
      → (out ≡ concat ms) × (wire r' ≡ rest)
  Drains-encode_all {r} {r'} {out} last ms w rest i h e q d =
      let (w', e', back) = decode_all-encode_all last ms h in
      let same : w' ≡ w = cc in
      let got : decode_all size 0 (wire r) ≡ (concat ms, ok rest) = rw (q, ← same) (back rest) in
      let has : decode_all size 0 (wire r) ≡ (out, ok (wire r')) =
        Drains-decode_all i (omega arith) d in
      (cc, cc)
