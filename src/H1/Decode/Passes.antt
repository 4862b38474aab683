-- ===== src/H1/Decode/Passes.antt =====
-- Where a wait or an error of the transport comes from that a chunked body of src/proto/h1/decode.rs passes on.
use kaiwaehnero.Base.{◌≢◌, ℕ, zero, suc, ◌≡◌, refl, [], ◌∷◌, Bytes, Option, none, some, arith}
use kaiwaehnero.Poll.{Poll, pending, ready, Result, ok, err, transport}
use kaiwaehnero.H1.MemRead.{MemRead}
use kaiwaehnero.H1.Decode.{
  min_usize, read_body, ChunkedState, body, end, Kind, first_byte, on_byte, take_body, step, settle,
  chunk_loop, read_byte,
}

read_byte-transport : (s : ChunkedState) (n b k : ℕ) → (read_byte s n b).1 ≢ err (transport k)
unfolding read_byte
read_byte-transport body n b k e = cc
read_byte-transport end n b k e = cc
read_byte-transport _ n b k e = ground arith

module _ {R : Type 0} (m : MemRead R) where
  -- The reader gives this for some read.
  abbrev pub Given : Poll (Result Bytes) → Type 0
  Given x = (before : R) × (n : ℕ) × ((m.read_mem before n).1 ≡ x)

  -- What is passed on is given.
  abbrev pub Passed : {A : Type 0} → Poll (Result A) → Type 0
  Passed pending = Given pending
  Passed (ready (err (transport k))) = Given (ready (err (transport k)))
  Passed _ = Unit

  read_byte-Passed :
      (s : ChunkedState) (n b : ℕ) (x : Result ChunkedState)
      → (read_byte s n b).1 ≡ x
      → Passed (ready x)
  unfolding read_byte
  read_byte-Passed s n b (ok s') e = tt
  read_byte-Passed s n b (err (transport k)) e = absurd (read_byte-transport s n b k e)
  read_byte-Passed s n b (err _) e = tt

  on_byte-Passed :
      (s : ChunkedState) (r : R) (n : ℕ) (x : R × Poll (Result Bytes))
      → Given x.1
      → Passed (on_byte m s n (x.0, first_byte x.1)).out
  unfolding on_byte
  on_byte-Passed s r n (r', pending) g = g
  on_byte-Passed s r n (r', ready (err (transport k))) g = g
  on_byte-Passed s r n (r', ready (err _)) g = tt
  on_byte-Passed s r n (r', ready (ok [])) g = tt
  on_byte-Passed s r n (r', ready (ok (b ∷ bs))) g = read_byte-Passed s n b (read_byte s n b).1 refl

  take_body-Passed :
      (n : ℕ) (x : R × Poll (Result Bytes)) → Given x.1 → Passed (take_body m n x).out
  unfolding take_body
  take_body-Passed n (r', pending) g = g
  take_body-Passed n (r', ready (err (transport k))) g = g
  take_body-Passed n (r', ready (err _)) g = tt
  take_body-Passed n (r', ready (ok [])) g = tt
  take_body-Passed n (r', ready (ok (b ∷ bs))) g = tt

  step-Passed : (word : ℕ) (r : R) (s : ChunkedState) (n : ℕ) → Passed (step m word r s n).out
  unfolding step read_body
  step-Passed word r body n =
      take_body-Passed n (m.read_mem r (min_usize word n)) (r, min_usize word n, refl)
  step-Passed word r end n = tt
  step-Passed word r s n = on_byte-Passed s r n (m.read_mem r 1) (r, 1, refl)

  abbrev pub AllPassed : Option (R × Kind × Poll (Result Bytes)) → Type 0
  AllPassed none = Unit
  AllPassed (some (r, k, p)) = Passed p

  settle-Passed :
      (go : R → ChunkedState → ℕ → Option (R × Kind × Poll (Result Bytes))) (s : ChunkedState)
      (r : R) (n : ℕ) (buf : Option Bytes) (out : Poll (Result ChunkedState))
      → Passed out
      → ((s' : ChunkedState) → AllPassed (go r s' n))
      → AllPassed (settle m go s r n buf out)
  unfolding settle
  settle-Passed go s r n buf pending g h = g
  settle-Passed go s r n buf (ready (err (transport k))) g h = g
  settle-Passed go s r n buf (ready (err _)) g h = tt
  settle-Passed go s r n none (ready (ok end)) g h = tt
  settle-Passed go s r n none (ready (ok s')) g h = h s'
  settle-Passed go s r n (some b) (ready (ok s')) g h = tt

  -- A wait or an error of the transport that a poll returns has been given by the reader.
  pub chunk_loop-Passed :
      (word fuel : ℕ) (r : R) (s : ChunkedState) (n : ℕ) → AllPassed (chunk_loop m word fuel r s n)
  unfolding chunk_loop
  chunk_loop-Passed word zero r s n = tt
  chunk_loop-Passed word (suc fuel) r s n =
      let t = step m word r s n in
      settle-Passed (λ r' s' n'. chunk_loop m word fuel r' s' n') s t.rdr t.rem t.buf t.out
        (step-Passed word r s n) (λ s'. chunk_loop-Passed word fuel t.rdr s' t.rem)
