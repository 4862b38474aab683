-- ===== src/H1/Decode/Sized.antt =====
-- A body with a `content-length`, as src/proto/h1/decode.rs reads it, and inputs of a chunked body
-- that the decoder refuses or lets pass.
use kaiwaehnero.Base.{
  ℕ, zero, suc, ◌+◌, ◌*◌, ◌%◌, ◌≤◌, ◌<◌, ◌≡◌, ◌≢◌, refl, ap, sym, ◌∙◌, ◌⊎◌, inl, inr, [], ◌∷◌, ◌++◌,
  Bytes, Option, some, length, length-append, arith, u64_mod, append_assoc, subst, le→ltb-false,
  ◌==◌, false,
}
use native.Mathlib.Nat.{mod-eq_of_lt}
use kaiwaehnero.Poll.{
  Poll, pending, ready, Result, ok, err, ErrorKind, transport, unexpected_eof, invalid_data,
}
use kaiwaehnero.H1.MemRead.{MemRead, IsMemRead, Reads}
use kaiwaehnero.H1.Decode.{ChunkedState, size, Kind, length_of, decode, sized, read_byte}
use kaiwaehnero.H1.Decode.Reference.{decode_all, Decoded, continue_with}
use kaiwaehnero.H1.Encode.ChunkSize.{hex_digit}

-- One poll with `n` bytes to come, from the unread bytes `w`: `n'` are to come after it, and `w'`
-- are unread. A stream that ends too early is an error, and only such a stream is.
abbrev pub SizedOutcome : ℕ → Bytes → ℕ → Bytes → Poll (Result Bytes) → Type 0
SizedOutcome n w n' w' pending = (w' ≡ w) × (n' ≡ n) × (0 < n)
SizedOutcome n w n' w' (ready (ok buf)) =
    (w ≡ buf ++ w') × (n ≡ length buf + n') × (buf ≡ [] → n ≡ 0)
SizedOutcome n w n' w' (ready (err e)) =
    (w' ≡ w)
    × (n' ≡ n)
    × (0 < n)
    × (((e ≡ unexpected_eof) × (w ≡ [])) ⊎ ((k : ℕ) × (e ≡ transport k)))

module _ {R : Type 0} (m : MemRead R) (wire : R → Bytes) where
  abbrev pub SizedReturns : ℕ → Bytes → Option (R × Kind × Poll (Result Bytes)) → Type 0
  SizedReturns n w (some (r, length_of n', p)) = SizedOutcome n w n' (wire r) p
  SizedReturns n w _ = ⊥

  sized-Returns :
      (n : ℕ) (w : Bytes) (r : R) (p : Poll (Result Bytes))
      → 0 < n
      → Reads w n (wire r) p
      → SizedReturns n w (some (sized m n (r, p)))
  unfolding sized
  sized-Returns n w r pending h q = (q, refl, h)
  sized-Returns n w r (ready (err e)) h q = (q.0, refl, h, inr (q.1, q.2))
  sized-Returns n w r (ready (ok [])) h q =
      rw (le→ltb-false n 0 (omega arith)) (elim (q.2 refl) [
        | inl z ↦ absurd (omega arith)
        | inr z ↦ (sym q.0, refl, h, inl (refl, z))
      ])
  sized-Returns n w r (ready (ok (b ∷ bs))) h q =
      rw (le→ltb-false n (length (b ∷ bs)) q.1)
        (rw (nonzero (length bs)) (q.0, omega arith, λ e. cc))
    where
      nonzero : (k : ℕ) → (suc k == 0) ≡ false
      nonzero k = ground arith

  -- One poll of a body of known length: it gives bytes of the body and no other, as many as it
  -- takes off the length, and it fails only where the transport fails or the stream ends early.
  pub decode-SizedReturns :
      (word fuel n : ℕ) (r : R)
      → IsMemRead m wire
      → n < word
      → SizedReturns n (wire r) (decode m word fuel r (length_of n))
  unfolding decode
  decode-SizedReturns word fuel zero r i h = (refl, refl, λ e. refl)
  decode-SizedReturns word fuel (suc n) r i h =
      let e : (suc n == 0) ≡ false = ground arith in
      let f : suc n % word ≡ suc n = mod-eq_of_lt h in
      rw e (rw f (sized-Returns (suc n) (wire r) _ _ (omega arith) (i.reads r (suc n))))

  -- The polls of a whole body of known length, and the bytes that they gave.
  pub data SizedDrains : R → ℕ → Bytes → R → Type 0 where
    finish :
        {r r' : R} {n n' : ℕ} (word fuel : ℕ)
        → n < word
        → decode m word fuel r (length_of n) ≡ some (r', length_of n', ready (ok []))
        → SizedDrains r n [] r'
    wait :
        {r r' r'' : R} {n n' : ℕ} {out : Bytes} (word fuel : ℕ)
        → n < word
        → decode m word fuel r (length_of n) ≡ some (r', length_of n', pending)
        → SizedDrains r' n' out r''
        → SizedDrains r n out r''
    piece :
        {r r' r'' : R} {n n' b : ℕ} {bs out all : Bytes} (word fuel : ℕ)
        → n < word
        → decode m word fuel r (length_of n) ≡ some (r', length_of n', ready (ok (b ∷ bs)))
        → SizedDrains r' n' out r''
        → all ≡ (b ∷ bs) ++ out
        → SizedDrains r n all r''

  -- A reader that reaches the end of a body of `n` bytes has got the next `n` bytes of the stream,
  -- and what follows them is left to read.
  pub SizedDrains-length :
      {r r' : R} {n : ℕ} {out : Bytes}
      → IsMemRead m wire
      → SizedDrains r n out r'
      → (length out ≡ n) × (wire r ≡ out ++ wire r')
  SizedDrains-length i (finish {r} {r'} {n} {n'} word fuel h e) =
      let o = subst (SizedReturns n (wire r)) e (decode-SizedReturns word fuel n r i h) in
      (sym (o.2 refl), o.0)
  SizedDrains-length i (wait {r} {r'} {r''} {n} {n'} word fuel h e d) =
      let o = subst (SizedReturns n (wire r)) e (decode-SizedReturns word fuel n r i h) in
      let (l, w) = SizedDrains-length i d in (omega arith, sym o.0 ∙ w)
  SizedDrains-length i (piece {r} {r'} {r''} {n} {n'} {b} {bs} {out} word fuel h e d q) =
      let o = subst (SizedReturns n (wire r)) e (decode-SizedReturns word fuel n r i h) in
      let (l, w) = SizedDrains-length i d in
      rw q (
        omega (arith, length-append (b ∷ bs) out),
        o.0 ∙ ap (λ t. (b ∷ bs) ++ t) w ∙ sym (append_assoc (b ∷ bs) out (wire r'')),
      )

  abbrev NoBytes : Option (R × Kind × Poll (Result Bytes)) → Type 0
  NoBytes (some (r, k, ready (ok buf))) = ⊥
  NoBytes _ = Unit

  sized-NoBytes :
      (n : ℕ) (w : Bytes) (r : R) (p : Poll (Result Bytes))
      → 0 < n
      → Reads w 0 (wire r) p
      → NoBytes (some (sized m n (r, p)))
  unfolding sized
  sized-NoBytes n w r pending h q = tt
  sized-NoBytes n w r (ready (err e)) h q = tt
  sized-NoBytes n w r (ready (ok [])) h q = rw (le→ltb-false n 0 (omega arith)) tt
  sized-NoBytes n w r (ready (ok (b ∷ bs))) h q = absurd (omega arith)

  -- Where a `usize` is narrower than the length, `remaining as usize` can be 0: such a body can
  -- never be read, whatever the peer sends.
  pub decode_truncated :
      (word fuel n : ℕ) (r r' : R) (k : Kind) (buf : Bytes)
      → IsMemRead m wire
      → 0 < n
      → n % word ≡ 0
      → decode m word fuel r (length_of n) ≢ some (r', k, ready (ok buf))
  unfolding decode
  decode_truncated word fuel n r r' k buf i h z e =
      let f : (n == 0) ≡ false = ground arith in
      let g : NoBytes (decode m word fuel r (length_of n)) =
        rw f (rw z (sized-NoBytes n (wire r) _ _ h (i.reads r 0))) in
      subst NoBytes e g

read_byte_overflow :
    (n d : ℕ)
    → n < u64_mod
    → d < 16
    → u64_mod ≤ n * 16 + d
    → (read_byte size n (hex_digit d)).1 ≡ err invalid_data
unfolding read_byte hex_digit
read_byte_overflow n d h k l = ground arith

continue_with-err :
    (go : ChunkedState → ℕ → Decoded) (x : ℕ × Result ChunkedState) {e : ErrorKind}
    → x.1 ≡ err e
    → continue_with go x ≡ ([], err e)
continue_with-err go (n, ok s) h = cc
continue_with-err go (n, err e) h = cc

-- A digit that would take the size past a `u64` ends the body with an error.
pub decode_all-overflow :
    (n d : ℕ) (w : Bytes)
    → n < u64_mod
    → d < 16
    → u64_mod ≤ n * 16 + d
    → decode_all size n (hex_digit d ∷ w) ≡ ([], err invalid_data)
unfolding decode_all
decode_all-overflow n d w h k l =
    continue_with-err (λ s' n'. decode_all s' n' w) (read_byte size n (hex_digit d))
      (read_byte_overflow n d h k l)
