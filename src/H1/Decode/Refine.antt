-- ===== src/H1/Decode/Refine.antt =====
-- One step of the chunked decoder, src/proto/h1/decode.rs, against the reference.
use kaiwaehnero.Base.{
  ℕ, zero, suc, ◌-◌, ◌≤◌, ◌<◌, ◌≡◌, ◌≢◌, refl, ap, ◌⊎◌, inl, inr, [], ◌∷◌, ◌++◌, Bytes, Option,
  none, some, length, length-append, arith, u64_mod, ltb, if◌then◌else◌,
}
use kaiwaehnero.Poll.{Poll, pending, ready, Result, ok, err, unexpected_eof, transport}
use kaiwaehnero.H1.MemRead.{MemRead, IsMemRead, Reads}
use kaiwaehnero.H1.Decode.{
  ChunkedState, size, size_lws, body, body_cr, end, read_byte, step, on_byte, take_body, Stepped,
  first_byte, min_usize,
}
use kaiwaehnero.H1.Decode.Reference.{prepend, after_data, continue_with, decode_all}

-- In the state `body` a byte of the chunk is still to come, and sizes fit a `u64`.
abbrev pub IsOpen : ChunkedState → ℕ → Type 0
IsOpen body n = (0 < n) × (n < u64_mod)
IsOpen _ n = n < u64_mod

abbrev ReadsByte : ChunkedState → Type 0
ReadsByte body = ⊥
ReadsByte end = ⊥
ReadsByte _ = Unit

decode_all-byte :
    (s : ChunkedState) (n b : ℕ) (w : Bytes)
    → ReadsByte s
    → decode_all s n (b ∷ w) ≡ continue_with (λ s' n'. decode_all s' n' w) (read_byte s n b)
unfolding decode_all
decode_all-byte body n b w h = absurd h
decode_all-byte end n b w h = absurd h
decode_all-byte _ n b w h = refl

decode_all-nil :
    (s : ChunkedState) (n : ℕ) → ReadsByte s → decode_all s n [] ≡ ([], err unexpected_eof)
unfolding decode_all
decode_all-nil body n h = absurd h
decode_all-nil end n h = absurd h
decode_all-nil _ n h = refl

-- A whole piece of a chunk's data at once.
pub decode_all-data :
    (n b : ℕ) (bs w : Bytes)
    → length (b ∷ bs) ≤ n
    → decode_all body n ((b ∷ bs) ++ w)
      ≡ prepend (b ∷ bs) (decode_all (after_data (n - length (b ∷ bs))) (n - length (b ∷ bs)) w)
unfolding decode_all
decode_all-data zero b bs w h = absurd (omega arith)
decode_all-data (suc n) b [] w h = let e : suc n - 1 ≡ n = omega arith in rw e refl
decode_all-data (suc zero) b (c ∷ bs) w h = absurd (omega arith)
decode_all-data (suc (suc n)) b (c ∷ bs) w h =
    let e : suc (suc n) - length (b ∷ c ∷ bs) ≡ suc n - length (c ∷ bs) = omega arith in
    rw e (ap (prepend (b ∷ [])) (decode_all-data (suc n) c bs w (omega arith)))

read_byte-IsOpen :
    (s : ChunkedState) (n b n' : ℕ) (s' : ChunkedState)
    → ReadsByte s
    → n < u64_mod
    → read_byte s n b ≡ (n', ok s')
    → IsOpen s' n'
unfolding read_byte
read_byte-IsOpen body n b n' s' h k e = absurd h
read_byte-IsOpen end n b n' s' h k e = absurd h
read_byte-IsOpen size n b n' s' h k e = ground arith
read_byte-IsOpen _ n b n' s' h k e = ground arith

after_data-ne-end : (k : ℕ) → after_data k ≢ end
after_data-ne-end zero h = cc
after_data-ne-end (suc k) h = cc

-- What a step hands out is not empty, and is not handed out at the end.
abbrev pub IsPiece : ChunkedState → Option Bytes → Type 0
IsPiece s none = Unit
IsPiece s (some []) = ⊥
IsPiece s (some (b ∷ bs)) = s ≢ end

abbrev pub bytes_of : Option Bytes → Bytes
bytes_of none = []
bytes_of (some b) = b

-- What a step must do with the unread bytes `w`, of which it leaves `w'`.
abbrev pub Agrees :
    ChunkedState → ℕ → Bytes → Bytes → ℕ → Option Bytes → Poll (Result ChunkedState) → Type 0
Agrees s n w w' rem buf pending = (w' ≡ w) × (rem ≡ n)
Agrees s n w w' rem buf (ready (err e)) =
    (decode_all s n w ≡ ([], err e)) ⊎ ((w' ≡ w) × (rem ≡ n) × (k : ℕ) × (e ≡ transport k))
Agrees s n w w' rem buf (ready (ok s')) =
    (decode_all s n w ≡ prepend (bytes_of buf) (decode_all s' rem w'))
    × IsOpen s' rem
    × ((s' ≡ end) ⊎ (length w' < length w))
    × IsPiece s' buf

after_data_lem : (k : ℕ) → (if ltb 0 k then body else body_cr) ≡ after_data k
after_data_lem zero = refl
after_data_lem (suc k) = ground arith

after_data-IsOpen : (k : ℕ) → k < u64_mod → IsOpen (after_data k) k
after_data-IsOpen zero h = h
after_data-IsOpen (suc k) h = (omega arith, h)

min_usize-le : (word n : ℕ) → min_usize word n ≤ n
min_usize-le word n = ground arith

min_usize-positive : (word n : ℕ) → 1 < word → 0 < n → 0 < min_usize word n
min_usize-positive word n v h = ground arith

module _ {R : Type 0} (m : MemRead R) (wire : R → Bytes) where
  abbrev StepAgrees : ChunkedState → ℕ → Bytes → Stepped R → Type 0
  StepAgrees s n w t = Agrees s n w (wire t.rdr) t.rem t.buf t.out

  next-Agrees :
      (s : ChunkedState) (n b : ℕ) (r : R) (x : ℕ × Result ChunkedState)
      → ReadsByte s
      → n < u64_mod
      → read_byte s n b ≡ x
      → Agrees s n (b ∷ wire r) (wire r) x.0 none (ready x.1)
  next-Agrees s n b r (n', err e) h k q = inl (rw (decode_all-byte s n b (wire r) h, q) refl)
  next-Agrees s n b r (n', ok s') h k q = (
    rw (decode_all-byte s n b (wire r) h, q) refl,
    read_byte-IsOpen s n b n' s' h k q,
    inr (omega arith),
    tt,
  )

  on_byte-Agrees :
      (s : ChunkedState) (n : ℕ) (w : Bytes) (r : R) (p : Poll (Result Bytes))
      → ReadsByte s
      → n < u64_mod
      → Reads w 1 (wire r) p
      → StepAgrees s n w (on_byte m s n (r, first_byte p))
  unfolding on_byte
  on_byte-Agrees s n w r pending h k q = (q, refl)
  on_byte-Agrees s n w r (ready (err e)) h k q = inr (q.0, refl, q.1, q.2)
  on_byte-Agrees s n w r (ready (ok [])) h k q = elim (q.2 refl) [
    | inl z ↦ absurd (omega arith)
    | inr z ↦ inl (rw z (decode_all-nil s n h))
  ]
  on_byte-Agrees s n w r (ready (ok (b ∷ c ∷ bs))) h k q = absurd (omega arith)
  on_byte-Agrees s n w r (ready (ok (b ∷ []))) h k q =
      rw q.0 (next-Agrees s n b r (read_byte s n b) h k refl)

  take_body-Agrees :
      (word n : ℕ) (w : Bytes) (r : R) (p : Poll (Result Bytes))
      → 1 < word
      → 0 < n
      → n < u64_mod
      → Reads w (min_usize word n) (wire r) p
      → StepAgrees body n w (take_body m n (r, p))
  unfolding take_body decode_all
  take_body-Agrees word n w r pending v h k q = (q, refl)
  take_body-Agrees word n w r (ready (err e)) v h k q = inr (q.0, refl, q.1, q.2)
  take_body-Agrees word n w r (ready (ok [])) v h k q = elim (q.2 refl) [
    | inl z ↦ absurd (omega (arith, min_usize-positive word n v h))
    | inr z ↦ inl (rw z refl)
  ]
  take_body-Agrees word n w r (ready (ok (b ∷ bs))) v h k q =
      let left = n - length (b ∷ bs) in
      rw (after_data_lem left) (
        rw q.0 (decode_all-data n b bs (wire r) (omega (arith, q.1, min_usize-le word n))),
        after_data-IsOpen left (omega arith),
        inr (omega (arith, ap length q.0, length-append (b ∷ bs) (wire r))),
        (λ e. after_data-ne-end left e),
      )

  -- Whatever a read brings, a step does to the unread bytes what the reference says.
  pub step-Agrees :
      (i : IsMemRead m wire) (word : ℕ)
      → 1 < word
      → (r : R) (s : ChunkedState) (n : ℕ) → IsOpen s n
      → StepAgrees s n (wire r) (step m word r s n)
  unfolding step
  step-Agrees i word v r body n h =
      take_body-Agrees word n (wire r) _ _ v h.0 h.1 (i.reads r (min_usize word n))
  step-Agrees i word v r end n h = (refl, h, inl refl, tt)
  step-Agrees i word v r size n h = on_byte-Agrees size n (wire r) _ _ tt h (i.reads r 1)
  step-Agrees i word v r size_lws n h = on_byte-Agrees size_lws n (wire r) _ _ tt h (i.reads r 1)
  step-Agrees i word v r s n h = on_byte-Agrees s n (wire r) _ _ tt h (i.reads r 1)
