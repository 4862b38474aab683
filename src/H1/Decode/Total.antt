-- ===== src/H1/Decode/Total.antt =====
-- A poll of a chunked body, src/proto/h1/decode.rs: it ends, and it agrees with the reference.
use kaiwaehnero.Base.{
  ℕ, zero, suc, ◌<◌, ◌≡◌, refl, ◌↔◌, ◌⊎◌, inl, inr, [], ◌∷◌, Bytes, Option, none, some, length,
  arith,
}
use kaiwaehnero.Poll.{Poll, pending, ready, Result, ok, err, transport}
use kaiwaehnero.H1.MemRead.{MemRead, IsMemRead}
use kaiwaehnero.H1.Decode.{ChunkedState, end, Kind, chunked, step, chunk_loop, settle}
use kaiwaehnero.H1.Decode.Reference.{prepend, decode_all}
use kaiwaehnero.H1.Decode.Refine.{IsOpen, Agrees, step-Agrees}

-- The value of a poll against the reference: `d` for the bytes that were unread before it, and
-- the reference from the state and the bytes `w'` that it left.
abbrev pub Outcome : Bytes × Result Bytes → ChunkedState → ℕ → Bytes → Poll (Result Bytes) → Type 0
Outcome d s' n' w' pending = (d ≡ decode_all s' n' w') × IsOpen s' n'
Outcome d s' n' w' (ready (ok buf)) =
    (d ≡ prepend buf (decode_all s' n' w')) × IsOpen s' n' × ((buf ≡ []) ↔ (s' ≡ end))
Outcome d s' n' w' (ready (err e)) =
    (d ≡ ([], err e)) ⊎ ((d ≡ decode_all s' n' w') × IsOpen s' n' × (k : ℕ) × (e ≡ transport k))

module _ {R : Type 0} (m : MemRead R) (wire : R → Bytes) where
  abbrev pub Returns : Bytes × Result Bytes → Option (R × Kind × Poll (Result Bytes)) → Type 0
  Returns d x =
      (r' : R) × (s' : ChunkedState) × (n' : ℕ) × (p : Poll (Result Bytes)) × (x
        ≡ some (r', chunked s' n', p))
      × Outcome d s' n' (wire r') p

  settle-Returns :
      (go : R → ChunkedState → ℕ → Option (R × Kind × Poll (Result Bytes))) (s : ChunkedState)
      (n : ℕ) (w : Bytes) (r : R) (rem : ℕ) (buf : Option Bytes) (out : Poll (Result ChunkedState))
      → IsOpen s n
      → Agrees s n w (wire r) rem buf out
      → ((s' : ChunkedState)
          → IsOpen s' rem
          → length (wire r) < length w
          → Returns (decode_all s' rem (wire r)) (go r s' rem))
      → Returns (decode_all s n w) (settle m go s r rem buf out)
  unfolding settle
  settle-Returns go s n w r rem buf pending h a rest =
      (r, s, rem, pending, refl, (rw (a.0, a.1) refl, rw (a.1) h))
  settle-Returns go s n w r rem buf (ready (err e)) h (inl a) rest =
      (r, s, rem, ready (err e), refl, inl a)
  settle-Returns go s n w r rem buf (ready (err e)) h (inr a) rest =
      (r, s, rem, ready (err e), refl, inr (rw (a.0, a.1) refl, rw (a.1) h, a.2, a.3))
  settle-Returns go s n w r rem none (ready (ok end)) h a rest =
      (r, end, rem, ready (ok []), refl, (a.0, a.1, ((λ _. refl), (λ _. refl))))
  settle-Returns go s n w r rem none (ready (ok s')) h a rest = elim a.2 [
    | inl e ↦ cc
    | inr less ↦ rw a.0 (rest s' a.1 less)
  ]
  settle-Returns go s n w r rem (some []) (ready (ok s')) h a rest = absurd a.3
  settle-Returns go s n w r rem (some (b ∷ bs)) (ready (ok end)) h a rest = absurd (a.3 refl)
  settle-Returns go s n w r rem (some (b ∷ bs)) (ready (ok s')) h a rest =
      (r, s', rem, ready (ok (b ∷ bs)), refl, (a.0, a.1, ((λ e. cc), (λ e. cc))))

  module _ (i : IsMemRead m wire) where
    -- One poll of a chunked body, where a usize has at least one bit: with more fuel than unread bytes
    -- it returns, and what it returns and leaves unread is what the reference says, wherever the
    -- transport cut the bytes.
    pub chunk_loop-Returns :
        (word : ℕ)
        → 1 < word
        → (fuel : ℕ) (r : R) (s : ChunkedState) (n : ℕ) → IsOpen s n
        → length (wire r) < fuel
        → Returns (decode_all s n (wire r)) (chunk_loop m word fuel r s n)
    unfolding chunk_loop
    chunk_loop-Returns word v zero r s n h k = absurd (omega arith)
    chunk_loop-Returns word v (suc fuel) r s n h k =
        let t = step m word r s n in
        settle-Returns (λ r' s' n'. chunk_loop m word fuel r' s' n') s n (wire r) t.rdr t.rem t.buf
          t.out h (step-Agrees m wire i word v r s n h)
          (λ s' h' less. chunk_loop-Returns word v fuel t.rdr s' t.rem h' (omega arith))
