-- ===== src/H1/Io/Reader.antt =====
-- `Buffered` of src/proto/h1/io.rs keeps the laws of the trait `MemRead`.
use kaiwaehnero.Base.{
  ℕ, ◌≤◌, ◌<◌, ◌≡◌, ◌≢◌, zero, suc, refl, ap, sym, ◌∙◌, ◌⊎◌, inl, inr, true, false, Bytes, [], ◌∷◌,
  ◌++◌, length, take, drop, is_empty, ltb, leb, min, take-append-drop, length-take, append_assoc,
  arith, Bool-cases,
}
use kaiwaehnero.Poll.{Poll, pending, ready, Result, ok, err}
use kaiwaehnero.H1.MemRead.{MemRead, IsMemRead, Reads}
use kaiwaehnero.H1.Io.{
  ReadStrategy, adaptive, exact, next, record_read, incr_power_of_two, prev_power_of_two,
  init_buffer_size, Buffered, received, poll_read_from_io, split_to, after_read, read_mem,
}

-- What a strategy that grows asks for lies at the initial size or above; another asks for something.
abbrev pub IsReadStrategy : ReadStrategy → Type 0
IsReadStrategy (adaptive d n m) = (init_buffer_size ≤ n) × (init_buffer_size ≤ m)
IsReadStrategy (exact n) = 0 < n

pub record_read-IsReadStrategy :
    (s : ReadStrategy) (n : ℕ) → IsReadStrategy s → IsReadStrategy (record_read s n)
unfolding record_read incr_power_of_two
record_read-IsReadStrategy (adaptive d n m) k h = elim (Bool-cases (leb n k)) [
  | inl full ↦ rw (full) (omega arith, h.1)
  | inr less ↦ elim (Bool-cases (ltb k (prev_power_of_two n))) [
    | inr near ↦ rw (less, near) h
    | inl far ↦ elim (Bool-cases d) [
      | inl twice ↦ rw (less, far, twice) (omega arith, h.1)
      | inr once ↦ rw (less, far, once) h
    ]
  ]
]
record_read-IsReadStrategy (exact n) k h = h

pub next-positive : (s : ReadStrategy) → IsReadStrategy s → 0 < next s
unfolding next
next-positive (adaptive d n m) h = omega arith
next-positive (exact n) h = h

take-empty : (n : ℕ) (r : Bytes) → take n r ≡ [] → (n ≡ 0) ⊎ (r ≡ [])
take-empty zero r h = inl refl
take-empty (suc n) [] h = inr refl
take-empty (suc n) (x ∷ r) h = cc

cut : (n : ℕ) (w tail : Bytes) → w ++ tail ≡ take n w ++ (drop n w ++ tail)
cut n w tail =
    ap (λ l. l ++ tail) (sym (take-append-drop n w)) ∙ append_assoc (take n w) (drop n w) tail

pub length-zero : (w : Bytes) → length w ≡ 0 → w ≡ []
length-zero [] h = refl
length-zero (x ∷ w) h = absurd (omega (arith, h))

is_empty-nil : (w : Bytes) → is_empty w ≡ true → w ≡ []
is_empty-nil [] h = refl
is_empty-nil (x ∷ w) h = cc

min-zero : (n : ℕ) (w : Bytes) → min n (length w) ≡ 0 → is_empty w ≡ false → n ≡ 0
min-zero n [] h e = cc
min-zero n (x ∷ w) h e = omega (arith, h)

take-length_le : (n : ℕ) (w : Bytes) → length (take n w) ≤ n
take-length_le n w = omega (arith, length-take n w)

module _ {S : Type 0} (source : MemRead S) (room : Bytes → ℕ → ℕ) where
  -- A buffer with a sound strategy.
  abbrev pub Reader : Type 0
  Reader = (b : Buffered S) × IsReadStrategy b.read_buf_strategy

  received-IsReadStrategy :
      (b : Buffered S) (x : S × Poll (Result Bytes))
      → IsReadStrategy b.read_buf_strategy
      → IsReadStrategy (received source room b x).0.read_buf_strategy
  unfolding received
  received-IsReadStrategy b (s, pending) h = h
  received-IsReadStrategy b (s, ready (err e)) h = h
  received-IsReadStrategy b (s, ready (ok bytes)) h =
      record_read-IsReadStrategy b.read_buf_strategy (length bytes) h

  after_read-IsReadStrategy :
      (len : ℕ) (x : Buffered S × Poll (Result ℕ))
      → IsReadStrategy x.0.read_buf_strategy
      → IsReadStrategy (after_read source room len x).0.read_buf_strategy
  unfolding after_read split_to
  after_read-IsReadStrategy len (b, pending) h = h
  after_read-IsReadStrategy len (b, ready (err e)) h = h
  after_read-IsReadStrategy len (b, ready (ok n)) h = h

  pub read_mem-IsReadStrategy :
      (b : Buffered S) (len : ℕ)
      → IsReadStrategy b.read_buf_strategy
      → IsReadStrategy (read_mem source room b len).0.read_buf_strategy
  unfolding read_mem split_to poll_read_from_io
  read_mem-IsReadStrategy b len h = elim (Bool-cases (is_empty b.read_buf)) [
    | inl e ↦ rw (e) (
        after_read-IsReadStrategy len (poll_read_from_io source room b)
          (received-IsReadStrategy b _ h))
    | inr f ↦ rw (f) h
  ]

  -- The buffer as the reader of a decoder.
  abbrev pub reader : MemRead Reader
  reader = record {
    read_mem = λ r n.
        let (b, h) = r in
        (
          ((read_mem source room b n).0, read_mem-IsReadStrategy b n h),
          (read_mem source room b n).1,
        );
  }

  -- What is still to come: the bytes read ahead, and those of the source.
  abbrev pub unread : (S → Bytes) → Reader → Bytes
  unread wire (b, h) = b.read_buf ++ wire b.io

  split_to-Reads :
      (wire : S → Bytes) (b : Buffered S) (n len : ℕ)
      → n ≤ len
      → (n ≡ 0 → len ≡ 0)
      → b.read_buf ≢ []
      → Reads
          (b.read_buf ++ wire b.io)
          len
          ((split_to source room b n).0.read_buf ++ wire b.io)
          (split_to source room b n).1
  unfolding split_to
  split_to-Reads wire b n len le z ne = (
    cut n b.read_buf (wire b.io),
    omega (arith, take-length_le n b.read_buf),
    λ h. elim (take-empty n b.read_buf h) [ inl a ↦ inl (z a) | inr a ↦ absurd (ne a) ],
  )

  none_read :
      (asked len : ℕ) (bytes w : Bytes)
      → 0 < asked
      → min len (length bytes) ≡ 0
      → (bytes ≡ [] → (asked ≡ 0) ⊎ (w ≡ []))
      → (len ≡ 0) ⊎ (w ≡ [])
  none_read asked len bytes w p h f = elim (Bool-cases (ltb 0 (length bytes))) [
    | inl some_read ↦ inl (ground arith)
    | inr nothing ↦ elim (f (length-zero bytes (ground arith))) [
      | inl z ↦ omega arith
      | inr e ↦ inr e
    ]
  ]

  after_read-Reads :
      (wire : S → Bytes) (b : Buffered S) (asked len : ℕ) (x : S × Poll (Result Bytes))
      → b.read_buf ≡ []
      → 0 < asked
      → Reads (wire b.io) asked (wire x.0) x.1
      → Reads
          (b.read_buf ++ wire b.io)
          len
          ((after_read source room len (received source room b x)).0.read_buf
            ++ wire (after_read source room len (received source room b x)).0.io)
          (after_read source room len (received source room b x)).1
  unfolding after_read received split_to
  after_read-Reads wire b asked len (s, pending) e p r = rw (e) r
  after_read-Reads wire b asked len (s, ready (err x)) e p r = rw (e) r
  after_read-Reads wire b asked len (s, ready (ok bytes)) e p r =
      let n = min len (length bytes) in
      rw (e) (
        r.0 ∙ cut n bytes (wire s),
        omega (arith, take-length_le n bytes),
        λ h. elim (take-empty n bytes h) [
          | inl a ↦ none_read asked len bytes (wire b.io) p a r.2
          | inr a ↦ none_read asked len bytes (wire b.io) p (rw (a) (omega arith)) r.2
        ],
      )

  -- `Buffered` with a strategy that asks for something is a reader as a decoder wants it, if the source below
  -- is one and the buffer makes the room that is asked for: no byte is lost, given twice or out of order, and
  -- nothing is given only for an empty request or at the end.
  pub reader-IsMemRead :
      (wire : S → Bytes)
      → IsMemRead source wire
      → ((b : Bytes) (n : ℕ) → n ≤ room b n)
      → IsMemRead reader (unread wire)
  unfolding read_mem poll_read_from_io
  reader-IsMemRead wire m fits = record { reads = λ r n. read r.0 r.1 n }
    where
      read :
          (b : Buffered S) (h : IsReadStrategy b.read_buf_strategy) (n : ℕ)
          → Reads
              (b.read_buf ++ wire b.io)
              n
              ((read_mem source room b n).0.read_buf ++ wire (read_mem source room b n).0.io)
              (read_mem source room b n).1
      read b h n = elim (Bool-cases (is_empty b.read_buf)) [
        | inl e ↦ rw (e) (
            after_read-Reads wire b (room b.read_buf (next b.read_buf_strategy)) n
              (source.read_mem b.io (room b.read_buf (next b.read_buf_strategy)))
              (is_empty-nil b.read_buf e)
              (omega (
                arith,
                fits b.read_buf (next b.read_buf_strategy),
                next-positive b.read_buf_strategy h,
              ))
              (m.reads b.io (room b.read_buf (next b.read_buf_strategy))))
        | inr f ↦ rw (f) (
            split_to-Reads wire b (min n (length b.read_buf)) n (omega arith)
              (λ z. min-zero n b.read_buf z f) (λ e. cc (f, e)))
      ]
