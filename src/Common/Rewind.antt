-- ===== src/Common/Rewind.antt =====
-- src/common/io/rewind.rs: a stream that gives back bytes that were read ahead of it. The stream below is a reader as
-- `AsyncRead` is: `buf.remaining()` is the number of bytes that are asked for.
use kaiwaehnero.Base.{
  ℕ, ◌≡◌, ◌⊎◌, inl, inr, min, refl, sym, ap, ◌∙◌, true, Option, none, some, Bytes, [], ◌∷◌, ◌++◌,
  length, take, drop, is_empty, if◌then◌else◌, Bool-cases, take-append-drop, length-take,
  append_assoc, arith,
}
use kaiwaehnero.Poll.{Poll, pending, ready, Result, ok, err}
use kaiwaehnero.H1.MemRead.{MemRead, IsMemRead, Reads}

pub record Rewind (S : Type 0) : Type 0 where
  pub pre : Option Bytes
  pub inner : S

abbrev pub or_empty : Option Bytes → Bytes
or_empty none = []
or_empty (some b) = b

-- What is put back.
abbrev pub put_back : Bytes → Option Bytes
put_back b = if is_empty b then none else some b

put_back-same : (b : Bytes) → or_empty (put_back b) ≡ b
put_back-same [] = refl
put_back-same (x ∷ b) = refl

is_empty_nil : (w : Bytes) → is_empty w ≡ true → w ≡ []
is_empty_nil [] h = refl
is_empty_nil (x ∷ w) h = cc

take-empty : (n : ℕ) (w : Bytes) → take (min (length w) n) w ≡ [] → (n ≡ 0) ⊎ (w ≡ [])
take-empty n [] h = inr refl
take-empty n (x ∷ w) h =
    let k = ap length h in let l = length-take (min (length (x ∷ w)) n) (x ∷ w) in inl (omega arith)

module _ {S : Type 0} where
  unfoldable pub new : S → Rewind S
  new io = record { pre = none; inner = io }

  unfoldable pub new_buffered : S → Bytes → Rewind S
  new_buffered io buf = record { pre = some buf; inner = io }

  unfoldable pub rewind : Rewind S → Bytes → Rewind S
  rewind r bs = record r { pre = some bs }

  unfoldable pub into_inner : Rewind S → S × Bytes
  into_inner r = (r.inner, or_empty r.pre)

  module _ (source : MemRead S) where
    unfoldable pub inner_read : S × Poll (Result Bytes) → Rewind S × Poll (Result Bytes)
    inner_read (s, p) = (record { pre = none; inner = s }, p)

    unfoldable pub poll_read : Rewind S → ℕ → Rewind S × Poll (Result Bytes)
    unfolding inner_read
    poll_read r n =
        let prefix = or_empty r.pre in
        let copy_len = min (length prefix) n in
        if is_empty prefix
        then inner_read (source.read_mem r.inner n)
        else (record r { pre = put_back (drop copy_len prefix) }, ready (ok (take copy_len prefix)))

    abbrev pub reader : MemRead (Rewind S)
    reader = record { read_mem = poll_read }

    -- What is still to come.
    abbrev pub unread : (S → Bytes) → Rewind S → Bytes
    unread wire r = or_empty r.pre ++ wire r.inner

    inner-Reads :
        (wire : S → Bytes) (r : Rewind S) (n : ℕ) (x : S × Poll (Result Bytes))
        → or_empty r.pre ≡ []
        → Reads (wire r.inner) n (wire x.0) x.1
        → Reads (unread wire r) n (unread wire (inner_read x).0) (inner_read x).1
    unfolding inner_read
    inner-Reads wire r n (s, pending) e h = rw (e) h
    inner-Reads wire r n (s, ready (err k)) e h = rw (e) h
    inner-Reads wire r n (s, ready (ok b)) e h = rw (e) h

    -- A stream with bytes put back is a reader if the stream below is one: the bytes put back come first, and none is
    -- lost or given twice.
    pub rewind-IsMemRead :
        (wire : S → Bytes) → IsMemRead source wire → IsMemRead reader (unread wire)
    unfolding poll_read
    rewind-IsMemRead wire laws = record { reads = λ r n. read r n }
      where
        read :
            (r : Rewind S) (n : ℕ)
            → Reads (unread wire r) n (unread wire (poll_read r n).0) (poll_read r n).1
        read r n = elim (Bool-cases (is_empty (or_empty r.pre))) [
          | inl e ↦ rw (e) (
              inner-Reads wire r n (source.read_mem r.inner n) (is_empty_nil (or_empty r.pre) e)
                (laws.reads r.inner n))
          | inr e ↦ rw (e) (
            ap (λ k. k ++ wire r.inner)
                  (sym (take-append-drop (min (length (or_empty r.pre)) n) (or_empty r.pre)))
                ∙ append_assoc (take (min (length (or_empty r.pre)) n) (or_empty r.pre))
                    (drop (min (length (or_empty r.pre)) n) (or_empty r.pre)) (wire r.inner)
                ∙ ap
                    (λ k.
                      take (min (length (or_empty r.pre)) n) (or_empty r.pre)
                      ++ (k ++ wire r.inner))
                    (sym (put_back-same (drop (min (length (or_empty r.pre)) n) (or_empty r.pre)))),
            (let l = length-take (min (length (or_empty r.pre)) n) (or_empty r.pre) in omega arith),
            λ h. elim (take-empty n (or_empty r.pre) h) [ inl z ↦ inl z | inr z ↦ cc (e, z) ],
          )
        ]
