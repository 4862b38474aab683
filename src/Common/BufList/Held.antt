-- ===== src/Common/BufList/Held.antt =====
-- A list of buffers holds what they hold, one after the other: src/common/buf.rs.
use kaiwaehnero.Base.{
  ==_iff, ℕ, ◌-◌, ◌≡◌, ◌≤◌, inl, inr, refl, sym, ap, ◌∙◌, false, some, List, [], ◌∷◌, ◌++◌, Bytes,
  length, drop, concat, ltb, ◌==◌, append_assoc, append-nil, length-append, drop-append_le,
  drop-append_ge, Bool-cases, arith,
}
use kaiwaehnero.Common.Buf.{Buf, IsBuf, Slices}
use kaiwaehnero.Common.BufList.{
  BufList, push, sum_remaining, remaining, advance_loop, with_bufs, advance, slices_loop,
  chunks_vectored,
}

concat-append : (a b : List Bytes) → concat (a ++ b) ≡ concat a ++ concat b
concat-append [] b = refl
concat-append (x ∷ a) b =
    ap (λ k. x ++ k) (concat-append a b) ∙ sym (append_assoc x (concat a) (concat b))

no_rest :
    (w : Bytes) (n : ℕ) (cs : List Bytes) → Slices w n cs → (length cs == n) ≡ false → w ≡ concat cs
no_rest w n cs f q = elim f.whole [
  | inl e ↦ ground arith
  | inr e ↦ f.text ∙ ap (λ k. concat cs ++ k) e ∙ append-nil (concat cs)
]

-- The slices of one buffer that leave places, and those of the next.
pub cons_Slices :
    (w w' : Bytes) (n : ℕ) (cs rs : List Bytes)
    → Slices w n cs
    → (length cs == n) ≡ false
    → Slices w' (n - length cs) rs
    → Slices (w ++ w') n (cs ++ rs)
cons_Slices w w' n cs rs f q r = record {
  rest = r.rest;
  count = let k = f.count in let k' = r.count in let e = length-append cs rs in omega arith;
  text =
      rw (no_rest w n cs f q, concat-append cs rs, r.text)
        (sym (append_assoc (concat cs) (concat rs) r.rest));
  whole = elim r.whole [
    | inl e ↦ let k = f.count in inl (length-append cs rs ∙ rw (e) (omega arith))
    | inr e ↦ inr e
  ];
}

module _ {T : Type 0} (m : Buf T) (held : T → Bytes) where
  abbrev pub held_all : List T → Bytes
  held_all [] = []
  held_all (b ∷ bs) = held b ++ held_all bs

  held_all-append : (a b : List T) → held_all (a ++ b) ≡ held_all a ++ held_all b
  held_all-append [] b = refl
  held_all-append (x ∷ a) b =
      ap (λ k. held x ++ k) (held_all-append a b)
      ∙ sym (append_assoc (held x) (held_all a) (held_all b))

  -- A buffer that is pushed comes after what the list holds.
  pub push-held : (l : BufList T) (b : T) → held_all (push m l b).bufs ≡ held_all l.bufs ++ held b
  unfolding push
  push-held l b =
      held_all-append l.bufs (b ∷ []) ∙ ap (λ k. held_all l.bufs ++ k) (append-nil (held b))

  module _ (laws : IsBuf m held) where
    sum_remaining-held : (bs : List T) → sum_remaining m bs ≡ length (held_all bs)
    unfolding sum_remaining
    sum_remaining-held [] = refl
    sum_remaining-held (b ∷ bs) =
        rw (laws.remaining_held b, sum_remaining-held bs)
          (sym (length-append (held b) (held_all bs)))

    advance_loop-held :
        (bs : List T) (n : ℕ)
        → n ≤ length (held_all bs)
        → (bs' : List T) × (advance_loop m bs n ≡ some bs') × (held_all bs' ≡ drop n (held_all bs))
    unfolding advance_loop
    advance_loop-held [] n h = ([], ground arith, ground arith)
    advance_loop-held (b ∷ bs) n h = elim (Bool-cases (n == 0)) [
      | inl z ↦ (b ∷ bs, rw (z) refl, rw ((==_iff n 0).0 z) refl)
      | inr nz ↦ elim (Bool-cases (ltb n (m.remaining b))) [
        | inl l ↦
            let k = laws.remaining_held b in
            let le : n ≤ length (held b) = ground arith in
            let (b', e, t) = laws.advance_held b n le in
            (b' ∷ bs, rw (nz, l, e) refl, rw (t) (sym (drop-append_le n (held b) (held_all bs) le)))
        | inr g ↦
            let k = laws.remaining_held b in
            let len = length-append (held b) (held_all bs) in
            let (b', e, t) = laws.advance_held b (m.remaining b) (rw (k) (omega arith)) in
            let (bs', e', t') = advance_loop-held bs (n - m.remaining b) (ground arith) in
            (
              bs',
              rw (nz, g, e) e',
              rw (t', k) (sym (drop-append_ge n (held b) (held_all bs) (ground arith))),
            )
      ]
    ]

    slices_loop-Slices : (bs : List T) (n : ℕ) → Slices (held_all bs) n (slices_loop m bs n)
    unfolding slices_loop
    slices_loop-Slices [] n = record {
      rest = [];
      count = ground arith;
      text = refl;
      whole = inr refl;
    }
    slices_loop-Slices (b ∷ bs) n =
        let f = laws.slices b n in
        let r = slices_loop-Slices bs (n - length (m.chunks_vectored b n)) in
        elim (Bool-cases (length (m.chunks_vectored b n) == n)) [
          | inl q ↦ rw (q) (record {
            rest = f.rest ++ held_all bs;
            count = f.count;
            text = rw (f.text) (append_assoc (concat (m.chunks_vectored b n)) f.rest (held_all bs));
            whole = inl ((==_iff (length (m.chunks_vectored b n)) n).0 q);
          })
          | inr q ↦ rw (q) (
              cons_Slices (held b) (held_all bs) n (m.chunks_vectored b n)
                (slices_loop m bs (n - length (m.chunks_vectored b n))) f q r)
        ]

    -- A list of buffers has as many bytes as it holds.
    pub remaining-held : (l : BufList T) → remaining m l ≡ length (held_all l.bufs)
    unfolding remaining
    remaining-held l = sum_remaining-held l.bufs

    -- Bytes that are there are taken off the front, whichever buffers they are in, and no index is out of range.
    pub advance-held :
        (l : BufList T) (n : ℕ)
        → n ≤ length (held_all l.bufs)
        → (l' : BufList T) × (advance m l n ≡ some l')
          × (held_all l'.bufs ≡ drop n (held_all l.bufs))
    unfolding advance with_bufs
    advance-held l n h =
        let (bs, e, t) = advance_loop-held l.bufs n h in (record { bufs = bs }, rw (e) refl, t)

    -- The slices of a list of buffers are its bytes in order, with none left out before the last place is taken.
    pub chunks_vectored-Slices :
        (l : BufList T) (n : ℕ) → Slices (held_all l.bufs) n (chunks_vectored m l n)
    unfolding chunks_vectored
    chunks_vectored-Slices l n = elim (Bool-cases (n == 0)) [
      | inl z ↦ rw (z) (record {
        rest = held_all l.bufs;
        count = omega arith;
        text = refl;
        whole = inl (sym ((==_iff n 0).0 z));
      })
      | inr p ↦ rw (p) (slices_loop-Slices l.bufs n)
    ]
