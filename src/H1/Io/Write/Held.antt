-- ===== src/H1/Io/Write/Held.antt =====
-- `WriteBuf` of src/proto/h1/io.rs holds the headers' bytes and then the queue's.
use kaiwaehnero.Base.{
  ℕ, ◌+◌, ◌-◌, ◌≡◌, ◌≤◌, inl, inr, refl, sym, ap, ◌∙◌, suc, zero, true, false, some, List, [], ◌∷◌,
  ◌++◌, ◌<◌, Bytes, length, drop, concat, ltb, ◌==◌, ==_iff, is_empty, append_assoc, append-nil,
  length-append, drop-append_le, drop-append_ge, length-drop, Bool-cases, arith,
}
use kaiwaehnero.Common.Buf.{Buf, IsBuf, Slices}
use kaiwaehnero.Common.BufList.{BufList}
use kaiwaehnero.Common.BufList
use kaiwaehnero.Common.BufList.Held.{
  held_all, push-held, remaining-held, advance-held, chunks_vectored-Slices, cons_Slices,
}
use kaiwaehnero.H1.Io.Write.{
  Cursor, maybe_unshift, reset, cursor_remaining, cursor_chunk, cursor_advance, cursor_slices,
  WriteStrategy, flatten, queued, WriteBuf, remaining, advance, chunks_vectored, copy_loop, buffer,
}

-- What has been written is part of the headers; with the strategy to flatten, nothing is queued.
pub record WfWrite {B : Type 0} (w : WriteBuf B) : Type 0 where
  pub pos : w.headers.pos ≤ length w.headers.bytes
  pub flat : w.strategy ≡ flatten → w.queue.bufs ≡ []

drop_nil : (n : ℕ) → drop {A = ℕ} n [] ≡ []
drop_nil zero = refl
drop_nil (suc n) = refl

pub drop-drop : (p n : ℕ) (xs : Bytes) → drop (p + n) xs ≡ drop n (drop p xs)
drop-drop zero n xs = let e : 0 + n ≡ n = omega arith in ap (λ k. drop k xs) e
drop-drop (suc p) n [] = drop_nil (suc p + n) ∙ sym (drop_nil n)
drop-drop (suc p) n (x ∷ xs) =
    let e : suc p + n ≡ suc (p + n) = omega arith in ap (λ k. drop k (x ∷ xs)) e ∙ drop-drop p n xs

is_empty_nil : (xs : Bytes) → is_empty xs ≡ true → xs ≡ []
is_empty_nil [] h = refl
is_empty_nil (x ∷ xs) h = cc h

not_empty : (xs : Bytes) → is_empty xs ≡ false → 1 ≤ length xs
not_empty [] h = cc h
not_empty (x ∷ xs) h = omega arith

drop-append : (xs ys : Bytes) → drop (length xs) (xs ++ ys) ≡ ys
drop-append [] ys = refl
drop-append (x ∷ xs) ys = drop-append xs ys

pub length_nil {ℓ} : {A : Type ℓ} (xs : List A) → length xs ≤ 0 → xs ≡ []
length_nil [] h = refl
length_nil (x ∷ xs) h = ground arith

cursor_slices-Slices : (c : Cursor) (n : ℕ) → Slices (cursor_chunk c) n (cursor_slices c n)
unfolding cursor_slices
cursor_slices-Slices c n = elim (Bool-cases (n == 0)) [
  | inl z ↦ rw (z) (record {
    rest = cursor_chunk c;
    count = omega arith;
    text = refl;
    whole = inl (sym ((==_iff n 0).0 z));
  })
  | inr p ↦ elim (Bool-cases (cursor_remaining c == 0)) [
    | inl e ↦
        let l = length-drop c.pos c.bytes in
        rw (p, e)
          (record {
            rest = [];
            count = omega arith;
            text = length_nil (cursor_chunk c) (ground arith);
            whole = inr refl;
          })
    | inr e ↦
        rw (p, e)
          (record {
            rest = [];
            count = ground arith;
            text = sym (append-nil (cursor_chunk c ++ []) ∙ append-nil (cursor_chunk c));
            whole = inr refl;
          })
  ]
]

-- The slices of a first buffer, and of a second one in the places that are left.
both_Slices :
    (w w' : Bytes) (n : ℕ) (cs : List Bytes) (rest : ℕ → List Bytes)
    → Slices w n cs
    → ((k : ℕ) → Slices w' k (rest k))
    → Slices (w ++ w') n (cs ++ rest (n - length cs))
both_Slices w w' n cs rest f r = elim (Bool-cases (length cs == n)) [
  | inl e ↦
      let e' = (==_iff (length cs) n).0 e in
      let z : n - length cs ≡ 0 = omega arith in
      let none_left : rest (n - length cs) ≡ [] = rw (z) (length_nil (rest 0) (r 0).count) in
      rw (none_left, append-nil cs)
        (record {
          rest = f.rest ++ w';
          count = f.count;
          text = rw (f.text) (append_assoc (concat cs) f.rest w');
          whole = inl e';
        })
  | inr e ↦ cons_Slices w w' n cs (rest (n - length cs)) f e (r (n - length cs))
]

unshift_chunk :
    (spare : Bytes → ℕ) (c : Cursor) (n : ℕ)
    → cursor_chunk (maybe_unshift spare c n) ≡ cursor_chunk c
unfolding maybe_unshift
unshift_chunk spare c n = ground arith

unshift_pos :
    (spare : Bytes → ℕ) (c : Cursor) (n : ℕ)
    → c.pos ≤ length c.bytes
    → (maybe_unshift spare c n).pos ≤ length (maybe_unshift spare c n).bytes
unfolding maybe_unshift
unshift_pos spare c n h = ground arith

module _ {B : Type 0} (m : Buf B) (held : B → Bytes) where
  abbrev pub write_held : WriteBuf B → Bytes
  write_held w = cursor_chunk w.headers ++ held_all m held w.queue.bufs

  module _ (laws : IsBuf m held) where
    pub write_remaining-held : (w : WriteBuf B) → remaining m w ≡ length (write_held w)
    unfolding remaining
    write_remaining-held w = rw (remaining-held m held laws w.queue) (
        sym (
          length-append (cursor_chunk w.headers) (held_all m held w.queue.bufs)
          ∙ ap (λ k. k + length (held_all m held w.queue.bufs))
              (length-drop w.headers.pos w.headers.bytes)))

    -- The state after bytes were taken off, and what it holds.
    pub record Taken (w : WriteBuf B) (n : ℕ) : Type 0 where
      pub after : WriteBuf B
      pub run : advance m w n ≡ some after
      pub held_after : write_held after ≡ drop n (write_held w)
      pub wf : WfWrite after

    -- Bytes that a buffer holds are taken off its front: of the headers, and then of the queue.
    pub advance-Taken : (w : WriteBuf B) (n : ℕ) → WfWrite w → n ≤ length (write_held w) → Taken w n
    unfolding advance
    advance-Taken w n wf h =
        let c = length-drop w.headers.pos w.headers.bytes in
        let q = held_all m held w.queue.bufs in
        let len = length-append (cursor_chunk w.headers) q in
        elim (Bool-cases (cursor_remaining w.headers == n)) [
          | inl e ↦
              let e' = (==_iff (cursor_remaining w.headers) n).0 e in
              let z : n - length (cursor_chunk w.headers) ≡ 0 = omega arith in
              record {
                after = record w { headers = reset w.headers };
                run = rw (e) refl;
                held_after = sym (
                    drop-append_ge n (cursor_chunk w.headers) q (omega arith)
                    ∙ ap (λ k. drop k q) z);
                wf = record { pos = omega arith; flat = wf.flat };
              }
          | inr e ↦ elim (Bool-cases (ltb n (cursor_remaining w.headers))) [
            | inl l ↦ record {
              after = record w { headers = cursor_advance w.headers n };
              run = rw (e, l) refl;
              held_after =
                  rw (drop-drop w.headers.pos n w.headers.bytes)
                    (sym (drop-append_le n (cursor_chunk w.headers) q (ground arith)));
              wf = record { pos = ground arith; flat = wf.flat };
            }
            | inr l ↦
                let (q', e', t) =
                  advance-held m held laws w.queue (n - cursor_remaining w.headers)
                    (ground arith) in
                record {
                  after = record w { headers = reset w.headers; queue = q' };
                  run = rw (e, l, e') refl;
                  held_after =
                      t
                      ∙ rw (sym c)
                          (sym (drop-append_ge n (cursor_chunk w.headers) q (ground arith)));
                  wf = record {
                    pos = omega arith;
                    flat = λ f.
                        let z = ap (λ k. length (held_all m held k)) (wf.flat f) in ground arith;
                  };
                }
          ]
        ]

    -- The slices of the headers and of the queue are what is held, in order.
    pub write-Slices : (w : WriteBuf B) (n : ℕ) → Slices (write_held w) n (chunks_vectored m w n)
    unfolding chunks_vectored
    write-Slices w n =
        both_Slices (cursor_chunk w.headers) (held_all m held w.queue.bufs) n
          (cursor_slices w.headers n) (BufList.chunks_vectored m w.queue)
          (cursor_slices-Slices w.headers n) (chunks_vectored-Slices m held laws w.queue)

    module _ {BB : Type 0} (given : Buf BB) (given_held : BB → Bytes)
        (given_laws : IsBuf given given_held) (into : BB → B) (spare : Bytes → ℕ)
        (same : (b : BB) → held (into b) ≡ given_held b) where
      copy_loop-held :
          (fuel : ℕ) (bytes : Bytes) (b : BB)
          → length (given_held b) < fuel
          → copy_loop m given into spare fuel bytes b ≡ some (bytes ++ given_held b)
      unfolding copy_loop
      copy_loop-held zero bytes b h = ground arith
      copy_loop-held (suc fuel) bytes b h =
          let f = given_laws.chunk_held b in
          elim (Bool-cases (is_empty (given.chunk b))) [
            | inl e ↦
                rw (e, f.some_part (is_empty_nil (given.chunk b) e))
                  (ap some (sym (append-nil bytes)))
            | inr e ↦
                let len = length-append (given.chunk b) f.rest in
                let t = ap length f.text in
                let l = not_empty (given.chunk b) e in
                let (b', r, t') =
                  given_laws.advance_held b (length (given.chunk b)) (omega arith) in
                let d =
                  t'
                  ∙ ap (drop (length (given.chunk b))) f.text
                  ∙ drop-append (given.chunk b) f.rest in
                let k = ap length d in
                rw (e, r)
                  (copy_loop-held fuel (bytes ++ given.chunk b) b' (omega arith)
                    ∙ ap some (
                        append_assoc bytes (given.chunk b) (given_held b')
                        ∙ ap (λ k. bytes ++ k) (ap (λ k. given.chunk b ++ k) d ∙ sym f.text)))
          ]

      pub record Buffered (w : WriteBuf B) (b : BB) : Type 0 where
        pub after : WriteBuf B
        pub run : buffer m given into spare w b ≡ some after
        pub held_after : write_held after ≡ write_held w ++ given_held b
        pub wf : WfWrite after

      -- A buffer that is written comes last, with either strategy, and without an end of the fuel or a panic.
      pub buffer-Buffered : (w : WriteBuf B) (b : BB) → WfWrite w → Buffered w b
      unfolding buffer
      buffer-Buffered w b wf = by_strategy w.strategy refl
        where
          by_strategy : (s : WriteStrategy) → w.strategy ≡ s → Buffered w b
          by_strategy flatten f =
              let head = maybe_unshift spare w.headers (given.remaining b) in
              let le : length (given_held b) < suc (given.remaining b) =
                rw (given_laws.remaining_held b) (omega arith) in
              let c = copy_loop-held (suc (given.remaining b)) head.bytes b le in
              let p = unshift_pos spare w.headers (given.remaining b) wf.pos in
              let q = wf.flat f in
              record {
                after = record w { headers = record head { bytes = head.bytes ++ given_held b } };
                run = rw (f, c) refl;
                held_after = rw (q) (
                    append-nil (drop head.pos (head.bytes ++ given_held b))
                    ∙ drop-append_le head.pos head.bytes (given_held b) p
                    ∙ ap (λ k. k ++ given_held b)
                        (unshift_chunk spare w.headers (given.remaining b)
                          ∙ sym (append-nil (cursor_chunk w.headers))));
                wf = record {
                  pos = let len = length-append head.bytes (given_held b) in omega arith;
                  flat = wf.flat;
                };
              }
          by_strategy queued f = record {
            after = record w { queue = BufList.push m w.queue (into b) };
            run = rw (f) refl;
            held_after =
                rw (push-held m held w.queue (into b), same b)
                  (sym (
                    append_assoc (cursor_chunk w.headers) (held_all m held w.queue.bufs)
                      (given_held b)));
            wf = record { pos = wf.pos; flat = λ g. cc (f, g) };
          }
