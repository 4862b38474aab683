-- ===== src/H1/Io/Flush/Sent.antt =====
-- What `Buffered::poll_flush` of src/proto/h1/io.rs has sent.
use kaiwaehnero.Base.{
  ◌≢◌, drop-append_le, ℕ, ◌+◌, ◌<◌, ◌≡◌, ◌≤◌, ◌++◌, zero, suc, refl, sym, ap, ◌∙◌, subst, inl, inr,
  false, not, ◌&&◌, some, [], Bytes, length, take, drop, concat, is_empty, ◌==◌, Bool-cases,
  append_assoc, take-append-drop, length-append, length-drop, arith,
}
use kaiwaehnero.Poll.{Poll, pending, ready, Result, ok, err, write_zero}
use kaiwaehnero.Common.Buf.{Buf, IsBuf}
use kaiwaehnero.Common.BufList.Held.{held_all}
use kaiwaehnero.H1.Io.Write.{
  reset, cursor_remaining, cursor_chunk, cursor_advance, WriteStrategy, flatten, queued, WriteBuf,
  remaining, chunks_vectored,
}
use kaiwaehnero.H1.Io.Write.Held.{
  WfWrite, write_held, write_remaining-held, advance-Taken, write-Slices, drop-drop, length_nil,
}
use kaiwaehnero.H1.Io.Flush.{
  Unit1, done, AsyncWrite, IsAsyncWrite, Writes, Writer, Flushing, Turn, ended, again, io_flush,
  after_write, flattened_turn, advanced, after_write_vectored, queued_turn, flush_loop,
  flush_write_buf, poll_flush, max_writev_bufs,
}

-- Nothing waits where a flush is ready.
abbrev pub Answered : Poll (Result Unit1) → Bytes → Type 0
Answered (ready (ok done)) h = h ≡ []
Answered pending h = Unit
Answered (ready (err e)) h = Unit

empty_Answered : (p : Poll (Result Unit1)) (h : Bytes) → h ≡ [] → Answered p h
empty_Answered (ready (ok done)) h e = e
empty_Answered pending h e = tt
empty_Answered (ready (err k)) h e = tt

module _ {S B : Type 0} (io : AsyncWrite S) (sent : S → Bytes) (io_laws : IsAsyncWrite io sent)
    (m : Buf B) (held : B → Bytes) (laws : IsBuf m held) where
  -- A flush has ended; what was sent and what is held are together as before, and all is sent where it was ready.
  pub record Kept (all : Bytes) (o : Flushing io m) : Type 0 where
    pub sink : S
    pub left : WriteBuf B
    pub answer : Poll (Result Unit1)
    pub run : o ≡ some ((sink, left), answer)
    pub kept : sent sink ++ write_held m held left ≡ all
    pub all_sent : Answered answer (write_held m held left)
    pub wf : WfWrite left

  -- What a write leaves.
  taken_kept :
      (before h after b rest : Bytes) (n : ℕ)
      → h ≡ b ++ rest
      → n ≤ length b
      → after ≡ before ++ take n b
      → after ++ drop n h ≡ before ++ h
  taken_kept before h after b rest n t le e =
      rw (e, t, drop-append_le n b rest le)
        (append_assoc before (take n b) (drop n b ++ rest)
          ∙ ap (λ k. before ++ k)
              (sym (append_assoc (take n b) (drop n b) rest)
                ∙ ap (λ k. k ++ rest) (take-append-drop n b)))

  -- A turn of a loop keeps the bytes, and what goes on has fewer of them left.
  data KeptTurn (good : WriteBuf B → Type 0) (all : Bytes) (size : ℕ) : Turn io m → Type 0 where
    kept_end :
        (s : S) (w : WriteBuf B) (p : Poll (Result Unit1))
        → sent s ++ write_held m held w ≡ all
        → Answered p (write_held m held w)
        → WfWrite w
        → KeptTurn good all size (ended s w p)
    kept_again :
        (s : S) (w : WriteBuf B)
        → sent s ++ write_held m held w ≡ all
        → good w
        → length (write_held m held w) < size
        → KeptTurn good all size (again s w)

  loop_turn :
      (good : WriteBuf B → Type 0) (turn : S → WriteBuf B → Turn io m) (fuel : ℕ) (s : S)
      (w : WriteBuf B) (all : Bytes) (size : ℕ) (o : Turn io m)
      → turn s w ≡ o
      → KeptTurn good all size o
      → ((s' : S) (w' : WriteBuf B)
          → good w'
          → length (write_held m held w') < fuel
          → Kept (sent s' ++ write_held m held w') (flush_loop io m turn fuel s' w'))
      → size < suc fuel
      → Kept all (flush_loop io m turn (suc fuel) s w)
  unfolding flush_loop
  loop_turn good turn fuel s w all size o e (kept_end s' w' p k a wf) ih h =
      rw (flush_loop, e)
        (record { sink = s'; left = w'; answer = p; run = refl; kept = k; all_sent = a; wf = wf })
  loop_turn good turn fuel s w all size o e (kept_again s' w' k wf l) ih h =
      rw (flush_loop, e)
        (subst (λ x. Kept x (flush_loop io m turn fuel s' w')) k (ih s' w' wf (omega arith)))

  -- The loop over such turns ends before its fuel.
  flush_loop-Kept :
      (good : WriteBuf B → Type 0) (turn : S → WriteBuf B → Turn io m)
      → ((s : S) (w : WriteBuf B)
          → good w
          → KeptTurn good (sent s ++ write_held m held w) (length (write_held m held w)) (turn s w))
      → (fuel : ℕ) (s : S) (w : WriteBuf B) → good w
      → length (write_held m held w) < fuel
      → Kept (sent s ++ write_held m held w) (flush_loop io m turn fuel s w)
  unfolding flush_loop
  flush_loop-Kept good turn t zero s w wf h = ground arith
  flush_loop-Kept good turn t (suc fuel) s w wf h =
      loop_turn good turn fuel s w (sent s ++ write_held m held w) (length (write_held m held w))
        (turn s w) refl (t s w wf) (flush_loop-Kept good turn t fuel) h

  io_flush-KeptTurn :
      (good : WriteBuf B → Type 0) (w : WriteBuf B) (s : S) (all : Bytes) (size : ℕ)
      → sent s ++ write_held m held w ≡ all
      → WfWrite w
      → write_held m held w ≡ []
      → KeptTurn good all size (io_flush io m w (io.poll_flush s))
  unfolding io_flush
  io_flush-KeptTurn good w s all size k wf e =
      kept_end (io.poll_flush s).0 w (io.poll_flush s).1
        (ap (λ k. k ++ write_held m held w) (io_laws.flush s) ∙ k)
        (empty_Answered (io.poll_flush s).1 (write_held m held w) e) wf

  advanced-KeptTurn :
      (s : S) (w : WriteBuf B) (all : Bytes) (n size : ℕ)
      → sent s ++ write_held m held w ≡ all
      → WfWrite w
      → (n ≢ 0 → length (write_held m held w) < size)
      → KeptTurn WfWrite all size (advanced io m s n (some w))
  unfolding advanced
  advanced-KeptTurn s w all n size k wf l =
      let r = write_remaining-held m held laws w in
      elim (Bool-cases (remaining m w == 0)) [
        | inl z ↦ rw (z) (
            io_flush-KeptTurn WfWrite w s all size k wf
              (length_nil (write_held m held w) (ground arith)))
        | inr p ↦ elim (Bool-cases (n == 0)) [
          | inl z ↦ rw (p, z) (kept_end s w (ready (err write_zero)) k tt wf)
          | inr q ↦ rw (p, q) (kept_again s w k wf (l (λ z. ground arith)))
        ]
      ]

  queued_turn-KeptTurn :
      (s : S) (w : WriteBuf B)
      → WfWrite w
      → KeptTurn WfWrite
          (sent s ++ write_held m held w)
          (length (write_held m held w))
          (queued_turn io m s w)
  unfolding queued_turn
  queued_turn-KeptTurn s w wf =
      by_answer (io.poll_write_vectored s (chunks_vectored m w max_writev_bufs))
        (io_laws.vectored s (chunks_vectored m w max_writev_bufs))
    where
      by_answer :
          (p : S × Poll (Result ℕ))
          → Writes (sent s) (concat (chunks_vectored m w max_writev_bufs)) (sent p.0) p.1
          → KeptTurn WfWrite
              (sent s ++ write_held m held w)
              (length (write_held m held w))
              (after_write_vectored io m w p)
      by_answer (s', pending) e = kept_end s' w pending (ap (λ k. k ++ write_held m held w) e) tt wf
      by_answer (s', ready (err k)) e =
          kept_end s' w (ready (err k)) (ap (λ k. k ++ write_held m held w) e) tt wf
      by_answer (s', ready (ok n)) (le, e) =
          let g = write-Slices m held laws w max_writev_bufs in
          let len = length-append (concat (chunks_vectored m w max_writev_bufs)) g.rest in
          let t = ap length g.text in
          let tk = advance-Taken m held laws w n wf (omega arith) in
          let d = length-drop n (write_held m held w) in
          let d' = ap length tk.held_after in
          rw (tk.run) (
            advanced-KeptTurn s' tk.after (sent s ++ write_held m held w) n
              (length (write_held m held w))
              (ap (λ k. sent s' ++ k) tk.held_after
                ∙ taken_kept (sent s) (write_held m held w) (sent s')
                    (concat (chunks_vectored m w max_writev_bufs)) g.rest n g.text le e)
              tk.wf (λ z. ground arith))

  -- What a write leaves of the headers.
  abbrev less_head : WriteBuf B → ℕ → WriteBuf B
  less_head w n = record w { headers = cursor_advance w.headers n }

  Flat : WriteBuf B → Type 0
  Flat w = WfWrite w × (w.queue.bufs ≡ [])

  less_head-held :
      (w : WriteBuf B) (n : ℕ)
      → n ≤ length (cursor_chunk w.headers)
      → write_held m held (less_head w n) ≡ drop n (write_held m held w)
  less_head-held w n h =
      ap (λ k. k ++ held_all m held w.queue.bufs) (drop-drop w.headers.pos n w.headers.bytes)
      ∙ sym (drop-append_le n (cursor_chunk w.headers) (held_all m held w.queue.bufs) h)

  flattened-KeptTurn :
      (s : S) (w : WriteBuf B) (all : Bytes) (n size : ℕ)
      → sent s ++ write_held m held (less_head w n) ≡ all
      → Flat (less_head w n)
      → (n ≢ 0 → length (write_held m held (less_head w n)) < size)
      → KeptTurn Flat all size (after_write io m w (s, ready (ok n)))
  unfolding after_write Flat
  flattened-KeptTurn s w all n size k wf l =
      elim (Bool-cases (cursor_remaining (less_head w n).headers == 0)) [
        | inl z ↦
            let d = length-drop (w.headers.pos + n) w.headers.bytes in
            let e = length_nil (cursor_chunk (less_head w n).headers) (ground arith) in
            rw (z) (
              io_flush-KeptTurn Flat (record w { headers = reset w.headers }) s all size
                (ap (λ c. sent s ++ (c ++ held_all m held w.queue.bufs)) (sym e) ∙ k)
                (record { pos = omega arith; flat = wf.0.flat }) (ap (held_all m held) wf.1))
        | inr p ↦ elim (Bool-cases (n == 0)) [
          | inl z ↦ rw (p, z) (kept_end s (less_head w n) (ready (err write_zero)) k tt wf.0)
          | inr q ↦ rw (p, q) (kept_again s (less_head w n) k wf (l (λ z. ground arith)))
        ]
      ]

  flattened_turn-KeptTurn :
      (s : S) (w : WriteBuf B)
      → Flat w
      → KeptTurn Flat
          (sent s ++ write_held m held w)
          (length (write_held m held w))
          (flattened_turn io m s w)
  unfolding flattened_turn Flat
  flattened_turn-KeptTurn s w wf =
      by_answer (io.poll_write s (cursor_chunk w.headers))
        (io_laws.write s (cursor_chunk w.headers))
    where
      by_answer :
          (p : S × Poll (Result ℕ))
          → Writes (sent s) (cursor_chunk w.headers) (sent p.0) p.1
          → KeptTurn Flat
              (sent s ++ write_held m held w)
              (length (write_held m held w))
              (after_write io m w p)
      by_answer (s', pending) e =
          kept_end s' w pending (ap (λ k. k ++ write_held m held w) e) tt wf.0
      by_answer (s', ready (err k)) e =
          kept_end s' w (ready (err k)) (ap (λ k. k ++ write_held m held w) e) tt wf.0
      by_answer (s', ready (ok n)) (le, e) =
          let h = less_head-held w n le in
          let d = length-drop n (write_held m held w) in
          let d' = ap length h in
          let c = length-drop w.headers.pos w.headers.bytes in
          let a = length-append (cursor_chunk w.headers) (held_all m held w.queue.bufs) in
          let wp = wf.0.pos in
          flattened-KeptTurn s' w (sent s ++ write_held m held w) n (length (write_held m held w))
            (ap (λ k. sent s' ++ k) h
              ∙ taken_kept (sent s) (write_held m held w) (sent s') (cursor_chunk w.headers)
                  (held_all m held w.queue.bufs) n refl le e)
            (record { pos = omega arith; flat = wf.0.flat }, wf.1) (λ z. ground arith)

  flush_write_buf-Kept :
      (t : WriteStrategy) (s : S) (w : WriteBuf B)
      → WfWrite w
      → (t ≡ flatten → w.queue.bufs ≡ [])
      → Kept (sent s ++ write_held m held w) (flush_write_buf io m t s w)
  unfolding flush_write_buf Flat
  flush_write_buf-Kept flatten s w wf f =
      let r = write_remaining-held m held laws w in
      flush_loop-Kept Flat (flattened_turn io m) flattened_turn-KeptTurn (suc (remaining m w)) s w
        (wf, f refl) (omega arith)
  flush_write_buf-Kept queued s w wf f =
      let r = write_remaining-held m held laws w in
      flush_loop-Kept WfWrite (queued_turn io m) queued_turn-KeptTurn (suc (remaining m w)) s w wf
        (omega arith)

  -- `poll_flush` gives an answer: its loops end and take off no more bytes than wait. What the transport has taken and what
  -- still waits are together the bytes as before, in order; unless it puts the flush off for a pipeline, nothing
  -- waits when it is ready.
  pub poll_flush-Kept :
      (b : Writer S B)
      → WfWrite b.write_buf
      → (b.flush_pipeline && not (is_empty b.read_buf)) ≡ false
      → Kept (sent b.io ++ write_held m held b.write_buf) (poll_flush io m b)
  unfolding poll_flush
  poll_flush-Kept b wf p =
      let r = write_remaining-held m held laws b.write_buf in
      elim (Bool-cases (remaining m b.write_buf == 0)) [
        | inl z ↦
            rw (p, z)
              (record {
                sink = (io.poll_flush b.io).0;
                left = b.write_buf;
                answer = (io.poll_flush b.io).1;
                run = refl;
                kept = ap (λ k. k ++ write_held m held b.write_buf) (io_laws.flush b.io);
                all_sent =
                    empty_Answered (io.poll_flush b.io).1 (write_held m held b.write_buf)
                      (length_nil (write_held m held b.write_buf) (ground arith));
                wf = wf;
              })
        | inr z ↦ rw (p, z) (flush_write_buf-Kept b.write_buf.strategy b.io b.write_buf wf wf.flat)
      ]
