-- ===== src/H1/Io/Parse/Turns.antt =====
-- What one turn of the loop of `Buffered::parse` of src/proto/h1/io.rs does.
use kaiwaehnero.Base.{
  ◌&&◌, ◌⊎◌, ℕ, ◌-◌, ◌<◌, ◌≤◌, ◌≡◌, refl, sym, ap, ◌∙◌, subst, inl, inr, Bool, true, false, ◌&&◌,
  Option, none, some, Bytes, [], ◌++◌, length, is_empty, leb, ◌==◌, ==_iff, Bool-cases, arith,
  append-nil, append_assoc, length-append,
}
use kaiwaehnero.Poll.{Poll, pending, ready, Result, ok, err}
use kaiwaehnero.H1.MemRead.{MemRead, IsMemRead, Reads}
use kaiwaehnero.H1.Io.{
  ReadStrategy, adaptive, exact, next, record_read, Buffered, received, poll_read_from_io,
}
use kaiwaehnero.H1.Io.Reader.{
  IsReadStrategy, record_read-IsReadStrategy, next-positive, length-zero,
}
use kaiwaehnero.H1.Io.Parse.{
  max_size, Timing, Parsed, refused, partial, complete, Answer, waits, parse_error, too_large,
  header_timeout, incomplete, io_error, message, start_timer, stop_timer, is_late, head_of,
  parse_headers, Turn, ended, again, after_io, after_parse, turn,
}

record_read-max_size : (s : ReadStrategy) (n : ℕ) → max_size (record_read s n) ≡ max_size s
unfolding record_read max_size
record_read-max_size (adaptive d n m) k = ground arith
record_read-max_size (exact n) k = refl

start_timer-running : (now : ℕ) (t : Timing) → (start_timer now t).running ≡ t.running
unfolding start_timer
start_timer-running now t = ground arith

late-running : (now : ℕ) (t : Timing) → is_late now t ≡ true → t.running ≡ true
unfolding is_late
late-running now t h = ground arith

due : Option ℕ → ℕ → Bool
due fut now = elim fut [ none ↦ false | some d ↦ leb d now ]

fut-due : (now : ℕ) (fut : Option ℕ) → due fut now ≡ true → (d : ℕ) × (fut ≡ some d) × (d ≤ now)
unfolding due
fut-due now none h = cc
fut-due now (some d) h = (d, refl, ground arith)

both-right : (a b : Bool) → (a && b) ≡ true → b ≡ true
both-right true b h = h
both-right false b h = cc

late-due :
    (now : ℕ) (t : Timing) → is_late now t ≡ true → (d : ℕ) × (t.timeout_fut ≡ some d) × (d ≤ now)
unfolding is_late due
late-due now t h = fut-due now t.timeout_fut (both-right t.running (due t.timeout_fut now) h)

at_end : (asked : ℕ) (w : Bytes) → 0 < asked → (asked ≡ 0) ⊎ (w ≡ []) → w ≡ []
at_end asked w p (inl z) = ground arith
at_end asked w p (inr e) = e

module _ {S E M : Type 0} (source : MemRead S) (room : Bytes → ℕ → ℕ)
    (head : Bytes → Bytes × Parsed E M) (now : ℕ) (wire : S → Bytes) (laws : IsMemRead source wire)
    (fits : (b : Bytes) (n : ℕ) → n ≤ room b n)
    (keeps : (w : Bytes) → (head w).1 ≡ partial → (head w).0 ≡ w) (limit : ℕ) where
  -- The bytes are those of a head that is not all there, and stay.
  abbrev Unfinished : Bytes → Bytes → Type 0
  Unfinished w left = ((head_of source room head now w).1 ≡ partial) × (left ≡ w)

  -- The reader is as a read of some bytes has left it, which gave `x`.
  abbrev IsRead : S → Poll (Result Bytes) → Type 0
  IsRead s x = (before : S) × (n : ℕ) × (0 < n) × (source.read_mem before n ≡ (s, x))

  -- What an answer says of the bytes `w` that have arrived, of which `left` are left, and of the timer and the reader, as
  -- they are now.
  abbrev pub Says : Bool → Bytes → Bytes → Timing → S → Answer E M → Type 0
  Says running w left t s waits = Unfinished w left × IsRead s pending
  Says running w left t s (parse_error e) = head_of source room head now w ≡ (left, refused e)
  Says running w left t s too_large = Unfinished w left × (limit ≤ length w)
  Says running w left t s header_timeout =
      Unfinished w left × (running ≡ true) × (d : ℕ) × (t.timeout_fut ≡ some d) × (d ≤ now)
  Says running w left t s incomplete = Unfinished w left × (wire s ≡ []) × IsRead s (ready (ok []))
  Says running w left t s (io_error e) = Unfinished w left × IsRead s (ready (err e))
  Says running w left t s (message m) = head_of source room head now w ≡ (left, complete m)

  pub data GoodTurn (all : Bytes) (running : Bool) (size : ℕ)
      : Turn source room head now → Type 0 where
    good_end :
        (b : Buffered S) (t : Timing) (a : Answer E M) (w : Bytes)
        → w ++ wire b.io ≡ all
        → Says running w b.read_buf t b.io a
        → (running ≡ false → t.running ≡ false)
        → GoodTurn all running size (ended b t a)
    good_again :
        (b : Buffered S) (t : Timing)
        → b.read_buf ++ wire b.io ≡ all
        → t.running ≡ running
        → IsReadStrategy b.read_buf_strategy
        → max_size b.read_buf_strategy ≡ limit
        → limit - length b.read_buf < size
        → GoodTurn all running size (again b t)

  after_io-GoodTurn :
      (b : Buffered S) (t : Timing) (x : S × Poll (Result Bytes)) (asked : ℕ)
      → 0 < asked
      → length b.read_buf < limit
      → IsReadStrategy b.read_buf_strategy
      → max_size b.read_buf_strategy ≡ limit
      → (head_of source room head now b.read_buf).1 ≡ partial
      → source.read_mem b.io asked ≡ x
      → Reads (wire b.io) asked (wire x.0) x.1
      → GoodTurn
          (b.read_buf ++ wire b.io)
          t.running
          (limit - length b.read_buf)
          (after_io source room head now t (received source room b x))
  unfolding after_io received
  after_io-GoodTurn b t (s, pending) asked p l i m u q r =
      good_end _ t waits b.read_buf (ap (λ k. b.read_buf ++ k) r) ((u, refl), (b.io, asked, p, q))
        (λ k. k)
  after_io-GoodTurn b t (s, ready (err e)) asked p l i m u q r =
      good_end _ t (io_error e) b.read_buf (ap (λ k. b.read_buf ++ k) r.0)
        ((u, refl), (b.io, asked, p, q)) (λ k. k)
  after_io-GoodTurn b t (s, ready (ok bytes)) asked p l i m u q r =
      elim (Bool-cases (length bytes == 0)) [
        | inl z ↦
            let e = length-zero bytes ((==_iff (length bytes) 0).0 z) in
            let k = r.0 ∙ ap (λ x. x ++ wire s) e in
            rw (z) (
              good_end _ t incomplete b.read_buf (ap (λ x. b.read_buf ++ x) (sym k))
                (
                  (u, ap (λ x. b.read_buf ++ x) e ∙ append-nil b.read_buf),
                  sym k ∙ at_end asked (wire b.io) p (r.2 e),
                  (b.io, asked, p, q ∙ ap (λ x. (s, ready (ok x))) e),
                )
                (λ k. k))
        | inr z ↦
            let len = length-append b.read_buf bytes in
            rw (z) (
              good_again _ t
                (append_assoc b.read_buf bytes (wire s) ∙ ap (λ k. b.read_buf ++ k) (sym r.0)) refl
                (record_read-IsReadStrategy b.read_buf_strategy (length bytes) i)
                (record_read-max_size b.read_buf_strategy (length bytes) ∙ m) (ground arith))
      ]

  head_of-keeps :
      (w : Bytes)
      → (head_of source room head now w).1 ≡ partial
      → (head_of source room head now w).0 ≡ w
  unfolding head_of
  head_of-keeps w u = elim (Bool-cases (is_empty w)) [
    | inl e ↦ rw (e) refl
    | inr e ↦ rw (e) (keeps w (rw (e) at u))
  ]

  timer_running :
      (w : Bytes) (t : Timing) → (parse_headers source room head now w t).1.running ≡ t.running
  unfolding parse_headers
  timer_running w t = elim (Bool-cases (is_empty w)) [
    | inl e ↦ rw (e) refl
    | inr e ↦ rw (e) (start_timer-running now t)
  ]

  partial-GoodTurn :
      (b : Buffered S) (t : Timing)
      → (head_of source room head now b.read_buf).1 ≡ partial
      → IsReadStrategy b.read_buf_strategy
      → max_size b.read_buf_strategy ≡ limit
      → GoodTurn
          (b.read_buf ++ wire b.io)
          t.running
          (limit - length b.read_buf)
          (after_parse source room head now b t partial)
  unfolding after_parse poll_read_from_io
  partial-GoodTurn b t u i m =
      let asked = room b.read_buf (next b.read_buf_strategy) in
      let fit = fits b.read_buf (next b.read_buf_strategy) in
      let some_asked = next-positive b.read_buf_strategy i in
      elim (Bool-cases (leb limit (length b.read_buf))) [
        | inl full ↦
            rw (m, full) (good_end b t too_large b.read_buf refl ((u, refl), ground arith) (λ k. k))
        | inr space ↦ elim (Bool-cases (is_late now t)) [
          | inl late ↦
              let (d, e, l) = late-due now t late in
              rw (m, space, late)
                (good_end b (record t { running = false }) header_timeout b.read_buf refl
                  ((u, refl), late-running now t late, d, e, l) (λ _. refl))
          | inr early ↦
              rw (m, space, early)
                (after_io-GoodTurn b t (source.read_mem b.io asked) asked (omega arith)
                  (ground arith) i m u refl (laws.reads b.io asked))
        ]
      ]

  after_parse-GoodTurn :
      (b : Buffered S) (t : Timing) (w : Bytes) (o : Parsed E M)
      → head_of source room head now w ≡ (b.read_buf, o)
      → IsReadStrategy b.read_buf_strategy
      → max_size b.read_buf_strategy ≡ limit
      → GoodTurn
          (w ++ wire b.io)
          t.running
          (limit - length w)
          (after_parse source room head now b t o)
  unfolding after_parse stop_timer
  after_parse-GoodTurn b t w (refused e) h i m = good_end b t (parse_error e) w refl h (λ k. k)
  after_parse-GoodTurn b t w (complete x) h i m =
      good_end b (stop_timer now t) (message x) w refl h (λ _. refl)
  after_parse-GoodTurn b t w partial h i m =
      let u = ap (λ x. x.1) h in
      let q = sym (ap (λ x. x.0) h) ∙ head_of-keeps w u in
      subst
        (λ x.
          GoodTurn (x ++ wire b.io) t.running (limit - length x)
            (after_parse source room head now b t partial))
        q (partial-GoodTurn b t (ap (λ x. (head_of source room head now x).1) q ∙ u) i m)

  pub turn-GoodTurn :
      (b : Buffered S) (t : Timing)
      → IsReadStrategy b.read_buf_strategy
      → max_size b.read_buf_strategy ≡ limit
      → GoodTurn
          (b.read_buf ++ wire b.io)
          t.running
          (limit - length b.read_buf)
          (turn source room head now b t)
  unfolding turn parse_headers
  turn-GoodTurn b t i m =
      let t' = (parse_headers source room head now b.read_buf t).1 in
      let r = head_of source room head now b.read_buf in
      subst
        (λ x.
          GoodTurn (b.read_buf ++ wire b.io) x (limit - length b.read_buf)
            (turn source room head now b t))
        (timer_running b.read_buf t)
        (after_parse-GoodTurn (record b { read_buf = r.0 }) t' b.read_buf r.1 refl i m)

  pub not_late :
      (running : Bool) (w left : Bytes) (t : Timing) (r : S) (a : Answer E M)
      → a ≡ header_timeout
      → running ≡ false
      → Says running w left t r a
      → ⊥
  not_late running w left t r a e off s =
      let k = subst (Says running w left t r) e s in cc (k.1, off)
