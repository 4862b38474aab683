-- ===== src/H1/Io/Parse/Answers.antt =====
-- What `Buffered::parse` of src/proto/h1/io.rs answers.
use kaiwaehnero.Base.{
  ℕ, ◌-◌, ◌<◌, ◌≤◌, ◌≡◌, ◌≢◌, zero, suc, refl, sym, ap, ◌∙◌, subst, Bool, false, Option, some,
  Bytes, ◌++◌, length, some-injective, arith,
}
use kaiwaehnero.H1.MemRead.{MemRead, IsMemRead}
use kaiwaehnero.H1.Io.{Buffered}
use kaiwaehnero.H1.Io.Reader.{IsReadStrategy}
use kaiwaehnero.H1.Io.Parse.{
  max_size, Timing, Parsed, partial, Answer, header_timeout, Turn, turn, parse_loop, parse,
}
use kaiwaehnero.H1.Io.Parse.Turns.{Says, GoodTurn, good_end, good_again, turn-GoodTurn, not_late}

module _ {S E M : Type 0} (source : MemRead S) (room : Bytes → ℕ → ℕ)
    (head : Bytes → Bytes × Parsed E M) (now : ℕ) (wire : S → Bytes) (laws : IsMemRead source wire)
    (fits : (b : Bytes) (n : ℕ) → n ≤ room b n)
    (keeps : (w : Bytes) → (head w).1 ≡ partial → (head w).0 ≡ w) (limit : ℕ) where
  pub record Answered (all : Bytes) (running : Bool)
      (o : Option ((Buffered S × Timing) × Answer E M)) : Type 0 where
    pub after : Buffered S
    pub timing : Timing
    pub answer : Answer E M
    pub arrived : Bytes
    pub run : o ≡ some ((after, timing), answer)
    pub bytes : arrived ++ wire after.io ≡ all
    pub says :
        Says source room head now wire laws fits keeps limit running arrived after.read_buf timing
          after.io answer
    pub runs : running ≡ false → timing.running ≡ false

  loop_turn :
      (fuel : ℕ) (b : Buffered S) (t : Timing) (all : Bytes) (running : Bool) (size : ℕ)
      (o : Turn source room head now)
      → turn source room head now b t ≡ o
      → GoodTurn source room head now wire laws fits keeps limit all running size o
      → ((b' : Buffered S) (t' : Timing)
          → IsReadStrategy b'.read_buf_strategy
          → max_size b'.read_buf_strategy ≡ limit
          → limit - length b'.read_buf < fuel
          → Answered
              (b'.read_buf ++ wire b'.io)
              t'.running
              (parse_loop source room head now fuel b' t'))
      → size < suc fuel
      → Answered all running (parse_loop source room head now (suc fuel) b t)
  unfolding parse_loop
  loop_turn fuel b t all running size o e (good_end b' t' a w k s r) ih h =
      rw (parse_loop, e)
        (record {
          after = b';
          timing = t';
          answer = a;
          arrived = w;
          run = refl;
          bytes = k;
          says = s;
          runs = r;
        })
  loop_turn fuel b t all running size o e (good_again b' t' k r i m l) ih h =
      rw (parse_loop, e)
        (subst (λ x. Answered x running (parse_loop source room head now fuel b' t')) k
          (subst
            (λ x.
              Answered (b'.read_buf ++ wire b'.io) x (parse_loop source room head now fuel b' t'))
            r (ih b' t' i m (omega arith))))

  parse_loop-Answered :
      (fuel : ℕ) (b : Buffered S) (t : Timing)
      → IsReadStrategy b.read_buf_strategy
      → max_size b.read_buf_strategy ≡ limit
      → limit - length b.read_buf < fuel
      → Answered (b.read_buf ++ wire b.io) t.running (parse_loop source room head now fuel b t)
  unfolding parse_loop
  parse_loop-Answered zero b t i m h = ground arith
  parse_loop-Answered (suc fuel) b t i m h =
      loop_turn fuel b t (b.read_buf ++ wire b.io) t.running (limit - length b.read_buf)
        (turn source room head now b t) refl
        (turn-GoodTurn source room head now wire laws fits keeps limit b t i m)
        (parse_loop-Answered fuel) h

  -- Over a reader that keeps its laws, with a strategy that asks for something, room for it, and a parser that takes
  -- nothing of a head that is not all there, `parse` gives an answer. No byte is lost, and the answer is true of the
  -- bytes that have arrived: they are what the parser says they are, or they are no whole head, and then they are as
  -- many as the buffer may take, or the reader was asked for more and has just given the end of the stream, that it is
  -- not ready, or that error, or the timer for a head was running and its time has come.
  pub parse-Answered :
      (b : Buffered S) (t : Timing)
      → IsReadStrategy b.read_buf_strategy
      → max_size b.read_buf_strategy ≡ limit
      → Answered (b.read_buf ++ wire b.io) t.running (parse source room head now b t)
  unfolding parse
  parse-Answered b t i m =
      rw (m) (parse_loop-Answered (suc (limit - length b.read_buf)) b t i m (omega arith))

  -- Whatever timeout is set for a head: over a reader that keeps its laws, with a strategy that asks for something,
  -- room for it, and a parser that takes nothing of a head that is not all there, a connection whose timer is not
  -- marked as running never answers that the time for a head is over, and is not marked so afterwards.
  pub parse-never_late :
      (b b' : Buffered S) (t t' : Timing) (a : Answer E M)
      → IsReadStrategy b.read_buf_strategy
      → max_size b.read_buf_strategy ≡ limit
      → t.running ≡ false
      → parse source room head now b t ≡ some ((b', t'), a)
      → (a ≢ header_timeout) × (t'.running ≡ false)
  parse-never_late b b' t t' a i m off e =
      let r = parse-Answered b t i m in
      let same : ((r.after, r.timing), r.answer) ≡ ((b', t'), a) = some-injective (sym r.run ∙ e) in
      (
        λ late.
            not_late source room head now wire laws fits keeps limit t.running r.arrived
              r.after.read_buf r.timing r.after.io r.answer (ap (λ x. x.1) same ∙ late) off r.says,
        ap (λ x. x.0.1.running) (sym same) ∙ r.runs off,
      )
