-- ===== src/Examples/Readers.antt =====
-- The reader of the tests in src/proto/h1/decode.rs, `impl MemRead for &[u8]`: the bytes are all there.
use kaiwaehnero.Common.Rewind
use kaiwaehnero.Common.Rewind.{rewind-IsMemRead}
use kaiwaehnero.Base.{
  true, false, some, ltb, length, if◌then◌else◌, Bool-cases, ◌≢◌, ℕ, zero, suc, ◌≡◌, ◌⊎◌, inl, inr,
  refl, sym, Bytes, [], ◌∷◌, take, drop, take-append-drop, length-take, arith,
}
use kaiwaehnero.H1.Io.{poll_read_from_io, Buffered, with_max}
use kaiwaehnero.H1.Io.Reader.{IsReadStrategy}
use kaiwaehnero.H1.Io.Parse.{
  Parsed, partial, complete, Timing, Answer, waits, header_timeout, max_size, parse,
}
use kaiwaehnero.H1.Io.Parse.Answers.{Answered, parse-Answered, parse-never_late}
use kaiwaehnero.Poll.{pending, ready, ok}
use kaiwaehnero.H1.MemRead.{MemRead, IsMemRead}
use kaiwaehnero.H1.Io.Reader.{reader, reader-IsMemRead}
use kaiwaehnero.H1.Io.Reader

abbrev pub slice : MemRead Bytes
slice = record { read_mem = λ r n. (drop n r, ready (ok (take n r))) }

abbrev pub unread : Bytes → Bytes
unread r = r

take-empty : (n : ℕ) (r : Bytes) → take n r ≡ [] → (n ≡ 0) ⊎ (r ≡ [])
take-empty zero r h = inl refl
take-empty (suc n) [] h = inr refl
take-empty (suc n) (x ∷ r) h = cc

pub slice-IsMemRead : IsMemRead slice unread
slice-IsMemRead = record {
  reads = λ r n. (sym (take-append-drop n r), omega (arith, length-take n r), take-empty n r);
}

-- A buffer that has just the room it is asked for.
abbrev pub just : Bytes → ℕ → ℕ
just b n = n

reader-IsMemRead_example : IsMemRead (reader slice just) (Reader.unread slice just unread)
reader-IsMemRead_example = reader-IsMemRead slice just unread slice-IsMemRead (λ b n. omega arith)

-- A head of three bytes.
abbrev three : Bytes → Bytes × Parsed ℕ Bytes
three w = if ltb (length w) 3 then (w, partial) else (drop 3 w, complete (take 3 w))

three-partial : (w : Bytes) → (three w).1 ≡ partial → (three w).0 ≡ w
three-partial w h = elim (Bool-cases (ltb (length w) 3)) [
  | inl e ↦ rw (e) refl
  | inr e ↦ cc (rw (e) at h)
]

abbrev begun : (S : Type 0) → S → Buffered S
begun S s = record {
  io = s;
  read_blocked = false;
  read_buf = 1 ∷ [];
  read_buf_strategy = with_max 8192;
}

abbrev timing : Timing
timing = record { header_read_timeout = some 5; timeout_fut = some 10; running = false }

begun-IsReadStrategy : IsReadStrategy (with_max 8192)
unfolding with_max
begun-IsReadStrategy = (omega arith, omega arith)

begun-max_size : max_size (with_max 8192) ≡ 8192
unfolding with_max max_size
begun-max_size = refl

parse-Answered_example :
    Answered slice just three 1000 unread slice-IsMemRead
      (λ b n. omega arith)
      three-partial
      8192
      (1 ∷ 2 ∷ 3 ∷ 4 ∷ [])
      false
      (parse slice just three 1000 (begun Bytes (2 ∷ 3 ∷ 4 ∷ [])) timing)
parse-Answered_example =
    parse-Answered slice just three 1000 unread slice-IsMemRead (λ b n. omega arith) three-partial
      8192 (begun Bytes (2 ∷ 3 ∷ 4 ∷ [])) timing begun-IsReadStrategy begun-max_size

-- A peer that sends nothing more.
abbrev silent : MemRead Bytes
silent = record { read_mem = λ r n. (r, pending) }

silent-IsMemRead : IsMemRead silent unread
silent-IsMemRead = record { reads = λ r n. refl }

-- The deadline of the timer has long passed.
abbrev still_waiting : Buffered Bytes
still_waiting = record (begun Bytes []) { read_blocked = true }

silent_waits :
    parse silent just three 1000 (begun Bytes []) timing
    ≡ some ((still_waiting, record timing { timeout_fut = some 1005 }), waits)
unfolding parse with_max poll_read_from_io
silent_waits = refl

abbrev waiting : Answer ℕ Bytes
waiting = waits

parse-never_late_example :
    (waiting ≢ header_timeout) × ((record timing { timeout_fut = some 1005 }).running ≡ false)
parse-never_late_example =
    parse-never_late silent just three 1000 unread silent-IsMemRead (λ b n. omega arith)
      three-partial 8192 (begun Bytes []) still_waiting timing
      (record timing { timeout_fut = some 1005 }) waits begun-IsReadStrategy begun-max_size refl
      silent_waits

rewind-IsMemRead_example : IsMemRead (Rewind.reader slice) (Rewind.unread slice unread)
rewind-IsMemRead_example = rewind-IsMemRead slice unread slice-IsMemRead
