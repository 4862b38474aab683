-- ===== src/Examples/Writers.antt =====
-- A transport that takes three bytes at a time, and buffers of bytes.
use kaiwaehnero.Base.{
  ℕ, ◌≡◌, refl, sym, inl, inr, ◌∙◌, false, none, some, List, [], ◌∷◌, ◌++◌, Bytes, length, take,
  drop, concat, leb, if◌then◌else◌, min, zero, suc, arith, append-nil,
}
use kaiwaehnero.Poll.{ready, ok}
use kaiwaehnero.Common.Buf.{Buf, IsBuf, Slices}
use kaiwaehnero.Common.BufList
use kaiwaehnero.H1.Io.Write.{WriteBuf, flatten, queued}
use kaiwaehnero.H1.Io.Write
use kaiwaehnero.H1.Io.Write.Held.{WfWrite, Buffered, buffer-Buffered}
use kaiwaehnero.H1.Io.Flush.{AsyncWrite, IsAsyncWrite, Writer, poll_flush, done}
use kaiwaehnero.H1.Io.Flush.Sent.{Kept, poll_flush-Kept}

abbrev first_place : Bytes → ℕ → List Bytes
first_place b zero = []
first_place b (suc n) = b ∷ []

abbrev plain : Buf Bytes
plain = record {
  remaining = length;
  chunk = λ b. b;
  advance = λ b n. if leb n (length b) then some (drop n b) else none;
  chunks_vectored = first_place;
}

abbrev bytes : Bytes → Bytes
bytes b = b

plain-Slices : (b : Bytes) (n : ℕ) → Slices b n (plain.chunks_vectored b n)
plain-Slices b zero = record { rest = b; count = omega arith; text = refl; whole = inl refl }
plain-Slices b (suc n) = record {
  rest = [];
  count = ground arith;
  text = sym (append-nil (b ++ []) ∙ append-nil b);
  whole = inr refl;
}

plain-IsBuf : IsBuf plain bytes
plain-IsBuf = record {
  remaining_held = λ b. refl;
  chunk_held = λ b. record { rest = []; text = sym (append-nil b); some_part = λ e. e };
  advance_held = λ b n h. (drop n b, ground arith, refl);
  slices = plain-Slices;
}

abbrev slow : AsyncWrite Bytes
slow = record {
  poll_write = λ s b. (s ++ take (min 3 (length b)) b, ready (ok (min 3 (length b))));
  poll_write_vectored = λ s bs.
      (s ++ take (min 3 (length (concat bs))) (concat bs), ready (ok (min 3 (length (concat bs)))));
  poll_flush = λ s. (s, ready (ok done));
}

slow-IsAsyncWrite : IsAsyncWrite slow bytes
slow-IsAsyncWrite = record {
  write = λ s b. (omega arith, refl);
  vectored = λ s bs. (omega arith, refl);
  flush = λ s. refl;
}

-- Two buffers wait behind what is left of the headers.
abbrev waiting : WriteBuf Bytes
waiting = record {
  headers = record { bytes = 1 ∷ 2 ∷ 3 ∷ 4 ∷ []; pos = 2 };
  max_buf_size = 8192;
  queue = record { bufs = (5 ∷ 6 ∷ []) ∷ (7 ∷ 8 ∷ 9 ∷ []) ∷ [] };
  strategy = queued;
}

waiting-WfWrite : WfWrite waiting
waiting-WfWrite = record { pos = omega arith; flat = λ e. cc e }

abbrev writer : Writer Bytes Bytes
writer = record { flush_pipeline = false; io = []; read_buf = []; write_buf = waiting }

flushed :
    poll_flush slow plain writer
    ≡ some (
      (
        3 ∷ 4 ∷ 5 ∷ 6 ∷ 7 ∷ 8 ∷ 9 ∷ [],
        record waiting { headers = record { bytes = []; pos = 0 }; queue = record { bufs = [] } },
      ),
      ready (ok done),
    )
unfolding poll_flush Write.advance Write.chunks_vectored Write.remaining BufList.advance
    BufList.chunks_vectored BufList.remaining
flushed = refl

poll_flush-Kept_example :
    Kept slow bytes slow-IsAsyncWrite plain bytes plain-IsBuf
      (3 ∷ 4 ∷ 5 ∷ 6 ∷ 7 ∷ 8 ∷ 9 ∷ [])
      (poll_flush slow plain writer)
poll_flush-Kept_example =
    poll_flush-Kept slow bytes slow-IsAsyncWrite plain bytes plain-IsBuf writer waiting-WfWrite refl

-- Headers that are flattened into a vector whose room is used up.
abbrev flat : WriteBuf Bytes
flat = record waiting { queue = record { bufs = [] }; strategy = flatten }

flat-WfWrite : WfWrite flat
flat-WfWrite = record { pos = omega arith; flat = λ e. refl }

buffer-Buffered_example :
    Buffered plain bytes plain-IsBuf plain bytes plain-IsBuf bytes
      (λ v. 0)
      (λ b. refl)
      flat
      (5 ∷ 6 ∷ [])
buffer-Buffered_example =
    buffer-Buffered plain bytes plain-IsBuf plain bytes plain-IsBuf bytes (λ v. 0) (λ b. refl) flat
      (5 ∷ 6 ∷ []) flat-WfWrite
