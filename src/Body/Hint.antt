-- ===== src/Body/Hint.antt =====
-- What a body that is a channel says of its size: src/body/body.rs over src/body/length.rs.
use kaiwaehnero.Base.{ℕ, zero, suc, ◌+◌, ◌-◌, ◌≤◌, Option, none, some, length, ◌≡◌, arith, ap, ◌∙◌}
use kaiwaehnero.Poll.{Poll, pending, ready}
use kaiwaehnero.Body.{DecodedLength, max_len, into_opt, sub_if}
use kaiwaehnero.Body.Laws.{into_opt-sub_if}
use kaiwaehnero.Client.Channel.{answered, refused}
use kaiwaehnero.Common.Watch.{send}
use kaiwaehnero.Body.Stream.{
  Item, Ends, Link, chan, Body, new, size_hint, take_delayed_eof, Polled, on_chunk, poll_kind,
  poll_inner, poll_with, poll_eof, poll_data, want_ready,
}

abbrev pub chunk_size : Poll (Option Item) → ℕ
chunk_size (ready (some (answered c))) = length c
chunk_size (ready (some (refused x))) = 0
chunk_size (ready none) = 0
chunk_size pending = 0

module _ {W X M T S U : Type 0} (e : Ends W X M T S U) where
  -- How many bytes some polls give, and the body after them.
  abbrev then_polled : Polled e → (Link W M T → Body S U → ℕ × Body S U) → ℕ × Body S U
  then_polled ((l, b), r) f = (chunk_size r + (f l b).0, (f l b).1)

  unfoldable pub polled : ℕ → Link W M T → Body S U → ℕ × Body S U
  polled zero l b = (0, b)
  polled (suc k) l b = then_polled (poll_data e l b) (polled k)

  abbrev Hinted : ℕ → ℕ × Body S U → Type 0
  Hinted n r = r.0 ≤ n → size_hint r.1 ≡ some (n - r.0)

  next-Hinted : (n m c : ℕ) (r : ℕ × Body S U) → m + c ≡ n → Hinted m r → Hinted n (c + r.0, r.1)
  next-Hinted n m c r e h = λ q. h (omega arith) ∙ ap some (omega arith)

  after_chunk :
      (k n : ℕ) (l : Link W M T) (len : DecodedLength) (y : M × Poll (Option Item))
      → n ≤ max_len
      → into_opt len ≡ some n
      → ((l' : Link W M T) (len' : DecodedLength) (n' : ℕ)
          → n' ≤ max_len
          → into_opt len' ≡ some n'
          → Hinted n' (polled k l' (new (chan len'))))
      → Hinted n (then_polled (on_chunk e l (new (chan len)) len y) (polled k))
  unfolding on_chunk new
  after_chunk k n l len (m, pending) h i ih =
      next-Hinted n n 0 _ (omega arith) (ih (record l { chunks = m }) len n h i)
  after_chunk k n l len (m, ready none) h i ih =
      next-Hinted n n 0 _ (omega arith) (ih (record l { chunks = m }) len n h i)
  after_chunk k n l len (m, ready (some (refused x))) h i ih =
      next-Hinted n n 0 _ (omega arith) (ih (record l { chunks = m }) len n h i)
  after_chunk k n l len (m, ready (some (answered c))) h i ih = λ q.
      let m_eq = into_opt-sub_if len n (length c) i h (omega arith) in
      next-Hinted n (n - length c) (length c) _ (omega arith)
        (ih (record l { chunks = m }) (sub_if len (length c)) (n - length c) (omega arith) m_eq) q

  -- A channel whose length is known says, after whatever number of polls, exactly what is left of it, as long as it has not
  -- given more than that length.
  pub polled-size_hint :
      (k n : ℕ) (l : Link W M T) (len : DecodedLength)
      → n ≤ max_len
      → into_opt len ≡ some n
      → (polled k l (new (chan len))).0 ≤ n
      → size_hint (polled k l (new (chan len))).1 ≡ some (n - (polled k l (new (chan len))).0)
  unfolding polled poll_data poll_eof poll_with take_delayed_eof poll_inner poll_kind new size_hint
  polled-size_hint zero n l len h i = λ q. rw (i) (ap some (omega arith))
  polled-size_hint (suc k) n l len h i =
      after_chunk k n (record l { want = send e.waker l.want want_ready }) len
        (e.poll_next l.chunks) h i (λ l' len' n' h' i' q. polled-size_hint k n' l' len' h' i' q)
