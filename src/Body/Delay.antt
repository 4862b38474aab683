-- ===== src/Body/Delay.antt =====
-- The delayed end of a body: src/body/body.rs.
use kaiwaehnero.Base.{
  ℕ, zero, suc, Bool, true, false, Option, none, some, List, [], ◌∷◌, ◌≡◌, refl, ap,
}
use kaiwaehnero.Common.Watch.{send}
use kaiwaehnero.Poll.{Poll, pending, ready}
use kaiwaehnero.Body.{DecodedLength}
use kaiwaehnero.Client.Channel.{answered, refused}
use kaiwaehnero.Body.Stream.{
  want_ready, Item, Ends, Link, Kind, once, chan, wrapped, eof, Extra, Body, new, set_delayed_eof,
  delayed_eof, take_delayed_eof, Polled, on_chunk, poll_kind, poll_inner, hold_eof, delay_end,
  poll_with, poll_eof, poll_data,
}

module _ {W X M T S U : Type 0} (e : Ends W X M T S U) where
  abbrev pub Collected : Type 0
  Collected = List Item × Bool

  -- What a poll gives, and what the later ones give after it.
  abbrev pub collect : Polled e → (Link W M T → Body S U → Collected) → Collected
  collect ((l, b), pending) f = f l b
  collect ((l, b), ready none) f = ([], true)
  collect ((l, b), ready (some (answered c))) f = (answered c ∷ (f l b).0, (f l b).1)
  collect ((l, b), ready (some (refused x))) f = (refused x ∷ [], true)

  -- What some polls give until the end or an error, and whether they came to that.
  unfoldable pub reads : ℕ → Link W M T → Body S U → Collected
  reads zero l b = ([], false)
  reads (suc n) l b = collect (poll_data e l b) (reads n)

  abbrev with_extra : Option (Extra U) → Polled e → Polled e
  with_extra x ((l, b), r) = ((l, record b { extra = x }), r)

  on_chunk-extra :
      (l : Link W M T) (b : Body S U) (x : Option (Extra U)) (len : DecodedLength)
      (y : M × Poll (Option Item))
      → on_chunk e l (record b { extra = x }) len y ≡ with_extra x (on_chunk e l b len y)
  unfolding on_chunk
  on_chunk-extra l b x len (m, pending) = refl
  on_chunk-extra l b x len (m, ready none) = refl
  on_chunk-extra l b x len (m, ready (some (answered c))) = refl
  on_chunk-extra l b x len (m, ready (some (refused k))) = refl

  poll_kind-extra :
      (l : Link W M T) (b : Body S U) (x : Option (Extra U)) (k : Kind S)
      → poll_kind e l (record b { extra = x }) k ≡ with_extra x (poll_kind e l b k)
  unfolding poll_kind
  poll_kind-extra l b x (once val) = refl
  poll_kind-extra l b x (chan len) =
      on_chunk-extra (record l { want = send e.waker l.want want_ready }) b x len
        (e.poll_next l.chunks)
  poll_kind-extra l b x (wrapped s) = refl

  abbrev plain : Body S U → Body S U
  plain b = record b { extra = none }

  poll_data-plain :
      (l : Link W M T) (b : Body S U) → poll_data e l (plain b) ≡ with_extra none (poll_inner e l b)
  unfolding poll_data poll_eof poll_with take_delayed_eof poll_inner
  poll_data-plain l b = poll_kind-extra l b none b.kind

  poll_data-delayed :
      (l : Link W M T) (b : Body S U) (u : U)
      → poll_data e l (delayed_eof b u)
        ≡ delay_end e u (with_extra (some (record { delayed_eof = none })) (poll_inner e l b))
  unfolding poll_data poll_eof poll_with take_delayed_eof poll_inner delayed_eof set_delayed_eof
  poll_data-delayed l b u =
      ap (delay_end e u) (poll_kind-extra l b (some (record { delayed_eof = none })) b.kind)

  abbrev held : Body S U → U → Body S U
  held b u = record b { extra = some (record { delayed_eof = some (eof u) }) }

  after_hold :
      (n : ℕ) (l : Link W M T) (b : Body S U) (x : U × Poll (Unit {0}))
      → ((v : U) → (reads n l (held b v)).0 ≡ [])
      → (collect (hold_eof e l b x) (reads n)).0 ≡ []
  unfolding hold_eof set_delayed_eof
  after_hold n l b (d, pending) ih = ih d
  after_hold n l b (d, ready v) ih = refl

  -- Once the end has been seen, nothing more comes.
  reads-held : (n : ℕ) (l : Link W M T) (b : Body S U) (u : U) → (reads n l (held b u)).0 ≡ []
  unfolding reads poll_data poll_eof poll_with take_delayed_eof
  reads-held zero l b u = refl
  reads-held (suc n) l b u =
      after_hold n l (record b { extra = some (record { delayed_eof = none }) }) (e.poll_delay u)
        (reads-held n l b)

  abbrev pub Agrees : Collected → Collected → Type 0
  Agrees r s = (r.0 ≡ s.0) × (r.1 ≡ true → s.1 ≡ true)

  held_or_not :
      (n : ℕ) (u : U) (y : Polled e)
      → ((l : Link W M T) (b : Body S U)
          → Agrees (reads n l (delayed_eof b u)) (reads n l (plain b)))
      → Agrees
          (collect (delay_end e u (with_extra (some (record { delayed_eof = none })) y)) (reads n))
          (collect (with_extra none y) (reads n))
  unfolding delay_end set_delayed_eof delayed_eof
  held_or_not n u ((l, b), pending) ih = ih l b
  held_or_not n u ((l, b), ready none) ih = (
    after_hold n l (record b { extra = some (record { delayed_eof = none }) }) (e.poll_delay u)
        (reads-held n l b),
    λ k. refl,
  )
  held_or_not n u ((l, b), ready (some (answered c))) ih =
      let (p, q) = ih l b in (ap (◌∷◌ (answered c)) p, q)
  held_or_not n u ((l, b), ready (some (refused x))) ih = (refl, λ k. k)

  plain-Agrees :
      (n : ℕ) (l : Link W M T) (b : Body S U) (u : U)
      → Agrees (reads n l (delayed_eof b u)) (reads n l (plain b))
  unfolding reads
  plain-Agrees zero l b u = (refl, λ k. k)
  plain-Agrees (suc n) l b u =
      rw (poll_data-delayed l b u, poll_data-plain l b)
        (held_or_not n u (poll_inner e l b) (λ l b. plain-Agrees n l b u))

  -- A body whose end is delayed gives, in as many polls, the same chunks and the same error as it does without the delay, in
  -- order, and it comes to its end only if it does so without the delay too.
  pub reads-delayed_eof :
      (n : ℕ) (l : Link W M T) (k : Kind S) (u : U)
      → Agrees (reads n l (delayed_eof (new k) u)) (reads n l (new k))
  unfolding new
  reads-delayed_eof n l k u = plain-Agrees n l (record { kind = k; extra = none }) u
