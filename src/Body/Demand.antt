-- ===== src/Body/Demand.antt =====
-- When the sender of a body is ready: src/body/body.rs over src/common/watch.rs.
use kaiwaehnero.Base.{
  ◌∙◌, Bytes, ℕ, Bool, true, false, not, ◌||◌, Option, none, some, List, [], ◌∷◌, length, ◌≡◌, refl,
  subst, sym, if◌then◌else◌,
}
use kaiwaehnero.Poll.{Poll, pending, ready}
use kaiwaehnero.H1.Error.{Error}
use kaiwaehnero.Body.{DecodedLength, sub_if}
use kaiwaehnero.Client.Channel.{answered, refused}
use kaiwaehnero.Common.Watch.{send, load, drop_sender}
use kaiwaehnero.Common.Watch
use kaiwaehnero.Body.Stream.{
  poll_trailers, Item, Ends, Link, chan, Body, new, new_channel, take_delayed_eof, on_chunk,
  poll_kind, poll_inner, poll_with, poll_eof, poll_data, want_ready, want_pending, drop_body,
}
use kaiwaehnero.Body.Sender.{
  room, abort, send_error, try_send_data, poll_ready, after_want, demand, poll_want,
}

any_or : (a b p : Bool) → (b || (a || p)) ≡ ((a || b) || p)
any_or true true p = refl
any_or true false p = refl
any_or false b p = refl

-- The operations of the two ends.
pub data Act : Type 0 where
  polled trailers_polled asks aborts : Act
  sends : Bytes → Act
  fails : Error → Act

abbrev pub is_poll : Act → Bool
is_poll polled = true
is_poll _ = false

abbrev pub any : List Act → Bool
any [] = false
any (a ∷ ts) = is_poll a || any ts

abbrev link_after : {L B : Type 0} → L → Option (L × B) → L
link_after l none = l
link_after l (some x) = x.0

module _ {W X M T S U : Type 0} (e : Ends W X M T S U) (cx : X) where
  abbrev pub Both : Type 0
  Both = Link W M T × Body S U

  -- What the body does, or its sender. A call that panics, which none here does, would change nothing.
  unfoldable pub act : Act → Both → Both
  act polled (l, b) = (poll_data e l b).0
  act trailers_polled (l, b) = ((poll_trailers e l b).0, b)
  act asks (l, b) = (link_after l (poll_ready e cx l), b)
  act (sends chunk) (l, b) = ((try_send_data e l chunk).0, b)
  act (fails err) (l, b) = (send_error e l err, b)
  act aborts (l, b) = (abort e l, b)

  unfoldable pub acts : List Act → Both → Both
  unfolding act
  acts [] x = x
  acts (a ∷ ts) x = acts ts (act a x)

  -- A body that is a channel, whose watch has a value.
  abbrev Opened : ℕ → Both → Type 0
  Opened v x = (x.0.want.value ≡ v) × (len : DecodedLength) × (x.1 ≡ new (chan len))

  on_chunk-Opened :
      (l : Link W M T) (len : DecodedLength) (y : M × Poll (Option Item))
      → l.want.value ≡ want_ready
      → Opened want_ready (on_chunk e l (new (chan len)) len y).0
  unfolding on_chunk new
  on_chunk-Opened l len (m, pending) h = (h, len, refl)
  on_chunk-Opened l len (m, ready none) h = (h, len, refl)
  on_chunk-Opened l len (m, ready (some (answered c))) h = (h, sub_if len (length c), refl)
  on_chunk-Opened l len (m, ready (some (refused x))) h = (h, len, refl)

  poll_data-Opened :
      (l : Link W M T) (len : DecodedLength) → Opened want_ready (poll_data e l (new (chan len))).0
  unfolding poll_data poll_eof poll_with take_delayed_eof poll_inner poll_kind new send
  poll_data-Opened l len =
      on_chunk-Opened (record l { want = send e.waker l.want want_ready }) len
        (e.poll_next l.chunks) refl

  abbrev value_after : Bool → ℕ
  value_after asked = if asked then want_ready else want_pending

  after_want-value :
      (l0 l : Link W M T) (r : Option (Poll (Option Error)))
      → l0.want.value ≡ l.want.value
      → (link_after l0 (after_want e cx (l, r))).want.value ≡ l.want.value
  unfolding after_want
  after_want-value l0 l none h = h
  after_want-value l0 l (some pending) h = refl
  after_want-value l0 l (some (ready none)) h = refl
  after_want-value l0 l (some (ready (some x))) h = refl

  act-Opened :
      (a : Act) (p : Bool) (x : Both)
      → Opened (value_after p) x
      → Opened (value_after (is_poll a || p)) (act a x)
  unfolding act poll_want load poll_trailers try_send_data send_error abort poll_ready new
  act-Opened polled p (l, b) (h, len, q) =
      subst (λ b. Opened want_ready (poll_data e l b).0) (sym q) (poll_data-Opened l len)
  act-Opened trailers_polled p (l, b) (h, len, q) = rw (q) (h, len, refl)
  act-Opened asks p (l, b) (h, len, q) =
      (after_want-value l (poll_want e cx l).0 (poll_want e cx l).1 refl ∙ h, len, q)
  act-Opened (sends chunk) p (l, b) k = k
  act-Opened (fails err) p (l, b) k = k
  act-Opened aborts p (l, b) k = k

  acts-Opened :
      (ts : List Act) (p : Bool) (x : Both)
      → Opened (value_after p) x
      → Opened (value_after (any ts || p)) (acts ts x)
  unfolding acts
  acts-Opened [] p x k = k
  acts-Opened (a ∷ ts) p x k =
      subst (λ b. Opened (value_after b) (acts ts (act a x))) (any_or (is_poll a) (any ts) p)
        (acts-Opened ts (is_poll a || p) (act a x) (act-Opened a p x k))

  new_channel-Opened :
      (w : W) (m : M) (t : T) (len : DecodedLength) (wanter : Bool)
      → Opened (value_after (not wanter)) (new_channel w m t len wanter)
  unfolding new_channel Watch.channel
  new_channel-Opened w m t len true = (refl, len, refl)
  new_channel-Opened w m t len false = (refl, len, refl)

  -- What `poll_ready` answers while the body is wanted or not: if it is, what the channel of chunks says of its room.
  abbrev pub offered : Bool → Link W M T → Link W M T × Poll (Option Error)
  offered false l = (l, pending)
  offered true l = let (m, r) = e.tx_poll_ready l.chunks in (record l { chunks = m }, room r)

  after_value :
      (b : Bool) (l : Link W M T)
      → l.want.value ≡ value_after b
      → poll_ready e cx l ≡ some (offered b (poll_want e cx l).0)
  unfolding poll_ready after_want poll_want load demand
  after_value true l h = rw (h) refl
  after_value false l h = rw (h) refl

  -- After whatever calls of the two ends of a new channel, a body's polls and a sender's chunks, errors and aborts among
  -- them: if the body has been polled, or the channel was made without the wish to wait for that, `poll_ready` answers
  -- what the channel of chunks says of its room; otherwise it waits, and does not ask that channel. Once the body is
  -- dropped, it says that the channel is closed.
  pub poll_ready-demand :
      (w : W) (m : M) (t : T) (len : DecodedLength) (wanter : Bool) (ts : List Act)
      → let l = (acts ts (new_channel w m t len wanter)).0 in
        (poll_ready e cx l ≡ some (offered (any ts || not wanter) (poll_want e cx l).0))
        × (poll_ready e cx (drop_body e l)
            ≡ some ((poll_want e cx (drop_body e l)).0, ready (some Error.closed)))
  unfolding poll_ready after_want poll_want load demand drop_body drop_sender send
  poll_ready-demand w m t len wanter ts = (
    after_value (any ts || not wanter) (acts ts (new_channel w m t len wanter)).0
        (acts-Opened ts (not wanter) (new_channel w m t len wanter)
          (new_channel-Opened w m t len wanter)).0,
    refl,
  )
