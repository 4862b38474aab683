-- ===== src/Body/Stream.antt =====
-- src/body/body.rs: a body, and the sender of one that is a channel. The features http1, client, server and stream are on,
-- http2 and ffi are off. Both ends of a channel share one `Link`: the watch of src/common/watch.rs, and the two channels of
-- the crate futures-channel, which are parameters.
use kaiwaehnero.Base.{
  ℕ, Bool, false, Option, none, some, Bytes, length, is_empty, is_none, ◌==◌, if◌then◌else◌,
}
use kaiwaehnero.Poll.{Poll, pending, ready, ErrorKind}
use kaiwaehnero.H1.Error.{Error}
use kaiwaehnero.Body.{DecodedLength, into_opt, sub_if}
use kaiwaehnero.Client.Channel.{Reply, answered, refused}
use kaiwaehnero.Common.Watch.{AtomicWaker, Shared, send, load, drop_sender}
use kaiwaehnero.Common.Watch

abbrev pub Item : Type 0
Item = Reply Bytes Error

-- A stream that is wrapped gives errors of the user's own. The future that delays the end is done when its sender is gone.
pub record Ends (W X M T S U : Type 0) : Type 0 where
  pub waker : AtomicWaker W X
  pub poll_next : M → M × Poll (Option Item)
  pub tx_poll_ready : M → M × Poll Bool
  pub tx_try_send : M → Item → M × Bool
  pub clone_try_send : M → Item → M × Bool
  pub poll_trailers : T → T × Poll (Option Bytes)
  pub poll_stream : S → S × Poll (Option (Reply Bytes ErrorKind))
  pub poll_delay : U → U × Poll (Unit {0})

pub record Link (W M T : Type 0) : Type 0 where
  pub want : Shared W
  pub chunks : M
  pub trailers : T

pub data Kind (S : Type 0) : Type 0 where
  once : Option Bytes → Kind S
  chan : DecodedLength → Kind S
  wrapped : S → Kind S

pub data DelayEof (U : Type 0) : Type 0 where
  not_eof eof : U → DelayEof U

pub record Extra (U : Type 0) : Type 0 where
  pub delayed_eof : Option (DelayEof U)

-- The struct `Body`.
pub record Body (S U : Type 0) : Type 0 where
  pub kind : Kind S
  pub extra : Option (Extra U)

abbrev pub want_pending : ℕ
want_pending = 1

abbrev pub want_ready : ℕ
want_ready = 2

module _ {S U : Type 0} where
  unfoldable pub new : Kind S → Body S U
  new kind = record { kind = kind; extra = none }

  unfoldable pub empty : Body S U
  unfolding new
  empty = new (once none)

  -- `new_channel`, over fresh channels.
  unfoldable pub new_channel :
      {W M T : Type 0} → W → M → T → DecodedLength → Bool → Link W M T × Body S U
  unfolding new Watch.channel
  new_channel w m t content_length wanter = (
    record {
      want = Watch.channel w (if wanter then want_pending else want_ready);
      chunks = m;
      trailers = t;
    },
    new (chan content_length),
  )

  unfoldable pub from_bytes : Bytes → Body S U
  unfolding new empty
  from_bytes chunk = if is_empty chunk then empty else new (once (some chunk))

  -- `self.extra_mut().delayed_eof = ..`.
  unfoldable pub set_delayed_eof : Body S U → Option (DelayEof U) → Body S U
  set_delayed_eof b d = record b { extra = some (record { delayed_eof = d }) }

  unfoldable pub delayed_eof : Body S U → U → Body S U
  unfolding set_delayed_eof
  delayed_eof b fut = set_delayed_eof b (some (not_eof fut))

  unfoldable pub take_delayed_eof : Body S U → Body S U × Option (DelayEof U)
  take_delayed_eof b = elim b.extra [
    | none ↦ (b, none)
    | some e ↦ (record b { extra = some (record { delayed_eof = none }) }, e.delayed_eof)
  ]

  unfoldable pub take_full_data : Body S U → Body S U × Option Bytes
  take_full_data b = elim b.kind [
    | once chunk ↦ (record b { kind = once none }, chunk)
    | chan n ↦ (b, none)
    | wrapped s ↦ (b, none)
  ]

  unfoldable pub is_end_stream : Body S U → Bool
  is_end_stream b = elim b.kind [
    | once val ↦ is_none val
    | chan content_length ↦ content_length.value == 0
    | wrapped s ↦ false
  ]

  -- The exact size, if there is one.
  unfoldable pub size_hint : Body S U → Option ℕ
  size_hint b = elim b.kind [
    | once (some val) ↦ some (length val)
    | once none ↦ some 0
    | chan content_length ↦ into_opt content_length
    | wrapped s ↦ none
  ]

module _ {W X M T S U : Type 0} (e : Ends W X M T S U) where
  abbrev pub Polled : Type 0
  Polled = (Link W M T × Body S U) × Poll (Option Item)

  unfoldable pub on_chunk : Link W M T → Body S U → DecodedLength → M × Poll (Option Item) → Polled
  on_chunk l b len (m, ready (some (answered chunk))) = (
    (record l { chunks = m }, record b { kind = chan (sub_if len (length chunk)) }),
    ready (some (answered chunk)),
  )
  on_chunk l b len (m, r) = ((record l { chunks = m }, b), r)

  abbrev pub user_error : Poll (Option (Reply Bytes ErrorKind)) → Poll (Option Item)
  user_error pending = pending
  user_error (ready none) = ready none
  user_error (ready (some (answered chunk))) = ready (some (answered chunk))
  user_error (ready (some (refused k))) = ready (some (refused (Error.body k)))

  abbrev pub whole : Option Bytes → Option Item
  whole none = none
  whole (some chunk) = some (answered chunk)

  unfoldable pub poll_kind : Link W M T → Body S U → Kind S → Polled
  unfolding on_chunk
  poll_kind l b (once val) = ((l, record b { kind = once none }), ready (whole val))
  poll_kind l b (chan len) =
      let l' = record l { want = send e.waker l.want want_ready } in
      on_chunk l' b len (e.poll_next l'.chunks)
  poll_kind l b (wrapped s) =
      let (s', r) = e.poll_stream s in ((l, record b { kind = wrapped s' }), user_error r)

  unfoldable pub poll_inner : Link W M T → Body S U → Polled
  unfolding poll_kind
  poll_inner l b = poll_kind l b b.kind

  -- The end is held back until the delay is done.
  unfoldable pub hold_eof : Link W M T → Body S U → U × Poll (Unit {0}) → Polled
  hold_eof l b (d, pending) = ((l, set_delayed_eof b (some (eof d))), pending)
  hold_eof l b (d, ready u) = ((l, b), ready none)

  unfoldable pub delay_end : U → Polled → Polled
  unfolding hold_eof
  delay_end d ((l, b), ready (some (answered chunk))) =
      ((l, set_delayed_eof b (some (not_eof d))), ready (some (answered chunk)))
  delay_end d ((l, b), pending) = ((l, set_delayed_eof b (some (not_eof d))), pending)
  delay_end d ((l, b), ready none) = hold_eof l b (e.poll_delay d)
  delay_end d ((l, b), ready (some (refused x))) = ((l, b), ready (some (refused x)))

  unfoldable pub poll_with : Link W M T → Body S U × Option (DelayEof U) → Polled
  unfolding delay_end hold_eof poll_inner
  poll_with l (b, some (not_eof delay)) = delay_end delay (poll_inner l b)
  poll_with l (b, some (eof delay)) = hold_eof l b (e.poll_delay delay)
  poll_with l (b, none) = poll_inner l b

  unfoldable pub poll_eof : Link W M T → Body S U → Polled
  unfolding poll_with take_delayed_eof
  poll_eof l b = poll_with l (take_delayed_eof b)

  unfoldable pub poll_data : Link W M T → Body S U → Polled
  unfolding poll_eof
  poll_data l b = poll_eof l b

  -- `poll_trailers` of a body that is a channel or not.
  unfoldable pub poll_trailers : Link W M T → Body S U → Link W M T × Poll (Option Bytes)
  poll_trailers l b = elim b.kind [
    | once val ↦ (l, ready none)
    | chan len ↦ (let (t, r) = e.poll_trailers l.trailers in (record l { trailers = t }, r))
    | wrapped s ↦ (l, ready none)
  ]

  -- `Drop` of the body that is the other end.
  unfoldable pub drop_body : Link W M T → Link W M T
  drop_body l = record l { want = drop_sender e.waker l.want }
