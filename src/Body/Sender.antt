-- ===== src/Body/Sender.antt =====
-- The struct `Sender` of src/body/body.rs: the other end of a body that is a channel.
use kaiwaehnero.Base.{ℕ, ◌==◌, is_none, Bool, true, false, Option, none, some, Bytes, if◌then◌else◌}
use kaiwaehnero.Poll.{Poll, pending, ready}
use kaiwaehnero.H1.Error.{Error, user_body_write_aborted}
use kaiwaehnero.Client.Channel.{answered, refused}
use kaiwaehnero.Common.Watch.{load}
use kaiwaehnero.Common.Watch
use kaiwaehnero.Body.Stream.{Ends, Link, Body, want_ready, want_pending, new_channel}
use kaiwaehnero.Body.Stream
use kaiwaehnero.H1.Dispatch.Parts.{BodyChannel}

-- Any other value of the watch makes the call panic, which is `none`.
unfoldable pub demand : ℕ → Option (Poll (Option Error))
demand v =
    if v == want_ready
    then some (ready none)
    else if v == want_pending
    then some pending
    else if v == Watch.closed
    then some (ready (some Error.closed))
    else none

abbrev pub room : Poll Bool → Poll (Option Error)
room pending = pending
room (ready true) = ready none
room (ready false) = ready (some Error.closed)

module _ {W X M T S U : Type 0} (e : Ends W X M T S U) (cx : X) where
  unfoldable pub poll_want : Link W M T → Link W M T × Option (Poll (Option Error))
  unfolding demand
  poll_want l = let (w, v) = load e.waker l.want cx in (record l { want = w }, demand v)

  -- Whether there is room, once the body has been asked for.
  unfoldable pub after_want :
      Link W M T × Option (Poll (Option Error)) → Option (Link W M T × Poll (Option Error))
  after_want (l, none) = none
  after_want (l, some pending) = some (l, pending)
  after_want (l, some (ready (some x))) = some (l, ready (some x))
  after_want (l, some (ready none)) =
      let (m, r) = e.tx_poll_ready l.chunks in some (record l { chunks = m }, room r)

  unfoldable pub poll_ready : Link W M T → Option (Link W M T × Poll (Option Error))
  unfolding poll_want after_want
  poll_ready l = after_want (poll_want l)

module _ {W X M T S U : Type 0} (e : Ends W X M T S U) where
  -- Whether the chunk was taken; if not, it is given back.
  unfoldable pub try_send_data : Link W M T → Bytes → Link W M T × Bool
  try_send_data l chunk =
      let (m, r) = e.tx_try_send l.chunks (answered chunk) in (record l { chunks = m }, r)

  unfoldable pub send_error : Link W M T → Error → Link W M T
  send_error l err = record l { chunks = (e.tx_try_send l.chunks (refused err)).0 }

  -- A clone of the sender has room even if the channel is full.
  unfoldable pub abort : Link W M T → Link W M T
  abort l = record l { chunks = (e.clone_try_send l.chunks (refused user_body_write_aborted)).0 }

abbrev pub answer : Poll (Option Error) → Poll Bool
answer pending = pending
answer (ready x) = ready (is_none x)

abbrev pub answered_or_panic :
    {L : Type 0} → Option (L × Poll (Option Error)) → Option (L × Poll Bool)
answered_or_panic none = none
answered_or_panic (some (l, r)) = some (l, answer r)

-- What a dispatcher of src/proto/h1/dispatch.rs asks of the bodies that it reads, with fresh channels for each.
abbrev pub body_channel :
    {W X M T S U : Type 0} → Ends W X M T S U → X → W → M → T → BodyChannel (Link W M T) (Body S U)
body_channel e cx w m t = record {
  empty = Stream.empty;
  new_channel = new_channel w m t;
  poll_ready = λ l. answered_or_panic (poll_ready e cx l);
  try_send_data = try_send_data e;
  send_error = send_error e;
}
