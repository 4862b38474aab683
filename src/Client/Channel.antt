-- ===== src/Client/Channel.antt =====
-- The channel of src/client/dispatch.rs, from the handle of a connection to its task. The queue and the oneshot channels
-- are tokio's and the signal of demand is the crate `want`'s: they are parameters.
use kaiwaehnero.Base.{Bool, true, false, not, ◌||◌, Option, none, some, if◌then◌else◌}
use kaiwaehnero.Poll.{Poll, pending, ready}
use kaiwaehnero.H1.Error.{Error, canceled, closed}

-- `Result<U, E>`.
pub data Reply (U E : Type 0) : Type 0 where
  answered : U → Reply U E
  refused : E → Reply U E

-- `oneshot::Sender`: a call of `send` gives the sender away, and is a value of `Sent` here.
pub record Oneshot (O : Type 0) : Type 0 where
  pub is_closed : O → Bool
  pub poll_closed : O → O × Poll (Unit {0})

-- `mpsc::UnboundedReceiver`. `recv_now` is `recv().now_or_never()`.
pub record Mpsc (Q E : Type 0) : Type 0 where
  pub poll_recv : Q → Q × Poll (Option E)
  pub close : Q → Q
  pub recv_now : Q → Q × Option (Option E)

-- `want::Taker`.
pub record Taker (K : Type 0) : Type 0 where
  pub want : K → K
  pub cancel : K → K

-- `want::Giver`. `poll_want` gives whether the taker is still there.
pub record Giver (G H : Type 0) : Type 0 where
  pub poll_want : G → G × Poll Bool
  pub is_wanting : G → Bool
  pub is_canceled : G → Bool
  pub give : G → G × Bool
  pub shared : G → H
  pub shared_is_canceled : H → Bool

-- The enum `Callback`.
pub data Callback (O : Type 0) : Type 0 where
  retry : O → Callback O
  no_retry : O → Callback O

pub data Sent (T U O : Type 0) : Type 0 where
  to_retry : O → Reply U (Error × Option T) → Sent T U O
  to_no_retry : O → Reply U Error → Sent T U O

-- The struct `Envelope`, which is empty once it has been taken from.
abbrev pub Envelope : Type 0 → Type 0 → Type 0
Envelope T O = Option (T × Callback O)

-- `val.map_err(|e| e.0)`.
abbrev pub without_value : {T U : Type 0} → Reply U (Error × Option T) → Reply U Error
without_value (answered u) = answered u
without_value (refused e) = refused e.0

module _ {T U O : Type 0} where
  unfoldable pub send : Callback O → Reply U (Error × Option T) → Sent T U O
  send (retry tx) v = to_retry tx v
  send (no_retry tx) v = to_no_retry tx (without_value v)

  -- `Drop` of an envelope.
  unfoldable pub drop : Envelope T O → Option (Sent T U O)
  unfolding send
  drop none = none
  drop (some (v, cb)) = some (send cb (refused (canceled, some v)))

module _ {O : Type 0} (o : Oneshot O) where
  unfoldable pub is_canceled : Callback O → Bool
  is_canceled (retry tx) = o.is_closed tx
  is_canceled (no_retry tx) = o.is_closed tx

  unfoldable pub poll_canceled : Callback O → Callback O × Poll (Unit {0})
  poll_canceled (retry tx) = (retry (o.poll_closed tx).0, (o.poll_closed tx).1)
  poll_canceled (no_retry tx) = (no_retry (o.poll_closed tx).0, (o.poll_closed tx).1)

pub record Receiver (Q K : Type 0) : Type 0 where
  pub inner : Q
  pub taker : K

module _ {T O Q K : Type 0} (m : Mpsc Q (Envelope T O)) (t : Taker K) where
  -- An envelope that is empty makes the call panic, which is `none`.
  unfoldable pub received :
      Receiver Q K
      → Q × Poll (Option (Envelope T O))
      → Option (Receiver Q K × Poll (Option (T × Callback O)))
  received r (q, pending) = some (record r { inner = q; taker = t.want r.taker }, pending)
  received r (q, ready none) = some (record r { inner = q }, ready none)
  received r (q, ready (some none)) = none
  received r (q, ready (some (some e))) = some (record r { inner = q }, ready (some e))

  unfoldable pub poll_recv : Receiver Q K → Option (Receiver Q K × Poll (Option (T × Callback O)))
  unfolding received
  poll_recv r = received r (m.poll_recv r.inner)

  unfoldable pub close : Receiver Q K → Receiver Q K
  close r = record { inner = m.close r.inner; taker = t.cancel r.taker }

  unfoldable pub received_now :
      Receiver Q K → Q × Option (Option (Envelope T O)) → Receiver Q K × Option (T × Callback O)
  received_now r (q, some (some env)) = (record r { inner = q }, env)
  received_now r (q, some none) = (record r { inner = q }, none)
  received_now r (q, none) = (record r { inner = q }, none)

  unfoldable pub try_recv : Receiver Q K → Receiver Q K × Option (T × Callback O)
  unfolding received_now
  try_recv r = received_now r (m.recv_now r.inner)

pub record Sender (G S : Type 0) : Type 0 where
  pub buffered_once : Bool
  pub giver : G
  pub inner : S

pub record UnboundedSender (H S : Type 0) : Type 0 where
  pub giver : H
  pub inner : S

module _ {G H S : Type 0} (g : Giver G H) where
  unfoldable pub wanted : Sender G S → G × Poll Bool → Sender G S × Poll (Option Error)
  wanted s (w, pending) = (record s { giver = w }, pending)
  wanted s (w, ready true) = (record s { giver = w }, ready none)
  wanted s (w, ready false) = (record s { giver = w }, ready (some closed))

  unfoldable pub poll_ready : Sender G S → Sender G S × Poll (Option Error)
  unfolding wanted
  poll_ready s = wanted s (g.poll_want s.giver)

  unfoldable pub is_ready : Sender G S → Bool
  is_ready s = g.is_wanting s.giver

  unfoldable pub is_closed : Sender G S → Bool
  is_closed s = g.is_canceled s.giver

  unfoldable pub can_send : Sender G S → Sender G S × Bool
  can_send s =
      let (w, asked) = g.give s.giver in
      if asked || not s.buffered_once
      then (record s { giver = w; buffered_once = true }, true)
      else (record s { giver = w }, false)

  unfoldable pub unbound : Sender G S → UnboundedSender H S
  unbound s = record { giver = g.shared s.giver; inner = s.inner }

  unfoldable pub unbounded_is_ready : UnboundedSender H S → Bool
  unbounded_is_ready s = not (g.shared_is_canceled s.giver)

-- The promise of an answer, or the value back; `none` is a panic.
unfoldable pub outcome : {T O P : Type 0} → P → Option (Envelope T O) → Option (Reply P T)
outcome rx none = some (answered rx)
outcome rx (some none) = none
outcome rx (some (some (v, cb))) = some (refused v)

-- `into_queue` is `mpsc::UnboundedSender::send`, which gives back the envelope if the receiver is gone.
module _ {T O P S : Type 0} (into_queue : S → Envelope T O → S × Option (Envelope T O)) where
  -- What the two calls share: `cb` is the callback with the oneshot's sender, `rx` the receiver.
  unfoldable pub put :
      Callback O → P → T → {G : Type 0} → Sender G S × Bool → Sender G S × Option (Reply P T)
  unfolding outcome
  put cb rx v (s, false) = (s, some (refused v))
  put cb rx v (s, true) =
      let (i, back) = into_queue s.inner (some (v, cb)) in (record s { inner = i }, outcome rx back)

  unfoldable pub send_as :
      {G H : Type 0} (g : Giver G H)
      → Callback O
      → P
      → Sender G S
      → T
      → Sender G S × Option (Reply P T)
  unfolding put can_send
  send_as g cb rx s v = put cb rx v (can_send g s)

  unfoldable pub try_send :
      {G H : Type 0} (g : Giver G H) → O × P → Sender G S → T → Sender G S × Option (Reply P T)
  unfolding send_as
  try_send g (tx, rx) s v = send_as g (retry tx) rx s v

  unfoldable pub send_once :
      {G H : Type 0} (g : Giver G H) → O × P → Sender G S → T → Sender G S × Option (Reply P T)
  unfolding send_as
  send_once g (tx, rx) s v = send_as g (no_retry tx) rx s v

  unfoldable pub unbounded_try_send :
      {H : Type 0} → O × P → UnboundedSender H S → T → UnboundedSender H S × Option (Reply P T)
  unfolding outcome
  unbounded_try_send (tx, rx) s v =
      let (i, back) = into_queue s.inner (some (v, retry tx)) in
      (record s { inner = i }, outcome rx back)
