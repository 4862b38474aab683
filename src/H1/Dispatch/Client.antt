-- ===== src/H1/Dispatch/Client.antt =====
-- `impl Dispatch for Client` of src/proto/h1/dispatch.rs. `settled` lists what became of the callbacks that are no longer
-- waiting, which no code reads.
use kaiwaehnero.Base.{
  Bool, true, false, Option, none, some, List, [], ◌∷◌, ◌++◌, is_none, if◌then◌else◌,
}
use kaiwaehnero.Poll.{Poll, pending, ready}
use kaiwaehnero.Http.{MessageHead}
use kaiwaehnero.H1.Error.{Error, unexpected_message, canceled}
use kaiwaehnero.H1.Dispatch.Parts.{Outgoing, message, Received, broken, Dispatch}
use kaiwaehnero.H1.Dispatch.Parts
use kaiwaehnero.Client.Channel.{
  Reply, answered, refused, Oneshot, Mpsc, Taker, Callback, Sent, Envelope, Receiver, send,
  poll_canceled, poll_recv, try_recv,
}
use kaiwaehnero.Client.Channel

abbrev pub Request : Type 0 → Type 0
Request Bs = MessageHead × Bs

abbrev pub Response : Type 0 → Type 0
Response Rx = MessageHead × Rx

-- An answer was sent to the callback, or its receiver was gone when the callback was to be used, or it was dropped where
-- another takes its place, without an answer.
pub data Settled (Bs Rx O : Type 0) : Type 0 where
  told : Sent (Request Bs) (Response Rx) O → Settled Bs Rx O
  unwanted dropped : Callback O → Settled Bs Rx O

pub record Client (Bs Rx O Q K : Type 0) : Type 0 where
  pub callback : Option (Callback O)
  pub rx : Receiver Q K
  pub rx_closed : Bool
  pub settled : List (Settled Bs Rx O)

module _ {Bs Rx O Q K : Type 0} where
  unfoldable pub settle : Client Bs Rx O Q K → Settled Bs Rx O → Client Bs Rx O Q K
  settle d s = record d { settled = d.settled ++ s ∷ [] }

  -- `this.callback = Some(cb)`.
  unfoldable pub set_callback : Client Bs Rx O Q K → Callback O → Client Bs Rx O Q K
  unfolding settle
  set_callback d cb = elim d.callback [
    | none ↦ record d { callback = some cb }
    | some old ↦ record (settle d (dropped old)) { callback = some cb }
  ]

  unfoldable pub not_canceled :
      Client Bs Rx O Q K
      → Request Bs
      → Callback O × Poll (Unit {0})
      → Client Bs Rx O Q K × Poll (Option (Outgoing Bs))
  unfolding settle set_callback
  not_canceled d req (cb, ready u) = (settle d (unwanted cb), ready none)
  not_canceled d (h, b) (cb, pending) = (set_callback d cb, ready (some (message h b)))

  unfoldable pub tell :
      Client Bs Rx O Q K
      → Callback O
      → Reply (Response Rx) (Error × Option (Request Bs))
      → Client Bs Rx O Q K
  unfolding settle
  tell d cb r = settle d (told (send cb r))

  -- A request that waits in the queue was never begun.
  unfoldable pub cancel_next :
      Client Bs Rx O Q K
      → Error
      → Receiver Q K × Option (Request Bs × Callback O)
      → Client Bs Rx O Q K × Option Error
  unfolding tell
  cancel_next d e (rx, none) = (record d { rx = rx }, some e)
  cancel_next d e (rx, some (req, cb)) =
      (tell (record d { rx = rx }) cb (refused (canceled, some req)), none)

  unfoldable pub still_wanted :
      Client Bs Rx O Q K → Callback O × Poll (Unit {0}) → Client Bs Rx O Q K × Poll Bool
  still_wanted d (cb, ready u) = (record d { callback = some cb }, ready false)
  still_wanted d (cb, pending) = (record d { callback = some cb }, ready true)

  unfoldable pub should_poll : Client Bs Rx O Q K → Bool
  should_poll d = is_none d.callback

module _ {Bs Rx O Q K : Type 0} (o : Oneshot O) (m : Mpsc Q (Envelope (Request Bs) O))
    (t : Taker K) where
  unfoldable pub on_request :
      Client Bs Rx O Q K
      → Option (Receiver Q K × Poll (Option (Request Bs × Callback O)))
      → Option (Client Bs Rx O Q K × Poll (Option (Outgoing Bs)))
  unfolding not_canceled
  on_request d none = none
  on_request d (some (rx, pending)) = some (record d { rx = rx }, pending)
  on_request d (some (rx, ready none)) = some (record d { rx = rx; rx_closed = true }, ready none)
  on_request d (some (rx, ready (some (req, cb)))) =
      some (not_canceled (record d { rx = rx }) req (poll_canceled o cb))

  unfoldable pub poll_msg :
      Client Bs Rx O Q K → Option (Client Bs Rx O Q K × Poll (Option (Outgoing Bs)))
  unfolding on_request
  poll_msg d = on_request d (poll_recv m t d.rx)

  unfoldable pub recv_for :
      Client Bs Rx O Q K → Option (Callback O) → Received Rx → Client Bs Rx O Q K × Option Error
  unfolding tell cancel_next
  recv_for d (some cb) (Parts.received h b) =
      (tell (record d { callback = none }) cb (answered (h, b)), none)
  recv_for d none (Parts.received h b) = (d, some unexpected_message)
  recv_for d (some cb) (broken e) =
      (tell (record d { callback = none }) cb (refused (e, none)), none)
  recv_for d none (broken e) =
      if d.rx_closed
      then (d, some e)
      else cancel_next (record d { rx = Channel.close m t d.rx }) e
          (try_recv m t (Channel.close m t d.rx))

  unfoldable pub recv_msg : Client Bs Rx O Q K → Received Rx → Client Bs Rx O Q K × Option Error
  unfolding recv_for
  recv_msg d r = recv_for d d.callback r

  unfoldable pub poll_ready_for :
      Client Bs Rx O Q K → Option (Callback O) → Client Bs Rx O Q K × Poll Bool
  unfolding still_wanted
  poll_ready_for d (some cb) = still_wanted d (poll_canceled o cb)
  poll_ready_for d none = (d, ready false)

  unfoldable pub poll_ready : Client Bs Rx O Q K → Client Bs Rx O Q K × Poll Bool
  unfolding poll_ready_for
  poll_ready d = poll_ready_for d d.callback

  abbrev pub client : Dispatch (Client Bs Rx O Q K) Bs Rx
  client = record {
    poll_msg = poll_msg;
    recv_msg = recv_msg;
    poll_ready = poll_ready;
    should_poll = should_poll;
  }
