-- ===== src/H1/Dispatch/Server.antt =====
-- `impl Dispatch for Server` of src/proto/h1/dispatch.rs, over the user's service and its futures.
use kaiwaehnero.Base.{Bool, Option, none, some, is_some}
use kaiwaehnero.Poll.{Poll, pending, ready}
use kaiwaehnero.Http.{MessageHead}
use kaiwaehnero.H1.Error.{Error}
use kaiwaehnero.H1.Dispatch.Parts.{
  Outgoing, message, user_error, Received, received, broken, Dispatch,
}

-- The trait `HttpService` and its future. A response is `none` where the service fails.
pub record HttpService (S F Bs Rx : Type 0) : Type 0 where
  pub poll_ready : S → S × Poll Bool
  pub call : S → MessageHead × Rx → S × F
  pub poll : F → F × Poll (Option (MessageHead × Bs))

pub record Server (S F : Type 0) : Type 0 where
  pub in_flight : Option F
  pub service : S

module _ {S F Bs Rx : Type 0} (s : HttpService S F Bs Rx) where
  unfoldable pub on_response :
      Server S F → F × Poll (Option (MessageHead × Bs)) → Server S F × Poll (Option (Outgoing Bs))
  on_response d (f, pending) = (record d { in_flight = some f }, pending)
  on_response d (f, ready none) = (record d { in_flight = some f }, ready (some user_error))
  on_response d (f, ready (some (h, b))) =
      (record d { in_flight = none }, ready (some (message h b)))

  -- With nothing in flight the call panics.
  unfoldable pub poll_msg_for :
      Server S F → Option F → Option (Server S F × Poll (Option (Outgoing Bs)))
  unfolding on_response
  poll_msg_for d none = none
  poll_msg_for d (some f) = some (on_response d (s.poll f))

  unfoldable pub poll_msg : Server S F → Option (Server S F × Poll (Option (Outgoing Bs)))
  unfolding poll_msg_for
  poll_msg d = poll_msg_for d d.in_flight

  unfoldable pub recv_msg : Server S F → Received Rx → Server S F × Option Error
  recv_msg d (broken e) = (d, some e)
  recv_msg d (received h b) =
      let (v, f) = s.call d.service (h, b) in (record { in_flight = some f; service = v }, none)

  unfoldable pub poll_ready_for : Server S F → Option F → Server S F × Poll Bool
  poll_ready_for d (some f) = (d, pending)
  poll_ready_for d none = let (v, r) = s.poll_ready d.service in (record d { service = v }, r)

  unfoldable pub poll_ready : Server S F → Server S F × Poll Bool
  unfolding poll_ready_for
  poll_ready d = poll_ready_for d d.in_flight

  unfoldable pub should_poll : Server S F → Bool
  should_poll d = is_some d.in_flight

  abbrev pub server : Dispatch (Server S F) Bs Rx
  server = record {
    poll_msg = poll_msg;
    recv_msg = recv_msg;
    poll_ready = poll_ready;
    should_poll = should_poll;
  }
