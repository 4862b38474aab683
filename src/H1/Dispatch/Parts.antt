-- ===== src/H1/Dispatch/Parts.antt =====
-- The parts of src/proto/h1/dispatch.rs: the trait `Dispatch`, and what a dispatcher asks of a body that it reads, of one
-- that it writes and of the connection's transport.
use kaiwaehnero.Base.{ℕ, Bool, Option, List, Bytes}
use kaiwaehnero.Poll.{Poll}
use kaiwaehnero.Http.{MessageHead}
use kaiwaehnero.Body.{DecodedLength}
use kaiwaehnero.H1.Error.{Error}
use kaiwaehnero.H1.Conn.State.{Role}
use kaiwaehnero.H1.Conn.Transport.{Transport}
use kaiwaehnero.H1.Conn.Write.{Conn}

-- `Result<(PollItem, PollBody), PollError>`.
pub data Outgoing (Bs : Type 0) : Type 0 where
  message : MessageHead → Bs → Outgoing Bs
  user_error : Outgoing Bs

-- `crate::Result<(RecvItem, Body)>`.
pub data Received (Rx : Type 0) : Type 0 where
  received : MessageHead → Rx → Received Rx
  broken : Error → Received Rx

-- The trait `Dispatch`. `poll_msg` may panic, which is `none`; `poll_ready` is `Poll<Result<(), ()>>`.
pub record Dispatch (D Bs Rx : Type 0) : Type 0 where
  pub poll_msg : D → Option (D × Poll (Option (Outgoing Bs)))
  pub recv_msg : D → Received Rx → D × Option Error
  pub poll_ready : D → D × Poll Bool
  pub should_poll : D → Bool

-- The two ends of a body that is read; `poll_ready` may panic, which is `none`. What the other task does with its end shows in the answers.
pub record BodyChannel (Tx Rx : Type 0) : Type 0 where
  pub empty : Rx
  pub new_channel : DecodedLength → Bool → Tx × Rx
  pub poll_ready : Tx → Option (Tx × Poll Bool)
  pub try_send_data : Tx → Bytes → Tx × Bool
  pub send_error : Tx → Error → Tx

-- The trait `HttpBody` of a body that is written, with `take_full_data`. A chunk is `none` where it is an error.
pub record HttpBody (Bs : Type 0) : Type 0 where
  pub take_full_data : Bs → Bs × Option Bytes
  pub is_end_stream : Bs → Bool
  pub exact : Bs → Option ℕ
  pub poll_data : Bs → Bs × Poll (Option (Option Bytes))

pub record Parts (I D Bs Tx Rx : Type 0) : Type 0 where
  pub transport : Transport I
  pub role : Role
  pub dispatch : Dispatch D Bs Rx
  pub channel : BodyChannel Tx Rx
  pub http_body : HttpBody Bs

-- The struct `Dispatcher`. `gone` are the senders that were dropped, which no code reads.
pub record Dispatcher (I D Bs Tx : Type 0) : Type 0 where
  pub conn : Conn I
  pub dispatch : D
  pub body_tx : Option Tx
  pub body_rx : Option Bs
  pub is_closing : Bool
  pub gone : List Tx

-- What a call does: it returns, panics, or has not ended when the fuel is spent.
pub data Run (I D Bs Tx A : Type 0) : Type 0 where
  returns : Dispatcher I D Bs Tx → A → Run I D Bs Tx A
  panics : Run I D Bs Tx A
  spent : Dispatcher I D Bs Tx → Run I D Bs Tx A
