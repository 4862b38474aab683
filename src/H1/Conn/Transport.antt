-- ===== src/H1/Conn/Transport.antt =====
-- What src/proto/h1/conn.rs asks of the parts below it: the buffered I/O (src/proto/h1/io.rs), the
-- body decoder (src/proto/h1/decode.rs) and the role's parser and header encoder
-- (src/proto/h1/role.rs). A component of a connection takes it as an argument.
use kaiwaehnero.Base.{ℕ, Bool, Option, Bytes}
use kaiwaehnero.Poll.{Poll, Result}
use kaiwaehnero.Http.{Method, MessageHead, BodyLength}
use kaiwaehnero.Body.{DecodedLength}
use kaiwaehnero.H1.Error.{Error}
use kaiwaehnero.H1.Decode
use kaiwaehnero.H1.Encode

-- `ParsedMessage`.
pub record ParsedMessage : Type 0 where
  pub head : MessageHead
  pub decode : DecodedLength
  pub expect_continue : Bool
  pub keep_alive : Bool
  pub wants_upgrade : Bool

pub data Parsed : Type 0 where
  message : ParsedMessage → Parsed
  failed : Error → Parsed

pub data Encoded : Type 0 where
  encoded : Encode.Encoder → Encoded
  refused : Error → Encoded

pub record Transport (I : Type 0) : Type 0 where
  pub parse : I → Option Method → Bool → I × Option Method × Poll Parsed
  pub decode : I → Decode.Kind → I × Decode.Kind × Poll (Result Bytes)
  pub poll_read_from_io : I → I × Poll (Result ℕ)
  pub read_buf : I → Bytes
  pub is_read_blocked : I → Bool
  pub consume_leading_lines : I → I
  pub can_headers_buf : I → Bool
  pub extend_headers : I → Bytes → I
  pub encode_headers :
      I → MessageHead → Option BodyLength → Bool → Option Method → I × Option Method × Encoded
  pub buffer : I → Encode.EncodedBuf → I
  pub can_buffer : I → Bool
  pub poll_flush : I → I × Poll (Result (Unit {0}))
  pub poll_shutdown : I → I × Poll (Result (Unit {0}))
  pub on_error : Error → Option MessageHead
  pub connection_keep_alive : Bytes → Bool
