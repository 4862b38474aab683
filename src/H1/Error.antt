-- ===== src/H1/Error.antt =====
-- The errors of src/error.rs that the HTTP/1 connection makes or looks at.
use kaiwaehnero.Base.{Bool, true, false}
use kaiwaehnero.Poll.{ErrorKind}

-- The inner enum `Header`.
pub data HeaderError : Type 0 where
  token content_length_invalid transfer_encoding_invalid transfer_encoding_unexpected : HeaderError

pub data Parse : Type 0 where
  method version version_h2 uri uri_too_long too_large status internal : Parse
  header : HeaderError → Parse

-- `Result<A, Parse>`.
pub data Try {ℓ} (A : Type ℓ) : Type ℓ where
  done : A → Try A
  failed : Parse → Try A

pub data Error : Type 0 where
  parse : Parse → Error
  incomplete_message unexpected_message header_timeout : Error
  io : ErrorKind → Error
  body_write shutdown : ErrorKind → Error
  body : ErrorKind → Error
  user_body_write_aborted user_header user_unsupported_status_code user_service user_body canceled
        closed :
      Error

abbrev pub is_parse : Error → Bool
is_parse (parse _) = true
is_parse _ = false
