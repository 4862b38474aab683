-- ===== src/H1/Role.antt =====
-- src/proto/h1/role.rs: what a server and a client make of a message head.
pub mod Server
pub mod Client
pub mod Framing
pub mod KeepAlive
pub mod Chunked
pub mod Rules
pub mod Reply
pub mod Responses
pub mod Skipping
pub mod Sends
use kaiwaehnero.Base.{
  ℕ, ◌^◌, Bool, true, false, Bytes, List, [], ◌∷◌, Option, length, leb, if◌then◌else◌,
}
use kaiwaehnero.Http.{Header, HeaderName, other_header}
use kaiwaehnero.H1.Error.{Parse, method, version, uri, too_large, status, header, token}
use kaiwaehnero.H1.Error

abbrev name_length : HeaderName → ℕ
name_length (other_header name) = length name
name_length _ = 0

-- `httparse::Error`.
pub data HttpError : Type 0 where
  header_name header_value new_line bad_status bad_token too_many_headers bad_version : HttpError

-- `impl From<httparse::Error> for Parse`.
unfoldable pub from_http : HttpError → Parse
from_http header_name = header token
from_http header_value = header token
from_http new_line = header token
from_http bad_token = header token
from_http bad_status = status
from_http too_many_headers = too_large
from_http bad_version = version

-- What `httparse` makes of a buffer: a message that takes `len` bytes of it, too few bytes, or an
-- error, with what was read by then.
pub data Status (R : Type 0) : Type 0 where
  complete : ℕ → R → Status R
  partial : Status R
  invalid : HttpError → Bool → Status R

pub record Request : Type 0 where
  pub method : Bytes
  pub path : Bytes
  pub minor : ℕ
  pub headers : List Header

pub record Response : Type 0 where
  pub code : ℕ
  pub minor : ℕ
  pub headers : List Header

-- `record_header_indices`: whether no header's name is too long. The other names are shorter.
unfoldable pub record_header_indices : List Header → Bool
record_header_indices [] = true
record_header_indices (h ∷ hs) =
    if leb (2 ^ 16) (name_length h.name) then false else record_header_indices hs
