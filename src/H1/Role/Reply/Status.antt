-- ===== src/H1/Role/Reply/Status.antt =====
-- `Server::encode` of src/proto/h1/role.rs: the status line, and the answers that are sent in place of a head that
-- hyper cannot send. `status_text` and `reason` are those of the `http` crate's status codes.
use kaiwaehnero.Base.{
  ℕ, Bool, true, false, not, ◌&&◌, Option, none, some, [], ◌∷◌, ◌++◌, Bytes, ◌==◌, if◌then◌else◌,
}
use kaiwaehnero.Http.{
  Version, http_09, http_10, http_11, http_2, HeaderName, MessageHead, is_connect, is_success,
  is_informational,
}
use kaiwaehnero.H1.Error.{Error, user_header, user_unsupported_status_code}
use kaiwaehnero.H1.Encode.{Encoder}
use kaiwaehnero.H1.Role.Client.{is_11}
use kaiwaehnero.H1.Role.Reply.{Response, crlf, encode_headers}

-- What `Server::encode` leaves in `dst` and gives back.
pub data Encoding : Type 0 where
  done : Bytes → Encoder → Encoding
  refused : Bytes → Error → Encoding
  panics : Encoding

module _ (to_str : Bytes → Option Bytes) (name : HeaderName → Bytes) (show : ℕ → Bytes)
    (date_value : Bytes) (status_text reason : ℕ → Bytes) where
  abbrev http1 : ℕ → Bytes
  http1 minor = b'H' ∷ b'T' ∷ b'T' ∷ b'P' ∷ b'/' ∷ b'1' ∷ b'.' ∷ minor ∷ 32 ∷ []

  unfoldable pub version_text : Version → Option Bytes
  version_text http_10 = some (http1 b'0')
  version_text http_11 = some (http1 b'1')
  version_text http_2 = some (http1 b'1')
  version_text http_09 = none

  unfoldable pub status_line : MessageHead → Option Bytes
  unfolding version_text
  status_line h =
      if is_11 h.version && (h.status == 200)
      then some (http1 b'1' ++ (b'2' ∷ b'0' ∷ b'0' ∷ 32 ∷ b'O' ∷ b'K' ∷ crlf))
      else elim (version_text h.version) [
        | none ↦ none
        | some v ↦ some (v ++ (status_text h.status ++ (32 ∷ (reason h.status ++ crlf))))
      ]

  -- A response head of status 500 in place of one that hyper cannot send.
  abbrev instead : Response → Response
  instead r = record r {
    head = record r.head { version = http_11; status = 500; headers = [] };
    body = none;
  }

  unfoldable pub with_head : Response → Bytes → Bool → Bool → Option Error → Encoding
  unfolding status_line
  with_head r dst is_last wrote_len e = elim (status_line r.head) [
    | none ↦ panics
    | some line ↦
        elim (encode_headers to_str name r show date_value (dst ++ line) is_last wrote_len) [
          | none ↦ refused dst user_header
          | some (dst', enc) ↦ elim e [ none ↦ done dst' enc | some x ↦ refused dst' x ]
        ]
  ]

  -- `Server::encode`.
  unfoldable pub encode : Response → Bytes → Encoding
  unfolding with_head
  encode r dst =
      if r.head.status == 101
      then with_head r dst true false none
      else if is_connect r.req_method && is_success r.head.status
      then with_head r dst true true none
      else if is_informational r.head.status
      then with_head (instead r) dst true false (some user_unsupported_status_code)
      else with_head r dst (not r.keep_alive) false none
