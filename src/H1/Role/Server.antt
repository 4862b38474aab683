-- ===== src/H1/Role/Server.antt =====
-- The server's half of src/proto/h1/role.rs: `Server::parse`, and what the status and the request's
-- method allow of a response. Left out: the case of header names and the URI's value. `parse_request` is
-- the parser of `httparse`; `to_str`, `parse_method` and `is_uri` are functions of the `http` crate.
use kaiwaehnero.Base.{
  ℕ, Bool, true, false, not, ◌&&◌, ◌||◌, Option, none, some, List, [], ◌∷◌, ◌++◌, Bytes, drop,
  length, ltb, ◌==◌, if◌then◌else◌,
}
use kaiwaehnero.Body.{DecodedLength, checked_new, chunked, zero_length}
use kaiwaehnero.Http.{
  Method, http_10, http_11, Header, HeaderName, transfer_encoding, content_length, connection,
  expect, upgrade, is_head, is_connect, is_informational, is_success,
}
use kaiwaehnero.Headers.{
  content_length_parse, connection_close, connection_keep_alive, is_chunked_value,
  eq_ignore_ascii_case,
}
use kaiwaehnero.H1.Error.{
  Parse, Error, Try, done, failed, header, content_length_invalid, transfer_encoding_invalid,
  transfer_encoding_unexpected, uri_too_long, too_large,
}
use kaiwaehnero.H1.Error
use kaiwaehnero.H1.Role.{
  Status, complete, partial, invalid, Request, bad_token, from_http, record_header_indices,
}
use kaiwaehnero.H1.Conn.Transport.{ParsedMessage}

abbrev pub max_uri_len : ℕ
max_uri_len = 65534

-- The variables of the loop over the header lines.
pub record Scan : Type 0 where
  pub decoder : DecodedLength
  pub expect_continue : Bool
  pub con_len : Option ℕ
  pub is_te : Bool
  pub is_te_chunked : Bool
  pub wants_upgrade : Bool
  pub keep_alive : Bool
  pub headers : List Header

abbrev hundred_continue : Bytes
hundred_continue =
    b'1' ∷ b'0' ∷ b'0' ∷ b'-' ∷ b'c' ∷ b'o' ∷ b'n' ∷ b't' ∷ b'i' ∷ b'n' ∷ b'u' ∷ b'e' ∷ []

-- `headers.append(name, value)`.
abbrev pub append : Header → Scan → Scan
append h s = record s { headers = s.headers ++ h ∷ [] }

module _ (to_str : Bytes → Option Bytes) where
  unfoldable pub on_transfer_encoding : Bool → Header → Scan → Try Scan
  on_transfer_encoding is_http_11 h s =
      if not is_http_11
      then failed (header transfer_encoding_unexpected)
      else done (
          append h (
            if is_chunked_value to_str h.value
            then record s { is_te = true; is_te_chunked = true; decoder = chunked }
            else record s { is_te = true; is_te_chunked = false }))

  -- The first length is taken, another one must be the same.
  unfoldable pub on_length : Header → Scan → Option ℕ → Try Scan
  on_length h s none = failed (header content_length_invalid)
  on_length h s (some len) = elim s.con_len [
    | some prev ↦ if not (prev == len) then failed (header content_length_invalid) else done s
    | none ↦ elim (checked_new len) [
      | none ↦ failed too_large
      | some d ↦ done (append h (record s { decoder = d; con_len = some len }))
    ]
  ]

  unfoldable pub on_content_length : Header → Scan → Try Scan
  unfolding on_length
  on_content_length h s = if s.is_te then done s else on_length h s (content_length_parse h.value)

  unfoldable pub next_keep_alive : Bool → Bytes → Bool
  next_keep_alive keep_alive value =
      if keep_alive then not (connection_close to_str value) else connection_keep_alive to_str value

  unfoldable pub on_header : Bool → HeaderName → Header → Scan → Try Scan
  unfolding on_transfer_encoding on_content_length next_keep_alive
  on_header is_http_11 transfer_encoding h s = on_transfer_encoding is_http_11 h s
  on_header is_http_11 content_length h s = on_content_length h s
  on_header is_http_11 connection h s =
      done (append h (record s { keep_alive = next_keep_alive s.keep_alive h.value }))
  on_header is_http_11 expect h s =
      done (append h (record s { expect_continue = eq_ignore_ascii_case h.value hundred_continue }))
  on_header is_http_11 upgrade h s = done (append h (record s { wants_upgrade = is_http_11 }))
  on_header is_http_11 _ h s = done (append h s)

  -- `for header in &headers_indices[..headers_len]`.
  unfoldable pub scan_headers : Bool → List Header → Scan → Try Scan
  unfolding on_header
  scan_headers is_http_11 [] s = done s
  scan_headers is_http_11 (h ∷ hs) s = elim (on_header is_http_11 h.name h s) [
    | failed e ↦ failed e
    | done s' ↦ scan_headers is_http_11 hs s'
  ]

  abbrev pub start : Bool → Method → Scan
  start is_http_11 m = record {
    decoder = zero_length;
    expect_continue = false;
    con_len = none;
    is_te = false;
    is_te_chunked = false;
    wants_upgrade = is_connect (some m);
    keep_alive = is_http_11;
    headers = [];
  }

  unfoldable pub finish : Method → Bool → Scan → Try ParsedMessage
  finish m is_http_11 s =
      if s.is_te && not s.is_te_chunked
      then failed (header transfer_encoding_invalid)
      else done (record {
        head = record {
          version = if is_http_11 then http_11 else http_10;
          status = 0;
          method = m;
          headers = s.headers;
        };
        decode = s.decoder;
        expect_continue = s.expect_continue;
        keep_alive = s.keep_alive;
        wants_upgrade = s.wants_upgrade;
      })

  unfoldable pub parse_headers : Bool → Method → List Header → Try ParsedMessage
  unfolding finish
  parse_headers is_http_11 m hs = elim (scan_headers is_http_11 hs (start is_http_11 m)) [
    | failed e ↦ failed e
    | done s ↦ finish m is_http_11 s
  ]

  module _ (parse_request : Bytes → Status Request) (parse_method : Bytes → Option Method)
      (is_uri : Bytes → Bool) where
    -- The subject of the head; `from_bytes` and `uri.parse` give their own errors.
    unfoldable pub subject : Request → Try Method
    subject req =
        if ltb max_uri_len (length req.path)
        then failed uri_too_long
        else elim (parse_method req.method) [
          | none ↦ failed Error.method
          | some m ↦ if is_uri req.path then done m else failed Error.uri
        ]

    unfoldable pub on_request : Bytes → ℕ → Request → Try (Option (Bytes × ParsedMessage))
    unfolding subject
    on_request buf len req = elim (subject req) [
      | failed e ↦ failed e
      | done m ↦
          if record_header_indices req.headers
          then elim (parse_headers (req.minor == 1) m req.headers) [
            | failed e ↦ failed e
            | done msg ↦ done (some (drop len buf, msg))
          ]
          else failed too_large
    ]

    -- `Server::parse`: the bytes left and the message, or `none` for a message that is not all there.
    unfoldable pub parse : Bytes → Try (Option (Bytes × ParsedMessage))
    unfolding on_request
    parse buf = elim (parse_request buf) [
      | partial ↦ done none
      | invalid bad_token no_method ↦ failed (if no_method then Error.method else Error.uri)
      | invalid e _ ↦ failed (from_http e)
      | complete len req ↦ on_request buf len req
    ]

-- `Server::on_error`: the status of the answer.
unfoldable pub on_error : Error → Option ℕ
on_error (Error.parse Error.method) = some 400
on_error (Error.parse (header _)) = some 400
on_error (Error.parse Error.uri) = some 400
on_error (Error.parse Error.version) = some 400
on_error (Error.parse too_large) = some 431
on_error (Error.parse uri_too_long) = some 414
on_error _ = none

unfoldable pub can_chunked : Option Method → ℕ → Bool
can_chunked m status =
    if is_head m || (is_connect m && is_success status)
    then false
    else if is_informational status
    then false
    else not ((status == 204) || (status == 304))

unfoldable pub can_have_body : Option Method → ℕ → Bool
can_have_body m status = can_chunked m status

unfoldable pub can_have_content_length : Option Method → ℕ → Bool
can_have_content_length m status =
    if is_informational status || (is_connect m && is_success status)
    then false
    else not ((status == 204) || (status == 304))
