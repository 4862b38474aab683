-- ===== src/H1/Role/Responses.antt =====
-- `Client::parse` of src/proto/h1/role.rs, built without ffi. `parse_response` is the parser of `httparse` with its
-- configuration, `is_status` says which numbers `StatusCode::from_u16` takes. Left out: the case of header names. A head of
-- a response has no method: `get` stands there.
use kaiwaehnero.Base.{
  length, ℕ, zero, suc, Bool, false, not, ◌&&◌, Option, none, some, List, [], ◌∷◌, Bytes, drop,
  is_empty, ◌==◌, if◌then◌else◌,
}
use kaiwaehnero.Body.{DecodedLength}
use kaiwaehnero.Http.{
  Method, Version, http_09, http_10, http_11, Header, HeaderName, MessageHead, is_connection,
}
use kaiwaehnero.Http
use kaiwaehnero.H1.Error.{Parse, Try, done, failed}
use kaiwaehnero.H1.Error
use kaiwaehnero.H1.Role.{
  bad_version, from_http, Status, complete, partial, invalid, Response, record_header_indices,
}
use kaiwaehnero.H1.Role.Server.{next_keep_alive}
use kaiwaehnero.H1.Role.Client.{decoder, is_11}
use kaiwaehnero.H1.Conn.Transport.{ParsedMessage}

-- `ParseResult`, with the bytes that are left; `spent` where the fuel is.
pub data Outcome : Type 0 where
  waits : Bytes → Outcome
  fails : Bytes → Parse → Outcome
  parsed : Bytes → ParsedMessage → Outcome
  spent : Outcome

module _ (to_str : Bytes → Option Bytes) (is_status : ℕ → Bool)
    (parse_response : Bytes → Status Response) (h09_responses : Bool)
    (req_method : Option Method) where
  -- The loop over the header lines.
  unfoldable pub keep_alive_of : Bool → List Header → Bool
  unfolding next_keep_alive
  keep_alive_of keep_alive [] = keep_alive
  keep_alive_of keep_alive (h ∷ hs) =
      keep_alive_of
        (if is_connection h.name then next_keep_alive to_str keep_alive h.value else keep_alive) hs

  -- A message that is skipped may have been all that the buffer had.
  unfoldable pub on_decoder :
      Bytes → MessageHead → Try (Option (DecodedLength × Bool)) → (Bytes → Outcome) → Outcome
  unfolding keep_alive_of
  on_decoder rest head (failed e) again = fails rest e
  on_decoder rest head (done none) again = if is_empty rest then waits rest else again rest
  on_decoder rest head (done (some (decode, is_upgrade))) again = parsed rest (record {
    head = head;
    decode = decode;
    expect_continue = false;
    keep_alive = keep_alive_of (is_11 head.version) head.headers && not is_upgrade;
    wants_upgrade = is_upgrade;
  })

  unfoldable pub on_head : Bytes → ℕ → ℕ → Version → List Header → (Bytes → Outcome) → Outcome
  unfolding on_decoder
  on_head buf len status version hs again =
      let head : MessageHead = record {
        version = version;
        status = status;
        method = Http.get;
        headers = hs;
      } in
      on_decoder (drop len buf) head (decoder to_str head req_method) again

  unfoldable pub on_status : Bytes → Status Response → (Bytes → Outcome) → Outcome
  unfolding on_head from_http
  on_status buf (complete len res) again =
      if not (is_status res.code)
      then fails buf Error.status
      else if record_header_indices res.headers
      then on_head buf len res.code (if res.minor == 1 then http_11 else http_10) res.headers again
      else fails buf Error.too_large
  on_status buf partial again = waits buf
  on_status buf (invalid bad_version b) again =
      if h09_responses
      then on_head buf 0 200 http_09 [] again
      else fails buf (from_http bad_version)
  on_status buf (invalid e b) again = fails buf (from_http e)

  unfoldable pub parse_loop : ℕ → Bytes → Outcome
  unfolding on_status
  parse_loop zero buf = spent
  parse_loop (suc fuel) buf = on_status buf (parse_response buf) (parse_loop fuel)

  -- `Client::parse`.
  unfoldable pub parse : Bytes → Outcome
  unfolding parse_loop
  parse buf = parse_loop (suc (length buf)) buf
