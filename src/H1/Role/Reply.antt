-- ===== src/H1/Role/Reply.antt =====
-- The server's half of src/proto/h1/role.rs that writes: `Server::encode_headers`, which writes a response's
-- headers and says how its body goes. Header names are written by `name`, as a writer without memory does
-- (`LowercaseWriter`). `show` is `itoa`, `date_value` what `date::extend` writes.
pub mod Lines
pub mod Step
pub mod Length
pub mod Coding
pub mod Loop
pub mod Announce
pub mod Agree
pub mod Connection
pub mod Status
use kaiwaehnero.Base.{
  ℕ, ◌≡◌, Bool, true, false, not, ◌&&◌, ◌||◌, Option, none, some, List, [], ◌∷◌, ◌++◌, Bytes, ◌==◌,
  if◌then◌else◌,
}
use kaiwaehnero.Http.{
  Method, Version, http_09, http_10, http_11, http_2, Header, HeaderName, transfer_encoding,
  content_length, connection, expect, upgrade, date, other_header, MessageHead, BodyLength, known,
  unknown, is_head, is_connect, is_success, is_informational,
}
use kaiwaehnero.Headers.{
  content_length_parse, connection_close, is_chunked_value, chunked_text, bytes_eq,
}
use kaiwaehnero.H1.Error.{Error, user_header, user_unsupported_status_code}
use kaiwaehnero.H1.Encode.{Encoder, set_last}
use kaiwaehnero.H1.Encode
use kaiwaehnero.H1.Role.Server.{can_chunked, can_have_body, can_have_content_length}
use kaiwaehnero.H1.Role.Client.{is_10, is_11}

-- The struct `Encode`.
pub record Response : Type 0 where
  pub head : MessageHead
  pub body : Option BodyLength
  pub keep_alive : Bool
  pub req_method : Option Method

-- The variables of the loop over the headers.
pub record Scribe : Type 0 where
  pub dst : Bytes
  pub encoder : Encoder
  pub wrote_len : Bool
  pub wrote_date : Bool
  pub cur_name : Option HeaderName
  pub is_name_written : Bool
  pub must_write_chunked : Bool
  pub prev_con_len : Option ℕ
  pub is_last : Bool

abbrev pub crlf : Bytes
crlf = 13 ∷ 10 ∷ []

abbrev pub colon : Bytes
colon = b':' ∷ 32 ∷ []

abbrev pub comma : Bytes
comma = b',' ∷ 32 ∷ []

abbrev pub same_name : HeaderName → HeaderName → Bool
same_name transfer_encoding transfer_encoding = true
same_name content_length content_length = true
same_name connection connection = true
same_name expect expect = true
same_name upgrade upgrade = true
same_name date date = true
same_name (other_header a) (other_header b) = bytes_eq a b
same_name _ _ = false

abbrev pub is_new : Option HeaderName → HeaderName → Bool
is_new none n = true
is_new (some m) n = not (same_name m n)

-- `HeaderMap::drain`: a name comes with the first of its values only.
unfoldable pub drain_from : Option HeaderName → List Header → List (Option HeaderName × Bytes)
drain_from m [] = []
drain_from m (h ∷ hs) =
    ((if is_new m h.name then some h.name else none), h.value) ∷ drain_from (some h.name) hs

unfoldable pub drain : List Header → List (Option HeaderName × Bytes)
unfolding drain_from
drain hs = drain_from none hs

module _ (to_str : Bytes → Option Bytes) (name : HeaderName → Bytes) (r : Response) where
  -- `write_header_name_with_colon`, and the value.
  unfoldable pub begin_line : HeaderName → Bytes → Scribe → Scribe
  begin_line n v s = record s { dst = s.dst ++ (name n ++ (colon ++ v)); is_name_written = true }

  unfoldable pub add_value : Bytes → Scribe → Scribe
  add_value v s = record s { dst = s.dst ++ (comma ++ v) }

  unfoldable pub plain_line : HeaderName → Bytes → Scribe → Scribe
  plain_line n v s = record s { dst = s.dst ++ (name n ++ (colon ++ (v ++ crlf))) }

  -- `handle_is_name_written!`.
  unfoldable pub end_line : Scribe → Scribe
  end_line s =
      if s.is_name_written
      then record s {
        dst = s.dst ++ (if s.must_write_chunked then comma ++ (chunked_text ++ crlf) else crlf);
      }
      else s

  unfoldable pub parsed_length : Bytes → Scribe → Option ℕ → Option Scribe
  unfolding begin_line
  parsed_length v s none = none
  parsed_length v s (some len) = elim s.prev_con_len [
    | some prev ↦ if not (prev == len) then none else some s
    | none ↦ some (record (begin_line content_length v s) {
      encoder = Encode.new (Encode.Kind.length_of len);
      wrote_len = true;
      prev_con_len = some len;
    })
  ]

  -- `header::CONTENT_LENGTH`, by the body. `none` is the error that cancels what was written.
  unfoldable pub length_line : Option BodyLength → Bytes → Scribe → Option Scribe
  unfolding parsed_length begin_line plain_line
  length_line (some (known n)) v s =
      if s.is_name_written
      then some s
      else some (record (begin_line content_length v s) {
        encoder = Encode.new (Encode.Kind.length_of n);
        wrote_len = true;
      })
  length_line (some unknown) v s = parsed_length v s (content_length_parse v)
  length_line none v s =
      if is_head r.req_method
      then some (plain_line content_length v (record s { wrote_len = true }))
      else some s

  unfoldable pub on_length : Bytes → Scribe → Option Scribe
  unfolding length_line
  on_length v s = if s.wrote_len && not s.is_name_written then none else length_line r.body v s

  unfoldable pub on_encoding : Bytes → Scribe → Option Scribe
  unfolding begin_line add_value
  on_encoding v s =
      if s.wrote_len && not s.is_name_written
      then none
      else if is_10 r.head.version || not (can_chunked r.req_method r.head.status)
      then some s
      else (let s' = record s {
        wrote_len = true;
        must_write_chunked = not (is_chunked_value to_str v);
      } in
          some (
            if s.is_name_written
            then add_value v s'
            else begin_line transfer_encoding v
                (record s' { encoder = Encode.new Encode.Kind.chunked })))

  unfoldable pub on_connection : Bytes → Scribe → Scribe
  unfolding begin_line add_value
  on_connection v s =
      let s' = record s {
        is_last = if not s.is_last && connection_close to_str v then true else s.is_last;
      } in
      if s.is_name_written then add_value v s' else begin_line connection v s'

  unfoldable pub on_value : HeaderName → Bytes → Scribe → Option Scribe
  unfolding on_length on_encoding on_connection plain_line
  on_value content_length v s = on_length v s
  on_value transfer_encoding v s = on_encoding v s
  on_value connection v s = some (on_connection v s)
  on_value date v s = some (plain_line date v (record s { wrote_date = true }))
  on_value n v s = some (plain_line n v s)

  -- A new name ends the line before it.
  unfoldable pub new_name : Option HeaderName → Scribe → Scribe
  unfolding end_line
  new_name none s = s
  new_name (some n) s = record (end_line s) { cur_name = some n; is_name_written = false }

  -- `cur_name.as_ref().expect(..)`: the first value has its name.
  unfoldable pub on_current : Option HeaderName → Bytes → Scribe → Option Scribe
  unfolding on_value
  on_current none v s = none
  on_current (some n) v s = on_value n v s

  unfoldable pub on_entry : Option HeaderName → Bytes → Scribe → Option Scribe
  unfolding new_name on_current
  on_entry n v s = let s' = new_name n s in on_current s'.cur_name v s'

  -- `'headers: for (opt_name, value) in msg.head.headers.drain()`.
  unfoldable pub write_headers : List (Option HeaderName × Bytes) → Scribe → Option Scribe
  unfolding on_entry
  write_headers [] s = some s
  write_headers ((n, v) ∷ es) s = elim (on_entry n v s) [
    | none ↦ none
    | some s' ↦ write_headers es s'
  ]

  module _ (show : ℕ → Bytes) (date_value : Bytes) where
    -- Where no header gave the length.
    unfoldable pub own_length : Option BodyLength → Scribe → Scribe
    unfolding plain_line
    own_length (some unknown) s =
        if is_10 r.head.version || not (can_chunked r.req_method r.head.status)
        then record s { encoder = Encode.new Encode.Kind.close_delimited }
        else record (plain_line transfer_encoding chunked_text s) {
          encoder = Encode.new Encode.Kind.chunked;
        }
    own_length (some (known n)) s =
        if n == 0
        then record (if can_have_content_length r.req_method r.head.status
            then plain_line content_length (b'0' ∷ []) s
            else s) { encoder = Encode.new (Encode.Kind.length_of 0) }
        else if not (can_have_content_length r.req_method r.head.status)
        then record s { encoder = Encode.new (Encode.Kind.length_of 0) }
        else record (plain_line content_length (show n) s) {
          encoder = Encode.new (Encode.Kind.length_of n);
        }
    own_length none s =
        record (if can_have_content_length r.req_method r.head.status
          then plain_line content_length (b'0' ∷ []) s
          else s) { encoder = Encode.new (Encode.Kind.length_of 0) }

    unfoldable pub force_empty : Scribe → Scribe
    force_empty s =
        if not (can_have_body r.req_method r.head.status)
        then record s { encoder = Encode.new (Encode.Kind.length_of 0) }
        else s

    unfoldable pub end_head : Scribe → Bytes
    end_head s =
        if not s.wrote_date
        then s.dst ++ (name date ++ (colon ++ (date_value ++ (crlf ++ crlf))))
        else s.dst ++ crlf

    unfoldable pub after_headers : Scribe → Bytes × Encoder
    unfolding own_length force_empty end_head
    after_headers s =
        let s1 = end_line s in
        let s2 = if not s1.wrote_len then own_length r.body s1 else s1 in
        let s3 = force_empty s2 in (end_head s3, set_last s3.encoder s3.is_last)

    abbrev pub start : Bytes → Bool → Bool → Scribe
    start dst is_last wrote_len = record {
      dst = dst;
      encoder = Encode.new (Encode.Kind.length_of 0);
      wrote_len = wrote_len;
      wrote_date = false;
      cur_name = none;
      is_name_written = false;
      must_write_chunked = false;
      prev_con_len = none;
      is_last = is_last;
    }

    -- `Server::encode_headers`.
    unfoldable pub encode_headers : Bytes → Bool → Bool → Option (Bytes × Encoder)
    unfolding after_headers
    encode_headers dst is_last wrote_len =
        elim (write_headers (drain r.head.headers) (start dst is_last wrote_len)) [
          | none ↦ none
          | some s ↦ some (after_headers s)
        ]
