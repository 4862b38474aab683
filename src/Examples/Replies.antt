-- ===== src/Examples/Replies.antt =====
-- Responses that a server writes.
use kaiwaehnero.Base.{◌%◌, ◌+◌, ℕ, ◌≡◌, refl, true, false, Option, some, Bytes, List, [], ◌∷◌, ◌++◌}
use kaiwaehnero.Http.{
  get, http_11, Header, HeaderName, transfer_encoding, content_length, connection, date, expect,
  upgrade, other_header, unknown,
}
use kaiwaehnero.Headers.{
  trim, connection_has, split, connection_close, eq_ignore_ascii_case, close_text, chunked_text,
  is_chunked_value,
}
use kaiwaehnero.Headers.Split.{IsToStr}
use kaiwaehnero.H1.Encode
use kaiwaehnero.H1.Role.Server.{can_have_body, can_chunked}
use kaiwaehnero.H1.Role.Reply.{
  Response, encode_headers, write_headers, drain, start, crlf, colon, comma,
}
use kaiwaehnero.H1.Role.Reply.Lines.{line}
use kaiwaehnero.H1.Role.Reply.Announce.{Head}
use kaiwaehnero.H1.Role.Reply.Agree.{encode_headers-Head}
use kaiwaehnero.H1.Role.Reply.Connection.{
  written, encoding_and_connection, write_headers-connection,
}

abbrev text : Bytes → Option Bytes
text b = some b

text-IsToStr : IsToStr text
text-IsToStr = record {
  joined = λ a b p q. refl;
  prefix = λ a b p. refl;
  comma = refl;
  chunked = refl;
}

-- Short names for the headers.
abbrev short : HeaderName → Bytes
short transfer_encoding = b't' ∷ []
short content_length = b'l' ∷ []
short connection = b'c' ∷ []
short date = b'd' ∷ []
short expect = b'e' ∷ []
short upgrade = b'u' ∷ []
short (other_header x) = x

abbrev digit : ℕ → Bytes
digit n = (b'0' + n % 10) ∷ []

abbrev reply : Response
reply = record {
  head = record {
    version = http_11;
    status = 200;
    method = get;
    headers = record { name = connection; value = close_text } ∷ [];
  };
  body = some unknown;
  keep_alive = true;
  req_method = some get;
}

abbrev sent : Bytes
sent =
    (b'c' ∷ colon)
    ++ close_text
    ++ crlf
    ++ (b't' ∷ colon)
    ++ chunked_text
    ++ crlf
    ++ (b'd' ∷ colon)
    ++ (b'0' ∷ [])
    ++ crlf
    ++ crlf

reply-sent :
    encode_headers text short reply digit (b'0' ∷ []) [] false false
    ≡ some (sent, record { kind = Encode.Kind.chunked; is_last = true })
unfolding encode_headers write_headers drain can_have_body Encode.set_last can_chunked Encode.new
    connection_close connection_has split eq_ignore_ascii_case trim
reply-sent = refl

can_reply : can_chunked (some get) 200 ≡ true
unfolding can_chunked
can_reply = refl

encode_headers-Head_example :
    (hs : List Header) × Head text short reply [] sent Encode.Kind.chunked hs
encode_headers-Head_example =
    encode_headers-Head text text-IsToStr short digit reply (λ n h. cc) (λ v n h. refl) (b'0' ∷ [])
      [] can_reply false sent (record { kind = Encode.Kind.chunked; is_last = true })
      ((record { length = λ h. cc; text = λ h. cc }), tt) reply-sent

abbrev gzip : Bytes
gzip = b'g' ∷ b'z' ∷ b'i' ∷ b'p' ∷ []

gzip_not_chunked : is_chunked_value text gzip ≡ false
unfolding is_chunked_value split eq_ignore_ascii_case trim
gzip_not_chunked = refl

write_headers-connection_example :
    written text short reply (
      write_headers text short reply
        (drain (encoding_and_connection text short digit (b'0' ∷ []) reply [] gzip close_text true))
        (start text short reply digit (b'0' ∷ []) [] true false))
    ≡ some (
        []
        ++ (line text short reply
              (record { name = transfer_encoding; value = gzip ++ (comma ++ chunked_text) })
            ++ line text short reply
                (record { name = connection; value = close_text ++ (comma ++ chunked_text) })))
write_headers-connection_example =
    write_headers-connection text short digit (b'0' ∷ []) reply [] gzip close_text true
      gzip_not_chunked refl can_reply
