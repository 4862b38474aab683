-- ===== src/Examples/Heads.antt =====
-- Message heads, as a server and a client take them.
use kaiwaehnero.Base.{
  ℕ, ◌+◌, ◌%◌, ◌≡◌, refl, ◌⊎◌, Bool, true, false, Option, none, some, Bytes, List, [], ◌∷◌, leb,
  arith, if◌then◌else◌,
}
use kaiwaehnero.Body.{checked_new, zero_length}
use kaiwaehnero.Http.{
  Method, other_method, get, http_11, Header, transfer_encoding, content_length, connection,
  MessageHead, known, unknown, is_informational, is_transfer_encoding, is_content_length, get_all,
}
use kaiwaehnero.Headers.{
  is_chunked, is_chunked_value, values_loop, parts_loop, content_length_parse, from_digits,
  digits_loop, connection_has, connection_keep_alive, connection_close, split, trim,
  eq_ignore_ascii_case, keep_alive_text, close_text, chunked_text, content_length_parse_all_values,
}
use kaiwaehnero.H1.Error.{done}
use kaiwaehnero.H1.Conn.Transport.{ParsedMessage}
use kaiwaehnero.H1.Role.Server.{
  parse_headers, scan_headers, on_header, on_content_length, on_length, finish, next_keep_alive,
  can_have_body,
}
use kaiwaehnero.Headers.Digits.{numeral, below_u64, from_digits-numeral}
use kaiwaehnero.H1.Role.Client.{
  decoder, by_headers, set_length, contains, with_transfer_encoding, without_transfer_encoding,
  set_content_length,
}
use kaiwaehnero.H1.Role.Framing.{Framed, parse_headers-Framed}
use kaiwaehnero.H1.Role.Chunked.{set_length-is_chunked}
use kaiwaehnero.H1.Role.KeepAlive.{parse_headers-keep_alive}
use kaiwaehnero.H1.Role.Sends.{Same, set_length-Same}
use kaiwaehnero.H1.Role.Rules.{decoder-can_have_body, set_length-illegal}

-- Every value is text.
abbrev text : Bytes → Option Bytes
text b = some b

abbrev post : Method
post = other_method (b'P' ∷ b'O' ∷ b'S' ∷ b'T' ∷ [])

abbrev length_lines : List Header
length_lines =
    record { name = content_length; value = b'1' ∷ b'7' ∷ [] }
    ∷ record { name = content_length; value = b'1' ∷ b'7' ∷ [] }
    ∷ []

abbrev post_17 : ParsedMessage
post_17 = record {
  head = record {
    version = http_11;
    status = 0;
    method = post;
    headers = record { name = content_length; value = b'1' ∷ b'7' ∷ [] } ∷ [];
  };
  decode = record { value = 17 };
  expect_continue = false;
  keep_alive = true;
  wants_upgrade = false;
}

post_17-parsed : parse_headers text true post length_lines ≡ done post_17
unfolding parse_headers scan_headers on_header on_content_length on_length content_length_parse
    from_digits checked_new finish
post_17-parsed = refl

parse_headers-Framed_example : Framed text true length_lines (record { value = 17 })
parse_headers-Framed_example =
    parse_headers-Framed text true post length_lines post_17 post_17-parsed

-- "close", and then "keep-alive".
abbrev close_line : List Header
close_line = record { name = connection; value = close_text } ∷ []

abbrev kept : ParsedMessage
kept = record {
  head = record {
    version = http_11;
    status = 0;
    method = post;
    headers =
        record { name = connection; value = close_text }
        ∷ record { name = connection; value = keep_alive_text }
        ∷ [];
  };
  decode = record { value = 0 };
  expect_continue = false;
  keep_alive = true;
  wants_upgrade = false;
}

parse_headers-keep_alive_example : kept.keep_alive ≡ true
unfolding connection_keep_alive connection_close connection_has split trim eq_ignore_ascii_case
    parse_headers scan_headers on_header finish next_keep_alive
parse_headers-keep_alive_example =
    parse_headers-keep_alive text true post close_line keep_alive_text kept refl refl refl

abbrev ok_response : MessageHead
ok_response = record {
  version = http_11;
  status = 204;
  method = get;
  headers = record { name = transfer_encoding; value = chunked_text } ∷ [];
}

decoder-can_have_body_example :
    (can_have_body (some get) 204 ≡ false
      → (decoder text ok_response (some get) ≡ done none × is_informational 204 ≡ true)
        ⊎ ((up : Bool) × decoder text ok_response (some get) ≡ done (some (zero_length, up))))
    × (can_have_body (some get) 204 ≡ true
        → decoder text ok_response (some get) ≡ by_headers text ok_response)
decoder-can_have_body_example = decoder-can_have_body text ok_response (some get)

-- The last digit of a number.
abbrev show : ℕ → Bytes
show n = (b'0' + n % 10) ∷ []

-- "transfer-encoding: chunked" and "content-length: x".
abbrev upload : MessageHead
upload = record {
  version = http_11;
  status = 0;
  method = post;
  headers =
      record { name = transfer_encoding; value = chunked_text }
      ∷ record { name = content_length; value = b'x' ∷ [] }
      ∷ [];
}

set_length-illegal_example :
    contains is_transfer_encoding (set_length text show upload (some unknown)).0 ≡ true
    × get_all is_content_length (set_length text show upload (some unknown)).0
      ≡ get_all is_content_length upload.headers
unfolding content_length_parse_all_values values_loop parts_loop from_digits split trim
set_length-illegal_example = set_length-illegal text show upload unknown refl refl refl

from_digits-numeral_example :
    from_digits (b'4' ∷ b'2' ∷ []) ≡ below_u64 (numeral 0 (b'4' ∷ b'2' ∷ []))
from_digits-numeral_example = from_digits-numeral (b'4' ∷ b'2' ∷ []) (λ h. cc)

-- "transfer-encoding: gzip".
abbrev zipped : MessageHead
zipped = record upload {
  headers = record { name = transfer_encoding; value = b'g' ∷ b'z' ∷ b'i' ∷ b'p' ∷ [] } ∷ [];
}

set_length-is_chunked_example :
    is_chunked text (get_all is_transfer_encoding (set_length text show zipped (some unknown)).0)
    ≡ true
unfolding set_length with_transfer_encoding is_chunked is_chunked_value split trim
    eq_ignore_ascii_case content_length_parse_all_values
set_length-is_chunked_example =
    set_length-is_chunked text show refl (λ v e. refl) zipped unknown refl (λ v e. refl) refl

-- A number of one digit.
abbrev show_digit : ℕ → Bytes
show_digit n = if leb n 9 then (b'0' + n) ∷ [] else []

show_digit-shown : (n k : ℕ) → content_length_parse (show_digit n) ≡ some k → k ≡ n
unfolding content_length_parse from_digits digits_loop
show_digit-shown n k h = ground arith

abbrev plain_upload : MessageHead
plain_upload = record upload { headers = [] }

abbrev upload_7 : ParsedMessage
upload_7 = record post_17 {
  head = record {
    version = http_11;
    status = 0;
    method = post;
    headers = record { name = content_length; value = b'7' ∷ [] } ∷ [];
  };
  decode = record { value = 7 };
}

set_length-Same_example :
    Same (set_length text show_digit plain_upload (some (known 7))).1.kind (record { value = 7 })
unfolding parse_headers scan_headers on_header on_content_length on_length content_length_parse
    from_digits checked_new finish set_length without_transfer_encoding set_content_length
    content_length_parse_all_values values_loop
set_length-Same_example =
    set_length-Same text show_digit (λ v k h. refl) show_digit-shown plain_upload (known 7) post
      upload_7 refl
