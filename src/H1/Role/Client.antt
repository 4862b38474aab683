-- ===== src/H1/Role/Client.antt =====
-- The client's half of src/proto/h1/role.rs: the length of a response's body, and what a request's head
-- says of its own. `show` is `HeaderValue::from` on a number.
use kaiwaehnero.Base.{
  ℕ, Bool, true, false, not, ◌&&◌, ◌||◌, Option, none, some, List, [], ◌∷◌, ◌++◌, Bytes, is_empty,
  is_some, leb, ◌==◌, if◌then◌else◌,
}
use kaiwaehnero.Body.{DecodedLength, checked_new, chunked, close_delimited, zero_length}
use kaiwaehnero.Http.{
  Method, get, head, connect, Version, http_10, http_11, Header, HeaderName, transfer_encoding,
  content_length, MessageHead, BodyLength, known, unknown, is_head, is_connect, is_success,
  is_transfer_encoding, is_content_length, get_all, remove,
}
use kaiwaehnero.Headers.{content_length_parse_all_values, is_chunked, chunked_text}
use kaiwaehnero.H1.Error.{
  Try, done, failed, header, content_length_invalid, transfer_encoding_unexpected, too_large,
}
use kaiwaehnero.H1.Encode.{Encoder}
use kaiwaehnero.H1.Encode

-- `headers.contains_key`.
abbrev pub contains : (HeaderName → Bool) → List Header → Bool
contains p hs = not (is_empty (get_all p hs))

abbrev pub is_10 : Version → Bool
is_10 http_10 = true
is_10 _ = false

abbrev pub is_11 : Version → Bool
is_11 http_11 = true
is_11 _ = false

-- GET, HEAD and CONNECT: a body of unknown length is taken for none.
abbrev pub rarely_has_body : Method → Bool
rarely_has_body get = true
rarely_has_body head = true
rarely_has_body connect = true
rarely_has_body _ = false

-- `headers::add_chunked`: ", chunked" at the end of the last line of that name.
abbrev pub add_chunked : List Header → List Header
add_chunked [] = []
add_chunked (h ∷ hs) =
    if is_transfer_encoding h.name && not (contains is_transfer_encoding hs)
    then record h { value = h.value ++ b',' ∷ 32 ∷ chunked_text } ∷ hs
    else h ∷ add_chunked hs

module _ (to_str : Bytes → Option Bytes) where
  unfoldable pub length_of : MessageHead → Option ℕ → Try (Option (DecodedLength × Bool))
  length_of inc (some len) = elim (checked_new len) [
    | none ↦ failed too_large
    | some d ↦ done (some (d, false))
  ]
  length_of inc none =
      if contains is_content_length inc.headers
      then failed (header content_length_invalid)
      else done (some (close_delimited, false))

  unfoldable pub by_headers : MessageHead → Try (Option (DecodedLength × Bool))
  unfolding length_of
  by_headers inc =
      if contains is_transfer_encoding inc.headers
      then (if is_10 inc.version
          then failed (header transfer_encoding_unexpected)
          else if is_chunked to_str (get_all is_transfer_encoding inc.headers)
          then done (some (chunked, false))
          else done (some (close_delimited, false)))
      else length_of inc
          (content_length_parse_all_values to_str (get_all is_content_length inc.headers))

  -- `Client::decoder`: the body's length and whether the connection is handed over; `none` skips the message.
  unfoldable pub decoder : MessageHead → Option Method → Try (Option (DecodedLength × Bool))
  unfolding by_headers
  decoder inc method =
      if inc.status == 101
      then done (some (zero_length, true))
      else if (inc.status == 100) || (leb 102 inc.status && leb inc.status 199)
      then done none
      else if (inc.status == 204) || (inc.status == 304)
      then done (some (zero_length, false))
      else if is_head method
      then done (some (zero_length, false))
      else if is_connect method && is_success inc.status
      then done (some (zero_length, true))
      else by_headers inc

  module _ (show : ℕ → Bytes) where
    -- `headers.insert(CONTENT_LENGTH, len)`.
    unfoldable pub set_content_length : List Header → ℕ → List Header × Encoder
    set_content_length hs len = (
      record { name = content_length; value = show len } ∷ remove is_content_length hs,
      Encode.new (Encode.Kind.length_of len),
    )

    unfoldable pub without_chunked : List Header → BodyLength → Option ℕ → List Header × Encoder
    unfolding set_content_length
    without_chunked hs body (some len) = (hs, Encode.new (Encode.Kind.length_of len))
    without_chunked hs (known len) none = set_content_length hs len
    without_chunked hs unknown none = (hs, Encode.new (Encode.Kind.length_of 0))

    unfoldable pub with_transfer_encoding : List Header → Option ℕ → List Header × Encoder
    with_transfer_encoding hs existing =
        let hs' =
          if is_chunked to_str (get_all is_transfer_encoding hs) then hs else add_chunked hs in
        (
          (if is_some existing then remove is_content_length hs' else hs'),
          Encode.new Encode.Kind.chunked,
        )

    unfoldable pub without_transfer_encoding :
        MessageHead → BodyLength → Option ℕ → List Header × Encoder
    unfolding set_content_length
    without_transfer_encoding h body (some len) =
        (h.headers, Encode.new (Encode.Kind.length_of len))
    without_transfer_encoding h (known len) none = set_content_length h.headers len
    without_transfer_encoding h unknown none =
        if rarely_has_body h.method then (h.headers, Encode.new (Encode.Kind.length_of 0)) else (
          record { name = transfer_encoding; value = chunked_text } ∷ h.headers,
          Encode.new Encode.Kind.chunked,
        )

    -- `Client::set_length`: the header lines to send and the body's encoder.
    unfoldable pub set_length : MessageHead → Option BodyLength → List Header × Encoder
    unfolding without_chunked with_transfer_encoding without_transfer_encoding
    set_length h none =
        (remove is_transfer_encoding h.headers, Encode.new (Encode.Kind.length_of 0))
    set_length h (some body) =
        let existing =
          content_length_parse_all_values to_str (get_all is_content_length h.headers) in
        if not (is_11 h.version)
        then without_chunked (remove is_transfer_encoding h.headers) body existing
        else if contains is_transfer_encoding h.headers
        then with_transfer_encoding h.headers existing
        else without_transfer_encoding h body existing
