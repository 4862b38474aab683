-- ===== src/H1/Role/Reply/Connection.antt =====
-- A `connection` line after a transfer-encoding, in `Server::encode_headers` of src/proto/h1/role.rs.
use kaiwaehnero.Base.{
  ◌∙◌, ℕ, ◌≡◌, refl, Bool, true, false, not, Option, none, some, List, [], ◌∷◌, ◌++◌, Bytes,
  append_assoc, if◌then◌else◌,
}
use kaiwaehnero.H1.Encode
use kaiwaehnero.Http.{Header, HeaderName, transfer_encoding, connection}
use kaiwaehnero.Headers.{chunked_text, is_chunked_value}
use kaiwaehnero.H1.Role.Server.{can_chunked}
use kaiwaehnero.H1.Role.Client.{is_10}
use kaiwaehnero.H1.Role.Reply.{
  Scribe, Response, comma, crlf, colon, drain_from, begin_line, end_line, new_name, on_encoding,
  on_connection, on_value, on_current, on_entry, write_headers, drain, start,
}
use kaiwaehnero.H1.Role.Reply.Lines.{line}

-- What the loop has written, with the end of its last line.
abbrev pub written :
    (Bytes → Option Bytes) → (HeaderName → Bytes) → Response → Option Scribe → Option Bytes
written to_str name r none = none
written to_str name r (some s) = some (end_line to_str name r s).dst

module _ (to_str : Bytes → Option Bytes) (name : HeaderName → Bytes) (show : ℕ → Bytes)
    (date_value : Bytes) (r : Response) (orig v c : Bytes) (is_last : Bool) where
  abbrev pub encoding_and_connection : List Header
  encoding_and_connection =
      record { name = transfer_encoding; value = v } ∷ record { name = connection; value = c } ∷ []

  last_entry :
      {b : Bytes} (o : Option Scribe)
      → written to_str name r o ≡ some b
      → written to_str name r (elim o [ none ↦ none | some s ↦ write_headers to_str name r [] s ])
        ≡ some b
  unfolding write_headers
  last_entry none h = h
  last_entry (some s) h = h

  abbrev begun : Scribe
  begun =
      begin_line to_str name r transfer_encoding v
        (record (new_name to_str name r (some transfer_encoding)
          (start to_str name r show date_value orig is_last false)) {
            wrote_len = true;
            must_write_chunked = not (is_chunked_value to_str v);
            encoder = Encode.new Encode.Kind.chunked;
          })

  encoding_entry :
      is_10 r.head.version ≡ false
      → can_chunked r.req_method r.head.status ≡ true
      → on_entry to_str name r
          (some transfer_encoding)
          v
          (start to_str name r show date_value orig is_last false)
        ≡ some begun
  unfolding on_entry on_current on_value on_encoding new_name begin_line end_line
  encoding_entry t can = rw (t, can) refl

  connection_entry :
      written to_str name r (on_entry to_str name r (some connection) c begun)
      ≡ some (
          (((orig ++ (name transfer_encoding ++ (colon ++ v)))
              ++ (if not (is_chunked_value to_str v)
                  then comma ++ (chunked_text ++ crlf)
                  else crlf))
            ++ (name connection ++ (colon ++ c)))
          ++ (if not (is_chunked_value to_str v) then comma ++ (chunked_text ++ crlf) else crlf))
  unfolding on_entry on_current on_value on_connection new_name begin_line end_line
  connection_entry = refl

  -- Where an HTTP/1.1 response may be chunked, after a transfer-encoding that does not end in chunked the
  -- connection line gets the ", chunked" too that the transfer-encoding gets.
  pub write_headers-connection :
      is_chunked_value to_str v ≡ false
      → is_10 r.head.version ≡ false
      → can_chunked r.req_method r.head.status ≡ true
      → written to_str name r (
          write_headers to_str name r
            (drain encoding_and_connection)
            (start to_str name r show date_value orig is_last false))
        ≡ some (
            orig
            ++ (line to_str name r
                  (record { name = transfer_encoding; value = v ++ (comma ++ chunked_text) })
                ++ line to_str name r
                    (record { name = connection; value = c ++ (comma ++ chunked_text) })))
  unfolding write_headers drain drain_from
  write_headers-connection n t can =
      rw (write_headers, encoding_entry t can)
        (last_entry (on_entry to_str name r (some connection) c begun)
          (connection_entry ∙ rw (n) (simp append_assoc)))
