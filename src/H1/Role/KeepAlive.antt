-- ===== src/H1/Role/KeepAlive.antt =====
-- Whether `Server::parse` in src/proto/h1/role.rs keeps a connection.
use kaiwaehnero.Base.{◌≡◌, Bool, true, false, inl, inr, Option, List, [], ◌∷◌, ◌++◌, Bytes, arith}
use kaiwaehnero.Http.{Method, Header, connection}
use kaiwaehnero.Headers.{connection_close, connection_keep_alive}
use kaiwaehnero.H1.Error.{done}
use kaiwaehnero.H1.Conn.Transport.{ParsedMessage}
use kaiwaehnero.H1.Role.Server.{
  Scan, start, on_header, next_keep_alive, scan_headers, finish, parse_headers,
}
use kaiwaehnero.H1.Role.Framing.{Try-cases}

module _ (to_str : Bytes → Option Bytes) where
  scan_headers-append :
      (is_http_11 : Bool) (hs : List Header) (h : Header) (s s' : Scan)
      → scan_headers to_str is_http_11 (hs ++ h ∷ []) s ≡ done s'
      → (s1 : Scan) × on_header to_str is_http_11 h.name h s1 ≡ done s'
  unfolding scan_headers
  scan_headers-append b [] h s s' e = (s, ground (arith, Try-cases (on_header to_str b h.name h s)))
  scan_headers-append b (g ∷ hs) h s s' e = elim (Try-cases (on_header to_str b g.name g s)) [
    | inl (err, f) ↦ cc (rw (f, scan_headers) at e)
    | inr (s1, f) ↦ scan_headers-append b hs h s1 s' (rw (f, scan_headers) at e)
  ]

  kept-Scan :
      (m : Method) (is_http_11 : Bool) (s : Scan) (msg : ParsedMessage)
      → finish to_str m is_http_11 s ≡ done msg
      → msg.keep_alive ≡ s.keep_alive
  unfolding finish
  kept-Scan m b s msg e = ground arith

  connection-kept :
      (is_http_11 : Bool) (v : Bytes) (s s' : Scan)
      → connection_keep_alive to_str v ≡ true
      → connection_close to_str v ≡ false
      → on_header to_str is_http_11 connection (record { name = connection; value = v }) s ≡ done s'
      → s'.keep_alive ≡ true
  unfolding on_header next_keep_alive
  connection-kept b v s s' k c e = ground arith

  -- A request whose last header line is a connection line with keep-alive and without close is kept alive if it is let
  -- in, whatever the connection lines before it say.
  pub parse_headers-keep_alive :
      (is_http_11 : Bool) (m : Method) (hs : List Header) (v : Bytes) (msg : ParsedMessage)
      → connection_keep_alive to_str v ≡ true
      → connection_close to_str v ≡ false
      → parse_headers to_str is_http_11 m (hs ++ record { name = connection; value = v } ∷ [])
        ≡ done msg
      → msg.keep_alive ≡ true
  unfolding parse_headers
  parse_headers-keep_alive b m hs v msg k c e =
      let h : Header = record { name = connection; value = v } in
      elim (Try-cases (scan_headers to_str b (hs ++ h ∷ []) (start to_str b m))) [
        | inl (err, f) ↦ cc (rw (f, parse_headers) at e)
        | inr (s, f) ↦
            let (s1, g) = scan_headers-append b hs h (start to_str b m) s f in
            let p = kept-Scan m b s msg (rw (f, parse_headers) at e) in
            ground (arith, connection-kept b v s1 s k c g)
      ]
