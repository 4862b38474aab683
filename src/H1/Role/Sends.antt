-- ===== src/H1/Role/Sends.antt =====
-- The body of a request as the client of src/proto/h1/role.rs sends it, and as the server there reads it.
use kaiwaehnero.Base.{
  ℕ, ◌≡◌, ◌≢◌, refl, sym, ap, ◌∙◌, Bool, true, false, Option, none, some, List, [], ◌∷◌, Bytes,
  Bool-cases, inl, inr, arith, some-injective,
}
use kaiwaehnero.Body.{DecodedLength, checked_new, chunked}
use kaiwaehnero.Http.{
  Method, Header, HeaderName, content_length, transfer_encoding, MessageHead, BodyLength, known,
  unknown, get_all, is_transfer_encoding, is_content_length, remove,
}
use kaiwaehnero.Headers.{content_length_parse, content_length_parse_all_values, is_chunked}
use kaiwaehnero.Headers.Numbers.{
  AllLengths, content_length_parse_all_values-AllLengths, content_length_parse_all_values-nil,
}
use kaiwaehnero.H1.Error.{done}
use kaiwaehnero.H1.Encode.{Encoder}
use kaiwaehnero.H1.Encode
use kaiwaehnero.H1.Conn.Transport.{ParsedMessage}
use kaiwaehnero.H1.Role.Server.{parse_headers}
use kaiwaehnero.H1.Role.Client.{
  set_length, set_content_length, without_chunked, with_transfer_encoding,
  without_transfer_encoding, contains, is_11, rarely_has_body,
}
use kaiwaehnero.H1.Role.Chunked.{is_empty-nil}
use kaiwaehnero.H1.Role.Rules.{is_chunked_kind, set_length-transfer_encoding}
use kaiwaehnero.H1.Role.Framing.{Framed, by_chunks, by_length, empty, parse_headers-Framed}

-- The length that a body is sent with, if it is the only one that its content-lengths can be read as.
abbrev SaysLength : ℕ → List Bytes → Type 0
SaysLength n vs = ((k : ℕ) → vs ≢ [] → AllLengths k vs → k ≡ n) × (vs ≡ [] → n ≡ 0)

abbrev Says : Encode.Kind → List Bytes → Type 0
Says (Encode.Kind.length_of n) vs = SaysLength n vs
Says Encode.Kind.chunked vs = Unit
Says Encode.Kind.close_delimited vs = true ≡ false

-- The length that the client's encoder keeps to, as a decoder's.
abbrev pub Same : Encode.Kind → DecodedLength → Type 0
Same (Encode.Kind.length_of n) d = d.value ≡ n
Same Encode.Kind.chunked d = d ≡ chunked
Same Encode.Kind.close_delimited d = true ≡ false

other_length : (n : HeaderName) → is_transfer_encoding n ≡ true → is_content_length n ≡ false
other_length transfer_encoding h = refl
other_length content_length h = cc
other_length _ h = cc

-- Taking the transfer-encodings away leaves the content-lengths.
get_all-remove_encoding :
    (hs : List Header)
    → get_all is_content_length (remove is_transfer_encoding hs) ≡ get_all is_content_length hs
get_all-remove_encoding [] = refl
get_all-remove_encoding (h ∷ hs) =
    let k = get_all-remove_encoding hs in ground (arith, other_length h.name)

module _ (to_str : Bytes → Option Bytes) (show : ℕ → Bytes)
    (digits : (v : Bytes) (k : ℕ) → content_length_parse v ≡ some k → to_str v ≡ some v)
    (shown : (n k : ℕ) → content_length_parse (show n) ≡ some k → k ≡ n) where
  some_length :
      (vs : List Bytes) (len : ℕ)
      → content_length_parse_all_values to_str vs ≡ some len
      → SaysLength len vs
  some_length vs len h = (
    (λ k e a.
        some-injective
          (sym (content_length_parse_all_values-AllLengths to_str vs k digits e a) ∙ h)),
    (λ e. cc (h, e, content_length_parse_all_values-nil to_str)),
  )

  no_length : (vs : List Bytes) → content_length_parse_all_values to_str vs ≡ none → SaysLength 0 vs
  no_length vs h = (
    (λ k e a. cc (h, content_length_parse_all_values-AllLengths to_str vs k digits e a)),
    λ e. refl,
  )

  sent_length :
      (hs : List Header) (n : ℕ)
      → SaysLength n (get_all is_content_length (set_content_length to_str show hs n).0)
  unfolding set_content_length
  sent_length hs n = ((λ k e a. shown n k a.0), λ e. cc)

  abbrev Tells : List Header × Encoder → Type 0
  Tells x = Says x.1.kind (get_all is_content_length x.0)

  -- `existing` is the length that the lines say, if they say one.
  without_chunked-Tells :
      (hs : List Header) (b : BodyLength) (existing : Option ℕ)
      → content_length_parse_all_values to_str (get_all is_content_length hs) ≡ existing
      → Tells (without_chunked to_str show hs b existing)
  unfolding without_chunked Encode.new set_content_length
  without_chunked-Tells hs b (some len) e = some_length (get_all is_content_length hs) len e
  without_chunked-Tells hs (known len) none e = sent_length hs len
  without_chunked-Tells hs unknown none e = no_length (get_all is_content_length hs) e

  without_transfer_encoding-Tells :
      (h : MessageHead) (b : BodyLength) (existing : Option ℕ)
      → content_length_parse_all_values to_str (get_all is_content_length h.headers) ≡ existing
      → Tells (without_transfer_encoding to_str show h b existing)
  unfolding without_transfer_encoding Encode.new set_content_length
  without_transfer_encoding-Tells h b (some len) e =
      some_length (get_all is_content_length h.headers) len e
  without_transfer_encoding-Tells h (known len) none e = sent_length h.headers len
  without_transfer_encoding-Tells h unknown none e = elim (Bool-cases (rarely_has_body h.method)) [
    | inl r ↦ rw (r) (no_length (get_all is_content_length h.headers) e)
    | inr r ↦ rw (r) tt
  ]

  set_length-Tells : (h : MessageHead) (b : BodyLength) → Tells (set_length to_str show h (some b))
  unfolding set_length with_transfer_encoding Encode.new
  set_length-Tells h b =
      let len = content_length_parse_all_values to_str (get_all is_content_length h.headers) in
      elim (Bool-cases (is_11 h.version)) [
        | inl v ↦ elim (Bool-cases (contains is_transfer_encoding h.headers)) [
          | inl te ↦ rw (v, te) tt
          | inr n ↦ rw (v, n) (without_transfer_encoding-Tells h b len refl)
        ]
        | inr v ↦ rw (v) (
            without_chunked-Tells (remove is_transfer_encoding h.headers) b len
              (ap (content_length_parse_all_values to_str) (get_all-remove_encoding h.headers)))
      ]

  checked_new-value : (n : ℕ) (d : DecodedLength) → checked_new n ≡ some d → d.value ≡ n
  unfolding checked_new
  checked_new-value n d h = ground arith

  encoding-chunked :
      (b : Bool) (hs : List Header) (d : DecodedLength)
      → contains is_transfer_encoding hs ≡ true
      → Framed to_str b hs d
      → d ≡ chunked
  encoding-chunked b hs d c (by_chunks v te q) = q
  encoding-chunked b hs d c (by_length n te cl a q) = cc (rw (te) at c)
  encoding-chunked b hs d c (empty te cl q) = cc (rw (te) at c)

  no_encoding-length :
      (b : Bool) (hs : List Header) (d : DecodedLength) (n : ℕ)
      → contains is_transfer_encoding hs ≡ false
      → SaysLength n (get_all is_content_length hs)
      → Framed to_str b hs d
      → d.value ≡ n
  unfolding is_chunked
  no_encoding-length b hs d n c t (by_chunks v te q) =
      cc (rw (is_empty-nil (get_all is_transfer_encoding hs) (ground arith), is_chunked) at te)
  no_encoding-length b hs d n c t (by_length k te cl a q) = checked_new-value k d q ∙ t.0 k cl a
  no_encoding-length b hs d n c t (empty te cl q) = ap (λ x. x.value) q ∙ sym (t.1 cl)

  Framed-Same :
      (b : Bool) (hs : List Header) (d : DecodedLength) (k : Encode.Kind)
      → contains is_transfer_encoding hs ≡ is_chunked_kind k
      → Says k (get_all is_content_length hs)
      → Framed to_str b hs d
      → Same k d
  Framed-Same b hs d Encode.Kind.chunked f t r = encoding-chunked b hs d f r
  Framed-Same b hs d (Encode.Kind.length_of n) f t r = no_encoding-length b hs d n f t r
  Framed-Same b hs d Encode.Kind.close_delimited f t r = t

  -- A request that a client sends with a body and that a server lets in: the server reads the body as the client's encoder
  -- writes it, in chunks or of the same length. It is so where the number that is sent as a content-length is read back as
  -- itself if it is read as one, and values of digits are text.
  pub set_length-Same :
      (h : MessageHead) (b : BodyLength) (m : Method) (msg : ParsedMessage)
      → parse_headers to_str (is_11 h.version) m (set_length to_str show h (some b)).0 ≡ done msg
      → Same (set_length to_str show h (some b)).1.kind msg.decode
  set_length-Same h b m msg e =
      let x = set_length to_str show h (some b) in
      Framed-Same (is_11 h.version) x.0 msg.decode x.1.kind
        (set_length-transfer_encoding to_str show h (some b)) (set_length-Tells h b)
        (parse_headers-Framed to_str (is_11 h.version) m x.0 msg e)
