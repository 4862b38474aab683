-- ===== src/H1/Role/Framing.antt =====
-- How `Server::parse` in src/proto/h1/role.rs frames a request's body.
use kaiwaehnero.Base.{
  ℕ, ◌≡◌, ◌≢◌, refl, Bool, true, false, not, ◌||◌, Option, none, some, List, [], ◌∷◌, Bytes,
  Option-cases, Bool-cases, inl, inr, is_empty, ◌⊎◌, ◌==◌, ==_iff, if◌then◌else◌, arith,
}
use kaiwaehnero.Body.{DecodedLength, checked_new, chunked, zero_length}
use kaiwaehnero.Http.{
  Method, Header, HeaderName, transfer_encoding, content_length, connection, expect, upgrade, date,
  other_header, get_all, is_transfer_encoding, is_content_length,
}
pub use kaiwaehnero.Headers.Numbers.{AllLengths}
use kaiwaehnero.Headers.{content_length_parse, is_chunked_value, is_chunked}
use kaiwaehnero.H1.Error.{Parse, Try, done, failed}
use kaiwaehnero.H1.Conn.Transport.{ParsedMessage}
use kaiwaehnero.H1.Role.Server.{
  Scan, start, on_header, on_transfer_encoding, on_content_length, on_length, scan_headers, finish,
  parse_headers,
}

pub Try-cases {ℓ} :
    {A : Type ℓ} (x : Try A) → ((e : Parse) × (x ≡ failed e)) ⊎ ((a : A) × (x ≡ done a))
Try-cases (failed e) = inl (e, refl)
Try-cases (done a) = inr (a, refl)

module _ (to_str : Bytes → Option Bytes) where
  -- RFC 7230, 3.3.3, for a request: chunked if a transfer-encoding is there and ends in chunked, else
  -- the one length that all the content-lengths give, else empty.
  pub data Framed (is_http_11 : Bool) (hs : List Header) (d : DecodedLength) : Type 0 where
    by_chunks :
        is_http_11 ≡ true
        → is_chunked to_str (get_all is_transfer_encoding hs) ≡ true
        → d ≡ chunked
        → Framed is_http_11 hs d
    by_length :
        (n : ℕ)
        → get_all is_transfer_encoding hs ≡ []
        → get_all is_content_length hs ≢ []
        → AllLengths n (get_all is_content_length hs)
        → checked_new n ≡ some d
        → Framed is_http_11 hs d
    empty :
        get_all is_transfer_encoding hs ≡ []
        → get_all is_content_length hs ≡ []
        → d ≡ zero_length
        → Framed is_http_11 hs d

  -- What the scan holds on to.
  record Sound (s : Scan) : Type 0 where
    chunks : s.is_te_chunked ≡ true → s.decoder ≡ chunked
    te : s.is_te ≡ false → s.is_te_chunked ≡ false
    sized : (n : ℕ) → s.is_te ≡ false → s.con_len ≡ some n → checked_new n ≡ some s.decoder
    unsized : s.is_te ≡ false → s.con_len ≡ none → s.decoder ≡ zero_length

  -- What one header line does to the scan.
  record Turn (is_http_11 : Bool) (h : Header) (s s' : Scan) : Type 0 where
    is_te : s'.is_te ≡ (s.is_te || is_transfer_encoding h.name)
    is_te_chunked :
        s'.is_te_chunked
        ≡ (if is_transfer_encoding h.name then is_chunked_value to_str h.value else s.is_te_chunked)
    version : is_transfer_encoding h.name ≡ true → is_http_11 ≡ true
    length :
        s.is_te ≡ false
        → is_content_length h.name ≡ true
        → content_length_parse h.value ≡ s'.con_len × s'.con_len ≢ none
    same_length : (n : ℕ) → s.con_len ≡ some n → s'.con_len ≡ some n
    no_length : is_content_length h.name ≡ false → s'.con_len ≡ s.con_len
    sound : Sound s → Sound s'

  on_length-Turn :
      (is_http_11 : Bool) (h : Header) (s s' : Scan) (o : Option ℕ)
      → h.name ≡ content_length
      → s.is_te ≡ false
      → content_length_parse h.value ≡ o
      → on_length to_str h s o ≡ done s'
      → Turn is_http_11 h s s'
  unfolding on_length
  on_length-Turn b h s s' none q n p e = cc
  on_length-Turn b h s s' (some len) q n p e = elim (Option-cases s.con_len) [
    | inl none_yet ↦ elim (Option-cases (checked_new len)) [
      | inl large ↦ cc (rw (none_yet, large, on_length) at e)
      | inr (d, fits) ↦ ground arith
    ]
    | inr (prev, before) ↦ elim (Bool-cases (prev == len)) [
      | inl same ↦ let k = (==_iff prev len).0 same in ground arith
      | inr other ↦ ground arith
    ]
  ]

  on_header-Turn :
      (is_http_11 : Bool) (n : HeaderName) (h : Header) (s s' : Scan)
      → h.name ≡ n
      → on_header to_str is_http_11 n h s ≡ done s'
      → Turn is_http_11 h s s'
  unfolding on_header on_transfer_encoding on_content_length on_length
  on_header-Turn b transfer_encoding h s s' q e = ground arith
  on_header-Turn b content_length h s s' q e = elim (Bool-cases s.is_te) [
    | inl te ↦ ground arith
    | inr no_te ↦ on_length-Turn b h s s' (content_length_parse h.value) q no_te refl (ground arith)
  ]
  on_header-Turn b connection h s s' q e = ground arith
  on_header-Turn b expect h s s' q e = ground arith
  on_header-Turn b upgrade h s s' q e = ground arith
  on_header-Turn b date h s s' q e = ground arith
  on_header-Turn b (other_header x) h s s' q e = ground arith

  -- Whether the last value, or what came before the first, is chunked.
  last_chunked : Bool → List Bytes → Bool
  last_chunked b [] = b
  last_chunked b (v ∷ vs) = last_chunked (is_chunked_value to_str v) vs

  last_chunked-is_chunked :
      (b : Bool) (v : Bytes) (vs : List Bytes)
      → last_chunked b (v ∷ vs) ≡ is_chunked to_str (v ∷ vs)
  unfolding last_chunked is_chunked
  last_chunked-is_chunked b v [] = refl
  last_chunked-is_chunked b v (w ∷ vs) = last_chunked-is_chunked b w vs

  -- What a run of lines does.
  record Run (is_http_11 : Bool) (hs : List Header) (s s' : Scan) : Type 0 where
    is_te : s'.is_te ≡ (s.is_te || not (is_empty (get_all is_transfer_encoding hs)))
    is_te_chunked :
        s'.is_te_chunked ≡ last_chunked s.is_te_chunked (get_all is_transfer_encoding hs)
    version : get_all is_transfer_encoding hs ≢ [] → is_http_11 ≡ true
    lengths :
        (n : ℕ)
        → s'.is_te ≡ false
        → s'.con_len ≡ some n
        → AllLengths n (get_all is_content_length hs)
    no_length : s'.con_len ≡ none → s'.is_te ≡ false → get_all is_content_length hs ≡ []
    same_length : (n : ℕ) → s.con_len ≡ some n → s'.con_len ≡ some n
    absent : get_all is_content_length hs ≡ [] → s'.con_len ≡ s.con_len
    sound : Sound s → Sound s'

  Run-cons :
      (is_http_11 : Bool) (h : Header) (hs : List Header) (s s1 s' : Scan)
      → Turn is_http_11 h s s1
      → Run is_http_11 hs s1 s'
      → Run is_http_11 (h ∷ hs) s s'
  unfolding last_chunked
  Run-cons b h hs s s1 s' k r =
      let te = k.is_te in
      let te' = r.is_te in
      let chunks = k.is_te_chunked in
      let chunks' = r.is_te_chunked in
      record {
        is_te = ground arith;
        is_te_chunked = ground arith;
        version = λ p. let v = k.version in let v' = r.version in ground arith;
        lengths = λ n p q. elim (Option-cases s1.con_len) [
          | inl none_yet ↦ let l = k.length in let l' = r.lengths n p q in ground arith
          | inr (m, one) ↦
              let l = k.length in
              let l' = r.lengths n p q in let g = r.same_length m one in ground arith
        ];
        no_length = λ p q.
            let l = k.length in
            let l' = r.no_length p q in
            elim (Option-cases s1.con_len) [
              | inl none_yet ↦ ground arith
              | inr (m, one) ↦ let g = r.same_length m one in cc
            ];
        same_length = λ n p. r.same_length n (k.same_length n p);
        absent = λ p. let l = r.absent in let l' = k.no_length in ground arith;
        sound = λ p. r.sound (k.sound p);
      }

  scan_headers-Run :
      (is_http_11 : Bool) (hs : List Header) (s s' : Scan)
      → scan_headers to_str is_http_11 hs s ≡ done s'
      → Run is_http_11 hs s s'
  unfolding scan_headers last_chunked
  scan_headers-Run b [] s s' e = ground arith
  scan_headers-Run b (h ∷ hs) s s' e = elim (Try-cases (on_header to_str b h.name h s)) [
    | inl (err, f) ↦ cc (rw (f, scan_headers) at e)
    | inr (s1, f) ↦
        let k = on_header-Turn b h.name h s s1 refl f in
        let r = scan_headers-Run b hs s1 s' (rw (f, scan_headers) at e) in
        Run-cons b h hs s s1 s' k r
  ]

  start-Sound : (is_http_11 : Bool) (m : Method) → Sound (start to_str is_http_11 m)
  start-Sound b m = ground arith

  finish-decode :
      (is_http_11 : Bool) (m : Method) (s : Scan) (msg : ParsedMessage)
      → finish to_str m is_http_11 s ≡ done msg
      → (s.is_te ≡ true → s.is_te_chunked ≡ true) × msg.decode ≡ s.decoder
  unfolding finish
  finish-decode b m s msg e = ground arith

  -- By the transfer-encodings `te` and the content-lengths `cl` of the lines.
  Run-Framed :
      (is_http_11 : Bool) (m : Method) (hs : List Header) (s : Scan) (te cl : List Bytes)
      → Run is_http_11 hs (start to_str is_http_11 m) s
      → (s.is_te ≡ true → s.is_te_chunked ≡ true)
      → get_all is_transfer_encoding hs ≡ te
      → get_all is_content_length hs ≡ cl
      → Framed is_http_11 hs s.decoder
  unfolding last_chunked
  Run-Framed b m hs s (v ∷ te) cl r c p q =
      let x = r.is_te in
      let y = r.is_te_chunked in
      let z = (r.sound (start-Sound b m)).chunks in
      let l = last_chunked-is_chunked false v te in
      by_chunks (r.version (λ h. cc)) (ground arith) (ground arith)
  Run-Framed b m hs s [] [] r c p q =
      let x = r.is_te in empty p q ((r.sound (start-Sound b m)).unsized (ground arith) (r.absent q))
  Run-Framed b m hs s [] (v ∷ cl) r c p q =
      let no_te : s.is_te ≡ false = (let x = r.is_te in ground arith) in
      elim (Option-cases s.con_len) [
        | inl none_yet ↦ cc (r.no_length none_yet no_te)
        | inr (n, one) ↦
            by_length n p (λ h. cc) (r.lengths n no_te one)
              ((r.sound (start-Sound b m)).sized n no_te one)
      ]

  -- A request is let in only if its body is framed by the rules of RFC 7230, 3.3.3: chunked, on HTTP/1.1
  -- only, if it has a transfer-encoding, whose last value must then be chunked; else of the one length that
  -- all its content-lengths give and that a body can have; else empty.
  pub parse_headers-Framed :
      (is_http_11 : Bool) (m : Method) (hs : List Header) (msg : ParsedMessage)
      → parse_headers to_str is_http_11 m hs ≡ done msg
      → Framed is_http_11 hs msg.decode
  unfolding parse_headers finish
  parse_headers-Framed b m hs msg e =
      elim (Try-cases (scan_headers to_str b hs (start to_str b m))) [
        | inl (err, f) ↦ cc (rw (f, parse_headers) at e)
        | inr (s, f) ↦
            let (c, d) = finish-decode b m s msg (rw (f, parse_headers) at e) in
            rw (d) (Run-Framed b m hs s _ _ (scan_headers-Run b hs _ s f) c refl refl)
      ]
