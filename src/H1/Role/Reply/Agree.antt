-- ===== src/H1/Role/Reply/Agree.antt =====
-- A client reads the body of a response as `Server::encode_headers` of src/proto/h1/role.rs has announced it.
use kaiwaehnero.H1.Encode.{set_last}
use kaiwaehnero.Base.{
  append-nil, ℕ, ◌≡◌, refl, ap, sym, ◌∙◌, subst, Bool, true, false, not, Option, none, some, List,
  [], ◌∷◌, ◌++◌, Bytes, append_assoc, arith, if◌then◌else◌, Bool-cases, Option-cases, inl, inr,
  some-injective, ◌==◌,
}
use mathlib.Core.List.{reverse, reverse-cons}
use kaiwaehnero.Http.{
  Method, Header, HeaderName, transfer_encoding, content_length, date, BodyLength, known, unknown,
  get_all, is_transfer_encoding, is_content_length,
}
use kaiwaehnero.Headers.{from_digits, chunked_text, content_length_parse}
use kaiwaehnero.Headers.Split.{is_chunked_value-text, IsToStr}
use kaiwaehnero.H1.Role.Reply.{
  Scribe, Response, crlf, colon, plain_line, end_line, own_length, force_empty, end_head,
  after_headers, encode_headers, write_headers, drain, start,
}
use kaiwaehnero.H1.Role.Reply.Lines.{line, text_of, shut_lines, closed, end_line-text}
use kaiwaehnero.H1.Role.Reply.Step.{Good, Said, nothing, sized, chunks, te_of, cl_of}
use kaiwaehnero.H1.Role.Reply.Length.{Said-nothing}
use kaiwaehnero.H1.Role.Reply.Loop.{AllTrusted, write_headers-Good}
use kaiwaehnero.H1.Encode
use kaiwaehnero.H1.Role.Server.{can_chunked, can_have_body, can_have_content_length}
use kaiwaehnero.H1.Role.Client.{is_10}
use kaiwaehnero.H1.Role.Reply.Announce.{
  Head, lines_text, Announced, by_chunks, by_length, by_close, Announced-by_headers,
  get_all-reverse,
}

-- With a body, a status may tell its length.
can_chunked-length :
    (m : Option Method) (s : ℕ) → can_chunked m s ≡ true → can_have_content_length m s ≡ true
unfolding can_chunked can_have_content_length
can_chunked-length m s h = ground arith

told_pick {ℓ} :
    {A : Type ℓ} (b : Bool) (x y : A) (c : Bool)
    → b ≡ c
    → (if not c then x else y) ≡ (if not b then x else y)
told_pick b x y c h = rw (h) refl

module _ (to_str : Bytes → Option Bytes) (laws : IsToStr to_str) (name : HeaderName → Bytes)
    (show : ℕ → Bytes) (r : Response)
    (shown : (n : ℕ) → r.body ≡ some (known n) → content_length_parse (show n) ≡ some n)
    (digits : (v : Bytes) (n : ℕ) → content_length_parse v ≡ some n → to_str v ≡ some v)
    (date_value : Bytes) (orig : Bytes) (can : can_chunked r.req_method r.head.status ≡ true) where
  lines_text-append :
      (a b : List Header)
      → lines_text to_str name r orig (a ++ b)
        ≡ lines_text to_str name r orig a ++ lines_text to_str name r orig b
  lines_text-append [] b = refl
  lines_text-append (h ∷ a) b =
      ap (λ k. line to_str name r h ++ k) (lines_text-append a b)
      ∙ sym (
          append_assoc (line to_str name r h) (lines_text to_str name r orig a)
            (lines_text to_str name r orig b))

  text_of-reverse :
      (l : List Header) → text_of to_str name r l ≡ lines_text to_str name r orig (reverse l)
  text_of-reverse [] = refl
  text_of-reverse (h ∷ l) =
      ap (λ k. k ++ line to_str name r h) (text_of-reverse l)
      ∙ ap (λ k. lines_text to_str name r orig (reverse l) ++ k)
          (sym (append-nil (line to_str name r h)))
      ∙ sym (lines_text-append (reverse l) (h ∷ []))
      ∙ ap (lines_text to_str name r orig) (sym (reverse-cons h l))

  -- A head up to its last line, and what it announces.
  record Told (s : Scribe) (l : List Header) : Type 0 where
    text : s.dst ≡ orig ++ text_of to_str name r l
    said :
        Announced to_str
          (is_10 r.head.version)
          (get_all is_transfer_encoding l)
          (get_all is_content_length l)
          s.encoder.kind

  zero_value : content_length_parse (b'0' ∷ []) ≡ some 0
  unfolding content_length_parse from_digits
  zero_value = refl

  own_line :
      (n : HeaderName) (v : Bytes) (s : Scribe) (l : List Header)
      → s.dst ≡ orig ++ text_of to_str name r l
      → (plain_line to_str name r n v s).dst
        ≡ orig ++ text_of to_str name r (record { name = n; value = v } ∷ l)
  unfolding plain_line
  own_line n v s l e =
      ap (λ d. d ++ (name n ++ (colon ++ (v ++ crlf)))) e
      ∙ append_assoc orig (text_of to_str name r l) (name n ++ (colon ++ (v ++ crlf)))

  sized-Told :
      (n : ℕ) (v : Bytes) (s : Scribe) (l : List Header)
      → s.dst ≡ orig ++ text_of to_str name r l
      → get_all is_transfer_encoding l ≡ []
      → get_all is_content_length l ≡ []
      → content_length_parse v ≡ some n
      → Told
          (record (plain_line to_str name r content_length v s) {
            encoder = Encode.new (Encode.Kind.length_of n);
          })
          (record { name = content_length; value = v } ∷ l)
  unfolding plain_line Encode.new
  sized-Told n v s l e te cl p = record {
    text = own_line content_length v s l e;
    said = by_length n v refl te (ap (λ k. v ∷ k) cl) (digits v n p) p;
  }

  own_length-Told :
      (b : Option BodyLength) (s : Scribe) (l : List Header)
      → r.body ≡ b
      → s.dst ≡ orig ++ text_of to_str name r l
      → get_all is_transfer_encoding l ≡ []
      → get_all is_content_length l ≡ []
      → (l' : List Header) × Told (own_length to_str name r show date_value b s) l'
  unfolding own_length Encode.new plain_line
  own_length-Told none s l q e te cl = (
    record { name = content_length; value = b'0' ∷ [] } ∷ l,
    rw (can_chunked-length r.req_method r.head.status can)
        (sized-Told 0 (b'0' ∷ []) s l e te cl zero_value),
  )
  own_length-Told (some (known n)) s l q e te cl = elim (Bool-cases (n == 0)) [
    | inl z ↦ (
      record { name = content_length; value = b'0' ∷ [] } ∷ l,
      rw (z, can_chunked-length r.req_method r.head.status can)
          (sized-Told 0 (b'0' ∷ []) s l e te cl zero_value),
    )
    | inr p ↦ (
      record { name = content_length; value = show n } ∷ l,
      rw (p, can_chunked-length r.req_method r.head.status can)
          (sized-Told n (show n) s l e te cl (shown n q)),
    )
  ]
  own_length-Told (some unknown) s l q e te cl = elim (Bool-cases (is_10 r.head.version)) [
    | inl ten ↦ (l, rw (ten) (record { text = e; said = by_close refl te cl }))
    | inr new ↦ (
      record { name = transfer_encoding; value = chunked_text } ∷ l,
      rw (new, can)
          (record {
            text = own_line transfer_encoding chunked_text s l e;
            said =
                by_chunks chunked_text refl new (ap (λ k. chunked_text ∷ k) te) cl
                  (is_chunked_value-text to_str laws.chunked);
          }),
    )
  ]

  end_line-encoder : (s : Scribe) → (end_line to_str name r s).encoder ≡ s.encoder
  unfolding end_line
  end_line-encoder s = ground arith

  end_line-wrote_len : (s : Scribe) → (end_line to_str name r s).wrote_len ≡ s.wrote_len
  unfolding end_line
  end_line-wrote_len s = ground arith

  -- A length that the headers gave.
  headers-Told :
      (s : Scribe) (l : List Header)
      → s.wrote_len ≡ true
      → Good to_str name r orig s l
      → Told (end_line to_str name r s) (shut_lines to_str name r s l)
  headers-Told s l w g = record {
    text = end_line-text to_str name r orig s l g.written;
    said = by_said g.said;
  }
    where
      same : (end_line to_str name r s).encoder ≡ s.encoder
      same = end_line-encoder s

      by_said :
          Said to_str name r orig s (te_of to_str name r orig s l) (cl_of to_str name r orig s l)
          → Announced to_str
              (is_10 r.head.version)
              (get_all is_transfer_encoding (shut_lines to_str name r s l))
              (get_all is_content_length (shut_lines to_str name r s l))
              (end_line to_str name r s).encoder.kind
      by_said (nothing w' m t c) = cc (w, w')
      by_said (sized n v w' m k t c p u) =
          by_length n v (ap (λ e. e.kind) same ∙ k) t c (digits v n p) p
      by_said (chunks v w' k i t c x y) = by_chunks v (ap (λ e. e.kind) same ∙ k) i t c y

  -- The length that the body gives, where no header did.
  body-Told :
      (s : Scribe) (l : List Header)
      → s.wrote_len ≡ false
      → Good to_str name r orig s l
      → (l' : List Header) × Told
          (own_length to_str name r show date_value r.body (end_line to_str name r s))
          l'
  body-Told s l w g =
      let (m, te, cl) =
        Said-nothing to_str name r orig s (te_of to_str name r orig s l)
          (cl_of to_str name r orig s l) w g.said in
      own_length-Told r.body (end_line to_str name r s) (shut_lines to_str name r s l) refl
        (end_line-text to_str name r orig s l g.written) te cl

  Announced-reverse :
      (ten : Bool) (te cl : List Bytes) (k : Encode.Kind)
      → Announced to_str ten te cl k
      → Announced to_str ten (reverse te) (reverse cl) k
  Announced-reverse ten te cl k (by_chunks v e t q c x) =
      by_chunks v e t (ap reverse q) (ap reverse c) x
  Announced-reverse ten te cl k (by_length n v e q c t p) =
      by_length n v e (ap reverse q) (ap reverse c) t p
  Announced-reverse ten te cl k (by_close e q c) = by_close e (ap reverse q) (ap reverse c)

  Told-Head :
      (out : Bytes) (s : Scribe) (l : List Header)
      → out ≡ s.dst ++ crlf
      → Told s l
      → Head to_str name r orig out s.encoder.kind (reverse l)
  Told-Head out s l e t = record {
    text =
        e
        ∙ ap (λ d. d ++ crlf) (t.text ∙ ap (λ d. orig ++ d) (text_of-reverse l))
        ∙ append_assoc orig (lines_text to_str name r orig (reverse l)) crlf;
    read =
        Announced-by_headers to_str (record r.head { headers = reverse l }) s.encoder.kind
          (subst
            (λ te.
              Announced to_str (is_10 r.head.version) te (get_all is_content_length (reverse l))
                s.encoder.kind)
            (sym (get_all-reverse is_transfer_encoding l))
            (subst
              (λ cl.
                Announced to_str (is_10 r.head.version) (reverse (get_all is_transfer_encoding l))
                  cl s.encoder.kind)
              (sym (get_all-reverse is_content_length l))
              (Announced-reverse (is_10 r.head.version) (get_all is_transfer_encoding l)
                (get_all is_content_length l) s.encoder.kind t.said)));
  }

  Told-date :
      (s : Scribe) (l : List Header)
      → Told s l
      → Told
          (plain_line to_str name r date date_value s)
          (record { name = date; value = date_value } ∷ l)
  unfolding plain_line
  Told-date s l t = record { text = own_line date date_value s l t.text; said = t.said }

  end_head_dated :
      (s : Scribe) → s.wrote_date ≡ true → end_head to_str name r show date_value s ≡ s.dst ++ crlf
  unfolding end_head
  end_head_dated s w = rw (w) refl

  end_head_undated :
      (s : Scribe)
      → s.wrote_date ≡ false
      → end_head to_str name r show date_value s
        ≡ (plain_line to_str name r date date_value s).dst ++ crlf
  unfolding end_head plain_line
  end_head_undated s w = rw (w) (simp append_assoc)

  end_head-Head :
      (s : Scribe) (l : List Header)
      → Told s l
      → (hs : List Header) × Head to_str name r orig
          (end_head to_str name r show date_value s)
          s.encoder.kind
          hs
  unfolding end_head plain_line
  end_head-Head s l t = elim (Bool-cases s.wrote_date) [
    | inl w ↦ (reverse l, Told-Head _ s l (end_head_dated s w) t)
    | inr w ↦ (
      reverse (record { name = date; value = date_value } ∷ l),
      Told-Head _ (plain_line to_str name r date date_value s)
          (record { name = date; value = date_value } ∷ l) (end_head_undated s w) (Told-date s l t),
    )
  ]

  -- The state after the headers and the body's own length.
  abbrev length_told : Scribe → Scribe
  length_told s =
      if not (end_line to_str name r s).wrote_len
      then own_length to_str name r show date_value r.body (end_line to_str name r s)
      else end_line to_str name r s

  length_told-Told :
      (s : Scribe) (l : List Header)
      → Good to_str name r orig s l
      → (l' : List Header) × Told (length_told s) l'
  length_told-Told s l g = elim (Bool-cases s.wrote_len) [
    | inl w ↦ (
      shut_lines to_str name r s l,
      subst (λ x. Told x (shut_lines to_str name r s l))
          (told_pick (end_line to_str name r s).wrote_len
            (own_length to_str name r show date_value r.body (end_line to_str name r s))
            (end_line to_str name r s) true (end_line-wrote_len s ∙ w))
          (headers-Told s l w g),
    )
    | inr w ↦
        let (l', t) = body-Told s l w g in
        (
          l',
          subst (λ x. Told x l')
              (told_pick (end_line to_str name r s).wrote_len
                (own_length to_str name r show date_value r.body (end_line to_str name r s))
                (end_line to_str name r s) false (end_line-wrote_len s ∙ w))
              t,
        )
  ]

  after_headers-told :
      (s : Scribe)
      → after_headers to_str name r show date_value s ≡ (
        end_head to_str name r show date_value (length_told s),
        set_last (length_told s).encoder (length_told s).is_last,
      )
  unfolding after_headers force_empty can_have_body
  after_headers-told s = rw (can) refl

  start-Good :
      (is_last : Bool)
      → Good to_str name r orig (start to_str name r show date_value orig is_last false) []
  start-Good is_last = record {
    written = closed refl (sym (append-nil orig));
    said = nothing refl refl refl refl;
  }

  -- Where the method and the status allow a body, a content-length that the application sets is that of a body
  -- whose length is known, a transfer-encoding that it sets is text, a length is text and is read back as it is
  -- shown: if a server writes a head without a length told before, the head is lines of headers, and by them the
  -- client's decoder is of the encoder's kind, with the same length.
  pub encode_headers-Head :
      (is_last : Bool) (out : Bytes) (enc : Encode.Encoder)
      → AllTrusted to_str name r orig laws can r.head.headers
      → encode_headers to_str name r show date_value orig is_last false ≡ some (out, enc)
      → (hs : List Header) × Head to_str name r orig out enc.kind hs
  unfolding encode_headers drain set_last
  encode_headers-Head is_last out enc t e =
      elim (Option-cases (
        write_headers to_str name r (drain r.head.headers)
          (start to_str name r show date_value orig is_last false))) [
            | inl f ↦ cc (rw (encode_headers, f) at e)
            | inr (s, f) ↦
                let (ls, g) =
                  write_headers-Good to_str name r orig laws can none r.head.headers
                    (start to_str name r show date_value orig is_last false) s [] refl t
                    (start-Good is_last) f in
                let (l, told) = length_told-Told s ls g in
                let (hs, h) = end_head-Head (length_told s) l told in
                let p = sym (after_headers-told s) ∙ some-injective (rw (encode_headers, f) at e) in
                (
                  hs,
                  subst (λ o. Head to_str name r orig o enc.kind hs) (ap (λ x. x.0) p)
                      (subst
                        (λ k.
                          Head to_str name r orig
                            (end_head to_str name r show date_value (length_told s)) k hs)
                        (ap (λ x. x.1.kind) p) h),
                )
          ]
