-- ===== src/H1/Role/Reply/Coding.antt =====
-- The transfer-encoding lines of a response, in `Server::encode_headers` of src/proto/h1/role.rs, and what any header does.
use kaiwaehnero.Base.{
  subst, ℕ, ◌≡◌, refl, ap, sym, ◌∙◌, Bool, true, false, not, Option, some, List, [], ◌∷◌, ◌++◌,
  Bytes, arith, Bool-cases, inl, inr, some-injective,
}
use kaiwaehnero.Http.{
  Header, HeaderName, transfer_encoding, content_length, connection, expect, upgrade, date,
  other_header, known, get_all, is_transfer_encoding, is_content_length,
}
use kaiwaehnero.Headers.{chunked_text, content_length_parse, is_chunked_value}
use kaiwaehnero.Headers.Split.{IsToStr, is_chunked_value-comma, is_chunked_value-append}
use kaiwaehnero.H1.Encode
use kaiwaehnero.H1.Role.Server.{can_chunked}
use kaiwaehnero.H1.Role.Client.{is_10}
use kaiwaehnero.H1.Role.Reply.{
  Scribe, Response, comma, begin_line, add_value, plain_line, on_encoding, on_value,
}
use kaiwaehnero.H1.Role.Reply.Lines.{may_open, more, add_to, begin_line-Written, add_value-Written}
use kaiwaehnero.H1.Role.Reply.Step.{
  te_of, cl_of, Said-same, shut-false, plain_line-Good, open_head, on_connection-Good, Said, Good,
  nothing, sized, chunks,
}
use kaiwaehnero.H1.Role.Reply.Length.{Said-nothing, Written-same, After, on_length-Good}

module _ (to_str : Bytes → Option Bytes) (name : HeaderName → Bytes) (r : Response)
    (orig : Bytes) where
  abbrev encoding_begun : Bytes → Scribe → Scribe
  encoding_begun v s = begin_line to_str name r transfer_encoding v (record s {
    wrote_len = true;
    must_write_chunked = not (is_chunked_value to_str v);
    encoder = Encode.new Encode.Kind.chunked;
  })

  abbrev encoding_added : Bytes → Scribe → Scribe
  encoding_added v s =
      add_value to_str name r v
        (record s { wrote_len = true; must_write_chunked = not (is_chunked_value to_str v) })

  module _ (laws : IsToStr to_str) where
    -- With its end, a line of encodings is text and says chunked.
    more_chunked :
        (v : Bytes)
        → to_str v ≡ some v
        → (to_str (more to_str name r (not (is_chunked_value to_str v)) v)
            ≡ some (more to_str name r (not (is_chunked_value to_str v)) v))
          × (is_chunked_value to_str (more to_str name r (not (is_chunked_value to_str v)) v)
              ≡ true)
    more_chunked v t = elim (Bool-cases (is_chunked_value to_str v)) [
      | inl c ↦ rw (c) (t, c)
      | inr c ↦
          let all =
            laws.joined v (comma ++ chunked_text) t
              (laws.joined comma chunked_text laws.comma laws.chunked) in
          rw (c) (all, is_chunked_value-append to_str v all)
    ]

    begun-Good :
        (v : Bytes) (s : Scribe) (hs : List Header)
        → to_str v ≡ some v
        → is_10 r.head.version ≡ false
        → s.cur_name ≡ some transfer_encoding
        → s.is_name_written ≡ false
        → s.wrote_len ≡ false
        → Good to_str name r orig s hs
        → Good to_str name r orig
            (encoding_begun v s)
            (record { name = transfer_encoding; value = v } ∷ hs)
    unfolding begin_line Encode.new
    begun-Good v s hs t i cur c w g =
        let (m, te, cl) =
          Said-nothing to_str name r orig s (te_of to_str name r orig s hs)
            (cl_of to_str name r orig s hs) w g.said in
        let q = shut-false to_str name r orig s.is_name_written s.must_write_chunked hs c in
        let (x, y) = more_chunked v t in
        record {
          written =
              Written-same to_str name r orig (begin_line to_str name r transfer_encoding v s)
                (encoding_begun v s) (record { name = transfer_encoding; value = v } ∷ hs) refl refl
                refl
                (begin_line-Written to_str name r orig transfer_encoding v s hs c cur refl
                  g.written);
          said =
              chunks (more to_str name r (not (is_chunked_value to_str v)) v) refl refl i
                (ap (λ k. more to_str name r (not (is_chunked_value to_str v)) v ∷ k)
                  (ap (get_all is_transfer_encoding) (sym q) ∙ te))
                (ap (get_all is_content_length) (sym q) ∙ cl) x y;
        }

    -- The text of the open line of encodings, and that it is the only one.
    open_chunks :
        (s : Scribe) (h : Header) (rest : List Header)
        → s.is_name_written ≡ true
        → h.name ≡ transfer_encoding
        → Said to_str name r orig s
            (te_of to_str name r orig s (h ∷ rest))
            (cl_of to_str name r orig s (h ∷ rest))
        → (to_str h.value ≡ some h.value)
          × (get_all is_transfer_encoding rest ≡ [])
          × (get_all is_content_length rest ≡ [])
          × (is_10 r.head.version ≡ false)
          × (s.encoder.kind ≡ Encode.Kind.chunked)
    open_chunks s h rest o m (nothing w k t l) = absurd (ground arith)
    open_chunks s h rest o m (sized n v w k i t l a u) = absurd (ground arith)
    open_chunks s h rest o m (chunks v w k i t l x y) =
        let e : more to_str name r s.must_write_chunked h.value ≡ v = ground arith in
        (
          more_prefix s.must_write_chunked h.value (subst (λ z. to_str z ≡ some z) (sym e) x),
          ground arith,
          ground arith,
          i,
          k,
        )
      where
        more_prefix :
            (must : Bool) (z : Bytes)
            → to_str (more to_str name r must z) ≡ some (more to_str name r must z)
            → to_str z ≡ some z
        more_prefix true z p = laws.prefix z (comma ++ chunked_text) p
        more_prefix false z p = p

    added_chunked :
        (w v : Bytes)
        → to_str w ≡ some w
        → to_str v ≡ some v
        → (to_str (w ++ (comma ++ v)) ≡ some (w ++ (comma ++ v)))
          × (is_chunked_value to_str (w ++ (comma ++ v)) ≡ is_chunked_value to_str v)
    added_chunked w v p q =
        let all = laws.joined w (comma ++ v) p (laws.joined comma v laws.comma q) in
        (all, is_chunked_value-comma to_str w v all q)

    added-Good :
        (v : Bytes) (s : Scribe) (hs : List Header)
        → to_str v ≡ some v
        → s.cur_name ≡ some transfer_encoding
        → s.is_name_written ≡ true
        → Good to_str name r orig s hs
        → Good to_str name r orig (encoding_added v s) (add_to to_str name r v hs)
    unfolding add_value
    added-Good v s hs t cur o g =
        let (h, rest, q, m, y) =
          open_head to_str name r orig transfer_encoding s hs o cur g.written in
        let (text, te, cl, i, k) = open_chunks s h rest o m (
          subst
            (λ l.
              Said to_str name r orig s (te_of to_str name r orig s l)
                (cl_of to_str name r orig s l))
            q g.said) in
        let (all, same) = added_chunked h.value v text t in
        let (x, z) = more_chunked (h.value ++ (comma ++ v)) all in
        let must : Bool = not (is_chunked_value to_str v) in
        let b : not (is_chunked_value to_str (h.value ++ (comma ++ v))) ≡ must = ap not same in
        record {
          written =
              Written-same to_str name r orig (add_value to_str name r v s) (encoding_added v s)
                (add_to to_str name r v hs) refl refl refl
                (add_value-Written to_str name r orig v s hs o g.written);
          said =
              chunks (more to_str name r must (h.value ++ (comma ++ v))) refl k i (ground arith)
                (ground arith)
                (subst
                  (λ u.
                    to_str (more to_str name r u (h.value ++ (comma ++ v)))
                    ≡ some (more to_str name r u (h.value ++ (comma ++ v))))
                  b x)
                (subst
                  (λ u.
                    is_chunked_value to_str (more to_str name r u (h.value ++ (comma ++ v))) ≡ true)
                  b z);
        }

    on_encoding-Good :
        (v : Bytes) (s s' : Scribe) (hs : List Header)
        → can_chunked r.req_method r.head.status ≡ true
        → to_str v ≡ some v
        → s.cur_name ≡ some transfer_encoding
        → Good to_str name r orig s hs
        → on_encoding to_str name r v s ≡ some s'
        → After to_str name r orig s'
    unfolding on_encoding
    on_encoding-Good v s s' hs can t cur g e = elim (Bool-cases (is_10 r.head.version)) [
      | inl ten ↦
          let k : s ≡ s' = ground arith in (hs, subst (λ x. Good to_str name r orig x hs) k g)
      | inr i ↦ elim (Bool-cases s.is_name_written) [
        | inl o ↦
            let k : encoding_added v s ≡ s' = ground arith in
            (
              add_to to_str name r v hs,
              subst (λ x. Good to_str name r orig x (add_to to_str name r v hs)) k
                  (added-Good v s hs t cur o g),
            )
        | inr c ↦
            let k : encoding_begun v s ≡ s' = ground arith in
            let h : Header = record { name = transfer_encoding; value = v } in
            (
              h ∷ hs,
              subst (λ x. Good to_str name r orig x (h ∷ hs)) k
                  (begun-Good v s hs t i cur c (ground arith) g),
            )
      ]
    ]

    -- What a value has to be: a length that the body's own agrees with, an encoding that is text.
    pub record Trusted (n : HeaderName) (v : Bytes) : Type 0 where
      pub length :
          is_content_length n ≡ true
          → (k : ℕ) → r.body ≡ some (known k)
          → content_length_parse v ≡ some k
      pub text : is_transfer_encoding n ≡ true → to_str v ≡ some v

    not_open :
        (n : HeaderName) (s : Scribe) (hs : List Header)
        → may_open n ≡ false
        → s.cur_name ≡ some n
        → Good to_str name r orig s hs
        → s.is_name_written ≡ false
    not_open n s hs m cur g = elim (Bool-cases s.is_name_written) [
      | inl o ↦
          let (h, rest, q, k, y) = open_head to_str name r orig n s hs o cur g.written in cc (m, y)
      | inr c ↦ c
    ]

    plain-After :
        (n : HeaderName) (v : Bytes) (s s1 s' : Scribe) (hs : List Header)
        → may_open n ≡ false
        → is_transfer_encoding n ≡ false
        → is_content_length n ≡ false
        → s.cur_name ≡ some n
        → Good to_str name r orig s hs
        → Good to_str name r orig s1 hs
        → s1.is_name_written ≡ s.is_name_written
        → some (plain_line to_str name r n v s1) ≡ some s'
        → After to_str name r orig s'
    plain-After n v s s1 s' hs m t l cur g g1 same e =
        let h : Header = record { name = n; value = v } in
        (
          h ∷ hs,
          subst (λ x. Good to_str name r orig x (h ∷ hs)) (some-injective e)
              (plain_line-Good to_str name r orig n v s1 hs t l (same ∙ not_open n s hs m cur g)
                g1),
        )

    Good-date :
        (s : Scribe) (hs : List Header)
        → Good to_str name r orig s hs
        → Good to_str name r orig (record s { wrote_date = true }) hs
    Good-date s hs g = record {
      written =
          Written-same to_str name r orig s (record s { wrote_date = true }) hs refl refl refl
            g.written;
      said =
          Said-same to_str name r orig s (record s { wrote_date = true })
            (te_of to_str name r orig s hs) (te_of to_str name r orig s hs)
            (cl_of to_str name r orig s hs) (cl_of to_str name r orig s hs) refl refl refl refl refl
            refl g.said;
    }

    pub on_value-Good :
        (n : HeaderName) (v : Bytes) (s s' : Scribe) (hs : List Header)
        → can_chunked r.req_method r.head.status ≡ true
        → Trusted n v
        → s.cur_name ≡ some n
        → Good to_str name r orig s hs
        → on_value to_str name r n v s ≡ some s'
        → After to_str name r orig s'
    unfolding on_value
    on_value-Good content_length v s s' hs can t cur g e =
        on_length-Good to_str name r orig v s s' hs can (t.length refl) cur g e
    on_value-Good transfer_encoding v s s' hs can t cur g e =
        on_encoding-Good v s s' hs can (t.text refl) cur g e
    on_value-Good connection v s s' hs can t cur g e =
        let (hs', g') = on_connection-Good to_str name r orig v s hs cur g in
        (hs', subst (λ x. Good to_str name r orig x hs') (some-injective e) g')
    on_value-Good date v s s' hs can t cur g e =
        plain-After date v s (record s { wrote_date = true }) s' hs refl refl refl cur g
          (Good-date s hs g) refl e
    on_value-Good expect v s s' hs can t cur g e =
        plain-After expect v s s s' hs refl refl refl cur g g refl e
    on_value-Good upgrade v s s' hs can t cur g e =
        plain-After upgrade v s s s' hs refl refl refl cur g g refl e
    on_value-Good (other_header x) v s s' hs can t cur g e =
        plain-After (other_header x) v s s s' hs refl refl refl cur g g refl e
