-- ===== src/H1/Role/Reply/Length.antt =====
-- The content-length lines of a response, in `Server::encode_headers` of src/proto/h1/role.rs.
use kaiwaehnero.Base.{
  subst, ℕ, ◌≡◌, ◌≢◌, refl, ap, sym, ◌∙◌, true, false, Option, none, some, List, [], ◌∷◌, Bytes,
  arith, Bool-cases, Option-cases, inl, inr,
}
use kaiwaehnero.Http.{
  Header, HeaderName, content_length, BodyLength, known, unknown, get_all, is_transfer_encoding,
  is_content_length, is_head,
}
use kaiwaehnero.Headers.{content_length_parse}
use kaiwaehnero.H1.Encode
use kaiwaehnero.H1.Role.Server.{can_chunked}
use kaiwaehnero.H1.Role.Reply.{
  Method, Scribe, Response, begin_line, parsed_length, length_line, on_length,
}
use kaiwaehnero.H1.Role.Reply.Lines.{Written, closed, opened, begin_line-Written}
use kaiwaehnero.H1.Role.Reply.Step.{
  te_of, cl_of, shut-false, open_head, Said, Good, nothing, sized, chunks,
}

head_cannot : (m : Option Method) (s : ℕ) → is_head m ≡ true → can_chunked m s ≢ true
unfolding can_chunked
head_cannot m s h k = ground arith

module _ (to_str : Bytes → Option Bytes) (name : HeaderName → Bytes) (r : Response)
    (orig : Bytes) where
  pub Said-nothing :
      (s : Scribe) (te cl : List Bytes)
      → s.wrote_len ≡ false
      → Said to_str name r orig s te cl
      → (s.must_write_chunked ≡ false) × (te ≡ []) × (cl ≡ [])
  Said-nothing s te cl w (nothing w' m t l) = (m, t, l)
  Said-nothing s te cl w (sized n v w' m k t l p u) = cc (w, w')
  Said-nothing s te cl w (chunks v w' k i t l x y) = cc (w, w')

  -- The variables after the first content-length.
  abbrev pub first_length : ℕ → Bytes → Option ℕ → Scribe → Scribe
  first_length n v p s = record (begin_line to_str name r content_length v s) {
    encoder = Encode.new (Encode.Kind.length_of n);
    wrote_len = true;
    prev_con_len = p;
  }

  pub Written-same :
      (s s' : Scribe) (hs : List Header)
      → s'.dst ≡ s.dst
      → s'.is_name_written ≡ s.is_name_written
      → s'.cur_name ≡ s.cur_name
      → Written to_str name r orig s hs
      → Written to_str name r orig s' hs
  Written-same s s' hs a b d (closed c e) = closed (b ∙ c) (a ∙ e)
  Written-same s s' hs a b d (opened h rest o cur y q e) =
      opened h rest (b ∙ o) (d ∙ cur) y q (a ∙ e)

  pub first_length-Good :
      (n : ℕ) (v : Bytes) (p : Option ℕ) (s : Scribe) (hs : List Header)
      → s.is_name_written ≡ false
      → s.wrote_len ≡ false
      → s.cur_name ≡ some content_length
      → content_length_parse v ≡ some n
      → (r.body ≡ some unknown → p ≢ none)
      → Good to_str name r orig s hs
      → Good to_str name r orig
          (first_length n v p s)
          (record { name = content_length; value = v } ∷ hs)
  unfolding begin_line Encode.new
  first_length-Good n v p s hs c w cur e u g =
      let (m, t, l) =
        Said-nothing s (te_of to_str name r orig s hs) (cl_of to_str name r orig s hs) w g.said in
      let q = shut-false to_str name r orig s.is_name_written s.must_write_chunked hs c in
      let h : Header = record { name = content_length; value = v } in
      record {
        written =
            Written-same (begin_line to_str name r content_length v s) (first_length n v p s)
              (h ∷ hs) refl refl refl
              (begin_line-Written to_str name r orig content_length v s hs c cur refl g.written);
        said =
            sized n v refl m refl (ap (get_all is_transfer_encoding) (sym q) ∙ t)
              (rw (m) (ap (λ k. v ∷ k) (ap (get_all is_content_length) (sym q) ∙ l))) e u;
      }

  abbrev pub After : Scribe → Type 0
  After s' = (hs' : List Header) × Good to_str name r orig s' hs'

  -- An open line of a length was begun with its number noted.
  pub open_sized :
      (s : Scribe) (hs : List Header)
      → s.is_name_written ≡ true
      → s.cur_name ≡ some content_length
      → s.prev_con_len ≡ none
      → r.body ≡ some unknown
      → ¬ Good to_str name r orig s hs
  open_sized s hs o cur p q g =
      let (h, rest, e, m, y) = open_head to_str name r orig content_length s hs o cur g.written in
      by_said h rest e m g.said
    where
      by_said :
          (h : Header) (rest : List Header)
          → hs ≡ h ∷ rest
          → h.name ≡ content_length
          → ¬ Said to_str name r orig s
              (te_of to_str name r orig s hs)
              (cl_of to_str name r orig s hs)
      by_said h rest e m (nothing w k t l) = ground arith
      by_said h rest e m (sized n v w k i t l a u) = u q p
      by_said h rest e m (chunks v w k i t l x y) = ground arith

  -- A length line is told once: its line begins, or goes on unchanged.
  pub length_line-Good :
      (v : Bytes) (s s' : Scribe) (hs : List Header) (o : Option BodyLength)
      → can_chunked r.req_method r.head.status ≡ true
      → r.body ≡ o
      → ((n : ℕ) → r.body ≡ some (known n) → content_length_parse v ≡ some n)
      → s.cur_name ≡ some content_length
      → (s.is_name_written ≡ false → s.wrote_len ≡ false)
      → Good to_str name r orig s hs
      → length_line to_str name r o v s ≡ some s'
      → After s'
  unfolding length_line parsed_length
  length_line-Good v s s' hs none can q trust cur w g e =
      let k : s ≡ s' = ground (arith, head_cannot r.req_method r.head.status) in
      (hs, subst (λ x. Good to_str name r orig x hs) k g)
  length_line-Good v s s' hs (some (known n)) can q trust cur w g e =
      elim (Bool-cases s.is_name_written) [
        | inl o ↦
            let k : s ≡ s' = ground arith in (hs, subst (λ x. Good to_str name r orig x hs) k g)
        | inr c ↦
            let k : first_length n v s.prev_con_len s ≡ s' = ground arith in
            (
              record { name = content_length; value = v } ∷ hs,
              subst
                  (λ x.
                    Good to_str name r orig x (record { name = content_length; value = v } ∷ hs))
                  k
                  (first_length-Good n v s.prev_con_len s hs c (w c) cur (trust n q)
                    (λ x. cc (x, q)) g),
            )
      ]
  length_line-Good v s s' hs (some unknown) can q trust cur w g e =
      elim (Option-cases (content_length_parse v)) [
        | inl p ↦ cc (rw (length_line, p, parsed_length) at e)
        | inr (len, p) ↦ elim (Option-cases s.prev_con_len) [
          | inr (prev, x) ↦
              let k : s ≡ s' = ground arith in (hs, subst (λ x. Good to_str name r orig x hs) k g)
          | inl x ↦ elim (Bool-cases s.is_name_written) [
            | inl o ↦ absurd (open_sized s hs o cur x q g)
            | inr c ↦
                let k : first_length len v (some len) s ≡ s' = ground arith in
                (
                  record { name = content_length; value = v } ∷ hs,
                  subst
                      (λ x.
                        Good to_str name r orig x
                          (record { name = content_length; value = v } ∷ hs))
                      k (first_length-Good len v (some len) s hs c (w c) cur p (λ a b. cc b) g),
                )
          ]
        ]
      ]

  pub on_length-Good :
      (v : Bytes) (s s' : Scribe) (hs : List Header)
      → can_chunked r.req_method r.head.status ≡ true
      → ((n : ℕ) → r.body ≡ some (known n) → content_length_parse v ≡ some n)
      → s.cur_name ≡ some content_length
      → Good to_str name r orig s hs
      → on_length to_str name r v s ≡ some s'
      → After s'
  unfolding on_length
  on_length-Good v s s' hs can trust cur g e =
      length_line-Good v s s' hs r.body can refl trust cur (λ c. ground arith) g (ground arith)
