-- ===== src/H1/Role/Reply/Step.antt =====
-- What one header of a response does to the body's length in `Server::encode_headers` of src/proto/h1/role.rs.
use kaiwaehnero.Base.{
  ◌&&◌, subst, ℕ, ◌≡◌, ◌≢◌, refl, ap, sym, ◌∙◌, Bool, true, false, not, Option, none, some, List,
  [], ◌∷◌, Bytes, arith, if◌then◌else◌, Bool-cases, inl, inr, some-injective,
}
use kaiwaehnero.Http.{
  Header, HeaderName, connection, unknown, get_all, is_transfer_encoding, is_content_length,
}
use kaiwaehnero.Headers.{content_length_parse, is_chunked_value, connection_close}
use kaiwaehnero.H1.Encode
use kaiwaehnero.H1.Role.Client.{is_10}
use kaiwaehnero.H1.Role.Reply.{
  Scribe, Response, begin_line, add_value, plain_line, end_line, new_name, on_connection,
}
use kaiwaehnero.H1.Role.Reply.Lines.{
  Written, closed, opened, may_open, shut, shut_lines, add_to, new_name-Written, plain_line-Written,
  begin_line-Written, add_value-Written,
}

-- The branch that a test takes.
pick {ℓ} :
    {A : Type ℓ} (b : Bool) (x y : A) (c : Bool)
    → b ≡ c
    → (if c then x else y) ≡ (if b then x else y)
pick b x y c h = rw (h) refl

module _ (to_str : Bytes → Option Bytes) (name : HeaderName → Bytes) (r : Response)
    (orig : Bytes) where
  -- What the lines say of the body, and the variables with them: nothing yet, or one content-length, or one
  -- transfer-encoding that ends in chunked.
  pub data Said (s : Scribe) (te cl : List Bytes) : Type 0 where
    nothing : s.wrote_len ≡ false → s.must_write_chunked ≡ false → te ≡ [] → cl ≡ [] → Said s te cl
    sized :
        (n : ℕ) (v : Bytes)
        → s.wrote_len ≡ true
        → s.must_write_chunked ≡ false
        → s.encoder.kind ≡ Encode.Kind.length_of n
        → te ≡ []
        → cl ≡ v ∷ []
        → content_length_parse v ≡ some n
        → (r.body ≡ some unknown → s.prev_con_len ≢ none)
        → Said s te cl
    chunks :
        (v : Bytes)
        → s.wrote_len ≡ true
        → s.encoder.kind ≡ Encode.Kind.chunked
        → is_10 r.head.version ≡ false
        → te ≡ v ∷ []
        → cl ≡ []
        → to_str v ≡ some v
        → is_chunked_value to_str v ≡ true
        → Said s te cl

  abbrev pub te_of : Scribe → List Header → List Bytes
  te_of s hs = get_all is_transfer_encoding (shut_lines to_str name r s hs)

  abbrev pub cl_of : Scribe → List Header → List Bytes
  cl_of s hs = get_all is_content_length (shut_lines to_str name r s hs)

  pub record Good (s : Scribe) (hs : List Header) : Type 0 where
    pub written : Written to_str name r orig s hs
    pub said : Said s (te_of s hs) (cl_of s hs)

  -- The variables that `Said` looks at.
  pub Said-same :
      (s s' : Scribe) (te te' cl cl' : List Bytes)
      → s'.wrote_len ≡ s.wrote_len
      → s'.must_write_chunked ≡ s.must_write_chunked
      → s'.encoder ≡ s.encoder
      → s'.prev_con_len ≡ s.prev_con_len
      → te' ≡ te
      → cl' ≡ cl
      → Said s te cl
      → Said s' te' cl'
  Said-same s s' te te' cl cl' a b c d e f (nothing w m t l) =
      nothing (a ∙ w) (b ∙ m) (e ∙ t) (f ∙ l)
  Said-same s s' te te' cl cl' a b c d e f (sized n v w m k t l p u) =
      sized n v (a ∙ w) (b ∙ m) (ap (λ e. e.kind) c ∙ k) (e ∙ t) (f ∙ l) p (λ x y. u x (sym d ∙ y))
  Said-same s s' te te' cl cl' a b c d e f (chunks v w k i t l x y) =
      chunks v (a ∙ w) (ap (λ e. e.kind) c ∙ k) i (e ∙ t) (f ∙ l) x y

  pub shut-false : (b m : Bool) (hs : List Header) → b ≡ false → shut to_str name r b m hs ≡ hs
  shut-false b m hs h = rw (h) refl

  pub new_name-Good :
      (n : HeaderName) (s : Scribe) (hs : List Header)
      → Good s hs
      → Good (new_name to_str name r (some n) s) (shut_lines to_str name r s hs)
  unfolding new_name end_line
  new_name-Good n s hs g = record {
    written = new_name-Written to_str name r orig n s hs g.written;
    said =
        Said-same s (new_name to_str name r (some n) s) (te_of s hs) (te_of s hs) (cl_of s hs)
          (cl_of s hs) (ground arith) (ground arith) (ground arith) (ground arith) refl refl g.said;
  }

  -- A line of its own that says nothing of the body.
  pub plain_line-Good :
      (n : HeaderName) (v : Bytes) (s : Scribe) (hs : List Header)
      → is_transfer_encoding n ≡ false
      → is_content_length n ≡ false
      → s.is_name_written ≡ false
      → Good s hs
      → Good (plain_line to_str name r n v s) (record { name = n; value = v } ∷ hs)
  unfolding plain_line
  plain_line-Good n v s hs t l c g = record {
    written = plain_line-Written to_str name r orig n v s hs c g.written;
    said =
        Said-same s (plain_line to_str name r n v s) (te_of s hs)
          (te_of (plain_line to_str name r n v s) (record { name = n; value = v } ∷ hs))
          (cl_of s hs)
          (cl_of (plain_line to_str name r n v s) (record { name = n; value = v } ∷ hs)) refl refl
          refl refl
          (ap (get_all is_transfer_encoding) (
              shut-false s.is_name_written s.must_write_chunked
                (record { name = n; value = v } ∷ hs) c)
            ∙ rw (t) (
                ap (get_all is_transfer_encoding)
                  (sym (shut-false s.is_name_written s.must_write_chunked hs c))))
          (ap (get_all is_content_length) (
              shut-false s.is_name_written s.must_write_chunked
                (record { name = n; value = v } ∷ hs) c)
            ∙ rw (l) (
                ap (get_all is_content_length)
                  (sym (shut-false s.is_name_written s.must_write_chunked hs c))))
          g.said;
  }

  -- A line that says nothing of the body, and may go on.
  pub begin_line-other :
      (n : HeaderName) (v : Bytes) (s : Scribe) (hs : List Header)
      → is_transfer_encoding n ≡ false
      → is_content_length n ≡ false
      → may_open n ≡ true
      → s.is_name_written ≡ false
      → s.cur_name ≡ some n
      → Good s hs
      → Good (begin_line to_str name r n v s) (record { name = n; value = v } ∷ hs)
  unfolding begin_line
  begin_line-other n v s hs t l y c cur g = record {
    written = begin_line-Written to_str name r orig n v s hs c cur y g.written;
    said =
        Said-same s (begin_line to_str name r n v s) (te_of s hs)
          (te_of (begin_line to_str name r n v s) (record { name = n; value = v } ∷ hs))
          (cl_of s hs)
          (cl_of (begin_line to_str name r n v s) (record { name = n; value = v } ∷ hs)) refl refl
          refl refl
          (rw (t) (
            ap (get_all is_transfer_encoding)
              (sym (shut-false s.is_name_written s.must_write_chunked hs c))))
          (rw (l) (
            ap (get_all is_content_length)
              (sym (shut-false s.is_name_written s.must_write_chunked hs c))))
          g.said;
  }

  -- The head of the lines is open under the current name.
  pub open_head :
      (n : HeaderName) (s : Scribe) (hs : List Header)
      → s.is_name_written ≡ true
      → s.cur_name ≡ some n
      → Written to_str name r orig s hs
      → (h : Header) × (rest : List Header) × (hs ≡ h ∷ rest) × (h.name ≡ n) × (may_open n ≡ true)
  open_head n s hs o cur (closed c e) = cc (o, c)
  open_head n s hs o cur (opened h rest o' cur' y q e) =
      let m : h.name ≡ n = some-injective (sym cur' ∙ cur) in (h, rest, q, m, rw (← m) y)

  pub add_value-other :
      (n : HeaderName) (v : Bytes) (s : Scribe) (hs : List Header)
      → is_transfer_encoding n ≡ false
      → is_content_length n ≡ false
      → s.is_name_written ≡ true
      → s.cur_name ≡ some n
      → Good s hs
      → Good (add_value to_str name r v s) (add_to to_str name r v hs)
  unfolding add_value
  add_value-other n v s hs t l o cur g =
      let (h, rest, q, m, y) = open_head n s hs o cur g.written in
      record {
        written = add_value-Written to_str name r orig v s hs o g.written;
        said =
            Said-same s (add_value to_str name r v s) (te_of s hs)
              (te_of (add_value to_str name r v s) (add_to to_str name r v hs)) (cl_of s hs)
              (cl_of (add_value to_str name r v s) (add_to to_str name r v hs)) refl refl refl refl
              (ground arith) (ground arith) g.said;
      }

  pub Good-last :
      (b : Bool) (s : Scribe) (hs : List Header) → Good s hs → Good (record s { is_last = b }) hs
  Good-last b s hs g = record {
    written = by_written g.written;
    said =
        Said-same s (record s { is_last = b }) (te_of s hs) (te_of s hs) (cl_of s hs) (cl_of s hs)
          refl refl refl refl refl refl g.said;
  }
    where
      by_written :
          Written to_str name r orig s hs → Written to_str name r orig (record s { is_last = b }) hs
      by_written (closed c e) = closed c e
      by_written (opened h rest o cur y q e) = opened h rest o cur y q e

  pub on_connection-Good :
      (v : Bytes) (s : Scribe) (hs : List Header)
      → s.cur_name ≡ some connection
      → Good s hs
      → (hs' : List Header) × Good (on_connection to_str name r v s) hs'
  unfolding on_connection
  on_connection-Good v s hs cur g =
      let b : Bool = if not s.is_last && connection_close to_str v then true else s.is_last in
      let g' = Good-last b s hs g in
      elim (Bool-cases s.is_name_written) [
        | inl o ↦ (
          add_to to_str name r v hs,
          subst (λ x. Good x (add_to to_str name r v hs))
              (pick s.is_name_written (add_value to_str name r v (record s { is_last = b }))
                (begin_line to_str name r connection v (record s { is_last = b })) true o)
              (add_value-other connection v (record s { is_last = b }) hs refl refl o cur g'),
        )
        | inr c ↦ (
          record { name = connection; value = v } ∷ hs,
          subst (λ x. Good x (record { name = connection; value = v } ∷ hs))
              (pick s.is_name_written (add_value to_str name r v (record s { is_last = b }))
                (begin_line to_str name r connection v (record s { is_last = b })) false c)
              (begin_line-other connection v (record s { is_last = b }) hs refl refl refl c cur g'),
        )
      ]
