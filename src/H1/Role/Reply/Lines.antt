-- ===== src/H1/Role/Reply/Lines.antt =====
-- The header lines that `Server::encode_headers` of src/proto/h1/role.rs has written, behind the bytes.
use kaiwaehnero.Base.{
  ◌≡◌, refl, ap, ◌∙◌, Bool, true, false, Option, some, List, [], ◌∷◌, ◌++◌, Bytes, append_assoc,
  if◌then◌else◌,
}
use kaiwaehnero.Http.{Header, HeaderName, transfer_encoding, content_length, connection}
use kaiwaehnero.Headers.{chunked_text}
use kaiwaehnero.H1.Role.Reply.{
  Scribe, crlf, colon, comma, begin_line, add_value, plain_line, end_line, new_name, Response,
}

-- The names whose values share a line.
abbrev pub may_open : HeaderName → Bool
may_open transfer_encoding = true
may_open content_length = true
may_open connection = true
may_open _ = false

module _ (to_str : Bytes → Option Bytes) (name : HeaderName → Bytes) (r : Response) where
  -- The lines, the last one first, as they stand in the message.
  abbrev pub line : Header → Bytes
  line h = name h.name ++ (colon ++ (h.value ++ crlf))

  abbrev pub text_of : List Header → Bytes
  text_of [] = []
  text_of (h ∷ hs) = text_of hs ++ line h

  -- The bytes after `orig` are the lines `hs`, of which the last may want its end.
  pub data Written (orig : Bytes) (s : Scribe) (hs : List Header) : Type 0 where
    closed : s.is_name_written ≡ false → s.dst ≡ orig ++ text_of hs → Written orig s hs
    opened :
        (h : Header) (rest : List Header)
        → s.is_name_written ≡ true
        → s.cur_name ≡ some h.name
        → may_open h.name ≡ true
        → hs ≡ h ∷ rest
        → s.dst ≡ (orig ++ text_of rest) ++ (name h.name ++ (colon ++ h.value))
        → Written orig s hs

  -- The lines as they are once the last has its end.
  abbrev pub more : Bool → Bytes → Bytes
  more true v = v ++ (comma ++ chunked_text)
  more false v = v

  abbrev pub shut : Bool → Bool → List Header → List Header
  shut false must hs = hs
  shut true must [] = []
  shut true must (h ∷ hs) = record h { value = more must h.value } ∷ hs

  abbrev pub shut_lines : Scribe → List Header → List Header
  shut_lines s hs = shut s.is_name_written s.must_write_chunked hs

  end_text :
      (must : Bool) (a n v : Bytes)
      → (a ++ (n ++ (colon ++ v))) ++ (if must then comma ++ (chunked_text ++ crlf) else crlf)
        ≡ a ++ (n ++ (colon ++ (more must v ++ crlf)))
  end_text true a n v = simp append_assoc
  end_text false a n v = simp append_assoc

  pub end_line-text :
      (orig : Bytes) (s : Scribe) (hs : List Header)
      → Written orig s hs
      → (end_line to_str name r s).dst ≡ orig ++ text_of (shut_lines s hs)
  unfolding end_line
  end_line-text orig s hs (closed c e) = rw (c) e
  end_line-text orig s hs (opened h rest o n y q e) =
      rw (o, q)
        (ap (λ d. d ++ (if s.must_write_chunked then comma ++ (chunked_text ++ crlf) else crlf)) e
          ∙ end_text s.must_write_chunked (orig ++ text_of rest) (name h.name) h.value
          ∙ append_assoc orig (text_of rest)
              (line (record h { value = more s.must_write_chunked h.value })))

  pub new_name-Written :
      (orig : Bytes) (n : HeaderName) (s : Scribe) (hs : List Header)
      → Written orig s hs
      → Written orig (new_name to_str name r (some n) s) (shut_lines s hs)
  unfolding new_name
  new_name-Written orig n s hs w = closed refl (end_line-text orig s hs w)

  pub plain_line-Written :
      (orig : Bytes) (n : HeaderName) (v : Bytes) (s : Scribe) (hs : List Header)
      → s.is_name_written ≡ false
      → Written orig s hs
      → Written orig (plain_line to_str name r n v s) (record { name = n; value = v } ∷ hs)
  unfolding plain_line
  plain_line-Written orig n v s hs c (closed c' e) = closed c (
      ap (λ d. d ++ (name n ++ (colon ++ (v ++ crlf)))) e
      ∙ append_assoc orig (text_of hs) (name n ++ (colon ++ (v ++ crlf))))
  plain_line-Written orig n v s hs c (opened h rest o m y q e) = cc (c, o)

  pub begin_line-Written :
      (orig : Bytes) (n : HeaderName) (v : Bytes) (s : Scribe) (hs : List Header)
      → s.is_name_written ≡ false
      → s.cur_name ≡ some n
      → may_open n ≡ true
      → Written orig s hs
      → Written orig (begin_line to_str name r n v s) (record { name = n; value = v } ∷ hs)
  unfolding begin_line
  begin_line-Written orig n v s hs c cur may (closed c' e) =
      opened (record { name = n; value = v }) hs refl cur may refl
        (ap (λ d. d ++ (name n ++ (colon ++ v))) e)
  begin_line-Written orig n v s hs c cur may (opened h rest o m y q e) = cc (c, o)

  abbrev pub add_to : Bytes → List Header → List Header
  add_to v [] = []
  add_to v (h ∷ hs) = record h { value = h.value ++ (comma ++ v) } ∷ hs

  pub add_value-Written :
      (orig : Bytes) (v : Bytes) (s : Scribe) (hs : List Header)
      → s.is_name_written ≡ true
      → Written orig s hs
      → Written orig (add_value to_str name r v s) (add_to v hs)
  unfolding add_value
  add_value-Written orig v s hs o (closed c e) = cc (c, o)
  add_value-Written orig v s hs o (opened h rest o' cur y q e) =
      opened (record h { value = h.value ++ (comma ++ v) }) rest o cur y (rw (q) refl)
        (ap (λ d. d ++ (comma ++ v)) e ∙ simp append_assoc)
