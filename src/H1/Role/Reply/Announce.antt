-- ===== src/H1/Role/Reply/Announce.antt =====
-- What the headers of a response announce of its body, and what `Client::decoder` of src/proto/h1/role.rs reads there.
use kaiwaehnero.Base.{
  append-nil, ℕ, ◌≡◌, refl, ap, sym, ◌∙◌, Bool, true, false, Option, none, some, List, [], ◌∷◌,
  ◌++◌, Bytes, arith, Bool-cases, inl, inr,
}
use mathlib.Core.List.{reverse, reverse-cons}
use kaiwaehnero.Body.{DecodedLength, checked_new, chunked, close_delimited}
use kaiwaehnero.Http.{
  Header, HeaderName, MessageHead, get_all, is_transfer_encoding, is_content_length,
}
use kaiwaehnero.Headers.{content_length_parse, is_chunked_value, is_chunked}
use kaiwaehnero.Headers.Numbers.{
  content_length_parse_all_values-single, content_length_parse_all_values-nil,
}
use kaiwaehnero.H1.Role.Reply.{Response, crlf}
use kaiwaehnero.H1.Role.Reply.Lines.{line}
use kaiwaehnero.H1.Error.{Try, done, failed, too_large}
use kaiwaehnero.H1.Encode
use kaiwaehnero.H1.Role.Client.{is_10, by_headers, length_of}

-- What is written after the headers stand for a body of that kind.
abbrev pub expected : Encode.Kind → Try (Option (DecodedLength × Bool))
expected Encode.Kind.chunked = done (some (chunked, false))
expected Encode.Kind.close_delimited = done (some (close_delimited, false))
expected (Encode.Kind.length_of n) = elim (checked_new n) [
  | none ↦ failed too_large
  | some d ↦ done (some (d, false))
]

module _ (to_str : Bytes → Option Bytes) where
  -- The transfer-encodings and the content-lengths of a head, and the kind of encoder that goes with them.
  pub data Announced (ten : Bool) (te cl : List Bytes) (k : Encode.Kind) : Type 0 where
    by_chunks :
        (v : Bytes)
        → k ≡ Encode.Kind.chunked
        → ten ≡ false
        → te ≡ v ∷ []
        → cl ≡ []
        → is_chunked_value to_str v ≡ true
        → Announced ten te cl k
    by_length :
        (n : ℕ) (v : Bytes)
        → k ≡ Encode.Kind.length_of n
        → te ≡ []
        → cl ≡ v ∷ []
        → to_str v ≡ some v
        → content_length_parse v ≡ some n
        → Announced ten te cl k
    by_close : k ≡ Encode.Kind.close_delimited → te ≡ [] → cl ≡ [] → Announced ten te cl k

  pub Announced-by_headers :
      (inc : MessageHead) (k : Encode.Kind)
      → Announced
          (is_10 inc.version)
          (get_all is_transfer_encoding inc.headers)
          (get_all is_content_length inc.headers)
          k
      → by_headers to_str inc ≡ expected k
  unfolding by_headers length_of is_chunked
  Announced-by_headers inc k (by_chunks v e t te cl c) = rw (e, te, t, c) refl
  Announced-by_headers inc k (by_length n v e te cl t p) =
      rw (e, te, cl, content_length_parse_all_values-single to_str v n t p) refl
  Announced-by_headers inc k (by_close e te cl) =
      rw (e, te, cl, content_length_parse_all_values-nil to_str, length_of, cl) refl

get_all-append :
    (p : HeaderName → Bool) (a b : List Header) → get_all p (a ++ b) ≡ get_all p a ++ get_all p b
get_all-append p [] b = refl
get_all-append p (h ∷ a) b = let k = get_all-append p a b in ground arith

pub get_all-reverse :
    (p : HeaderName → Bool) (l : List Header) → get_all p (reverse l) ≡ reverse (get_all p l)
get_all-reverse p [] = refl
get_all-reverse p (h ∷ l) = elim (Bool-cases (p h.name)) [
  | inl y ↦
      ap (get_all p) (reverse-cons h l)
      ∙ get_all-append p (reverse l) (h ∷ [])
      ∙ rw (y) (
          ap (λ k. k ++ h.value ∷ []) (get_all-reverse p l)
          ∙ sym (reverse-cons h.value (get_all p l)))
  | inr n ↦
      ap (get_all p) (reverse-cons h l)
      ∙ get_all-append p (reverse l) (h ∷ [])
      ∙ rw (n) (append-nil (get_all p (reverse l)) ∙ get_all-reverse p l)
]

module _ (to_str : Bytes → Option Bytes) (name : HeaderName → Bytes) (r : Response)
    (orig : Bytes) where
  -- The lines in their order.
  abbrev pub lines_text : List Header → Bytes
  lines_text [] = []
  lines_text (h ∷ hs) = line to_str name r h ++ lines_text hs

  -- The bytes after `orig` are those lines and the empty line that ends a head, and a client that reads the lines
  -- takes the body to be of that kind.
  pub record Head (out : Bytes) (k : Encode.Kind) (hs : List Header) : Type 0 where
    pub text : out ≡ orig ++ (lines_text hs ++ crlf)
    pub read : by_headers to_str (record r.head { headers = hs }) ≡ expected k
