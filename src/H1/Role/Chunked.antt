-- ===== src/H1/Role/Chunked.antt =====
-- What a server makes of the transfer-encoding that `Client::set_length` of src/proto/h1/role.rs sends.
use kaiwaehnero.Base.{
  ℕ, ◌≡◌, ◌≢◌, refl, ap, ◌∙◌, sym, true, false, Option, none, some, Bytes, List, [], ◌∷◌, ◌++◌,
  Bool-cases, some-injective, inl, inr, arith, is_empty,
}
use kaiwaehnero.Http.{
  Header, is_transfer_encoding, is_content_length, get_all, MessageHead, BodyLength, known, unknown,
}
use kaiwaehnero.Headers.{
  last, is_chunked, is_chunked_value, chunked_text, content_length_parse_all_values,
}
use kaiwaehnero.Headers.Split.{
  last-cons, and_chunked, is_chunked_value-append, is_chunked_value-text,
}
use kaiwaehnero.H1.Role.Rules.{get_all-remove_length}
use kaiwaehnero.H1.Role.Client.{
  add_chunked, contains, set_length, with_transfer_encoding, without_transfer_encoding,
  set_content_length, is_11, rarely_has_body,
}

get_all-some :
    (hs : List Header)
    → contains is_transfer_encoding hs ≡ true
    → get_all is_transfer_encoding hs ≢ []
get_all-some hs h e = cc (rw (e) at h)

last-some : (l : List Bytes) → l ≢ [] → (v : Bytes) × (last l ≡ some v)
last-some [] h = absurd (h refl)
last-some (x ∷ []) h = (x, refl)
last-some (x ∷ y ∷ l) h = last-some (y ∷ l) (λ e. cc)

last-nonempty : (l : List Bytes) (v : Bytes) → last l ≡ some v → l ≢ []
last-nonempty [] v h e = cc
last-nonempty (x ∷ l) v h e = cc

pub is_empty-nil : (l : List Bytes) → is_empty l ≡ true → l ≡ []
is_empty-nil [] h = refl
is_empty-nil (x ∷ l) h = cc

-- `add_chunked` writes to the last line.
last-add_chunked :
    (hs : List Header) (v : Bytes)
    → last (get_all is_transfer_encoding hs) ≡ some v
    → last (get_all is_transfer_encoding (add_chunked hs)) ≡ some (v ++ and_chunked)
last-add_chunked [] v h = cc
last-add_chunked (x ∷ hs) v h = elim (Bool-cases (is_transfer_encoding x.name)) [
  | inr other ↦ rw (other) (rw (other) (last-add_chunked hs v (rw (other) at h)))
  | inl te ↦ elim (Bool-cases (is_empty (get_all is_transfer_encoding hs))) [
    | inl nil ↦
        let e = is_empty-nil (get_all is_transfer_encoding hs) nil in
        let q : some x.value ≡ some v = rw (te, e) at h in
        rw (te, e) (rw (te, e) (ap (λ u. some (u ++ and_chunked)) (some-injective q)))
    | inr go ↦
        let l = get_all is_transfer_encoding hs in
        let n : l ≢ [] = λ e. cc (rw (e) at go) in
        let k = last-add_chunked hs v (sym (last-cons x.value l n) ∙ (rw (te) at h)) in
        rw (te, go)
          (rw (te) (
            last-cons x.value (get_all is_transfer_encoding (add_chunked hs)) (last-nonempty _ _ k)
            ∙ k))
  ]
]

module _ (to_str : Bytes → Option Bytes) where
  is_chunked-last :
      (l : List Bytes) (v : Bytes)
      → last l ≡ some v
      → is_chunked_value to_str v ≡ true
      → is_chunked to_str l ≡ true
  unfolding is_chunked
  is_chunked-last l v h k = rw (is_chunked, h) k

  module _ (show : ℕ → Bytes) (text : to_str chunked_text ≡ some chunked_text)
      (more_text : (v : Bytes)
        → to_str v ≡ some v
        → to_str (v ++ and_chunked) ≡ some (v ++ and_chunked)) where
    add_chunked-is_chunked :
        (hs : List Header)
        → contains is_transfer_encoding hs ≡ true
        → ((v : Bytes) → last (get_all is_transfer_encoding hs) ≡ some v → to_str v ≡ some v)
        → is_chunked to_str (get_all is_transfer_encoding (add_chunked hs)) ≡ true
    add_chunked-is_chunked hs te read =
        let (v, e) = last-some (get_all is_transfer_encoding hs) (get_all-some hs te) in
        is_chunked-last (get_all is_transfer_encoding (add_chunked hs)) (v ++ and_chunked)
          (last-add_chunked hs v e) (is_chunked_value-append to_str v (more_text v (read v e)))

    with-is_chunked :
        (hs : List Header) (len : Option ℕ)
        → contains is_transfer_encoding hs ≡ true
        → ((v : Bytes) → last (get_all is_transfer_encoding hs) ≡ some v → to_str v ≡ some v)
        → is_chunked to_str
            (get_all is_transfer_encoding (with_transfer_encoding to_str show hs len).0)
          ≡ true
    unfolding with_transfer_encoding
    with-is_chunked hs len te read = ground (
      arith,
      add_chunked-is_chunked hs te read,
      get_all-remove_length hs,
      get_all-remove_length (add_chunked hs),
    )

    without-is_chunked :
        (h : MessageHead) (b : BodyLength) (len : Option ℕ)
        → contains is_transfer_encoding h.headers ≡ false
        → contains is_transfer_encoding (without_transfer_encoding to_str show h b len).0 ≡ true
        → is_chunked to_str
            (get_all is_transfer_encoding (without_transfer_encoding to_str show h b len).0)
          ≡ true
    unfolding without_transfer_encoding set_content_length
    without-is_chunked h b (some len) n te = cc (n, te)
    without-is_chunked h (known len) none n te = ground (arith, get_all-remove_length h.headers)
    without-is_chunked h unknown none n te = elim (Bool-cases (rarely_has_body h.method)) [
      | inl r ↦ cc (r, te, n)
      | inr r ↦
          rw (r, is_empty-nil (get_all is_transfer_encoding h.headers) (ground arith))
            (is_chunked-last (chunked_text ∷ []) chunked_text refl
              (is_chunked_value-text to_str text))
    ]

    -- The transfer-encoding that an HTTP/1.1 request is sent with ends in chunked, as a server reads it, where
    -- its last value was text and text stays text with ", chunked" after it.
    pub set_length-is_chunked :
        (h : MessageHead) (b : BodyLength)
        → is_11 h.version ≡ true
        → ((v : Bytes) → last (get_all is_transfer_encoding h.headers) ≡ some v → to_str v ≡ some v)
        → contains is_transfer_encoding (set_length to_str show h (some b)).0 ≡ true
        → is_chunked to_str (get_all is_transfer_encoding (set_length to_str show h (some b)).0)
          ≡ true
    unfolding set_length
    set_length-is_chunked h b v read te =
        let len = content_length_parse_all_values to_str (get_all is_content_length h.headers) in
        elim (Bool-cases (contains is_transfer_encoding h.headers)) [
          | inl y ↦ rw (v, y) (with-is_chunked h.headers len y read)
          | inr n ↦ rw (v, n) (without-is_chunked h b len n (rw (set_length, v, n) at te))
        ]
