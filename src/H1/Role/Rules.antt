-- ===== src/H1/Role/Rules.antt =====
-- The client's half of src/proto/h1/role.rs against the server's, and its own request heads.
use kaiwaehnero.Base.{
  ℕ, ◌≡◌, refl, Bool, ◌||◌, ◌&&◌, true, false, Option, none, some, List, [], ◌∷◌, Bytes, inl, inr,
  ◌⊎◌, Bool-cases, arith, ◌==◌, leb,
}
use kaiwaehnero.Body.{zero_length}
use kaiwaehnero.Http.{
  Method, Header, HeaderName, transfer_encoding, content_length, MessageHead, BodyLength, known,
  unknown, is_informational, is_transfer_encoding, is_content_length, get_all, remove,
}
use kaiwaehnero.Headers.{content_length_parse_all_values}
use kaiwaehnero.H1.Error.{done}
use kaiwaehnero.H1.Encode.{Encoder}
use kaiwaehnero.H1.Encode
use kaiwaehnero.H1.Role.Server.{can_have_body, can_chunked}
use kaiwaehnero.H1.Role.Client.{
  decoder, by_headers, set_length, set_content_length, without_chunked, with_transfer_encoding,
  without_transfer_encoding, add_chunked, contains, is_11,
}

abbrev pub is_chunked_kind : Encode.Kind → Bool
is_chunked_kind Encode.Kind.chunked = true
is_chunked_kind _ = false

-- No line is left of a name that was removed.
pub get_all-remove : (p : HeaderName → Bool) (hs : List Header) → get_all p (remove p hs) ≡ []
get_all-remove p [] = refl
get_all-remove p (h ∷ hs) = let k = get_all-remove p hs in ground arith

pub other_name : (n : HeaderName) → is_content_length n ≡ true → is_transfer_encoding n ≡ false
other_name content_length h = refl
other_name transfer_encoding h = cc
other_name _ h = cc

-- Taking the content-lengths away leaves the transfer-encodings.
pub get_all-remove_length :
    (hs : List Header)
    → get_all is_transfer_encoding (remove is_content_length hs) ≡ get_all is_transfer_encoding hs
get_all-remove_length [] = refl
get_all-remove_length (h ∷ hs) =
    let k = get_all-remove_length hs in ground (arith, other_name h.name)

contains-add_chunked :
    (hs : List Header)
    → contains is_transfer_encoding (add_chunked hs) ≡ contains is_transfer_encoding hs
contains-add_chunked [] = refl
contains-add_chunked (h ∷ hs) = let k = contains-add_chunked hs in ground arith

-- The two ways to say that a status is 1xx.
informational-cases :
    (s : ℕ) → is_informational s ≡ ((s == 101) || ((s == 100) || (leb 102 s && leb s 199)))
informational-cases s = ground arith

-- A chunked body goes with a transfer-encoding, and no other body does.
abbrev pub Frames : List Header × Encoder → Type 0
Frames x = contains is_transfer_encoding x.0 ≡ is_chunked_kind x.1.kind

module _ (to_str : Bytes → Option Bytes) where
  -- A client reads no body exactly where a server may send none: after HEAD, after a CONNECT that was
  -- granted, and with the statuses 1xx, 204 and 304.
  pub decoder-can_have_body :
      (inc : MessageHead) (m : Option Method)
      → (can_have_body m inc.status ≡ false
          → (decoder to_str inc m ≡ done none × is_informational inc.status ≡ true)
            ⊎ ((up : Bool) × decoder to_str inc m ≡ done (some (zero_length, up))))
        × (can_have_body m inc.status ≡ true → decoder to_str inc m ≡ by_headers to_str inc)
  unfolding decoder can_have_body can_chunked
  decoder-can_have_body inc m = ground (arith, informational-cases inc.status)

  module _ (show : ℕ → Bytes) where
    without_chunked-Frames :
        (hs : List Header) (b : BodyLength) (len : Option ℕ)
        → contains is_transfer_encoding hs ≡ false
        → Frames (without_chunked to_str show hs b len)
    unfolding without_chunked set_content_length Encode.new
    without_chunked-Frames hs b (some len) n = n
    without_chunked-Frames hs (known len) none n = ground (arith, get_all-remove_length hs)
    without_chunked-Frames hs unknown none n = n

    with_transfer_encoding-Frames :
        (hs : List Header) (len : Option ℕ)
        → contains is_transfer_encoding hs ≡ true
        → Frames (with_transfer_encoding to_str show hs len)
    unfolding with_transfer_encoding Encode.new
    with_transfer_encoding-Frames hs len y = ground (
      arith,
      contains-add_chunked hs,
      get_all-remove_length hs,
      get_all-remove_length (add_chunked hs),
    )

    without_transfer_encoding-Frames :
        (h : MessageHead) (b : BodyLength) (len : Option ℕ)
        → contains is_transfer_encoding h.headers ≡ false
        → Frames (without_transfer_encoding to_str show h b len)
    unfolding without_transfer_encoding set_content_length Encode.new
    without_transfer_encoding-Frames h b (some len) n = n
    without_transfer_encoding-Frames h (known len) none n =
        ground (arith, get_all-remove_length h.headers)
    without_transfer_encoding-Frames h unknown none n = ground arith

    -- A request's body is sent in chunks exactly if its head has a transfer-encoding.
    pub set_length-transfer_encoding :
        (h : MessageHead) (b : Option BodyLength) → Frames (set_length to_str show h b)
    unfolding set_length Encode.new
    set_length-transfer_encoding h none = rw (get_all-remove is_transfer_encoding h.headers) refl
    set_length-transfer_encoding h (some b) =
        let len = content_length_parse_all_values to_str (get_all is_content_length h.headers) in
        elim (Bool-cases (is_11 h.version)) [
          | inl eleven ↦ elim (Bool-cases (contains is_transfer_encoding h.headers)) [
            | inl te ↦ rw (eleven, te) (with_transfer_encoding-Frames h.headers len te)
            | inr no_te ↦ rw (eleven, no_te) (without_transfer_encoding-Frames h b len no_te)
          ]
          | inr ten ↦ rw (ten) (
              without_chunked-Frames (remove is_transfer_encoding h.headers) b len
                (rw (get_all-remove is_transfer_encoding h.headers) refl))
        ]

    -- Making `chunked` the last encoding leaves the content-lengths.
    get_all-add_chunked :
        (hs : List Header)
        → get_all is_content_length (add_chunked hs) ≡ get_all is_content_length hs
    get_all-add_chunked [] = refl
    get_all-add_chunked (h ∷ hs) = let k = get_all-add_chunked hs in ground arith

    -- A request with a transfer-encoding keeps content-lengths that cannot be read as one number, and is
    -- sent with both.
    pub set_length-illegal :
        (h : MessageHead) (b : BodyLength)
        → is_11 h.version ≡ true
        → contains is_transfer_encoding h.headers ≡ true
        → content_length_parse_all_values to_str (get_all is_content_length h.headers) ≡ none
        → contains is_transfer_encoding (set_length to_str show h (some b)).0 ≡ true
          × get_all is_content_length (set_length to_str show h (some b)).0
            ≡ get_all is_content_length h.headers
    unfolding set_length with_transfer_encoding
    set_length-illegal h b v te none_read =
        ground (arith, contains-add_chunked h.headers, get_all-add_chunked h.headers)
