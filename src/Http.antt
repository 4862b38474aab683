-- ===== src/Http.antt =====
-- The values of the `http` crate that the code looks into: methods, versions, statuses, and the
-- header map as the list of its lines. A `HeaderMap` keeps the lines of one name together; the
-- functions here read it by name only.
use kaiwaehnero.Base.{
  ℕ, Bool, true, false, Bytes, List, [], ◌∷◌, Option, some, leb, ◌&&◌, if◌then◌else◌,
}

pub data Method : Type 0 where
  get head connect delete : Method
  other_method : Bytes → Method

pub data Version : Type 0 where
  http_09 http_10 http_11 http_2 : Version

pub data HeaderName : Type 0 where
  transfer_encoding content_length connection expect upgrade date : HeaderName
  other_header : Bytes → HeaderName

pub record Header : Type 0 where
  pub name : HeaderName
  pub value : Bytes

pub record MessageHead : Type 0 where
  pub version : Version
  pub status : ℕ
  pub method : Method
  pub headers : List Header

pub data BodyLength : Type 0 where
  known : ℕ → BodyLength
  unknown : BodyLength

abbrev pub is_transfer_encoding : HeaderName → Bool
is_transfer_encoding transfer_encoding = true
is_transfer_encoding _ = false

abbrev pub is_content_length : HeaderName → Bool
is_content_length content_length = true
is_content_length _ = false

abbrev pub is_connection : HeaderName → Bool
is_connection connection = true
is_connection _ = false

abbrev pub is_head : Option Method → Bool
is_head (some head) = true
is_head _ = false

abbrev pub is_connect : Option Method → Bool
is_connect (some connect) = true
is_connect _ = false

-- `StatusCode::is_informational` and `is_success`.
abbrev pub is_informational : ℕ → Bool
is_informational s = leb 100 s && leb s 199

abbrev pub is_success : ℕ → Bool
is_success s = leb 200 s && leb s 299

-- The values of the lines of one name: `HeaderMap::get_all`.
abbrev pub get_all : (HeaderName → Bool) → List Header → List Bytes
get_all p [] = []
get_all p (h ∷ hs) = if p h.name then h.value ∷ get_all p hs else get_all p hs

-- `HeaderMap::remove`.
abbrev pub remove : (HeaderName → Bool) → List Header → List Header
remove p [] = []
remove p (h ∷ hs) = if p h.name then remove p hs else h ∷ remove p hs
